-- ===== src/Linked/Ring.antt =====
-- The ring that src/list.h keeps: from a head through the elements, in both directions, to the head.
use c_db_k8s.Prelude.{ℕ, ◌≡◌, refl, ◌∙◌, Bool, true, false, ◌||◌, List, [], ◌∷◌, ◌++◌, ◌==◌, arith}
use c_db_k8s.Linked.{Links}

abbrev pub has : ℕ → List ℕ → Bool
has a [] = false
has a (x ∷ xs) = a == x || has a xs

abbrev pub Distinct : List ℕ → Type 0
Distinct [] = Unit
Distinct (x ∷ xs) = (has x xs ≡ false) × Distinct xs

-- `a` and `b` are neighbours
abbrev pub Pair : Links → ℕ → ℕ → Type 0
Pair m a b = (m.next a ≡ b) × (m.prev b ≡ a)

-- from `a` through `xs` to `b`
abbrev pub Span : Links → ℕ → List ℕ → ℕ → Type 0
Span m a [] b = Pair m a b
Span m a (x ∷ xs) b = Pair m a x × Span m x xs b

-- the elements of the list with this head
abbrev pub Ring : Links → ℕ → List ℕ → Type 0
Ring m head xs = Span m head xs head × Distinct (head ∷ xs)

pub has-append : (a : ℕ) (xs ys : List ℕ) → has a (xs ++ ys) ≡ (has a xs || has a ys)
has-append a [] ys = refl
has-append a (x ∷ xs) ys = ground (arith, has-append a xs ys)

-- A path lives on where its `next` fields, and the `prev` fields behind its first element, do.
pub Span-frame :
    (m m' : Links) (a : ℕ) (xs : List ℕ) (b : ℕ)
    → Span m a xs b
    → ((c : ℕ) → has c (a ∷ xs) ≡ true → m'.next c ≡ m.next c)
    → ((c : ℕ) → has c (xs ++ (b ∷ [])) ≡ true → m'.prev c ≡ m.prev c)
    → Span m' a xs b
Span-frame m m' a [] b p n q = (n a (ground arith) ∙ p.0, q b (ground arith) ∙ p.1)
Span-frame m m' a (x ∷ xs) b p n q = (
  (n a (ground arith) ∙ p.0.0, q x (ground arith) ∙ p.0.1),
  Span-frame m m' x xs b p.1 (λ c h. n c (ground arith)) (λ c h. q c (ground arith)),
)

-- paths join at an element
pub Span-join :
    (m : Links) (a : ℕ) (xs : List ℕ) (c : ℕ) (ys : List ℕ) (b : ℕ)
    → Span m a xs c
    → Span m c ys b
    → Span m a (xs ++ (c ∷ ys)) b
Span-join m a [] c ys b p q = (p, q)
Span-join m a (x ∷ xs) c ys b p q = (p.0, Span-join m x xs c ys b p.1 q)

pub Span-split :
    (m : Links) (a : ℕ) (xs : List ℕ) (c : ℕ) (ys : List ℕ) (b : ℕ)
    → Span m a (xs ++ (c ∷ ys)) b
    → Span m a xs c × Span m c ys b
Span-split m a [] c ys b p = (p.0, p.1)
Span-split m a (x ∷ xs) c ys b p = let r = Span-split m x xs c ys b p.1 in ((p.0, r.0), r.1)
