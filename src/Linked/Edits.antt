-- ===== src/Linked/Edits.antt =====
-- The operations of src/list.h on a ring.
use c_db_k8s.Prelude.{ℕ, ◌≡◌, ◌≢◌, refl, sym, ◌∙◌, true, false, List, [], ◌∷◌, ◌++◌, arith, subst}
use c_db_k8s.Linked.{Links, list_inuse, list_chain, list_prepend, list_append, list_remove}
use c_db_k8s.Linked.Ring.{has, Distinct, Pair, Span, Ring, has-append, Span-frame, Span-split}

-- the last of `a` and the elements behind it
abbrev end_of : ℕ → List ℕ → ℕ
end_of a [] = a
end_of a (x ∷ xs) = end_of x xs

abbrev start_of : List ℕ → ℕ → ℕ
start_of [] b = b
start_of (x ∷ xs) b = x

has-end_of : (a : ℕ) (xs : List ℕ) → has (end_of a xs) (a ∷ xs) ≡ true
has-end_of a [] = ground arith
has-end_of a (x ∷ xs) = ground (arith, has-end_of x xs)

has-start_of : (xs : List ℕ) (b : ℕ) → has (start_of xs b) (xs ++ (b ∷ [])) ≡ true
has-start_of [] b = ground arith
has-start_of (x ∷ xs) b = ground arith

prev-end_of : (m : Links) (a : ℕ) (xs : List ℕ) (b : ℕ) → Span m a xs b → m.prev b ≡ end_of a xs
prev-end_of m a [] b s = s.1
prev-end_of m a (x ∷ xs) b s = prev-end_of m x xs b s.1

next-start_of : (m : Links) (a : ℕ) (xs : List ℕ) (b : ℕ) → Span m a xs b → m.next a ≡ start_of xs b
next-start_of m a [] b s = s.0
next-start_of m a (x ∷ xs) b s = s.0.0

-- `node` stands between `p` and `q` now, and no other link has changed
record Chained (m m' : Links) (p node q : ℕ) : Type 0 where
  left : Pair m' p node
  right : Pair m' node q
  nexts : (c : ℕ) → c ≢ p → c ≢ node → m'.next c ≡ m.next c
  prevs : (c : ℕ) → c ≢ q → c ≢ node → m'.prev c ≡ m.prev c

list_chain-Chained :
    (m : Links) (p node q : ℕ) → node ≢ p → node ≢ q → Chained m (list_chain m p node q) p node q
unfolding list_chain
list_chain-Chained m p node q np nq = record {
  left = (ground arith, ground arith);
  right = (ground arith, ground arith);
  nexts = λ c h k. ground arith;
  prevs = λ c h k. ground arith;
}

front :
    (m m' : Links) (a : ℕ) (xs : List ℕ) (b node : ℕ)
    → Chained m m' a node (start_of xs b)
    → Span m a xs b
    → Distinct (a ∷ xs)
    → has b xs ≡ false
    → has node (a ∷ xs) ≡ false
    → node ≢ b
    → Span m' a (node ∷ xs) b
front m m' a [] b node c s d off out ne = (c.left, c.right)
front m m' a (x ∷ xs) b node c s d off out ne = (
  c.left,
  (
    c.right,
    Span-frame m m' x xs b s.1 (λ e h. c.nexts e (λ i. ground (arith, i)) (λ i. ground (arith, i)))
        (λ e h.
          c.prevs e (λ i. ground (arith, i, has-append e xs (b ∷ []), d.1.0))
            (λ i. ground (arith, i, has-append e xs (b ∷ [])))),
  ),
)

back :
    (m m' : Links) (a : ℕ) (xs : List ℕ) (b node : ℕ)
    → Chained m m' (end_of a xs) node b
    → Span m a xs b
    → Distinct (a ∷ xs)
    → has b xs ≡ false
    → has node (a ∷ xs) ≡ false
    → Span m' a (xs ++ (node ∷ [])) b
back m m' a [] b node c s d off out = (c.left, c.right)
back m m' a (x ∷ xs) b node c s d off out = (
  (
    c.nexts a (λ i. ground (arith, i, has-end_of x xs, d.0)) (λ i. ground (arith, i)) ∙ s.0.0,
    c.prevs x (λ i. ground (arith, i)) (λ i. ground (arith, i)) ∙ s.0.1,
  ),
  back m m' x xs b node c s.1 d.1 (ground arith) (ground arith),
)

Distinct-snoc :
    (xs : List ℕ) (node : ℕ) → Distinct xs → has node xs ≡ false → Distinct (xs ++ (node ∷ []))
Distinct-snoc [] node d out = (refl, tt)
Distinct-snoc (x ∷ xs) node d out =
    (ground (arith, has-append x xs (node ∷ []), d.0), Distinct-snoc xs node d.1 (ground arith))

module _ (m : Links) (head : ℕ) (xs : List ℕ) (node : ℕ) where
  -- `list_prepend` puts an element that is not on the ring at the front of it.
  pub list_prepend-Ring :
      Ring m head xs
      → has node (head ∷ xs) ≡ false
      → Ring (list_prepend m head node) head (node ∷ xs)
  unfolding list_prepend
  list_prepend-Ring (s, d) out =
      let q = next-start_of m head xs head s in
      let start_ne : node ≢ start_of xs head = start_other xs out in
      let c = list_chain-Chained m head node (start_of xs head) (λ i. ground (arith, i)) start_ne in
      (
        subst (λ n. Span (list_chain m head node n) head (node ∷ xs) head) (sym q)
            (front m _ head xs head node c s d d.0 out (λ i. ground (arith, i))),
        (ground (arith, d.0), (ground arith, d.1)),
      )
    where
      start_other : (xs : List ℕ) → has node (head ∷ xs) ≡ false → node ≢ start_of xs head
      start_other [] h i = absurd (ground (arith, i))
      start_other (x ∷ xs) h i = absurd (ground (arith, i))

  -- `list_append` puts an element that is not on the ring at the end of it.
  pub list_append-Ring :
      Ring m head xs
      → has node (head ∷ xs) ≡ false
      → Ring (list_append m head node) head (xs ++ (node ∷ []))
  unfolding list_append
  list_append-Ring (s, d) out =
      let p = prev-end_of m head xs head s in
      let c =
        list_chain-Chained m (end_of head xs) node head
          (λ i. ground (arith, i, has-end_of head xs, out)) (λ i. ground (arith, i)) in
      (rw p (back m _ head xs head node c s d d.0 out), Distinct-snoc (head ∷ xs) node d out)

-- `p` and `q` are neighbours now, and no other link but those of `x` has changed
record Unlinked (m m' : Links) (p x q : ℕ) : Type 0 where
  pair : Pair m' p q
  nexts : (c : ℕ) → c ≢ p → c ≢ x → m'.next c ≡ m.next c
  prevs : (c : ℕ) → c ≢ q → c ≢ x → m'.prev c ≡ m.prev c

list_remove-Unlinked :
    (m : Links) (p x q : ℕ)
    → m.prev x ≡ p
    → m.next x ≡ q
    → x ≢ p
    → x ≢ q
    → Unlinked m (list_remove m x) p x q
unfolding list_remove
list_remove-Unlinked m p x q ep eq np nq = record {
  pair = (ground arith, ground arith);
  nexts = λ c h k. ground arith;
  prevs = λ c h k. ground arith;
}

cut :
    (m m' : Links) (a : ℕ) (ys : List ℕ) (x : ℕ) (zs : List ℕ) (b : ℕ)
    → Unlinked m m' (end_of a ys) x (start_of zs b)
    → Span m a (ys ++ (x ∷ zs)) b
    → Distinct (a ∷ (ys ++ (x ∷ zs)))
    → has b (ys ++ (x ∷ zs)) ≡ false
    → Span m' a (ys ++ zs) b
cut m m' a [] x [] b u s d off = u.pair
cut m m' a [] x (z ∷ zs) b u s d off = (
  u.pair,
  Span-frame m m' z zs b s.1.1
      (λ e h. u.nexts e (λ i. ground (arith, i, d.0)) (λ i. ground (arith, i, d.1.0)))
      (λ e h.
        u.prevs e (λ i. ground (arith, i, has-append e zs (b ∷ []), d.1.1.0))
          (λ i. ground (arith, i, has-append e zs (b ∷ []), d.1.0))),
)
cut m m' a (y ∷ ys) x zs b u s d off =
    let inner = has-append y ys (x ∷ zs) in
    let outer = has-append a ys (x ∷ zs) in
    (
      (
        u.nexts a (λ i. ground (arith, i, has-end_of y ys, d.0, outer))
              (λ i. ground (arith, i, d.0, outer))
            ∙ s.0.0,
        u.prevs y
              (λ i. ground (arith, i, has-start_of zs b, has-append y zs (b ∷ []), d.1.0, inner))
              (λ i. ground (arith, i, d.1.0, inner))
            ∙ s.0.1,
      ),
      cut m m' y ys x zs b u s.1 d.1 (ground arith),
    )

Distinct-cut :
    (ys : List ℕ) (x : ℕ) (zs : List ℕ)
    → Distinct (ys ++ (x ∷ zs))
    → Distinct (ys ++ zs) × (has x (ys ++ zs) ≡ false)
Distinct-cut [] x zs d = (d.1, d.0)
Distinct-cut (y ∷ ys) x zs d =
    let r = Distinct-cut ys x zs d.1 in
    (
      (ground (arith, d.0, has-append y ys (x ∷ zs), has-append y ys zs), r.0),
      ground (arith, d.0, has-append y ys (x ∷ zs), r.1),
    )

list_remove-unused : (m : Links) (x : ℕ) → list_inuse (list_remove m x) x ≡ false
unfolding list_remove
list_remove-unused m x = ground arith

-- `list_remove` of an element of a ring takes it off, wherever it stands, keeps the others in
-- their order, and the element is no longer in use.
pub list_remove-Ring :
    (m : Links) (head : ℕ) (ys : List ℕ) (x : ℕ) (zs : List ℕ)
    → Ring m head (ys ++ (x ∷ zs))
    → Ring (list_remove m x) head (ys ++ zs) × (list_inuse (list_remove m x) x ≡ false)
list_remove-Ring m head ys x zs (s, d) =
    let (before, after) = Span-split m head ys x zs head s in
    let (rest, off) = Distinct-cut (head ∷ ys) x zs d in
    let seam = has-append x ys zs in
    let u =
      list_remove-Unlinked m (end_of head ys) x (start_of zs head) (prev-end_of m head ys x before)
        (next-start_of m x zs head after) (λ i. ground (arith, i, has-end_of head ys, off, seam))
        (λ i. ground (arith, i, has-start_of zs head, has-append x zs (head ∷ []), off, seam)) in
    ((cut m _ head ys x zs head u s d d.0, rest), list_remove-unused m x)
