-- ===== src/Db/Change.antt =====
-- A change of one bucket: how the chain of the key's bucket splits, and what makes a store of it.
use c_db_k8s.Prelude.{
  ℕ, ◌≡◌, ◌≢◌, sym, ap, ◌∙◌, inl, inr, true, false, Option, none, List, [], ◌∷◌, ◌++◌, Bytes, ◌==◌,
  arith, Bool-cases, subst,
}
use c_db_k8s.Db.{Rec, Db, update}
use c_db_k8s.Db.Chain.{Cell, has, All, Chain, cons, frame, has-append, same_key, same_key_iff}
use c_db_k8s.Db.Walk.{Misses}
use c_db_k8s.Db.Store.{Layout, Home, Unique, IsStore, buckets_apart, unused-not-mem}

-- the first cell under the key `k`, or none
pub data Find (k : Bytes) : List Cell → Type 0 where
  absent : {xs : List Cell} → All (Misses k) xs → Find k xs
  found :
      (ys : List Cell) (c : Cell) (zs : List Cell)
      → All (Misses k) ys
      → same_key k c.key ≡ true
      → Find k (ys ++ (c ∷ zs))

Find-cons : (k : Bytes) (c : Cell) {xs : List Cell} → Misses k c → Find k xs → Find k (c ∷ xs)
Find-cons k c miss (absent out) = absent (miss, out)
Find-cons k c miss (found ys d zs out hit) = found (c ∷ ys) d zs (miss, out) hit

pub Find-first : (k : Bytes) (xs : List Cell) → Find k xs
Find-first k [] = absent tt
Find-first k (c ∷ xs) = elim (Bool-cases (same_key k c.key)) [
  | inl hit ↦ found [] c xs tt hit
  | inr miss ↦ Find-cons k c miss (Find-first k xs)
]

-- cells that keep a property when one is taken out of the middle
pub All-middle :
    (P : Cell → Type 0) (ys : List Cell) (c : Cell) (zs : List Cell)
    → All P (ys ++ (c ∷ zs))
    → All P ys × P c × All P zs × All P (ys ++ zs)
All-middle P [] c zs h = (tt, h.0, h.1, h.1)
All-middle P (d ∷ ys) c zs h =
    let r = All-middle P ys c zs h.1 in ((h.0, r.0), r.1, r.2, (h.0, r.3))

pub All-insert :
    (P : Cell → Type 0) (ys : List Cell) (c : Cell) (zs : List Cell)
    → All P (ys ++ zs)
    → P c
    → All P (ys ++ (c ∷ zs))
All-insert P [] c zs h p = (p, h)
All-insert P (d ∷ ys) c zs h p = (h.0, All-insert P ys c zs h.1 p)

same_key_symm : (k j : Bytes) → same_key k j ≡ false → same_key j k ≡ false
same_key_symm k j h = elim (Bool-cases (same_key j k)) [
  | inr e ↦ e
  | inl e ↦ absurd (ground (arith, (same_key_iff k j).1 (sym ((same_key_iff j k).0 e))))
]

-- taking the cell out, and putting another one under the same key in its place
pub Unique-remove :
    (ys : List Cell) (c : Cell) (zs : List Cell) → Unique (ys ++ (c ∷ zs)) → Unique (ys ++ zs)
Unique-remove [] c zs u = u.1
Unique-remove (d ∷ ys) c zs u =
    ((All-middle (Misses d.key) ys c zs u.0).3, Unique-remove ys c zs u.1)

pub Unique-replace :
    (ys : List Cell) (c d : Cell) (zs : List Cell)
    → d.key ≡ c.key
    → Unique (ys ++ (c ∷ zs))
    → Unique (ys ++ (d ∷ zs))
Unique-replace [] c d zs e u = (rw e u.0, u.1)
Unique-replace (b ∷ ys) c d zs e u =
    let m = All-middle (Misses b.key) ys c zs u.0 in
    (
      All-insert (Misses b.key) ys d zs m.3 (ap (same_key b.key) e ∙ m.1),
      Unique-replace ys c d zs e u.1,
    )

-- no other cell has the key of a found one
pub Unique-Misses :
    (k : Bytes) (ys : List Cell) (c : Cell) (zs : List Cell)
    → Unique (ys ++ (c ∷ zs))
    → k ≡ c.key
    → All (Misses k) zs
Unique-Misses k [] c zs u e = rw e u.0
Unique-Misses k (d ∷ ys) c zs u e = Unique-Misses k ys c zs u.1 e

-- A link that leaves a chain leaves no trace in the rest of it.
pub Chain-middle :
    {recs : ℕ → Option Rec} {p : ℕ} (ys : List Cell) (c : Cell) (zs : List Cell)
    → Chain recs p (ys ++ (c ∷ zs))
    → All (λ d. has d.at zs ≡ false) ys × (has c.at (ys ++ zs) ≡ false)
Chain-middle [] c zs (cons ne at here out ch) = (tt, ground arith)
Chain-middle (d ∷ ys) c zs (cons {p} ne at here out ch) =
    let r = Chain-middle ys c zs ch in
    (
      (ground (arith, has-append p ys (c ∷ zs)), r.0),
      ground (arith, has-append p ys (c ∷ zs), has-append p ys zs, r.1),
    )

-- The bucket `i` now holds the cells `xs`, and memory that belongs to other buckets is unchanged.
pub record Changes (db : Db) (layout : Layout) (i : ℕ) (xs : List Cell) (db' : Db) : Type 0 where
  pub chain : Chain db'.recs (db'.buckets i) xs
  pub others : (j : ℕ) → j ≢ i → db'.buckets j ≡ db.buckets j
  pub same : (a : ℕ) → has a (layout i) ≡ false → db.recs a ≢ none → db'.recs a ≡ db.recs a

Chain-some :
    {recs : ℕ → Option Rec} {p : ℕ} {xs : List Cell} (a : ℕ)
    → Chain recs p xs
    → has a xs ≡ true
    → recs a ≢ none
Chain-some a ch there e = absurd (ground (arith, unused-not-mem a ch e))

pub Changes-IsStore :
    {db db' : Db} {layout : Layout} {i : ℕ} {xs : List Cell}
    → IsStore db layout
    → Changes db layout i xs db'
    → All (Home i) xs
    → Unique xs
    → IsStore db' (update layout i xs)
Changes-IsStore {db} {db'} {layout} {i} {xs} s ch homes unique = record {
  chains = λ j. elim (Bool-cases (j == i)) [
    | inl e ↦ rw e (subst (λ n. Chain db'.recs (db'.buckets n) xs) (ground arith) ch.chain)
    | inr e ↦ rw e (
        rw (ch.others j (ground arith)) (
          frame (s.chains j) λ a there.
            ch.same a
              (buckets_apart a i j (s.chains i) (s.homes i) (s.chains j) (s.homes j) (ground arith)
                there)
              (Chain-some a (s.chains j) there)))
  ];
  homes = λ j. elim (Bool-cases (j == i)) [
    | inl e ↦ rw e (subst (λ n. All (Home n) xs) (ground arith) homes)
    | inr e ↦ rw e (s.homes j)
  ];
  unique = λ j. elim (Bool-cases (j == i)) [ inl e ↦ rw e unique | inr e ↦ rw e (s.unique j) ];
}
