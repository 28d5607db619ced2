-- ===== src/Db/Store.antt =====
-- The store as a map from keys to values: the invariant, and `db_get`.
use c_db_k8s.Prelude.{
  ℕ, ◌<◌, ◌≡◌, ◌≢◌, refl, ap, ◌∙◌, inl, inr, true, false, Option, none, some, List, [], ◌∷◌, Bytes,
  ◌==◌, arith, ok, Bool-cases, take, drop, take-append,
}
use c_db_k8s.Str.Slice.{Slice, null, str, bytes}
use c_db_k8s.Db.{Rec, Db, calc_hash}
use c_db_k8s.Db.Loops.{hash_search, hash_find, db_get}
use c_db_k8s.Db.Chain.{Cell, has, All, rec_of, Chain, nil, cons, lookup, Clear}
use c_db_k8s.Db.Walk.{cells, value_of, slice_of, Misses, search_loop-lookup}

-- the cells of each bucket
abbrev pub Layout : Type 0
Layout = ℕ → List Cell

abbrev pub Home : ℕ → Cell → Type 0
Home i c = calc_hash c.key ≡ i

-- no two cells have the same key
abbrev pub Unique : List Cell → Type 0
Unique [] = Unit
Unique (c ∷ xs) = All (Misses c.key) xs × Unique xs

pub record IsStore (db : Db) (layout : Layout) : Type 0 where
  pub chains : (i : ℕ) → Chain db.recs (db.buckets i) (layout i)
  pub homes : (i : ℕ) → All (Home i) (layout i)
  pub unique : (i : ℕ) → Unique (layout i)

-- the abstract map
abbrev pub view : Layout → Bytes → Option Bytes
view layout k = lookup k (layout (calc_hash k))

key_in : Rec → Bytes
key_in r = take r.key_len r.data_bytes

record Owned (recs : ℕ → Option Rec) (a i : ℕ) : Type 0 where
  owner : Rec
  holds : recs a ≡ some owner
  home : calc_hash (key_in owner) ≡ i

-- a link of a chain leads to a record whose key belongs to the bucket
owned :
    {recs : ℕ → Option Rec} {p : ℕ} {xs : List Cell} (a i : ℕ)
    → Chain recs p xs
    → All (Home i) xs
    → has a xs ≡ true
    → Owned recs a i
unfolding key_in
owned a i (nil e) homes there = absurd (cc)
owned a i (cons {p} {next} {flags} {c} ne at here out ch) homes there =
    elim (Bool-cases (a == c.at)) [
      | inl e ↦ record {
        owner = rec_of c next flags;
        holds = ground arith;
        home = ap calc_hash (take-append c.key c.val) ∙ homes.0;
      }
      | inr e ↦ owned a i ch homes.1 (ground arith)
    ]

-- chains of different buckets share no link
pub buckets_apart :
    {recs : ℕ → Option Rec} {p q : ℕ} {xs ws : List Cell} (a i j : ℕ)
    → Chain recs p xs
    → All (Home i) xs
    → Chain recs q ws
    → All (Home j) ws
    → j ≢ i
    → has a ws ≡ true
    → has a xs ≡ false
buckets_apart {xs} a i j ch homes other others ne there = elim (Bool-cases (has a xs)) [
  | inr out ↦ out
  | inl both ↦
      let s = owned a i ch homes both in
      let t = owned a j other others there in
      absurd (ne (ground (arith, s.holds, t.holds, s.home, t.home)))
]

-- memory that holds no record is on no chain
pub unused-not-mem :
    {recs : ℕ → Option Rec} {p : ℕ} {xs : List Cell} (a : ℕ)
    → Chain recs p xs
    → recs a ≡ none
    → has a xs ≡ false
unused-not-mem a (nil e) unused = refl
unused-not-mem a (cons ne at here out ch) unused = ground (arith, unused-not-mem a ch unused)

db_get_result :
    (o : Option Rec)
    → (elim o [ none ↦ ok null | some r ↦ ok (str (take r.val_len (drop r.key_len r.data_bytes))) ])
      ≡ ok (value_of o)
db_get_result none = refl
db_get_result (some r) = refl

-- On a valid store, where the code's comparison tells apart the records of the key's bucket and
-- the walk has a round more than there are, `db_get` ends and returns what the map holds under the
-- key, or the null slice where it holds nothing.
pub db_get-view :
    (beyond : ℕ → ℕ → ℕ) (rounds : ℕ) (db : Db) (layout : Layout) (key : Slice)
    → IsStore db layout
    → All (Clear beyond (bytes key)) (layout (calc_hash (bytes key)))
    → cells (layout (calc_hash (bytes key))) < rounds
    → db_get beyond rounds db key ≡ ok (slice_of (view layout (bytes key)))
unfolding db_get hash_find hash_search
db_get-view beyond rounds db layout key s clear h =
    let k = bytes key in
    let (o, run, read) = search_loop-lookup beyond db k rounds (s.chains (calc_hash k)) clear h in
    rw run (db_get_result o ∙ ap ok read)
