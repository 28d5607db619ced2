-- ===== src/Db/Create.antt =====
-- `create_rec` of src/db.c: the new record, its link, and what a map binds that has it.
use c_db_k8s.Prelude.{
  ℕ, ◌≡◌, ◌≢◌, refl, sym, ap, ◌∙◌, inl, inr, Bool, true, false, Option, none, some, List, [], ◌∷◌,
  ◌++◌, Bytes, if◌then◌else◌, arith, ok, Bool-cases,
}
use c_db_k8s.Db.{Rec, Db, next_of, update, set_link, create_rec, new_rec}
use c_db_k8s.Db.Chain.{Cell, has, All, rec_of, Chain, frame, lookup, same_key, same_key_iff}
use c_db_k8s.Db.Walk.{Misses, deref-some}
use c_db_k8s.Db.Store.{Layout, IsStore, view, unused-not-mem}
use c_db_k8s.Db.Delete.{lookup-found, lookup-middle}

-- The memory that the next record will take is in no use: `malloc` returns 0 or such an address,
-- and the file's next offset is one.
abbrev pub Unused : ℕ → Db → Type 0
Unused fresh db =
    (db.file ≡ false → fresh ≢ 0 → db.recs fresh ≡ none)
    × (db.file ≡ true → (db.hdr.next_offset ≢ 0) × (db.recs db.hdr.next_offset ≡ none))

-- what `create_rec` has done where it returns a record
pub record Created (db : Db) (k v : Bytes) (new : ℕ) (db' : Db) : Type 0 where
  pub live : new ≢ 0
  pub unused : db.recs new ≡ none
  pub recs : db'.recs ≡ update db.recs new (some (new_rec k v))
  pub buckets : db'.buckets ≡ db.buckets
  pub file : db'.file ≡ db.file

pub create_rec-Created :
    (fresh : ℕ) (db : Db) (k v : Bytes) {new : ℕ} {db' : Db}
    → Unused fresh db
    → create_rec fresh db k v ≡ some (new, db')
    → Created db k v new db'
unfolding create_rec
create_rec-Created fresh db k v u e = ground arith

-- `create_rec` has returned no record
abbrev pub no_record : Option (ℕ × Db) → Bool
no_record none = true
no_record (some made) = false

abbrev pub cell : ℕ → Bytes → Bytes → Cell
cell new k v = record { at = new; key = k; val = v }

-- the new record with its link set; nothing points to it yet
pub record Linked (db : Db) (k v : Bytes) (new next : ℕ) (db2 : Db) : Type 0 where
  pub here : db2.recs new ≡ some (rec_of (cell new k v) next 0)
  pub same : (a : ℕ) → a ≢ new → db2.recs a ≡ db.recs a
  pub buckets : db2.buckets ≡ db.buckets

pub link_new :
    {db db1 : Db} {k v : Bytes} {new : ℕ} (next : ℕ)
    → Created db k v new db1
    → (db2 : Db) × (set_link db1 (next_of new) next ≡ ok db2) × Linked db k v new next db2
unfolding set_link
link_new {db} {db1} {k} {v} {new} next c =
    let there : db1.recs new ≡ some (new_rec k v) =
      ground (arith, ap (λ (f : ℕ → Option Rec). f new) c.recs) in
    (
      record db1 { recs = update db1.recs new (some (rec_of (cell new k v) next 0)) },
      rw (deref-some db1 new there),
      record {
        here = ground arith;
        same = λ a ne. ground (arith, ap (λ (f : ℕ → Option Rec). f a) c.recs);
        buckets = c.buckets;
      },
    )

-- chains of the old store are chains still
pub old-Chain :
    {db db2 : Db} {k v : Bytes} {new next p : ℕ} {xs : List Cell}
    → db.recs new ≡ none
    → Linked db k v new next db2
    → Chain db.recs p xs
    → Chain db2.recs p xs
old-Chain {new} unused l ch =
    let off = unused-not-mem new ch unused in frame ch λ a there. l.same a (λ e. cc)

pub Apart-cons :
    (ys : List Cell) (n : Cell) (zs : List Cell)
    → All (λ d. has d.at zs ≡ false) ys
    → has n.at ys ≡ false
    → All (λ d. has d.at (n ∷ zs) ≡ false) ys
Apart-cons [] n zs h out = tt
Apart-cons (d ∷ ys) n zs h out = (ground (arith, h.0), Apart-cons ys n zs h.1 (ground arith))

-- The map binds the key to the value, and is otherwise what it was.
pub record Binds (layout : Layout) (k v : Bytes) (db' : Db) : Type 0 where
  pub after : Layout
  pub store : IsStore db' after
  pub reads : (q : Bytes) → view after q ≡ (if same_key q k then some v else view layout q)

pub insert-lookup :
    (k v : Bytes) (new : ℕ) (xs : List Cell) (q : Bytes)
    → lookup q (cell new k v ∷ xs) ≡ (if same_key q k then some v else lookup q xs)
unfolding lookup
insert-lookup k v new xs q = refl

pub replace-lookup :
    (k v : Bytes) (new : ℕ) (ys : List Cell) (c : Cell) (zs : List Cell)
    → All (Misses k) ys
    → k ≡ c.key
    → (q : Bytes)
    → lookup q (ys ++ (cell new k v ∷ zs))
      ≡ (if same_key q k then some v else lookup q (ys ++ (c ∷ zs)))
replace-lookup k v new ys c zs out hit q = elim (Bool-cases (same_key q k)) [
  | inl e ↦ rw e (
      ap (λ j. lookup j (ys ++ (cell new k v ∷ zs))) ((same_key_iff q k).0 e)
      ∙ lookup-found k ys (cell new k v) zs out ((same_key_iff k k).1 refl))
  | inr e ↦ rw e (
      lookup-middle q ys (cell new k v) zs e
      ∙ sym (lookup-middle q ys c zs (ap (same_key q) (sym hit) ∙ e)))
]
