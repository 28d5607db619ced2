-- ===== src/Db.antt =====
-- src/db.c: the key/value store. Its records stand at links, which are addresses of `malloc` or
-- offsets in the mapped file, 0 being the end of a chain. The static variables are the fields of
-- `Db`; `db_buckets` is a function of the index, which `calc_hash` keeps below `num_buckets`.
pub mod Loops
pub mod Chain
pub mod Walk
pub mod Relink
pub mod Store
pub mod Change
pub mod Delete
pub mod Create
pub mod Put
pub mod Prefix
pub mod File
pub mod Free
use c_db_k8s.Prelude.{
  ℕ, zero, suc, ◌+◌, ◌*◌, ◌%◌, ◌^◌, bit_xor, bit_or, Bool, true, false, Option, none, some, [], ◌∷◌,
  ◌++◌, Bytes, ltb, ◌==◌, if◌then◌else◌, length, Run, ok, fault, stuck, ◌>>=◌,
}

abbrev pub num_buckets : ℕ
num_buckets = 15013

-- `dbj2a_hash`: `(hash << 5) + hash` is `hash * 33`
unfoldable pub dbj2a_loop : ℕ → Bytes → ℕ
dbj2a_loop hash [] = hash
dbj2a_loop hash (c ∷ key) = dbj2a_loop (bit_xor (hash * 33 % 2 ^ 64) c) key

unfoldable pub dbj2a_hash : Bytes → ℕ
unfolding dbj2a_loop
dbj2a_hash key = dbj2a_loop 5381 key

unfoldable pub calc_hash : Bytes → ℕ
calc_hash key = dbj2a_hash key % num_buckets

-- `struct db_rec`; `data` holds the key and behind it the value
pub record Rec : Type 0 where
  pub next : ℕ
  pub flags : ℕ
  pub key_len : ℕ
  pub val_len : ℕ
  pub data_bytes : Bytes

-- `struct db_hdr`
pub record Hdr : Type 0 where
  pub magic : ℕ
  pub version : ℕ
  pub num_rec : ℕ
  pub num_del : ℕ
  pub next_offset : ℕ

pub record Db : Type 0 where
  pub file : Bool
  pub size : ℕ
  pub hdr : Hdr
  pub buckets : ℕ → ℕ
  pub recs : ℕ → Option Rec
  pub init_done : Bool

abbrev pub update {ℓ} : {A : Type ℓ} → (ℕ → A) → ℕ → A → ℕ → A
update f i v j = if j == i then v else f j

-- `sizeof(struct db_rec)`
abbrev pub rec_header : ℕ
rec_header = 32

abbrev pub new_rec : Bytes → Bytes → Rec
new_rec key val = record {
  next = 0;
  flags = 0;
  key_len = length key;
  val_len = length val;
  data_bytes = key ++ val;
}

-- The link of the new record. In memory it is what `malloc` returns, `fresh`, which is 0 on failure.
unfoldable pub create_rec : (fresh : ℕ) → Db → Bytes → Bytes → Option (ℕ × Db)
create_rec fresh db key val =
    let rec_size = (rec_header + length key + length val) % 2 ^ 64 in
    let at = db.hdr.next_offset in
    let hdr' = record (db.hdr) {
      num_rec = (db.hdr.num_rec + 1) % 2 ^ 64;
      next_offset = (at + rec_size) % 2 ^ 64;
    } in
    if db.file
    then (if ltb db.size ((at + rec_size) % 2 ^ 64)
        then none
        else some (at, record db { hdr = hdr'; recs = update db.recs at (some (new_rec key val)) }))
    else if fresh == 0
    then none
    else some (fresh, record db { recs = update db.recs fresh (some (new_rec key val)) })

unfoldable pub deref : Db → ℕ → Run Rec
deref db link = elim (db.recs link) [ none ↦ fault | some r ↦ ok r ]

-- what `del_rec` leaves at the link: a flagged record in the file, nothing in memory
unfoldable pub del_rec : Db → ℕ → Rec → Db
del_rec db link r =
    if db.file
    then record db {
      recs = update db.recs link (some (record r { flags = bit_or r.flags 1 }));
      hdr = record (db.hdr) { num_del = (db.hdr.num_del + 1) % 2 ^ 64 };
    }
    else record db { recs = update db.recs link none }

-- where a `uint64_t *pp` points
pub data Loc : Type 0 where
  bucket : ℕ → Loc
  next_of : ℕ → Loc

-- `*pp`
unfoldable pub get_link : Db → Loc → Run ℕ
unfolding deref
get_link db (bucket i) = ok (db.buckets i)
get_link db (next_of link) = do r ← deref db link; ok r.next

-- `*pp = v`
unfoldable pub set_link : Db → Loc → ℕ → Run Db
unfolding deref
set_link db (bucket i) v = ok (record db { buckets = update db.buckets i v })
set_link db (next_of link) v = do
  r ← deref db link
  ok (record db { recs = update db.recs link (some (record r { next = v })) })
