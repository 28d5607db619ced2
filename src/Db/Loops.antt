-- ===== src/Db/Loops.antt =====
-- The chain walks of src/db.c and the calls above them. `beyond link i` is byte `i` of the memory
-- behind the record at `link`: the comparison of a key reads `key.len` bytes whatever the record's
-- length. A walk is given `rounds` rounds; a chain of fewer records does not use them up.
use c_db_k8s.Prelude.{
  ℕ, zero, suc, Bool, true, false, Option, none, some, [], ◌∷◌, Bytes, ◌==◌, if◌then◌else◌, length,
  take, drop, is_eq, Run, ok, stuck, ◌>>=◌,
}
use c_db_k8s.Str.Slice.{Slice, null, str, bytes, slice_cmpmem}
use c_db_k8s.Db.{
  Rec, Db, Loc, bucket, next_of, calc_hash, create_rec, deref, del_rec, get_link, set_link,
}

-- `n` bytes of memory from the start of `mem`, behind which stand the bytes `after`
unfoldable pub read_mem : ℕ → Bytes → (ℕ → ℕ) → Bytes
read_mem zero mem after = []
read_mem (suc n) [] after = after 0 ∷ read_mem n [] (λ i. after (suc i))
read_mem (suc n) (c ∷ mem) after = c ∷ read_mem n mem after

module _ (beyond : ℕ → ℕ → ℕ) where
  -- `!slice_cmpmem(key, rec->data, key.len)`
  unfoldable pub key_matches : Bytes → ℕ → Rec → Bool
  key_matches key link r =
      is_eq (slice_cmpmem (str key) (read_mem (length key) r.data_bytes (beyond link)))

  -- the code on a match in `hash_del`
  unfoldable pub unchain : Db → Loc → ℕ → Rec → Run (Bool × Db)
  unchain db pp link r = do db' ← set_link db pp r.next; ok (true, del_rec db' link r)

  -- The loop of `hash_del` and of `hash_put`: `hit` is the code on a match and `miss` the code
  -- behind the loop.
  unfoldable pub walk :
      ℕ → Db → Bytes → Loc → Run (Bool × Db) → (Loc → ℕ → Rec → Run (Bool × Db)) → Run (Bool × Db)
  walk zero db key pp miss hit = stuck
  walk (suc rounds) db key pp miss hit = do
    link ← get_link db pp
    let rest = walk rounds db key (next_of link) miss hit
    if link == 0
        then miss
        else do r ← deref db link; if key_matches key link r then hit pp link r else rest

  -- the first component tells whether the key was found
  unfoldable pub hash_del : ℕ → Db → Bytes → Run (Bool × Db)
  hash_del rounds db key = walk rounds db key (bucket (calc_hash key)) (ok (false, db)) (unchain db)

  unfoldable pub search_loop : ℕ → Db → Bytes → ℕ → Run (Option Rec)
  search_loop zero db key link = stuck
  search_loop (suc rounds) db key link = if link == 0 then ok none else do
    r ← deref db link
    let rest = search_loop rounds db key r.next
    if key_matches key link r then ok (some r) else rest

  unfoldable pub hash_search : ℕ → Db → ℕ → Bytes → Run (Option Rec)
  hash_search rounds db idx key = search_loop rounds db key (db.buckets idx)

  unfoldable pub hash_find : ℕ → Db → Bytes → Run (Option Rec)
  hash_find rounds db key = hash_search rounds db (calc_hash key) key

  -- the code on a match in `hash_put`: `false` where no record could be made
  unfoldable pub replace_rec : ℕ → Db → Bytes → Bytes → Loc → ℕ → Rec → Run (Bool × Db)
  replace_rec fresh db key val pp link r = elim (create_rec fresh db key val) [
    | none ↦ ok (false, db)
    | some (new, db1) ↦ do
      db2 ← set_link db1 (next_of new) r.next
      db3 ← set_link db2 pp new
      ok (true, del_rec db3 link r)
  ]

  -- the code behind the loop
  unfoldable pub prepend_rec : ℕ → Db → Bytes → Bytes → Run (Bool × Db)
  prepend_rec fresh db key val = elim (create_rec fresh db key val) [
    | none ↦ ok (false, db)
    | some (new, db1) ↦ do
      db2 ← set_link db1 (next_of new) (db.buckets (calc_hash key))
      db3 ← set_link db2 (bucket (calc_hash key)) new
      ok (true, db3)
  ]

  unfoldable pub hash_put : ℕ → ℕ → Db → Bytes → Bytes → Run (Bool × Db)
  hash_put rounds fresh db key val =
      walk rounds db key (bucket (calc_hash key)) (prepend_rec fresh db key val)
        (replace_rec fresh db key val)

  -- 0 is `true`, `DB_FAIL` is `false`
  unfoldable pub db_set : ℕ → ℕ → Db → Slice → Slice → Run (Bool × Db)
  db_set rounds fresh db key val = hash_put rounds fresh db (bytes key) (bytes val)

  unfoldable pub db_get : ℕ → Db → Slice → Run Slice
  db_get rounds db key = do
    found ← hash_find rounds db (bytes key)
    elim found [ none ↦ ok null | some r ↦ ok (str (take r.val_len (drop r.key_len r.data_bytes))) ]

  unfoldable pub db_del : ℕ → Db → Slice → Run (Bool × Db)
  db_del rounds db key = hash_del rounds db (bytes key)
