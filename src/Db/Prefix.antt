-- ===== src/Db/Prefix.antt =====
-- What the comparison in src/db.c takes for a match beside the key itself: it reads as many bytes
-- as the key asked for has, whatever the length of the record's key.
use c_db_k8s.Prelude.{
  ℕ, suc, ◌≡◌, sym, ap, ◌∙◌, true, false, List, ◌∷◌, ◌++◌, Bytes, ◌==◌, arith, ok, length,
}
use c_db_k8s.Str.Slice.{str}
use c_db_k8s.Db.{Db, calc_hash}
use c_db_k8s.Db.Loops.{read_mem, search_loop, hash_find, hash_search, db_get}
use c_db_k8s.Db.Chain.{Cell, Chain, cons, read_mem-append, hits, hits_iff, key_matches-hits}
use c_db_k8s.Db.Walk.{deref-some, value_of-rec_of}

module _ (beyond : ℕ → ℕ → ℕ) where
  prefix-hits : (q rest : Bytes) (c : Cell) → q ++ rest ≡ c.key ++ c.val → hits beyond q c ≡ true
  prefix-hits q rest c e =
      (hits_iff beyond q c).1 (
        sym (read_mem-append q rest (beyond c.at))
        ∙ ap (λ d. read_mem (length q) d (beyond c.at)) e)

  -- Where the bytes `q` begin the key and value of the first record of the bucket of `q`, `db_get`
  -- of `q` returns that record's value, whether or not `q` is its key.
  pub db_get-prefix :
      (rounds : ℕ) (db : Db) (q rest : Bytes) (c : Cell) (xs : List Cell)
      → Chain db.recs (db.buckets (calc_hash q)) (c ∷ xs)
      → q ++ rest ≡ c.key ++ c.val
      → db_get beyond (suc rounds) db (str q) ≡ ok (str c.val)
  unfolding db_get hash_find hash_search search_loop
  db_get-prefix rounds db q rest c xs (cons {next} {flags} ne at here out ch) e =
      let p = db.buckets (calc_hash q) in
      let live : (p == 0) ≡ false = ground arith in
      rw
        (
          live,
          deref-some db p here,
          key_matches-hits beyond q c p next flags at,
          prefix-hits q rest c e,
        )
        (ap ok (value_of-rec_of c next flags))
