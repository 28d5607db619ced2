-- ===== src/Db/Free.antt =====
-- `hash_deinit` of src/db.c, for a store in memory.
use c_db_k8s.Prelude.{
  ℕ, zero, suc, ◌+◌, ◌<◌, ◌≡◌, ◌≢◌, refl, ◌∙◌, inl, inr, true, false, none, List, arith, ◌==◌,
  if◌then◌else◌, Run, ok, stuck, ◌>>=◌, Bool-cases,
}
use c_db_k8s.Db.{Rec, Db, deref, del_rec, update, num_buckets}
use c_db_k8s.Db.Chain.{Cell, has, rec_of, Chain, nil, cons, frame}
use c_db_k8s.Db.Walk.{cells, deref-some}

-- `while (db_buckets[i])`
unfoldable pub free_chain : ℕ → Db → ℕ → Run Db
free_chain zero db i = stuck
free_chain (suc rounds) db i =
    let link = db.buckets i in
    if link == 0 then ok db else do
      r ← deref db link
      free_chain rounds (del_rec (record db { buckets = update db.buckets i r.next }) link r) i

unfoldable pub free_buckets : (left rounds : ℕ) → Db → (i : ℕ) → Run Db
unfolding free_chain
free_buckets zero rounds db i = ok db
free_buckets (suc left) rounds db i = do
  db' ← free_chain rounds db i
  free_buckets left rounds db' (i + 1)

-- the `free` of the table leaves the records to no one
unfoldable pub hash_deinit : ℕ → Db → Run Db
unfolding free_buckets
hash_deinit rounds db = free_buckets num_buckets rounds db 0

unfoldable pub db_deinit : ℕ → Db → Run Db
unfolding hash_deinit
db_deinit rounds db = if db.file then ok db else hash_deinit rounds db

-- the bucket is empty, the records of its chain are free, and no other bucket or record has changed
pub record Freed (db : Db) (i : ℕ) (xs : List Cell) (db' : Db) : Type 0 where
  pub empty : db'.buckets i ≡ 0
  pub freed : (a : ℕ) → has a xs ≡ true → db'.recs a ≡ none
  pub others : (j : ℕ) → j ≢ i → db'.buckets j ≡ db.buckets j
  pub kept : (a : ℕ) → has a xs ≡ false → db'.recs a ≡ db.recs a
  pub memory : db'.file ≡ false

del_rec-memory :
    (db : Db) (link : ℕ) (r : Rec)
    → db.file ≡ false
    → del_rec db link r ≡ record db { recs = update db.recs link none }
unfolding del_rec
del_rec-memory db link r e = simp e

-- In a store in memory, on a chain that ends and with a round more than it has records, the loop
-- over a bucket ends. It leaves the bucket empty and has freed each record of the chain, and
-- nothing else.
pub free_chain-Freed :
    (rounds : ℕ) (db : Db) (i : ℕ) {xs : List Cell}
    → Chain db.recs (db.buckets i) xs
    → cells xs < rounds
    → db.file ≡ false
    → (db' : Db) × (free_chain rounds db i ≡ ok db') × Freed db i xs db'
unfolding free_chain
free_chain-Freed zero db i ch h file = absurd (omega arith)
free_chain-Freed (suc rounds) db i (nil e) h file =
    let end : (db.buckets i == 0) ≡ true = ground arith in
    (
      db,
      simp end,
      record {
        empty = e;
        freed = λ a there. absurd (ground (arith, there));
        others = λ j ne. refl;
        kept = λ a out. refl;
        memory = file;
      },
    )
free_chain-Freed (suc rounds) db i (cons {next} {flags} {c} {xs} ne at here out ch) h file =
    let link = db.buckets i in
    let live : (link == 0) ≡ false = ground arith in
    let db1 : Db = record db { buckets = update db.buckets i next } in
    let db2 : Db = record db1 { recs = update db.recs link none } in
    let gone = del_rec-memory db1 link (rec_of c next flags) file in
    let here_i : (i == i) ≡ true = ground arith in
    let rest_chain : Chain db2.recs (db2.buckets i) xs =
      rw here_i (frame ch λ a there. ground (arith, out, there)) in
    let (db', run, f) = free_chain-Freed rounds db2 i rest_chain (omega arith) file in
    (
      db',
      simp (live, deref-some db link here, gone) run,
      record {
        empty = f.empty;
        freed = λ a there. elim (Bool-cases (has a xs)) [
          | inl behind ↦ f.freed a behind
          | inr first ↦ f.kept a first ∙ ground (arith, there, at)
        ];
        others = λ j ne2. f.others j ne2 ∙ ground arith;
        kept = λ a off. f.kept a (ground arith) ∙ ground arith;
        memory = f.memory;
      },
    )
