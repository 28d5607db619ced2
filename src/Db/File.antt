-- ===== src/Db/File.antt =====
-- src/db.c: the check of a database file, and the end of a store in memory.
use c_db_k8s.Prelude.{
  ℕ, zero, suc, ◌+◌, ◌%◌, ◌^◌, ◌<◌, ◌≡◌, inl, inr, Bool, true, false, not, ◌&&◌, List, [], ◌∷◌,
  arith, ltb, leb, ◌==◌, if◌then◌else◌, length, Run, ok, stuck, ◌>>=◌, Bool-cases,
}
use c_db_k8s.Db.{Db, deref, num_buckets, rec_header}
use c_db_k8s.Db.Chain.{Cell, Chain, nil, cons}
use c_db_k8s.Db.Walk.{cells, deref-some}

abbrev pub db_magic : ℕ
db_magic = 0x4D594442

-- whether the records of a chain end inside the mapped file
unfoldable pub check_chain : ℕ → Db → ℕ → Run Bool
check_chain zero db link = stuck
check_chain (suc rounds) db link =
    if link == 0
    then ok true
    else if ltb db.size ((link + rec_header) % 2 ^ 64)
    then ok false
    else do
      r ← deref db link
      let rest = check_chain rounds db r.next
      let rec_size = (rec_header + (r.key_len + r.val_len) % 2 ^ 64) % 2 ^ 64
      if ltb db.size ((link + rec_size) % 2 ^ 64) then ok false else rest

-- the chains of the buckets from `i` on, `left` of them
unfoldable pub check_buckets : (left rounds : ℕ) → Db → (i : ℕ) → Run Bool
unfolding check_chain
check_buckets zero rounds db i = ok true
check_buckets (suc left) rounds db i = do
  good ← check_chain rounds db (db.buckets i)
  let rest = check_buckets left rounds db (i + 1)
  if good then rest else ok false

-- `be32toh` is the C library's
unfoldable pub file_check : (be32toh : ℕ → ℕ) → ℕ → Db → Run Bool
unfolding check_buckets
file_check be32toh rounds db =
    let chains = check_buckets num_buckets rounds db 0 in
    if not (be32toh db.hdr.magic == db_magic)
    then ok false
    else if not (db.hdr.version == 1)
    then ok false
    else chains

-- a cell's record and its key and value end at or before the end of the file
abbrev pub fits : Db → Cell → Bool
fits db c = leb (c.at + (rec_header + (length c.key + length c.val))) db.size

abbrev pub all_fit : Db → List Cell → Bool
all_fit db [] = true
all_fit db (c ∷ xs) = fits db c && all_fit db xs

abbrev pub Sized : List Cell → Type 0
Sized [] = Unit
Sized (c ∷ xs) = (c.at < 2 ^ 62) × (length c.key < 2 ^ 60) × (length c.val < 2 ^ 60) × Sized xs

-- On a chain that ends, with offsets and lengths that do not overflow and a round more than there
-- are records, the check ends, and it passes exactly where every record of the chain, its key and
-- value included, lies inside the file.
pub check_chain-all_fit :
    (db : Db) (rounds : ℕ) {p : ℕ} {xs : List Cell}
    → Chain db.recs p xs
    → Sized xs
    → cells xs < rounds
    → check_chain rounds db p ≡ ok (all_fit db xs)
unfolding check_chain
check_chain-all_fit db zero ch sized h = absurd (omega arith)
check_chain-all_fit db (suc rounds) (nil {p} e) sized h =
    let end : (p == 0) ≡ true = ground arith in simp end
check_chain-all_fit db (suc rounds) (cons {p} {next} {flags} {c} {xs} ne at here out ch) sized h =
    let live : (p == 0) ≡ false = ground arith in
    let rest = check_chain-all_fit db rounds ch sized.3 (omega arith) in
    let (s0, s1, s2, _) = sized in
    let size : (rec_header + (length c.key + length c.val) % 2 ^ 64) % 2 ^ 64
        ≡ rec_header + (length c.key + length c.val) =
      omega (arith, s1, s2) in
    elim (Bool-cases (ltb db.size ((p + rec_header) % 2 ^ 64))) [
      | inl short ↦
          let no_fit : fits db c ≡ false = ground (arith, s0, at) in simp (live, short, no_fit)
      | inr enough ↦ elim (Bool-cases (fits db c)) [
        | inl fit ↦
            let pass : ltb db.size ((p + (rec_header + (length c.key + length c.val))) % 2 ^ 64)
                ≡ false =
              ground (arith, s0, s1, s2, at) in
            simp (live, enough, deref-some db p here, size, pass, fit) rest
        | inr no_fit ↦
            let fail : ltb db.size ((p + (rec_header + (length c.key + length c.val))) % 2 ^ 64)
                ≡ true =
              ground (arith, s0, s1, s2, at) in
            simp (live, enough, deref-some db p here, size, fail, no_fit)
      ]
    ]
