-- ===== src/Db/Walk.antt =====
-- The loops of src/db.c over a chain: what the search returns, and where the other two stop.
use c_db_k8s.Prelude.{
  ℕ, zero, suc, ◌<◌, ◌≡◌, ◌≢◌, refl, sym, ap, ◌∙◌, inl, inr, Bool, true, false, Option, none, some,
  List, [], ◌∷◌, ◌++◌, Bytes, ◌==◌, arith, take, drop, length, drop-append, take_all, Run, ok,
  Bool-cases,
}
use c_db_k8s.Str.Slice.{Slice, null, str}
use c_db_k8s.Db.{Rec, Db, Loc, bucket, next_of, deref, get_link}
use c_db_k8s.Db.Loops.{key_matches, search_loop, walk}
use c_db_k8s.Db.Chain.{
  Cell, All, rec_of, Chain, nil, cons, lookup, same_key, Clear, key_matches-hits, hits-same_key,
}

abbrev pub cells : List Cell → ℕ
cells [] = 0
cells (c ∷ xs) = suc (cells xs)

-- what `db_get` makes of a record, and of an entry of the abstract map
abbrev pub value_of : Option Rec → Slice
value_of none = null
value_of (some r) = str (take r.val_len (drop r.key_len r.data_bytes))

abbrev pub slice_of : Option Bytes → Slice
slice_of none = null
slice_of (some v) = str v

pub value_of-rec_of :
    (c : Cell) (next flags : ℕ) → value_of (some (rec_of c next flags)) ≡ str c.val
value_of-rec_of c next flags =
    ap (λ d. str (take (length c.val) d)) (drop-append c.key c.val)
    ∙ ap str (take_all (length c.val) c.val (omega arith))

pub deref-some : (db : Db) (p : ℕ) {r : Rec} → db.recs p ≡ some r → deref db p ≡ ok r
unfolding deref
deref-some db p e = rw (e, deref)

abbrev pub Misses : Bytes → Cell → Type 0
Misses k c = same_key k c.key ≡ false

module _ (beyond : ℕ → ℕ → ℕ) (db : Db) (k : Bytes) where
  -- the test at a cell's record, where it is right
  test :
      (c : Cell) (p next flags : ℕ)
      → p ≡ c.at
      → Clear beyond k c
      → key_matches beyond k p (rec_of c next flags) ≡ same_key k c.key
  test c p next flags at clear =
      key_matches-hits beyond k c p next flags at ∙ hits-same_key beyond k c clear

  pub search_loop-lookup :
      (rounds : ℕ) {p : ℕ} {xs : List Cell}
      → Chain db.recs p xs
      → All (Clear beyond k) xs
      → cells xs < rounds
      → (o : Option Rec) × (search_loop beyond rounds db k p ≡ ok o)
        × (value_of o ≡ slice_of (lookup k xs))
  unfolding search_loop lookup
  search_loop-lookup zero ch clear h = absurd (omega arith)
  search_loop-lookup (suc rounds) (nil {p} e) clear h =
      let zero_link : (p == 0) ≡ true = ground arith in (none, rw zero_link, refl)
  search_loop-lookup (suc rounds) (cons {p} {next} {flags} {c} {xs} ne at here out ch) clear h =
      let live : (p == 0) ≡ false = ground arith in
      let rest = search_loop-lookup rounds ch clear.1 (omega arith) in
      elim (Bool-cases (same_key k c.key)) [
        | inl hit ↦ (
          some (rec_of c next flags),
          rw (live, deref-some db p here, test c p next flags at clear.0, hit),
          rw hit (value_of-rec_of c next flags),
        )
        | inr miss ↦ (
          rest.0,
          rw (live, deref-some db p here, test c p next flags at clear.0, miss) rest.1,
          rw miss rest.2,
        )
      ]

-- the location of the link that follows some cells
abbrev pub loc_after : Loc → List Cell → Loc
loc_after pp [] = pp
loc_after pp (c ∷ ys) = loc_after (next_of c.at) ys

-- Where a loop stops with a match: the record of the cell `c`, and the chain behind it.
pub record Stop (db : Db) (c : Cell) (zs : List Cell) : Type 0 where
  pub next : ℕ
  pub flags : ℕ
  pub live : c.at ≢ 0
  pub here : db.recs c.at ≡ some (rec_of c next flags)
  pub rest : Chain db.recs next zs

get_link-next_of :
    (db : Db) (p : ℕ) {r : Rec} → db.recs p ≡ some r → get_link db (next_of p) ≡ ok r.next
unfolding get_link
get_link-next_of db p e = rw (deref-some db p e)

pub get_link-bucket : (db : Db) (i : ℕ) → get_link db (bucket i) ≡ ok (db.buckets i)
unfolding get_link
get_link-bucket db i = refl

abbrev pub Action : Type 0
Action = Run (Bool × Db)

module _ (beyond : ℕ → ℕ → ℕ) (db : Db) (k : Bytes) (miss : Action)
    (hit : Loc → ℕ → Rec → Action) where
  pub walk-miss :
      (rounds : ℕ) (pp : Loc) {p : ℕ} {xs : List Cell}
      → get_link db pp ≡ ok p
      → Chain db.recs p xs
      → All (Clear beyond k) xs
      → All (Misses k) xs
      → cells xs < rounds
      → walk beyond rounds db k pp miss hit ≡ miss
  unfolding walk
  walk-miss zero pp link ch clear out h = absurd (omega arith)
  walk-miss (suc rounds) pp link (nil {p} e) clear out h =
      let end : (p == 0) ≡ true = ground arith in rw (link, end)
  walk-miss (suc rounds) pp link (cons {p} {next} {flags} {c} {xs} ne at here _ ch) clear out h =
      let live : (p == 0) ≡ false = ground arith in
      let rest =
        walk-miss rounds (next_of p) (get_link-next_of db p here) ch clear.1 out.1 (omega arith) in
      rw (link, live, deref-some db p here, test beyond db k c p next flags at clear.0, out.0) rest

  pub walk-hit :
      (rounds : ℕ) (pp : Loc) (ys : List Cell) (c : Cell) (zs : List Cell) {p : ℕ}
      → get_link db pp ≡ ok p
      → Chain db.recs p (ys ++ (c ∷ zs))
      → All (Clear beyond k) (ys ++ (c ∷ zs))
      → All (Misses k) ys
      → same_key k c.key ≡ true
      → cells ys < rounds
      → (s : Stop db c zs) × (walk beyond rounds db k pp miss hit
          ≡ hit (loc_after pp ys) c.at (rec_of c s.next s.flags))
  unfolding walk
  walk-hit zero pp ys c zs link ch clear out found h = absurd (omega arith)
  walk-hit (suc rounds) pp [] c zs link (cons {p} {next} {flags} ne at here _ ch) clear out found
        h =
      let live : (p == 0) ≡ false = ground arith in
      (
        record {
          next = next;
          flags = flags;
          live = λ e. ne (at ∙ e);
          here = ap db.recs (sym at) ∙ here;
          rest = ch;
        },
        rw (link, live, deref-some db p here, test beyond db k c p next flags at clear.0, found)
            (ap (λ a. hit pp a (rec_of c next flags)) at),
      )
  walk-hit (suc rounds) pp (d ∷ ys) c zs link (cons {p} {next} {flags} ne at here _ ch) clear out
        found h =
      let live : (p == 0) ≡ false = ground arith in
      let rest =
        walk-hit rounds (next_of p) ys c zs (get_link-next_of db p here) ch clear.1 out.1 found
          (omega arith) in
      (
        rest.0,
        rw (link, live, deref-some db p here, test beyond db k d p next flags at clear.0, out.0)
            (rest.1
              ∙ ap (λ a. hit (loc_after (next_of a) ys) c.at (rec_of c rest.0.next rest.0.flags))
                  at),
      )
