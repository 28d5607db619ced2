-- ===== src/Db/Chain.antt =====
-- What a bucket's chain stands for: its cells, each a link with the key and the value stored there.
use mathlib.Core.Option.{Option, none, some}
use c_db_k8s.Prelude.{
  ℕ, ◌≡◌, ◌≢◌, refl, sym, ap, ◌∙◌, ◌↔◌, Bool, true, false, ◌||◌, List, [], ◌∷◌, ◌++◌, Bytes, is_eq,
  is_eq_iff, Bool-ext, ◌==◌, if◌then◌else◌, length, arith,
}
use c_db_k8s.Str.Chars.{str_cmp}
use c_db_k8s.Str.Slice.{str}
use c_db_k8s.Str.Slice.Compare.{slice_cmpmem_iff, str_cmp_iff}
use c_db_k8s.Db.{Rec}
use c_db_k8s.Db.Loops.{read_mem, key_matches}

pub record Cell : Type 0 where
  pub at : ℕ
  pub key : Bytes
  pub val : Bytes

abbrev pub has : ℕ → List Cell → Bool
has a [] = false
has a (c ∷ xs) = a == c.at || has a xs

abbrev pub All {ℓ} : (Cell → Type ℓ) → List Cell → Type ℓ
All P [] = Unit
All P (c ∷ xs) = P c × All P xs

abbrev pub rec_of : Cell → ℕ → ℕ → Rec
rec_of c next flags = record {
  next = next;
  flags = flags;
  key_len = length c.key;
  val_len = length c.val;
  data_bytes = c.key ++ c.val;
}

-- from the link `p` the records lead through the cells, at distinct links, to 0
pub data Chain (recs : ℕ → Option Rec) : ℕ → List Cell → Type 0 where
  nil : {p : ℕ} → p ≡ 0 → Chain recs p []
  cons :
      {p next flags : ℕ} {c : Cell} {xs : List Cell}
      → p ≢ 0
      → p ≡ c.at
      → recs p ≡ some (rec_of c next flags)
      → has p xs ≡ false
      → Chain recs next xs
      → Chain recs p (c ∷ xs)

-- a chain survives any change that spares its links
pub frame :
    {recs other : ℕ → Option Rec} {p : ℕ} {xs : List Cell}
    → Chain recs p xs
    → ((a : ℕ) → has a xs ≡ true → other a ≡ recs a)
    → Chain other p xs
frame (nil e) same = nil e
frame (cons {p} ne at here out ch) same =
    cons ne at (same p (ground arith) ∙ here) out (frame ch λ a i. same a (ground arith))

pub has-append : (a : ℕ) (xs ys : List Cell) → has a (xs ++ ys) ≡ (has a xs || has a ys)
has-append a [] ys = refl
has-append a (c ∷ xs) ys = ground (arith, has-append a xs ys)

-- keys are the same bytes
unfoldable pub same_key : Bytes → Bytes → Bool
same_key k j = is_eq (str_cmp k j)

pub same_key_iff : (k j : Bytes) → (same_key k j ≡ true) ↔ (k ≡ j)
unfolding same_key
same_key_iff k j =
    (λ h. (str_cmp_iff k j).0 ((is_eq_iff _).0 h), λ e. (is_eq_iff _).1 ((str_cmp_iff k j).1 e))

-- the value under a key: the abstract map of a chain
unfoldable pub lookup : Bytes → List Cell → Option Bytes
lookup k [] = none
lookup k (c ∷ xs) = if same_key k c.key then some c.val else lookup k xs

pub read_mem-append : (k rest : Bytes) (after : ℕ → ℕ) → read_mem (length k) (k ++ rest) after ≡ k
unfolding read_mem
read_mem-append [] rest after = refl
read_mem-append (c ∷ k) rest after = ap (◌∷◌ c) (read_mem-append k rest after)

module _ (beyond : ℕ → ℕ → ℕ) where
  -- whether the code takes the record of a cell for one under the key
  abbrev pub hits : Bytes → Cell → Bool
  hits k c = key_matches beyond k c.at (rec_of c 0 0)

  -- the code's test is right about this cell
  abbrev pub Clear : Bytes → Cell → Type 0
  Clear k c = hits k c ≡ true → k ≡ c.key

  pub key_matches-hits :
      (k : Bytes) (c : Cell) (p next flags : ℕ)
      → p ≡ c.at
      → key_matches beyond k p (rec_of c next flags) ≡ hits k c
  unfolding key_matches
  key_matches-hits k c p next flags e = rw e

  -- The test is whether the key's length of bytes, read from the record on, is the key.
  pub hits_iff :
      (k : Bytes) (c : Cell)
      → (hits k c ≡ true) ↔ (k ≡ read_mem (length k) (c.key ++ c.val) (beyond c.at))
  unfolding key_matches
  hits_iff k c = (
    λ h. (slice_cmpmem_iff (str k) _).0 ((is_eq_iff _).0 h),
    λ e. (is_eq_iff _).1 ((slice_cmpmem_iff (str k) _).1 e),
  )

  -- A record under the key itself is always taken.
  pub hits_self : (k : Bytes) (c : Cell) → k ≡ c.key → hits k c ≡ true
  hits_self k c e = (hits_iff k c).1 (
      sym (read_mem-append k c.val (beyond c.at))
      ∙ ap (λ d. read_mem (length k) (d ++ c.val) (beyond c.at)) e)

  -- Where the test is right, it is the comparison of the keys.
  pub hits-same_key : (k : Bytes) (c : Cell) → Clear k c → hits k c ≡ same_key k c.key
  hits-same_key k c clear =
      Bool-ext (hits k c) (same_key k c.key) (λ h. (same_key_iff k c.key).1 (clear h))
        (λ h. hits_self k c ((same_key_iff k c.key).0 h))
