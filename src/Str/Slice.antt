-- ===== src/Str/Slice.antt =====
-- `struct slice` of src/str_util.h. A slice is null or points to `len` bytes; a routine that takes
-- the address of a slice returns what it leaves there. Where the code scans with `memchr`, the
-- scan is a function of its own.
pub mod Split
pub mod Compare
pub mod Trim
use c_db_k8s.Prelude.{
  ℕ, ◌+◌, Ordering, Bool, true, false, ◌||◌, Option, none, some, [], ◌∷◌, ◌++◌, Bytes, ltb, ◌==◌,
  if◌then◌else◌, length, drop,
}
use c_db_k8s.Str.Chars.{
  is_white, str_cmp, str_casecmp, str_startswith, str_endswith, str_isnumeric, str_countch,
  str_tou32, str_tolower, str_toupper,
}

pub data Slice : Type 0 where
  null : Slice
  str : Bytes → Slice

-- the bytes that a slice points to, none where it is null
abbrev pub bytes : Slice → Bytes
bytes null = []
bytes (str s) = s

abbrev pub len : Slice → ℕ
len s = length (bytes s)

abbrev pub map_bytes : (Bytes → Bytes) → Slice → Slice
map_bytes f null = null
map_bytes f (str s) = str (f s)

unfoldable pub slice_cmp : Slice → Slice → Ordering
unfolding str_cmp
slice_cmp s1 s2 = str_cmp (bytes s1) (bytes s2)

unfoldable pub slice_cmpmem : Slice → Bytes → Ordering
unfolding str_cmp
slice_cmpmem s mem = str_cmp (bytes s) mem

unfoldable pub slice_casecmp : Slice → Slice → Ordering
unfolding str_casecmp
slice_casecmp s1 s2 = str_casecmp (bytes s1) (bytes s2)

unfoldable pub slice_startswith : Slice → ℕ → Bool
unfolding str_startswith
slice_startswith s ch = str_startswith (bytes s) ch

unfoldable pub slice_endswith : Slice → ℕ → Bool
unfolding str_endswith
slice_endswith s ch = str_endswith (bytes s) ch

unfoldable pub slice_isnumeric : Slice → Bool
unfolding str_isnumeric
slice_isnumeric s = str_isnumeric (bytes s)

unfoldable pub slice_countch : Slice → ℕ → ℕ
unfolding str_countch
slice_countch s ch = str_countch (bytes s) ch

unfoldable pub slice_tou32 : Slice → ℕ
unfolding str_tou32
slice_tou32 s = str_tou32 (bytes s)

-- where the string is writable
unfoldable pub slice_toupper : Slice → Slice
unfolding str_toupper
slice_toupper s = map_bytes str_toupper s

unfoldable pub slice_tolower : Slice → Slice
unfolding str_tolower
slice_tolower s = map_bytes str_tolower s

drop_last : Bytes → Bytes
drop_last [] = []
drop_last (x ∷ []) = []
drop_last (x ∷ y ∷ xs) = x ∷ drop_last (y ∷ xs)

-- `next` is the byte in memory behind the slice. After `ptr++; len--` the code reads `ptr[len]`,
-- which is that byte.
unfoldable pub slice_unbracket : (next : ℕ) → Slice → ℕ → ℕ → Slice
unfolding drop_last
slice_unbracket next null left right = null
slice_unbracket next (str []) left right = str []
slice_unbracket next (str (c ∷ s)) left right =
    if c == left then (if next == right then str (drop_last s) else str s) else str (c ∷ s)

-- `memchr`: the bytes before the first `ch` and those behind it
unfoldable pub find_ch : ℕ → Bytes → Option (Bytes × Bytes)
find_ch ch [] = none
find_ch ch (c ∷ s) =
    let rest = find_ch ch s in
    if c == ch then some ([], s) else elim rest [ none ↦ none | some (a, b) ↦ some (c ∷ a, b) ]

-- `memrchr`: the bytes before the last `ch` and those behind it
unfoldable pub rfind_ch : ℕ → Bytes → Option (Bytes × Bytes)
rfind_ch ch [] = none
rfind_ch ch (c ∷ s) = elim (rfind_ch ch s) [
  | some (a, b) ↦ some (c ∷ a, b)
  | none ↦ if c == ch then some ([], s) else none
]

unfoldable pub slice_chop : Slice → ℕ → Slice
unfolding find_ch
slice_chop null ch = null
slice_chop (str s) ch = elim (find_ch ch s) [ none ↦ str s | some (a, b) ↦ str a ]

-- the token and what is left of the source
unfoldable pub slice_splitch : Slice → ℕ → Slice × Slice
unfolding find_ch
slice_splitch null ch = (null, null)
slice_splitch (str s) ch = elim (find_ch ch s) [
  | none ↦ (str s, null)
  | some (a, b) ↦ (str a, str b)
]

unfoldable pub slice_rsplit : Slice → ℕ → Slice × Slice
unfolding rfind_ch
slice_rsplit null ch = (null, null)
slice_rsplit (str s) ch = elim (rfind_ch ch s) [
  | none ↦ (null, str s)
  | some (a, b) ↦ (str b, str a)
]

unfoldable pub member : ℕ → Bytes → Bool
member c [] = false
member c (d ∷ set) = c == d || member c set

-- the bytes up to the first that is in the set, or (with `false`) that is not
unfoldable pub scan_until : Bool → Bytes → Bytes → Bytes
unfolding member
scan_until inside set [] = []
scan_until inside set (c ∷ s) =
    let rest = scan_until inside set s in
    if member c set then (if inside then [] else c ∷ rest) else (if inside then c ∷ rest else [])

unfoldable pub slice_splitset : Slice → Bytes → Slice × Slice
unfolding scan_until
slice_splitset null set = (null, null)
slice_splitset (str s) set =
    let tok = scan_until true set s in
    let rest = drop (length tok) s in
    (str tok, str (drop (length (scan_until false set rest)) rest))

unfoldable pub ltrim : Bytes → Bytes
unfolding is_white
ltrim [] = []
ltrim (c ∷ s) = if is_white c then ltrim s else c ∷ s

-- The loop shrinks the slice from its end: a byte stays if it or one behind it is no white space.
unfoldable pub rtrim : Bytes → Bytes
unfolding is_white
rtrim [] = []
rtrim (c ∷ s) = elim (rtrim s) [ [] ↦ if is_white c then [] else c ∷ [] | d ∷ t ↦ c ∷ d ∷ t ]

unfoldable pub slice_ltrim : Slice → Slice
unfolding ltrim
slice_ltrim s = map_bytes ltrim s

unfoldable pub slice_rtrim : Slice → Slice
unfolding rtrim
slice_rtrim s = map_bytes rtrim s

unfoldable pub slice_trim : Slice → Slice
unfolding slice_ltrim slice_rtrim
slice_trim s = slice_ltrim (slice_rtrim s)

-- the copy in a buffer of `n` bytes, or `none` where the terminator does not fit
unfoldable pub slice_tocstr : Slice → ℕ → Option Bytes
slice_tocstr s n = if ltb n (len s + 1) then none else some (bytes s ++ (0 ∷ []))
