-- ===== src/Str/Chars.antt =====
-- The character and string routines of src/str_util.h over the bytes of the string.
-- The result of a comparison is its sign, as an `Ordering`: the code returns differences, whose
-- sign is the comparison's as long as the lengths are below 2 ^ 31.
use Prim.Native.Nat.{compare}
use c_db_k8s.Prelude.{
  ℕ, zero, suc, ◌+◌, ◌-◌, ◌*◌, ◌%◌, ◌^◌, Ordering, Bool, true, false, ◌&&◌, ◌||◌, [], ◌∷◌, Bytes,
  leb, ◌==◌, if◌then◌else◌, length, min,
}

unfoldable pub is_white : ℕ → Bool
is_white ch = ch == b' ' || ch == 9 || ch == 11 || ch == 13 || ch == 10

unfoldable pub is_numeral : ℕ → Bool
is_numeral ch = leb b'0' ch && leb ch b'9'

unfoldable pub lower : ℕ → ℕ
lower ch = if leb b'A' ch && leb ch b'Z' then ch + 0x20 else ch

unfoldable pub upper : ℕ → ℕ
upper ch = if leb b'a' ch && leb ch b'z' then ch - 0x20 else ch

unfoldable pub str_tolower : Bytes → Bytes
unfolding lower
str_tolower [] = []
str_tolower (ch ∷ str) = lower ch ∷ str_tolower str

unfoldable pub str_toupper : Bytes → Bytes
unfolding upper
str_toupper [] = []
str_toupper (ch ∷ str) = upper ch ∷ str_toupper str

unfoldable pub str_countch : Bytes → ℕ → ℕ
str_countch [] ch = 0
str_countch (c ∷ str) ch = (if c == ch then 1 else 0) + str_countch str ch

-- `memcmp` of the first `n` bytes
unfoldable pub memcmp : ℕ → Bytes → Bytes → Ordering
memcmp zero s1 s2 = Ordering.eq
memcmp (suc n) [] s2 = Ordering.eq
memcmp (suc n) (a ∷ s1) [] = Ordering.eq
memcmp (suc n) (a ∷ s1) (b ∷ s2) = elim (compare a b) [
  | Ordering.lt ↦ Ordering.lt
  | Ordering.gt ↦ Ordering.gt
  | Ordering.eq ↦ memcmp n s1 s2
]

-- the shorter string comes first where it is a prefix of the longer
unfoldable pub str_cmp : Bytes → Bytes → Ordering
unfolding memcmp
str_cmp s1 s2 =
    if length s1 == length s2
    then memcmp (length s1) s1 s2
    else elim (memcmp (min (length s1) (length s2)) s1 s2) [
      | Ordering.eq ↦ compare (length s1) (length s2)
      | rc ↦ rc
    ]

-- a `char` is signed
abbrev signed_char : ℕ → ℕ
signed_char c = (c + 128) % 256

case_loop : Bytes → Bytes → Ordering
case_loop [] s2 = Ordering.eq
case_loop (a ∷ s1) [] = Ordering.eq
case_loop (a ∷ s1) (b ∷ s2) = elim (compare (signed_char (lower a)) (signed_char (lower b))) [
  | Ordering.lt ↦ Ordering.lt
  | Ordering.gt ↦ Ordering.gt
  | Ordering.eq ↦ case_loop s1 s2
]

-- `c |= 0x20` on an upper case letter adds 0x20
unfoldable pub str_casecmp : Bytes → Bytes → Ordering
unfolding case_loop lower
str_casecmp s1 s2 = elim (case_loop s1 s2) [
  | Ordering.eq ↦ compare (length s1) (length s2)
  | rc ↦ rc
]

unfoldable pub str_startswith : Bytes → ℕ → Bool
str_startswith [] ch = false
str_startswith (c ∷ str) ch = c == ch

unfoldable pub str_endswith : Bytes → ℕ → Bool
str_endswith [] ch = false
str_endswith (c ∷ []) ch = c == ch
str_endswith (c ∷ d ∷ str) ch = str_endswith (d ∷ str) ch

all_numerals : Bytes → Bool
all_numerals [] = true
all_numerals (c ∷ str) = is_numeral c && all_numerals str

unfoldable pub str_isnumeric : Bytes → Bool
unfolding all_numerals is_numeral
str_isnumeric [] = false
str_isnumeric (c ∷ str) = all_numerals (c ∷ str)

-- `val` is a `uint32_t`; `(val << 3) + (val << 1)` is `val * 10`
unfoldable pub tou32_loop : ℕ → Bytes → ℕ
unfolding is_numeral
tou32_loop val [] = val
tou32_loop val (c ∷ str) =
    let rest = tou32_loop ((val * 8 + val * 2 + (c - b'0')) % 2 ^ 32) str in
    if is_numeral c then rest else val

unfoldable pub str_tou32 : Bytes → ℕ
unfolding tou32_loop
str_tou32 str = tou32_loop 0 str
