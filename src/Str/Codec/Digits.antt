-- ===== src/Str/Codec/Digits.antt =====
-- The decimal and hexadecimal printers against readers, and the big-endian codecs.
use c_db_k8s.Prelude.{
  ℕ, ◌+◌, ◌*◌, ◌/◌, ◌%◌, ◌^◌, ◌<◌, ◌≤◌, ◌≡◌, refl, ap, ◌∙◌, [], ◌∷◌, Bytes, true, ◌==◌, length,
  arith, passes, passes-true, ==_iff,
}
use native.Mathlib.Decide.{dec_lt}
use c_db_k8s.Str.Chars.{str_tou32, tou32_loop}
use c_db_k8s.Str.Codec.{
  uint8_toa, uint16_toa, uint16_toax, hex_digit, hex_to_nibble, enc_u32, dec_u32,
}

-- `str_tou32` reads back what `uint8_toa` prints for a byte, in one to three digits.
pub tou32-uint8_toa :
    (v : ℕ)
    → v < 256
    → (str_tou32 (uint8_toa v) ≡ v) × (0 < length (uint8_toa v)) × (length (uint8_toa v) ≤ 3)
unfolding str_tou32 uint8_toa
tou32-uint8_toa v h = ground arith

tou32_loop-digit :
    (acc d : ℕ) (s : Bytes)
    → d < 10
    → tou32_loop acc ((d + b'0') ∷ s) ≡ tou32_loop ((acc * 8 + acc * 2 + d) % 2 ^ 32) s
unfolding tou32_loop
tou32_loop-digit acc d s h = ground arith

tou32_loop-nil : (acc : ℕ) → tou32_loop acc [] ≡ acc
unfolding tou32_loop
tou32_loop-nil acc = refl

-- `v` read digit by digit
abbrev Reads : ℕ → Bytes → Type 0
Reads v s = (tou32_loop 0 s ≡ v) × (0 < length s) × (length s ≤ 5)

tou32_loop-five :
    (a b c d e : ℕ)
    → a < 10
    → b < 10
    → c < 10
    → d < 10
    → e < 10
    → tou32_loop 0 ((a + b'0') ∷ (b + b'0') ∷ (c + b'0') ∷ (d + b'0') ∷ (e + b'0') ∷ [])
      ≡ a * 10000 + b * 1000 + c * 100 + d * 10 + e
tou32_loop-five a b c d e ha hb hc hd he =
    tou32_loop-digit 0 a _ ha
    ∙ tou32_loop-digit _ b _ hb
    ∙ tou32_loop-digit _ c _ hc
    ∙ tou32_loop-digit _ d _ hd
    ∙ tou32_loop-digit _ e [] he
    ∙ tou32_loop-nil _
    ∙ omega arith

uint16_toa_long : (v : ℕ) → 10000 ≤ v → v < 65536 → Reads v (uint16_toa v)
unfolding uint16_toa
uint16_toa_long v lo hi =
    let read =
      tou32_loop-five (v / 10000) (v / 1000 % 10) (v / 100 % 10) (v / 10 % 10) (v % 10)
        (omega arith) (omega arith) (omega arith) (omega arith) (omega arith) in
    ground (arith, read)

uint16_toa_four : (v : ℕ) → 1000 ≤ v → v < 10000 → Reads v (uint16_toa v)
unfolding uint16_toa tou32_loop
uint16_toa_four v lo hi = ground arith

uint16_toa_short : (v : ℕ) → v < 1000 → Reads v (uint16_toa v)
unfolding uint16_toa tou32_loop
uint16_toa_short v hi = ground arith

-- `str_tou32` reads back what `uint16_toa` prints for a 16-bit number, in one to five digits.
pub tou32-uint16_toa :
    (v : ℕ)
    → v < 65536
    → (str_tou32 (uint16_toa v) ≡ v) × (0 < length (uint16_toa v)) × (length (uint16_toa v) ≤ 5)
unfolding str_tou32
tou32-uint16_toa v h = elim (dec_lt v 1000) [
  | yes short ↦ uint16_toa_short v short
  | no more ↦ elim (dec_lt v 10000) [
    | yes four ↦ uint16_toa_four v (omega arith) four
    | no long ↦ uint16_toa_long v (omega arith) h
  ]
]

-- the number that lower case hexadecimal digits stand for, read by `hex_to_nibble`
unfoldable pub from_hex : ℕ → Bytes → ℕ
unfolding hex_to_nibble
from_hex acc [] = acc
from_hex acc (c ∷ s) = from_hex (acc * 16 + hex_to_nibble c) s

hex_table : passes (λ n. hex_to_nibble (hex_digit n) == n) 16 ≡ true
unfolding passes hex_to_nibble hex_digit
hex_table = refl

hex_to_nibble-hex_digit : (n : ℕ) → n < 16 → hex_to_nibble (hex_digit n) ≡ n
hex_to_nibble-hex_digit n h = (==_iff _ n).0 (passes-true _ n h hex_table)

from_hex-cons :
    (acc n : ℕ) (s : Bytes) → n < 16 → from_hex acc (hex_digit n ∷ s) ≡ from_hex (acc * 16 + n) s
unfolding from_hex
from_hex-cons acc n s h = ap (λ k. from_hex (acc * 16 + k) s) (hex_to_nibble-hex_digit n h)

from_hex-nil : (acc : ℕ) → from_hex acc [] ≡ acc
unfolding from_hex
from_hex-nil acc = refl

-- digits in front of `s`
from_hex-two :
    (acc a b : ℕ) (s : Bytes)
    → a < 16
    → b < 16
    → from_hex acc (hex_digit a ∷ hex_digit b ∷ s) ≡ from_hex (acc * 256 + a * 16 + b) s
from_hex-two acc a b s ha hb =
    from_hex-cons acc a _ ha ∙ from_hex-cons _ b s hb ∙ ap (λ k. from_hex k s) (omega arith)

-- `v` read digit by digit
abbrev ReadsHex : ℕ → Bytes → Type 0
ReadsHex v s = (from_hex 0 s ≡ v) × (0 < length s) × (length s ≤ 4)

uint16_toax_long : (v : ℕ) → 0x100 ≤ v → v < 65536 → ReadsHex v (uint16_toax v)
unfolding uint16_toax
uint16_toax_long v lo h = ground (
  arith,
  from_hex-two 0 (v / 2 ^ 12 % 16) (v / 2 ^ 8 % 16)
      (hex_digit (v / 2 ^ 4 % 16) ∷ hex_digit (v % 16) ∷ []),
  from_hex-cons 0 (v / 2 ^ 8 % 16) (hex_digit (v / 2 ^ 4 % 16) ∷ hex_digit (v % 16) ∷ []),
  from_hex-two (0 * 256 + v / 2 ^ 12 % 16 * 16 + v / 2 ^ 8 % 16) (v / 2 ^ 4 % 16) (v % 16) [],
  from_hex-two (0 * 16 + v / 2 ^ 8 % 16) (v / 2 ^ 4 % 16) (v % 16) [],
  from_hex-nil
      ((0 * 256 + v / 2 ^ 12 % 16 * 16 + v / 2 ^ 8 % 16) * 256 + v / 2 ^ 4 % 16 * 16 + v % 16),
  from_hex-nil ((0 * 16 + v / 2 ^ 8 % 16) * 256 + v / 2 ^ 4 % 16 * 16 + v % 16),
)

uint16_toax_short : (v : ℕ) → v < 0x100 → ReadsHex v (uint16_toax v)
unfolding uint16_toax
uint16_toax_short v h = ground (
  arith,
  from_hex-two 0 (v / 2 ^ 4 % 16) (v % 16) [],
  from_hex-cons 0 (v % 16) [],
  from_hex-nil (0 * 256 + v / 2 ^ 4 % 16 * 16 + v % 16),
  from_hex-nil (0 * 16 + v % 16),
)

-- `hex_to_nibble`, digit by digit, reads back what `uint16_toax` prints for a 16-bit number, in
-- one to four digits.
pub from_hex-uint16_toax :
    (v : ℕ)
    → v < 65536
    → (from_hex 0 (uint16_toax v) ≡ v) × (0 < length (uint16_toax v)) × (length (uint16_toax v) ≤ 4)
from_hex-uint16_toax v h = elim (dec_lt v 0x100) [
  | yes short ↦ uint16_toax_short v short
  | no long ↦ uint16_toax_long v (omega arith) h
]

-- `dec_u32` inverts `enc_u32` on 32-bit numbers, and `enc_u32` writes bytes.
pub dec-enc_u32 :
    (v : ℕ)
    → v < 2 ^ 32
    → (b0 b1 b2 b3 : ℕ) → enc_u32 v ≡ b0 ∷ b1 ∷ b2 ∷ b3 ∷ []
    → (dec_u32 b0 b1 b2 b3 ≡ v) × (b0 < 256) × (b1 < 256) × (b2 < 256) × (b3 < 256)
unfolding enc_u32 dec_u32
dec-enc_u32 v h b0 b1 b2 b3 e = ground arith
