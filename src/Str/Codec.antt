-- ===== src/Str/Codec.antt =====
-- The codec section of src/str_util.h. A routine that writes at `wptr` and returns the end of what
-- it wrote gives the bytes written.
pub mod Digits
use c_db_k8s.Prelude.{
  ℕ, ◌+◌, ◌-◌, ◌*◌, ◌/◌, ◌%◌, ◌^◌, List, [], ◌∷◌, ◌++◌, Bytes, ltb, if◌then◌else◌,
}

unfoldable pub uint8_toa : ℕ → Bytes
uint8_toa val =
    let d1 = val * 205 / 2 ^ 11 in
    let e1 = val * 164 / 2 ^ 14 in
    let rem = val - e1 * 100 in
    let e2 = rem * 205 / 2 ^ 11 in
    if ltb val 10
    then (val + b'0') ∷ []
    else if ltb val 100
    then (d1 + b'0') ∷ (val - d1 * 10 + b'0') ∷ []
    else (e1 + b'0') ∷ (e2 + b'0') ∷ (rem - e2 * 10 + b'0') ∷ []

abbrev digit_from : ℕ → ℕ → ℕ → Bytes
digit_from bound val digit = if ltb val bound then [] else (digit + b'0') ∷ []

unfoldable pub uint16_toa : ℕ → Bytes
uint16_toa val =
    digit_from 10000 val (val / 10000)
    ++ (digit_from 1000 val (val / 1000 % 10)
        ++ (digit_from 100 val (val / 100 % 10)
            ++ (digit_from 10 val (val / 10 % 10) ++ ((val % 10 + b'0') ∷ []))))

-- the table `hex`
unfoldable pub hex_digit : ℕ → ℕ
hex_digit n = if ltb n 10 then n + b'0' else n - 10 + b'a'

abbrev nibble_from : ℕ → ℕ → ℕ → Bytes
nibble_from bound val n = if ltb val bound then [] else hex_digit n ∷ []

unfoldable pub uint16_toax : ℕ → Bytes
unfolding hex_digit
uint16_toax val =
    nibble_from 0x1000 val (val / 2 ^ 12 % 16)
    ++ (nibble_from 0x100 val (val / 2 ^ 8 % 16)
        ++ (nibble_from 0x10 val (val / 2 ^ 4 % 16) ++ (hex_digit (val % 16) ∷ [])))

-- `ch` is a byte below 128, so `ch >> 6` is 0 or 1
unfoldable pub hex_to_nibble : ℕ → ℕ
hex_to_nibble ch = (ch % 16 + ch / 2 ^ 6 + ch / 2 ^ 6 * 8) % 256

unfoldable pub enc_u32 : ℕ → Bytes
enc_u32 value =
    (value / 2 ^ 24 % 256) ∷ (value / 2 ^ 16 % 256) ∷ (value / 2 ^ 8 % 256) ∷ (value % 256) ∷ []

unfoldable pub enc_u16 : ℕ → Bytes
enc_u16 value = (value / 2 ^ 8 % 256) ∷ (value % 256) ∷ []

-- the fields of the bytes `b0 b1 …` do not overlap, so `|=` adds them
unfoldable pub dec_u32 : ℕ → ℕ → ℕ → ℕ → ℕ
dec_u32 b0 b1 b2 b3 = b0 * 2 ^ 24 + b1 * 2 ^ 16 + b2 * 2 ^ 8 + b3

unfoldable pub dec_u16 : ℕ → ℕ → ℕ
dec_u16 b0 b1 = b0 * 2 ^ 8 + b1
