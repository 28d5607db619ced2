-- ===== src/Str/Ip4/Bounds.antt =====
-- `ip4_str_decode` of src/str_util.c on every string: its accesses and its results.
use c_db_k8s.Prelude.{
  ℕ, ◌+◌, ◌<◌, ◌≤◌, ◌≡◌, ◌≢◌, refl, ◌||◌, [], ◌∷◌, Bytes, ltb, leb, ◌==◌, length, length-append,
  arith, subst, ◌⊎◌, inl, inr, Bool-cases, ◌*◌,
}
use c_db_k8s.Str.Chars.{is_numeral}
use c_db_k8s.Str.Ip4.{
  Ip4, ip4_start, ip4_digit, ip4_dot, ip4_finish, ip4_loop, ip4_str_decode, size_max,
}

-- what holds of the loop's variables at every round
record Inv (s : Ip4) : Type 0 where
  dots : s.num_dot ≤ 3
  filled : length s.dst ≡ s.num_dot
  octet : s.acc < 256

-- a success has written four bytes and stayed in the string
abbrev pub Outcome : ℕ → ℕ × Bytes → Type 0
Outcome n r = (length r.1 ≤ 4) × (r.0 ≢ 0 → r.0 ≢ size_max → (length r.1 ≡ 4) × (r.0 ≤ n))

finish-Outcome : (s : Ip4) (n : ℕ) → Inv s → s.pos ≤ n → Outcome n (ip4_finish s)
unfolding ip4_finish
finish-Outcome s n v h = ground (arith, length-append s.dst (s.acc ∷ []))

ip4_loop-nil : (s : Ip4) → ip4_loop s [] ≡ ip4_finish s
unfolding ip4_loop
ip4_loop-nil s = refl

ip4_loop-step :
    (s : Ip4) (c : ℕ) (str : Bytes)
    → Inv s
    → (Inv (ip4_digit s c) → Outcome (s.pos + 1 + length str) (ip4_loop (ip4_digit s c) str))
    → (Inv (ip4_dot s) → Outcome (s.pos + 1 + length str) (ip4_loop (ip4_dot s) str))
    → Outcome (s.pos + 1 + length str) (ip4_loop s (c ∷ str))
unfolding ip4_loop
ip4_loop-step s c str v digit dot = elim (Bool-cases (is_numeral c)) [
  | inl d ↦ rw d (elim (Bool-cases (ltb 3 (s.num_digit + 1))) [
    | inl many ↦ rw many (omega (arith, v.filled, v.dots), λ _ ne. absurd (ne refl))
    | inr few ↦ rw few (elim (Bool-cases (ltb 255 (ip4_digit s c).acc)) [
      | inl big ↦ rw big (omega (arith, v.filled, v.dots), λ ne _. absurd (ne refl))
      | inr small ↦
          rw small (digit (record { dots = v.dots; filled = v.filled; octet = ground arith }))
    ])
  ])
  | inr n ↦ rw n (elim (Bool-cases (c == b'.')) [
    | inr other ↦ rw other (
        finish-Outcome _ _ (record { dots = v.dots; filled = v.filled; octet = v.octet })
          (omega arith))
    | inl point ↦ rw point (elim (Bool-cases (s.num_digit == 0 || leb 3 s.num_dot)) [
      | inl bad ↦ rw bad (omega (arith, v.filled, v.dots), λ ne _. absurd (ne refl))
      | inr good ↦ rw good (
          dot (record {
            dots = ground arith;
            filled = omega (arith, length-append s.dst (s.acc ∷ []), v.filled);
            octet = omega arith;
          }))
    ])
  ])
]

ip4_loop-Outcome : (str : Bytes) (s : Ip4) → Inv s → Outcome (s.pos + length str) (ip4_loop s str)
ip4_loop-Outcome [] s v = rw ip4_loop-nil (finish-Outcome s (s.pos + 0) v (omega arith))
ip4_loop-Outcome (c ∷ str) s v =
    subst (λ n. Outcome n (ip4_loop s (c ∷ str))) (omega arith)
      (ip4_loop-step s c str v (λ w. ip4_loop-Outcome str (ip4_digit s c) w)
        (λ w. ip4_loop-Outcome str (ip4_dot s) w))

decode-Outcome : (str : Bytes) → Outcome (length str) (ip4_str_decode str)
unfolding ip4_str_decode
decode-Outcome str =
    subst (λ n. Outcome n (ip4_loop ip4_start str)) (omega arith)
      (ip4_loop-Outcome str ip4_start
        (record { dots = omega arith; filled = refl; octet = omega arith }))

-- Whatever the string, at most four bytes are written to `dst`, and the value returned is 0, or
-- `SIZE_MAX`, or a count of bytes inside the string, and then all four are written.
pub ip4_str_decode_bounds :
    (str : Bytes)
    → (length (ip4_str_decode str).1 ≤ 4)
      × (((ip4_str_decode str).0 ≡ 0)
          ⊎ (((ip4_str_decode str).0 ≡ size_max)
              ⊎ ((length (ip4_str_decode str).1 ≡ 4) × ((ip4_str_decode str).0 ≤ length str))))
ip4_str_decode_bounds str =
    let (small, good) = decode-Outcome str in
    let n = (ip4_str_decode str).0 in
    (
      small,
      elim (Bool-cases (n == 0)) [
        | inl zero_value ↦ inl (ground arith)
        | inr some_value ↦ elim (Bool-cases (n == size_max)) [
          | inl max_value ↦ inr (inl (ground arith))
          | inr count ↦ inr (inr (good (ground arith) (ground arith)))
        ]
      ],
    )

-- A string that begins with four digits, the first three of which are a number below 256, gets
-- `SIZE_MAX`, and no byte is written.
pub ip4_str_decode_four_digits :
    (a b c d : ℕ) (str : Bytes)
    → a < 10
    → b < 10
    → c < 10
    → d < 10
    → a * 100 + b * 10 + c < 256
    → ip4_str_decode ((a + b'0') ∷ (b + b'0') ∷ (c + b'0') ∷ (d + b'0') ∷ str) ≡ (size_max, [])
unfolding ip4_str_decode
ip4_str_decode_four_digits a b c d str ha hb hc hd h = ground arith
