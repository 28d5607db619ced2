-- ===== src/Prelude/Bits.antt =====
-- `x & (2^n - 1)` for an index `x` of a table of 2^n slots, and for the number of its slots.
use Prim.Native.Nat.{
  ℕ, zero, suc, ◌+◌, ◌-◌, ◌*◌, ◌/◌, ◌%◌, ◌^◌, ◌≤◌, ◌<◌, min, bit_and, digits, bit_and-bitwise,
}
use mathlib.Core.Path.{◌≡◌, refl, ap, ◌∙◌}
use mathlib.Core.Logic.{◌≢◌}
use native.Mathlib.Omega.{arith}
use native.Mathlib.Nat.{pow-suc}

-- what the operation stands for, on so many digits
abbrev and_of : ℕ → ℕ → ℕ → ℕ
and_of fuel a b = digits (λ x. zero) min fuel a b

and_of-zero : (fuel b : ℕ) → and_of fuel 0 b ≡ 0
and_of-zero zero b = refl
and_of-zero (suc fuel) b = refl

last_digit :
    (fuel a b : ℕ)
    → a ≢ 0
    → and_of (suc fuel) a b ≡ and_of fuel (a / 2) (b / 2) * 2 + min (a % 2) (b % 2)
last_digit fuel zero b ne = absurd (ne refl)
last_digit fuel (suc a) b ne = refl

pub pow_pos : (n : ℕ) → 1 ≤ 2 ^ n
pow_pos zero = omega arith
pow_pos (suc n) = omega (arith, pow-suc 2 n, pow_pos n)

half_mask : (n : ℕ) → (2 ^ suc n - 1) / 2 ≡ 2 ^ n - 1
half_mask n = omega (arith, pow-suc 2 n, pow_pos n)

odd_mask : (n : ℕ) → (2 ^ suc n - 1) % 2 ≡ 1
odd_mask n = omega (arith, pow-suc 2 n, pow_pos n)

below_mask : (fuel n a : ℕ) → a ≤ fuel → a < 2 ^ n → and_of fuel a (2 ^ n - 1) ≡ a
below_mask fuel n zero h lt = and_of-zero fuel (2 ^ n - 1)
below_mask zero n (suc a) h lt = absurd (omega arith)
below_mask (suc fuel) zero (suc a) h lt = absurd (omega arith)
below_mask (suc fuel) (suc n) (suc a) h lt =
    let rest = below_mask fuel n (suc a / 2) (omega arith) (omega (arith, pow-suc 2 n)) in
    let same = ap (and_of fuel (suc a / 2)) (half_mask n) in omega (arith, rest, same, odd_mask n)

double : (n : ℕ) → 2 ^ suc n / 2 ≡ 2 ^ n
double n = omega (arith, pow-suc 2 n)

at_size : (fuel n : ℕ) → 2 ^ n ≤ fuel → and_of fuel (2 ^ n) (2 ^ n - 1) ≡ 0
at_size zero n h = absurd (omega (arith, pow_pos n))
at_size (suc fuel) zero h = omega (arith, and_of-zero fuel 0)
at_size (suc fuel) (suc n) h =
    let step =
      last_digit fuel (2 ^ suc n) (2 ^ suc n - 1) (λ e. omega (arith, e, pow_pos (suc n))) in
    let halves = ap (λ x. and_of fuel x ((2 ^ suc n - 1) / 2)) (double n) in
    let same = ap (and_of fuel (2 ^ n)) (half_mask n) in
    omega (
      arith,
      step,
      halves,
      same,
      at_size fuel n (omega (arith, pow-suc 2 n, pow_pos n)),
      pow-suc 2 n,
    )

-- the next index, and back to 0 behind the last
pub next_index : (n a : ℕ) → a + 1 < 2 ^ n → bit_and (a + 1) (2 ^ n - 1) ≡ a + 1
next_index n a h =
    bit_and-bitwise (a + 1) (2 ^ n - 1) ∙ below_mask (a + 1) n (a + 1) (omega arith) h

pub first_index : (n a : ℕ) → a + 1 ≡ 2 ^ n → bit_and (a + 1) (2 ^ n - 1) ≡ 0
first_index n a e =
    ap (λ x. bit_and x (2 ^ n - 1)) e
    ∙ bit_and-bitwise (2 ^ n) (2 ^ n - 1)
    ∙ at_size (2 ^ n) n (omega arith)
