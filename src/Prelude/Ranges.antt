-- ===== src/Prelude/Ranges.antt =====
-- Buffers: the bytes between two offsets, and copies into the middle.
use Prim.Native.Nat.{ℕ, zero, suc, ◌+◌, ◌-◌, ◌≤◌}
use mathlib.Core.Path.{◌≡◌, refl, sym, ap, ap₂, ◌∙◌}
use mathlib.Core.List.{[], ◌∷◌, ◌++◌, append_assoc}
use native.Mathlib.Omega.{arith}
use c_db_k8s.Prelude.Lists.{
  Bytes, length, take, drop, length-append, length-take, length-drop, take-append,
  take-append_front, drop-append_front, drop-drop,
}

-- `memcpy` of `new` to the byte at `i`: the length of `old` stays
abbrev pub write_at : ℕ → Bytes → Bytes → Bytes
write_at i new old = take i old ++ (new ++ drop (i + length new) old)

-- the bytes from `i` up to `j`
abbrev pub range : ℕ → ℕ → Bytes → Bytes
range i j xs = take (j - i) (drop i xs)

pub take-append_back : (xs ys : Bytes) (n : ℕ) → take (length xs + n) (xs ++ ys) ≡ xs ++ take n ys
take-append_back [] ys n = ap (λ k. take k ys) seam
  where
    seam : 0 + n ≡ n
    seam = omega arith
take-append_back (x ∷ xs) ys n =
    ap (λ k. take k (x ∷ (xs ++ ys))) seam ∙ ap (◌∷◌ x) (take-append_back xs ys n)
  where
    seam : suc (length xs) + n ≡ suc (length xs + n)
    seam = omega arith

pub drop-append_back : (xs ys : Bytes) (n : ℕ) → drop (length xs + n) (xs ++ ys) ≡ drop n ys
drop-append_back [] ys n = ap (λ k. drop k ys) seam
  where
    seam : 0 + n ≡ n
    seam = omega arith
drop-append_back (x ∷ xs) ys n = ap (λ k. drop k (x ∷ (xs ++ ys))) seam ∙ drop-append_back xs ys n
  where
    seam : suc (length xs) + n ≡ suc (length xs + n)
    seam = omega arith

drop-take : (i w : ℕ) (xs : Bytes) → drop i (take w xs) ≡ take (w - i) (drop i xs)
drop-take zero w xs = ap (λ k. take k xs) seam
  where
    seam : w ≡ w - 0
    seam = omega arith
drop-take (suc i) zero xs = ap (λ k. take k (drop (suc i) xs)) seam
  where
    seam : 0 ≡ 0 - suc i
    seam = omega arith
drop-take (suc i) (suc w) [] = take-empty (suc w - suc i)
  where
    take-empty : (n : ℕ) → [] ≡ take {A = ℕ} n []
    take-empty zero = refl
    take-empty (suc n) = refl
drop-take (suc i) (suc w) (x ∷ xs) = drop-take i w xs ∙ ap (λ k. take k (drop i xs)) seam
  where
    seam : w - i ≡ suc w - suc i
    seam = omega arith

pub length-range : (i j : ℕ) (xs : Bytes) → i ≤ j → j ≤ length xs → length (range i j xs) ≡ j - i
length-range i j xs h k = omega (arith, length-take (j - i) (drop i xs), length-drop i xs)

pub length-write_at :
    (i : ℕ) (new old : Bytes)
    → i + length new ≤ length old
    → length (write_at i new old) ≡ length old
length-write_at i new old h = omega (
  arith,
  length-append (take i old) (new ++ drop (i + length new) old),
  length-append new (drop (i + length new) old),
  length-take i old,
  length-drop (i + length new) old,
)

-- more memory behind a range does not change it
pub range-append :
    (i j : ℕ) (xs ys : Bytes) → i ≤ j → j ≤ length xs → range i j (xs ++ ys) ≡ range i j xs
range-append i j xs ys h k =
    ap (take (j - i)) (drop-append_front i xs ys (omega arith))
    ∙ take-append_front (j - i) (drop i xs) ys (omega (arith, length-drop i xs))

-- a copy to the end of a range extends the range
pub range-write_at :
    (i w : ℕ) (new old : Bytes)
    → i ≤ w
    → w + length new ≤ length old
    → range i (w + length new) (write_at w new old) ≡ range i w old ++ new
range-write_at i w new old h k =
    let front = take w old in
    let rest = drop (w + length new) old in
    let front_length : length front ≡ w = omega (arith, length-take w old) in
    let cut : length (drop i front) + length new ≡ w + length new - i =
      omega (arith, length-drop i front) in
    ap (take (w + length new - i)) (drop-append_front i front (new ++ rest) (omega arith))
    ∙ ap (λ n. take n (drop i front ++ (new ++ rest))) (sym cut)
    ∙ take-append_back (drop i front) (new ++ rest) (length new)
    ∙ ap₂ ◌++◌ (drop-take i w old) (take-append new rest)

-- two copies, the second from where the first ended, are one
pub write_at-append :
    (i : ℕ) (v w old : Bytes)
    → i + length v ≤ length old
    → write_at (i + length v) w (write_at i v old) ≡ write_at i (v ++ w) old
write_at-append i v w old h =
    let front = take i old in
    let rest = drop (i + length v) old in
    let fl : length front ≡ i = omega (arith, length-take i old) in
    let taken : take (i + length v) (front ++ (v ++ rest)) ≡ front ++ v =
      ap (λ n. take (n + length v) (front ++ (v ++ rest))) (sym fl)
      ∙ take-append_back front (v ++ rest) (length v)
      ∙ ap (front ++◌) (take-append v rest) in
    let left : drop (i + length v + length w) (front ++ (v ++ rest))
        ≡ drop (i + length (v ++ w)) old =
      ap (λ n. drop n (front ++ (v ++ rest))) (omega (arith, fl))
      ∙ drop-append_back front (v ++ rest) (length v + length w)
      ∙ drop-append_back v rest (length w)
      ∙ drop-drop (i + length v) (length w) old
      ∙ ap (λ n. drop n old) (omega (arith, length-append v w)) in
    ap₂ (λ a b. a ++ (w ++ b)) taken left
    ∙ append_assoc front v (w ++ drop (i + length (v ++ w)) old)
    ∙ ap (front ++◌) (sym (append_assoc v w (drop (i + length (v ++ w)) old)))

pub drop_all : (n : ℕ) (xs : Bytes) → length xs ≤ n → drop n xs ≡ []
drop_all zero [] h = refl
drop_all zero (x ∷ xs) h = absurd (omega arith)
drop_all (suc n) [] h = refl
drop_all (suc n) (x ∷ xs) h = drop_all n xs (omega arith)

-- the front of a range is dropped by moving its start
pub range-drop : (i j n : ℕ) (xs : Bytes) → i + n ≤ j → range (i + n) j xs ≡ drop n (range i j xs)
range-drop i j n xs h =
    ap (take (j - (i + n))) (sym (drop-drop i n xs))
    ∙ ap (λ k. take k (drop n (drop i xs))) (omega arith)
    ∙ sym (drop-take n (j - i) (drop i xs))

-- a copy that ends at or before `j` leaves the bytes from `j` on alone
pub drop-write_at :
    (i j : ℕ) (new old : Bytes)
    → i + length new ≤ j
    → j ≤ length old
    → drop j (write_at i new old) ≡ drop j old
drop-write_at i j new old h k =
    let front = take i old in
    let rest = drop (i + length new) old in
    let fl : length front ≡ i = omega (arith, length-take i old) in
    ap (λ n. drop n (front ++ (new ++ rest))) (omega (arith, fl))
    ∙ drop-append_back front (new ++ rest) (length new + (j - (i + length new)))
    ∙ drop-append_back new rest (j - (i + length new))
    ∙ drop-drop (i + length new) (j - (i + length new)) old
    ∙ ap (λ n. drop n old) (omega arith)
