-- ===== src/Prelude/Outcome.antt =====
-- The result of C code that reads memory: `fault` is an access that the language does not define,
-- `stuck` a loop that used up the rounds that the model gives it.

pub data Run {ℓ} (A : Type ℓ) : Type ℓ where
  ok : A → Run A
  fault : Run A
  stuck : Run A

infixl 5 ◌>>=◌
abbrev pub ◌>>=◌ {ℓ κ} : {A : Type ℓ} {B : Type κ} → Run A → (A → Run B) → Run B
ok a >>= f = f a
fault >>= f = fault
stuck >>= f = stuck
