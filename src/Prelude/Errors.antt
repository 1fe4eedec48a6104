-- ===== src/Prelude/Errors.antt =====
-- What a C function does: it returns, it ends the process through `panic` (util/panic.c), or it
-- reaches an access outside of what is allocated. `out_of_fuel` is the model's own: a loop was given too
-- few rounds.

pub data Outcome {ℓ} (A : Type ℓ) : Type ℓ where
  ok : A → Outcome A
  panic : Outcome A
  fault : Outcome A
  out_of_fuel : Outcome A

infixl 5 ◌>>=◌
abbrev pub ◌>>=◌ {ℓ κ} : {A : Type ℓ} {B : Type κ} → Outcome A → (A → Outcome B) → Outcome B
ok a >>= f = f a
panic >>= f = panic
fault >>= f = fault
out_of_fuel >>= f = out_of_fuel
