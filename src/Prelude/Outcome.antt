-- ===== src/Prelude/Outcome.antt =====
-- How a call ends.
use mathlib.Core.Path.{◌≡◌}

-- A value, a run-time panic, or the model's fuel running out.
pub data Run {ℓ} (A : Type ℓ) : Type ℓ where
  ok : A → Run A
  panic : Run A
  exhausted : Run A

infixl 5 ◌>>=◌
abbrev pub ◌>>=◌ {ℓ κ} : {A : Type ℓ} {B : Type κ} → Run A → (A → Run B) → Run B
ok a >>= f = f a
panic >>= f = panic
exhausted >>= f = exhausted

-- The call returns, with a value that satisfies the predicate.
abbrev pub Returns {ℓ κ} : {A : Type ℓ} → (A → Type κ) → Run A → Type (ℓ ⊔ κ)
Returns {A} P r = (a : A) × (r ≡ ok a) × P a
