-- ===== src/Double.antt =====
-- `double` and the operations on it that the sources use: a parameter, with no law about rounding.
use framewire.Prelude.{ℕ, Bool}
use framewire.Prelude.Int.{ℤ}

pub record Double : Type 1 where
  pub Carrier : Type 0
  -- `static_cast<double>` of a `uint64_t`, and of an `int64_t`
  pub of_nat : ℕ → Carrier
  pub of_int : ℤ → Carrier
  pub plus : Carrier → Carrier → Carrier
  pub minus : Carrier → Carrier → Carrier
  pub times : Carrier → Carrier → Carrier
  pub over : Carrier → Carrier → Carrier
  pub sqrt : Carrier → Carrier
  -- `a < b`
  pub less : Carrier → Carrier → Bool
  pub ceil : Carrier → Carrier
  pub floor : Carrier → Carrier
  -- `static_cast<uint64_t>`
  pub to_nat : Carrier → ℕ
