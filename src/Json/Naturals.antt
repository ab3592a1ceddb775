-- ===== src/Json/Naturals.antt =====
-- include/framewire/json.h: numbers for tests, where every number is its digits read as a natural number.
use framewire.Prelude.{ℕ, ◌+◌, ◌-◌, ◌*◌, true, not, some, [], ◌∷◌, ◌==◌}
use framewire.Prelude.Chars.{Bytes}
use framewire.Prelude.Int.{pos}
use framewire.Json.{Numbers}

abbrev digits_value : ℕ → Bytes → ℕ
digits_value n [] = n
digits_value n (c ∷ cs) = digits_value (n * 10 + (c - b'0')) cs

abbrev pub naturals : Numbers
naturals = record {
  Number = ℕ;
  number_zero = 0;
  number_one = 1;
  from_chars = λ t. some (digits_value 0 t);
  to_int = pos;
  is_nonzero = λ n. not (n == 0);
  minus_one = 0;
  at_least_zero = λ n. true;
  seconds_to_nanos = λ n. pos (n * 1000000000);
}
