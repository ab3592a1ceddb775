-- ===== src/Json/Rounds/Number.antt =====
-- src/json.cpp: a number that `ParseNumber` accepts is not empty.
use native.Mathlib.Omega.{arith}
use framewire.Prelude.{
  ℕ, ◌≤◌, ◌<◌, ◌≡◌, inl, inr, Bool-cases, Bool, true, false, ◌||◌, [], ◌∷◌, if◌then◌else◌, length,
  length-drop, drop,
}
use framewire.Prelude.Chars.{Bytes}
use framewire.Json.{at_byte}
use framewire.Json.Text.{is_digit}
use framewire.Json.Parse.{skip_digits, skip_fraction, skip_exponent, at_digit, skip_byte}

if-le :
    (b : Bool) (x y : Bytes) (n : ℕ) → length x ≤ n → length y ≤ n → length (if b then x else y) ≤ n
if-le true x y n hx hy = hx
if-le false x y n hx hy = hy

skip_digits-le : (text : Bytes) → length (skip_digits text) ≤ length text
unfolding skip_digits
skip_digits-le [] = omega arith
skip_digits-le (c ∷ cs) = if-le (is_digit c) _ _ _ (omega (arith, skip_digits-le cs)) (omega arith)

skip_digits-lt : (text : Bytes) → at_digit text ≡ true → length (skip_digits text) < length text
unfolding skip_digits
skip_digits-lt [] h = absurd (cc h)
skip_digits-lt (c ∷ cs) h = rw h (omega (arith, skip_digits-le cs))

pub skip_byte-le : (c : ℕ) (text : Bytes) → length (skip_byte c text) ≤ length text
skip_byte-le c text = if-le (at_byte c text) _ _ _ (omega (arith, length-drop 1 text)) (omega arith)

skip_fraction-le : (text : Bytes) → length (skip_fraction text) ≤ length text
unfolding skip_fraction
skip_fraction-le text =
    if-le (at_byte b'.' text) _ _ _
      (omega (arith, length-drop 1 text, skip_digits-le (drop 1 text))) (omega arith)

skip_exponent-le : (text : Bytes) → length (skip_exponent text) ≤ length text
unfolding skip_exponent
skip_exponent-le text =
    let signed = drop 1 text in
    let mantissa = if at_byte b'+' signed || at_byte b'-' signed then drop 1 signed else signed in
    let short : length mantissa ≤ length text =
      if-le (at_byte b'+' signed || at_byte b'-' signed) _ _ _
        (omega (arith, length-drop 1 text, length-drop 1 signed))
        (omega (arith, length-drop 1 text)) in
    if-le (at_byte b'e' text || at_byte b'E' text) _ _ _ (omega (arith, skip_digits-le mantissa))
      (omega arith)

at_digit-length : (text : Bytes) → at_digit text ≡ true → 1 ≤ length text
at_digit-length [] h = absurd (cc h)
at_digit-length (c ∷ cs) h = omega arith

-- What is left behind a number, where its first byte is a digit and the next no digit behind a zero.
pub number_end-lt :
    (text : Bytes)
    → at_digit text ≡ true
    → length (skip_exponent (skip_fraction (skip_digits (skip_byte b'0' text)))) < length text
number_end-lt text h =
    let mantissa = skip_digits (skip_byte b'0' text) in
    let short : length mantissa < length text = elim (Bool-cases (at_byte b'0' text)) [
      | inl e ↦
          rw e (
            omega (arith, skip_digits-le (drop 1 text), at_digit-length text h, length-drop 1 text))
      | inr e ↦ rw e (skip_digits-lt text h)
    ] in
    omega (arith, short, skip_fraction-le mantissa, skip_exponent-le (skip_fraction mantissa))
