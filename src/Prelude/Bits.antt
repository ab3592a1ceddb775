-- ===== src/Prelude/Bits.antt =====
-- Bit masks at variables: `x & (2^k - 1)` keeps the k low bits, `x | (2^k - 1)` sets them.
use Prim.Native.Nat.{
  ℕ, zero, suc, ◌+◌, ◌<◌, ◌-◌, ◌*◌, ◌/◌, ◌%◌, ◌^◌, ◌≤◌, min, max, digits, bit_and, bit_or,
  bit_and-bitwise, bit_or-bitwise,
}
use mathlib.Core.Path.{◌≡◌, refl, ap, ◌∙◌}
use native.Mathlib.Nat.{
  pow-le-pow_right, mod-eq_of_lt, pow-suc, mod-add-div, one-le-pow, mul_comm, div-div-eq-div-mul,
}
use native.Mathlib.Omega.{arith}

-- The recursion over binary digits does not depend on surplus rounds.
module _ (f : ℕ → ℕ → ℕ) (z : ℕ → ℕ) where
  pub rounds : (n m a b : ℕ) → a ≤ n → a ≤ m → digits z f n a b ≡ digits z f m a b
  rounds zero zero a b p q = refl
  rounds zero (suc m) zero b p q = refl
  rounds zero (suc m) (suc a) b p q = absurd (omega arith)
  rounds (suc n) zero zero b p q = refl
  rounds (suc n) zero (suc a) b p q = absurd (omega arith)
  rounds (suc n) (suc m) zero b p q = refl
  rounds (suc n) (suc m) (suc a) b p q =
      omega (arith, rounds n m (suc a / 2) (b / 2) (omega arith) (omega arith))

-- One digit of `&`, and of `|`.
pub and_step : (a b : ℕ) → bit_and a b ≡ bit_and (a / 2) (b / 2) * 2 + min (a % 2) (b % 2)
and_step zero b = omega (arith, bit_and-bitwise 0 b, bit_and-bitwise 0 (b / 2))
and_step (suc a) b = omega (
  arith,
  bit_and-bitwise (suc a) b,
  bit_and-bitwise (suc a / 2) (b / 2),
  rounds min (λ b. zero) a (suc a / 2) (suc a / 2) (b / 2) (omega arith) (omega arith),
)

or_step : (a b : ℕ) → bit_or a b ≡ bit_or (a / 2) (b / 2) * 2 + max (a % 2) (b % 2)
or_step zero b = omega (arith, bit_or-bitwise 0 b, bit_or-bitwise 0 (b / 2))
or_step (suc a) b = omega (
  arith,
  bit_or-bitwise (suc a) b,
  bit_or-bitwise (suc a / 2) (b / 2),
  rounds max (λ b. b) a (suc a / 2) (suc a / 2) (b / 2) (omega arith) (omega arith),
)

and_zero_below : (n a : ℕ) → a ≤ n → bit_and a 0 ≡ 0
and_zero_below n zero h = refl
and_zero_below zero (suc a) h = absurd (omega arith)
and_zero_below (suc n) (suc a) h =
    omega (arith, and_step (suc a) 0, and_zero_below n (suc a / 2) (omega arith))

or_zero_below : (n a : ℕ) → a ≤ n → bit_or a 0 ≡ a
or_zero_below n zero h = refl
or_zero_below zero (suc a) h = absurd (omega arith)
or_zero_below (suc n) (suc a) h =
    omega (arith, or_step (suc a) 0, or_zero_below n (suc a / 2) (omega arith))

-- Division and remainder by twice a number, from those by the number.
pub div_twice : (a p : ℕ) → a / 2 / p ≡ a / (p * 2)
div_twice a p = div-div-eq-div-mul a 2 p ∙ ap (◌/◌ a) (mul_comm 2 p)

pub mod_twice : (a p : ℕ) → a / 2 % p * 2 + a % 2 ≡ a % (p * 2)
mod_twice a p =
    omega (
      arith,
      mod-add-div (a / 2) p,
      mod-add-div a (p * 2),
      ap (λ (t : ℕ). p * 2 * t) (div_twice a p),
    )

-- `a & (2^k - 1)` is `a mod 2^k`.
pub bit_and-low_mask : (k a : ℕ) → bit_and a (2 ^ k - 1) ≡ a % 2 ^ k
bit_and-low_mask zero a = omega (arith, and_zero_below a a)
bit_and-low_mask (suc k) a =
    let pos : 1 ≤ 2 ^ k = one-le-pow k 2 (omega arith) in
    let halved : (2 ^ k * 2 - 1) / 2 ≡ 2 ^ k - 1 = omega arith in
    rw pow-suc (
      omega (
        arith,
        and_step a (2 ^ k * 2 - 1),
        ap (bit_and (a / 2)) halved,
        bit_and-low_mask k (a / 2),
        mod_twice a (2 ^ k),
      ))

-- `a | (2^k - 1)` keeps the bits from k on, and sets those below.
pub bit_or-low_mask : (k a : ℕ) → bit_or a (2 ^ k - 1) ≡ a / 2 ^ k * 2 ^ k + (2 ^ k - 1)
bit_or-low_mask zero a = omega (arith, or_zero_below a a)
bit_or-low_mask (suc k) a =
    let pos : 1 ≤ 2 ^ k = one-le-pow k 2 (omega arith) in
    let halved : (2 ^ k * 2 - 1) / 2 ≡ 2 ^ k - 1 = omega arith in
    rw pow-suc (
      omega (
        arith,
        or_step a (2 ^ k * 2 - 1),
        ap (bit_or (a / 2)) halved,
        bit_or-low_mask k (a / 2),
        ap (λ (t : ℕ). t * 2 ^ k) (div_twice a (2 ^ k)),
      ))

pub pow_add : (a b : ℕ) → 2 ^ (a + b) ≡ 2 ^ a * 2 ^ b
pow_add zero b = let e : 0 + b ≡ b = omega arith in rw e (omega arith)
pow_add (suc a) b =
    let e : suc a + b ≡ suc (a + b) = omega arith in
    rw (e, pow-suc, pow-suc) (omega (arith, ap (λ (t : ℕ). t * 2) (pow_add a b)))

-- `a & ~(2^b - 1)`, in a word of `b + j` bits, clears the bits below b.
pub bit_and-high_mask :
    (b j a : ℕ) → a < 2 ^ (b + j) → bit_and a (2 ^ (b + j) - 2 ^ b) ≡ a / 2 ^ b * 2 ^ b
bit_and-high_mask zero j a h =
    let e : 0 + j ≡ j = omega arith in
    let whole : bit_and a (2 ^ j - 1) ≡ a % 2 ^ j = bit_and-low_mask j a in
    let small : a < 2 ^ j = rw e at h in rw e (whole ∙ mod-eq_of_lt small ∙ omega arith)
bit_and-high_mask (suc b) j a h =
    let e : suc b + j ≡ suc (b + j) = omega arith in
    let h' : a < 2 ^ (b + j) * 2 = rw (e, pow-suc) at h in
    let ih : bit_and (a / 2) (2 ^ (b + j) - 2 ^ b) ≡ a / 2 / 2 ^ b * 2 ^ b =
      bit_and-high_mask b j (a / 2) (omega arith) in
    let top : 2 ^ b ≤ 2 ^ (b + j) = pow-le-pow_right {n = 2} (omega arith) (omega arith) in
    let halved : (2 ^ (b + j) * 2 - 2 ^ b * 2) / 2 ≡ 2 ^ (b + j) - 2 ^ b = omega arith in
    rw (e, pow-suc, pow-suc)
      (omega (
        arith,
        and_step a (2 ^ (b + j) * 2 - 2 ^ b * 2),
        ap (bit_and (a / 2)) halved,
        ih,
        ap (λ (t : ℕ). t * 2 ^ b) (div_twice a (2 ^ b)),
      ))
