-- ===== src/Ring/PowerOfTwo.antt =====
-- src/spsc_ring.cpp: `IsPowerOfTwo`.
use Prim.Native.Nat.{bit_and}
use native.Mathlib.Nat.{pow-suc, one-le-pow, mod_self, pow-le-pow_right}
use mathlib.Core.Logic.{∥∥₁_elim}
use framewire.Prelude.{
  ℕ, zero, suc, ◌-◌, ◌/◌, ◌%◌, ◌^◌, ◌≤◌, ◌<◌, ◌≡◌, ◌≢◌, refl, ap, ◌↔◌, true, arith, dec_lt,
  ℕ_discrete,
}
use framewire.Prelude.Bits.{and_step, bit_and-low_mask}
use framewire.Ring.Mapping.{is_power_of_two}

and_self_below : (n u : ℕ) → u ≤ n → bit_and u u ≡ u
and_self_below n zero h = refl
and_self_below zero (suc u) h = absurd (omega arith)
and_self_below (suc n) (suc u) h =
    omega (arith, and_step (suc u) (suc u), and_self_below n (suc u / 2) (omega arith))

-- A number with one bit set, by the test `v & (v - 1)`.
exponent : (n v : ℕ) → v ≤ n → v ≢ 0 → bit_and v (v - 1) ≡ 0 → (k : ℕ) × (v ≡ 2 ^ k)
exponent zero v h ne e = absurd (omega arith)
exponent (suc n) v h ne e = elim (ℕ_discrete v 1) [
  | yes one ↦ (0, one)
  | no more ↦ elim (ℕ_discrete (v % 2) 0) [
    | yes even ↦
        let low : (v - 1) / 2 ≡ v / 2 - 1 = omega arith in
        let halved : bit_and (v / 2) (v / 2 - 1) ≡ 0 =
          omega (arith, and_step v (v - 1), ap (bit_and (v / 2)) low) in
        let (k, half) = exponent n (v / 2) (omega arith) (omega arith) halved in
        (suc k, omega (arith, pow-suc 2 k))
    | no odd ↦
        let low : (v - 1) / 2 ≡ v / 2 = omega arith in
        absurd (
          omega (
            arith,
            and_step v (v - 1),
            ap (bit_and (v / 2)) low,
            and_self_below (v / 2) (v / 2) (omega arith),
          ))
  ]
]

pub is_power_of_two-pow : (k : ℕ) → is_power_of_two (2 ^ k) ≡ true
unfolding is_power_of_two
is_power_of_two-pow k =
    let pos : 1 ≤ 2 ^ k = one-le-pow k 2 (omega arith) in
    ground (arith, bit_and-low_mask k (2 ^ k), mod_self (2 ^ k))

pub is_power_of_two→pow : (v : ℕ) → is_power_of_two v ≡ true → (k : ℕ) × (v ≡ 2 ^ k)
unfolding is_power_of_two
is_power_of_two→pow v h = exponent v v (omega arith) (ground arith) (ground arith)

-- A `uint32_t` capacity that passes the test is 2^k for some k up to 31.
pub exponent_bound : (k v : ℕ) → v ≡ 2 ^ k → v < 2 ^ 32 → k ≤ 31
exponent_bound k v e h = elim (dec_lt k 32) [
  | yes low ↦ omega arith
  | no high ↦
      absurd (omega (arith, pow-le-pow_right {n = 2} (omega arith) {i = 32} {j = k} (omega arith)))
]

-- `IsPowerOfTwo(v)` holds exactly for the powers of two.
pub is_power_of_two_iff : (v : ℕ) → (is_power_of_two v ≡ true) ↔ ∥ ((k : ℕ) × (v ≡ 2 ^ k)) ∥₁
is_power_of_two_iff v = (λ h. ∣ is_power_of_two→pow v h ∣₁, back)
  where
    back : ∥ ((k : ℕ) × (v ≡ 2 ^ k)) ∥₁ → is_power_of_two v ≡ true
    back t = ∥∥₁_elim t (hlevel) (λ p. rw p.1 (is_power_of_two-pow p.0))
