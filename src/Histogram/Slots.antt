-- ===== src/Histogram/Slots.antt =====
-- The arithmetic of src/histogram.cpp: which slot a value falls into, and which values a slot stands for.
use Prim.Native.Nat.{bit_or}
use native.Mathlib.Nat.{
  pow-suc, one-le-pow, pow-le-pow_right, mod-lt, div-lt_iff_lt-mul, mul-le-mul_right,
  lt_of_mul-lt-mul_right, mod-add-div', mul_comm,
}
use framewire.Prelude.Bits.{bit_or-low_mask, pow_add}
use framewire.Prelude.{
  ℕ, zero, suc, ◌+◌, ◌-◌, ◌*◌, ◌/◌, ◌%◌, ◌^◌, ◌≤◌, ◌<◌, ◌≡◌, refl, sym, ap, ◌∙◌, ◌⊎◌, inl, inr,
  arith, dec_lt, false, ℕ_discrete, ◌==◌,
}
use framewire.Histogram.{layout, digit_count, bucket_index, counts_index}

digit_count_zero : (f : ℕ) → digit_count f 0 ≡ 0
unfolding digit_count
digit_count_zero zero = refl
digit_count_zero (suc f) = refl

-- The digit count of a number is the least power of two above it.
digit_count_bounds :
    (f v : ℕ)
    → v < 2 ^ f
    → (v < 2 ^ digit_count f v) × (digit_count f v ≤ f) × (0 < v → 2 ^ digit_count f v ≤ 2 * v)
unfolding digit_count
digit_count_bounds zero v h = (h, omega arith, λ p. absurd (omega arith))
digit_count_bounds (suc f) v h = elim (ℕ_discrete v 0) [
  | yes e ↦ rw e (omega arith, omega arith, λ p. absurd (omega arith))
  | no ne ↦
      let h' : v < 2 ^ f * 2 = rw pow-suc at h in
      let (below, most, above) = digit_count_bounds f (v / 2) (omega arith) in
      let next : 2 ^ suc (digit_count f (v / 2)) ≡ 2 ^ digit_count f (v / 2) * 2 = pow-suc 2 _ in
      let test : (v == 0) ≡ false = ground arith in
      rw test (
        omega arith,
        omega arith,
        λ p. elim (ℕ_discrete (v / 2) 0) [
          | yes half ↦ omega (arith, ap (λ n. 2 ^ n) (ap (digit_count f) half ∙ digit_count_zero f))
          | no more ↦ omega (arith, above (omega arith))
        ],
      )
]

-- `b` is the bucket of `v`, where a bucket has `p` linear places.
abbrev pub InBucket : ℕ → ℕ → ℕ → Type 0
InBucket p b v = (v < 2 ^ b * p) × ((b ≡ 0) ⊎ (2 ^ b * p ≤ 2 * v))

InBucket-unique_lt : (p a b v : ℕ) → 0 < p → a < b → InBucket p a v → InBucket p b v → ⊥
InBucket-unique_lt p a b v pos lt low high =
    let up : 2 ^ suc a ≤ 2 ^ b = pow-le-pow_right {n = 2} (omega arith) lt in
    let up' : 2 ^ a * 2 ≤ 2 ^ b = rw pow-suc at up in
    let big : 2 ^ a * 2 * p ≤ 2 ^ b * p = mul-le-mul_right p up' in omega arith

pub InBucket-unique : (p a b v : ℕ) → 0 < p → InBucket p a v → InBucket p b v → a ≡ b
InBucket-unique p a b v pos low high = elim (ℕ_discrete a b) [
  | yes e ↦ e
  | no ne ↦ elim (dec_lt a b) [
    | yes lt ↦ absurd (InBucket-unique_lt p a b v pos lt low high)
    | no ge ↦ absurd (InBucket-unique_lt p b a v pos (omega arith) high low)
  ]
]

-- A layout with 2^(m + 1) linear places in a bucket.
module _ (m mt : ℕ) (small : m ≤ 30) where
  pub place_pos : 1 ≤ 2 ^ suc m
  place_pos = one-le-pow (suc m) 2 (omega arith)

  place_two : 2 ≤ 2 ^ suc m
  place_two = omega (arith, pow-suc 2 m, one-le-pow m 2 (omega arith))

  -- The bucket computed by counting leading zeros is the one that holds the value.
  pub bucket_index-InBucket :
      (v : ℕ)
      → v < 2 ^ 64
      → InBucket (2 ^ suc m) (bucket_index (layout (suc m) mt) v) v
        × (bucket_index (layout (suc m) mt) v + suc m ≤ 64)
  unfolding bucket_index layout
  bucket_index-InBucket v h = rw index_eq (
    (omega (arith, whole, x_eq, bounds.0, parts, mod-lt v place_pos), high),
    omega (arith, enough, bounds.1),
  )
    where
      x : ℕ
      x = bit_or v (2 ^ suc m - 1)

      x_eq : x ≡ v / 2 ^ suc m * 2 ^ suc m + (2 ^ suc m - 1)
      x_eq = bit_or-low_mask (suc m) v

      split : 2 ^ (63 - m) * 2 ^ suc m ≡ 2 ^ 64
      split = sym (pow_add (63 - m) (suc m)) ∙ ap (λ n. 2 ^ n) {y = 64} (omega arith)

      quotient : v / 2 ^ suc m < 2 ^ (63 - m)
      quotient = (div-lt_iff_lt-mul place_pos).1 (rw split h)

      x_small : x < 2 ^ 64
      x_small =
          let fits : suc (v / 2 ^ suc m) * 2 ^ suc m ≤ 2 ^ (63 - m) * 2 ^ suc m =
            mul-le-mul_right (2 ^ suc m) quotient in
          omega (arith, x_eq, split, place_pos)

      digits : ℕ
      digits = digit_count 64 x

      bounds : (x < 2 ^ digits) × (digits ≤ 64) × (0 < x → 2 ^ digits ≤ 2 * x)
      bounds = digit_count_bounds 64 x x_small

      enough : suc m ≤ digits
      enough = elim (dec_lt digits (suc m)) [
        | no ge ↦ omega arith
        | yes lt ↦
            let low : 2 ^ digits ≤ 2 ^ m = pow-le-pow_right {n = 2} (omega arith) (omega arith) in
            absurd (omega (arith, x_eq, bounds.0, pow-suc 2 m, one-le-pow m 2 (omega arith)))
      ]

      index_eq : bucket_index (layout (suc m) mt) v ≡ digits - suc m
      index_eq = omega (arith, enough, bounds.1)

      whole : 2 ^ (digits - suc m) * 2 ^ suc m ≡ 2 ^ digits
      whole =
          sym (pow_add (digits - suc m) (suc m))
          ∙ ap (λ n. 2 ^ n) {y = digits} (omega (arith, enough))

      parts : v % 2 ^ suc m + v / 2 ^ suc m * 2 ^ suc m ≡ v
      parts = mod-add-div' v (2 ^ suc m)

      -- Where the value needs more digits than a bucket has places, its highest digit is not masked.
      high : (digits - suc m ≡ 0) ⊎ (2 ^ (digits - suc m) * 2 ^ suc m ≤ 2 * v)
      high = elim (ℕ_discrete digits (suc m)) [
        | yes e ↦ inl (omega arith)
        | no ne ↦
            let gap : digits - suc m ≡ suc (digits - suc m - 1) = omega (arith, enough) in
            let twice : 2 ^ (digits - suc m) ≡ 2 ^ (digits - suc m - 1) * 2 =
              ap (λ n. 2 ^ n) gap ∙ pow-suc 2 (digits - suc m - 1) in
            let below : 2 ^ (digits - suc m - 1) * 2 ^ suc m < suc (v / 2 ^ suc m) * 2 ^ suc m =
              omega (
                arith,
                whole,
                ap (λ (t : ℕ). t * 2 ^ suc m) twice,
                bounds.2 (omega (arith, x_eq, place_two)),
                x_eq,
                place_pos,
              ) in
            let at_most : 2 ^ (digits - suc m - 1) * 2 ^ suc m ≤ v / 2 ^ suc m * 2 ^ suc m =
              mul-le-mul_right (2 ^ suc m)
                (omega (arith, lt_of_mul-lt-mul_right (2 ^ suc m) below)) in
            inr (omega (arith, ap (λ (t : ℕ). t * 2 ^ suc m) twice, at_most, parts))
      ]

  -- Value `v` in bucket `b` counts in slot b * 2^m + v / 2^b.
  pub counts_index-eq :
      (v b : ℕ)
      → v < 2 ^ 64
      → InBucket (2 ^ suc m) b v
      → counts_index (layout (suc m) mt) v ≡ b * 2 ^ m + v / 2 ^ b
  unfolding counts_index layout
  counts_index-eq v b h i =
      rw b_eq (omega (arith, base_eq, places, half_small, sub_small, base_small))
    where
      b_eq : bucket_index (layout (suc m) mt) v ≡ b
      b_eq =
          InBucket-unique (2 ^ suc m) (bucket_index (layout (suc m) mt) v) b v place_pos
            (bucket_index-InBucket v h).0 i

      b_small : b + suc m ≤ 64
      b_small = omega (arith, b_eq, (bucket_index-InBucket v h).1)

      places : 2 ^ suc m ≡ 2 ^ m * 2
      places = pow-suc 2 m

      half_small : 2 ^ m ≤ 2 ^ 30
      half_small = pow-le-pow_right {n = 2} (omega arith) small

      sub_small : v / 2 ^ b < 2 ^ suc m
      sub_small = (div-lt_iff_lt-mul (one-le-pow b 2 (omega arith))).1 (rw mul_comm i.0)

      base_small : b * 2 ^ m ≤ 64 * 2 ^ m
      base_small = mul-le-mul_right (2 ^ m) (omega (arith, b_small))

      base_eq : (b + 1) % 2 ^ 32 * 2 ^ (suc m - 1) ≡ b * 2 ^ m + 2 ^ m
      base_eq =
          let low : (b + 1) % 2 ^ 32 ≡ b + 1 = omega (arith, b_small) in
          let same : suc m - 1 ≡ m = omega arith in rw (low, same) (omega arith)
