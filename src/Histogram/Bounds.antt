-- ===== src/Histogram/Bounds.antt =====
-- src/histogram.cpp: a slot's reported value against the value that was counted in it.
use native.Mathlib.Nat.{
  lt-div-mul-add, mul-div_cancel, one-le-pow, mod-eq_of_lt, mul-add-div_right,
  mul-add-mod_self_right, div-eq_of_lt, mul-le-mul_right, div-lt_iff_lt-mul, le-div_iff_mul-le,
  div-mul-le_self, pow-suc, mul_comm,
}
use Prim.Native.Nat.{bit_and}
use framewire.Prelude.Bits.{bit_and-low_mask, bit_and-high_mask, pow_add}
use framewire.Prelude.{
  ℕ, zero, suc, ◌+◌, ◌-◌, ◌*◌, ◌/◌, ◌%◌, ◌^◌, ◌≤◌, ◌<◌, ◌≡◌, refl, sym, ap, ◌∙◌, ◌⊎◌, inl, inr,
  arith, dec_lt, ◌==◌, if◌then◌else◌,
}
use framewire.Histogram.{
  Layout, layout, bucket_index, counts_index, value_from_index, highest_equivalent,
}
use framewire.Histogram.Slots.{
  InBucket, InBucket-unique, place_pos, bucket_index-InBucket, counts_index-eq,
}

-- What `ValueAtQuantile` returns for the slot that `CountsIndex` gives for `v`.
abbrev pub reported : Layout → ℕ → ℕ
reported l v = highest_equivalent l (value_from_index l (counts_index l v))

module _ (m mt : ℕ) (small : m ≤ 30) where
  -- The value of slot k·2^m + r.
  value_from_index-slot :
      (k r : ℕ)
      → r < 2 ^ m
      → value_from_index (layout (suc m) mt) (k * 2 ^ m + r)
        ≡ (if k == 0 then r else (r + 2 ^ m) * 2 ^ (k - 1) % 2 ^ 64)
  unfolding value_from_index layout
  value_from_index-slot k r h =
      let half : 2 ^ suc m / 2 ≡ 2 ^ m = omega (arith, pow-suc 2 m) in
      let same : suc m - 1 ≡ m = omega arith in
      let quotient : (k * 2 ^ m + r) / 2 ^ m ≡ k =
        omega (arith, mul-add-div_right (one-le-pow m 2 (omega arith)) k r, div-eq_of_lt h) in
      let rest : (k * 2 ^ m + r) % 2 ^ m ≡ r =
        mul-add-mod_self_right k (2 ^ m) r ∙ mod-eq_of_lt h in
      let back : r + 2 ^ m - 2 ^ m ≡ r = omega arith in
      rw (half, same, bit_and-low_mask, quotient, rest, back) refl

  regroup : (x y : ℕ) → x * (y * 2) ≡ y * x * 2
  regroup x y = omega arith

  regroup' : (x y : ℕ) → y * 2 * x ≡ y * x * 2
  regroup' x y = omega arith

  pub place_range :
      (v b : ℕ)
      → InBucket (2 ^ suc m) b v
      → (v / 2 ^ b < 2 ^ m * 2) × ((b ≡ 0) ⊎ (2 ^ m ≤ v / 2 ^ b))
  place_range v b (below, above) =
      let pos : 1 ≤ 2 ^ b = one-le-pow b 2 (omega arith) in
      let wide : 2 ^ b * 2 ^ suc m ≡ 2 ^ m * 2 ^ b * 2 =
        ap (λ (t : ℕ). 2 ^ b * t) (pow-suc 2 m) ∙ regroup (2 ^ b) (2 ^ m) in
      let reach : v < 2 ^ m * 2 * 2 ^ b =
        omega (arith, regroup (2 ^ b) (2 ^ m), regroup' (2 ^ b) (2 ^ m)) in
      (
        (div-lt_iff_lt-mul pos).1 reach,
        elim above [ inl e ↦ inl e | inr le ↦ inr ((le-div_iff_mul-le pos).1 (omega arith)) ],
      )

  -- A value's slot starts at the value with the bits under its bucket's width cleared.
  pub value_from_index-counts_index :
      (v b : ℕ)
      → v < 2 ^ 64
      → InBucket (2 ^ suc m) b v
      → value_from_index (layout (suc m) mt) (counts_index (layout (suc m) mt) v)
        ≡ v / 2 ^ b * 2 ^ b
  value_from_index-counts_index v zero h i = elim (dec_lt v (2 ^ m)) [
    | yes lt ↦
        let slot : counts_index (layout (suc m) mt) v ≡ 0 * 2 ^ m + v =
          omega (arith, counts_index-eq m mt small v 0 h i) in
        rw slot (value_from_index-slot 0 v lt ∙ omega arith)
    | no ge ↦
        let slot : counts_index (layout (suc m) mt) v ≡ 1 * 2 ^ m + (v - 2 ^ m) =
          omega (arith, counts_index-eq m mt small v 0 h i) in
        rw slot
          (value_from_index-slot 1 (v - 2 ^ m) (omega (arith, (place_range v 0 i).0)) ∙ omega arith)
  ]
  value_from_index-counts_index v (suc b) h i = elim (place_range v (suc b) i).1 [
    | inl e ↦ absurd (omega arith)
    | inr ge ↦
        let slot : counts_index (layout (suc m) mt) v
            ≡ suc (suc b) * 2 ^ m + (v / 2 ^ suc b - 2 ^ m) =
          omega (arith, counts_index-eq m mt small v (suc b) h i) in
        let start : (v / 2 ^ suc b - 2 ^ m + 2 ^ m) ≡ v / 2 ^ suc b = omega arith in
        let fits : v / 2 ^ suc b * 2 ^ suc b ≤ v = div-mul-le_self v (2 ^ suc b) in
        rw slot (
          value_from_index-slot (suc (suc b)) (v / 2 ^ suc b - 2 ^ m)
            (omega (arith, (place_range v (suc b) i).0))
          ∙ rw start (grind (arith, mod-eq_of_lt)))
  ]

  highest_equivalent-eq :
      (v b : ℕ)
      → v < 2 ^ 64
      → InBucket (2 ^ suc m) b v
      → highest_equivalent (layout (suc m) mt) v ≡ v / 2 ^ b * 2 ^ b + (2 ^ b - 1)
  unfolding highest_equivalent
  highest_equivalent-eq v b h i = rw b_eq (omega (arith, masked, mod-eq_of_lt top))
    where
      b_eq : bucket_index (layout (suc m) mt) v ≡ b
      b_eq =
          InBucket-unique (2 ^ suc m) (bucket_index (layout (suc m) mt) v) b v
            (place_pos m mt small) (bucket_index-InBucket m mt small v h).0 i

      whole : b + (64 - b) ≡ 64
      whole = omega (arith, b_eq, (bucket_index-InBucket m mt small v h).1)

      masked : bit_and v (2 ^ 64 - 2 ^ b) ≡ v / 2 ^ b * 2 ^ b
      masked =
          let e : 2 ^ (b + (64 - b)) ≡ 2 ^ 64 = ap (λ n. 2 ^ n) whole in
          let masked : bit_and v (2 ^ (b + (64 - b)) - 2 ^ b) ≡ v / 2 ^ b * 2 ^ b =
            bit_and-high_mask b (64 - b) v (rw e h) in
          rw e at masked

      top : v / 2 ^ b * 2 ^ b + (2 ^ b - 1) < 2 ^ 64
      top =
          let split : 2 ^ (64 - b) * 2 ^ b ≡ 2 ^ 64 =
            sym (pow_add (64 - b) b) ∙ ap (λ n. 2 ^ n) {y = 64} (omega (arith, whole)) in
          let few : v / 2 ^ b < 2 ^ (64 - b) =
            (div-lt_iff_lt-mul (one-le-pow b 2 (omega arith))).1 (rw split h) in
          let fits : suc (v / 2 ^ b) * 2 ^ b ≤ 2 ^ (64 - b) * 2 ^ b =
            mul-le-mul_right (2 ^ b) few in
          omega (arith, one-le-pow b 2 (omega arith))

  -- The value reported for a slot is the last value of the width that its bucket has.
  reported-eq :
      (v b : ℕ)
      → v < 2 ^ 64
      → InBucket (2 ^ suc m) b v
      → reported (layout (suc m) mt) v ≡ v / 2 ^ b * 2 ^ b + (2 ^ b - 1)
  reported-eq v b h i =
      let pos : 1 ≤ 2 ^ b = one-le-pow b 2 (omega arith) in
      let fits : v / 2 ^ b * 2 ^ b ≤ v = div-mul-le_self v (2 ^ b) in
      let same : v / 2 ^ b * 2 ^ b / 2 ^ b ≡ v / 2 ^ b = mul-div_cancel (v / 2 ^ b) pos in
      let bucket : InBucket (2 ^ suc m) b (v / 2 ^ b * 2 ^ b) = (
        omega (arith, i.0),
        elim (place_range v b i).1 [
          | inl e ↦ inl e
          | inr le ↦ inr (
              omega (
                arith,
                mul-le-mul_right (2 ^ b) le,
                regroup (2 ^ b) (2 ^ m),
                ap (λ (t : ℕ). 2 ^ b * t) (pow-suc 2 m),
              ))
        ],
      ) in
      rw (value_from_index-counts_index v b h i) (
        omega (
          arith,
          highest_equivalent-eq (v / 2 ^ b * 2 ^ b) b (omega arith) bucket,
          ap (λ (t : ℕ). t * 2 ^ b) same,
        ))

  -- For every 64-bit value, what is reported for the slot that `CountsIndex` gives it is no less than the value, and
  -- exceeds it by at most one part in 2^m, where the histogram has 2^(m + 1) linear places (m at most 30).
  pub reported-bounds :
      (v : ℕ)
      → v < 2 ^ 64
      → (v ≤ reported (layout (suc m) mt) v) × ((reported (layout (suc m) mt) v - v) * 2 ^ m ≤ v)
  reported-bounds v h =
      let b : ℕ = bucket_index (layout (suc m) mt) v in
      let i : InBucket (2 ^ suc m) b v = (bucket_index-InBucket m mt small v h).0 in
      let top : v < v / 2 ^ b * 2 ^ b + 2 ^ b = lt-div-mul-add (one-le-pow b 2 (omega arith)) in
      let over : v / 2 ^ b * 2 ^ b + (2 ^ b - 1) - v ≤ 2 ^ b - 1 =
        omega (arith, div-mul-le_self v (2 ^ b)) in
      let scaled : (v / 2 ^ b * 2 ^ b + (2 ^ b - 1) - v) * 2 ^ m ≤ (2 ^ b - 1) * 2 ^ m =
        mul-le-mul_right (2 ^ m) over in
      let wide : (2 ^ b - 1) * 2 ^ m ≤ v = elim (place_range v b i).1 [
        | inl e ↦ rw e (omega arith)
        | inr le ↦ omega (
          arith,
          mul-le-mul_right (2 ^ b) le,
          mul-le-mul_right {m = 2 ^ b - 1} {n = 2 ^ b} (2 ^ m) (omega arith),
          mul_comm (2 ^ b) (2 ^ m),
          div-mul-le_self v (2 ^ b),
        )
      ] in
      rw (reported-eq v b h i) (omega (arith, top), omega (arith, scaled, wide))
