-- ===== src/Histogram/Range.antt =====
-- src/histogram.cpp: the constructor's loop, and the slots it makes for values up to the largest trackable.
use native.Mathlib.Nat.{one-le-pow, pow-suc, mul-le-mul_right, pow-le-pow_right}
use framewire.Prelude.{
  ℕ, zero, suc, ◌+◌, ◌-◌, ◌*◌, ◌/◌, ◌%◌, ◌^◌, max, min, set, get_or, ◌==◌, if◌then◌else◌, ◌≤◌, ◌<◌,
  ◌≡◌, refl, ap, ◌∙◌, inl, inr, arith, dec_lt, true, false, ltb, leb, length, length-replicate,
}
use framewire.Double.{Double}
use framewire.Histogram.{
  Histogram, slot_for, observe, value_from_index, highest_equivalent, layout, bucket_index,
  counts_index, count_buckets, empty_histogram,
}
use framewire.Histogram.Slots.{InBucket, bucket_index-InBucket, counts_index-eq}
use framewire.Histogram.Bounds.{place_range, reported-bounds}

-- The loop adds enough buckets: each doubles the range.
count_buckets-reaches :
    (fuel mt smallest buckets : ℕ)
    → mt < 2 ^ 64
    → mt < smallest * 2 ^ fuel
    → (k : ℕ) × (count_buckets fuel mt smallest buckets ≡ buckets + k) × (mt < smallest * 2 ^ k)
unfolding count_buckets
count_buckets-reaches zero mt smallest buckets small h = (0, omega arith, h)
count_buckets-reaches (suc fuel) mt smallest buckets small h = elim (dec_lt mt smallest) [
  | yes lt ↦
      let test : leb smallest mt ≡ false = ground arith in rw test (0, omega arith, omega arith)
  | no ge ↦
      let test : leb smallest mt ≡ true = ground arith in
      rw test (elim (dec_lt ((2 ^ 64 - 1) / 2) smallest) [
        | yes big ↦
            let full : ltb ((2 ^ 64 - 1) / 2) smallest ≡ true = ground arith in
            rw full (1, refl, omega arith)
        | no fine ↦
            let full : ltb ((2 ^ 64 - 1) / 2) smallest ≡ false = ground arith in
            let h' : mt < smallest * 2 * 2 ^ fuel =
              omega (
                arith,
                ap (λ (t : ℕ). smallest * t) (pow-suc 2 fuel),
                regroup smallest (2 ^ fuel),
              ) in
            let (k, count, reach) =
              count_buckets-reaches fuel mt (smallest * 2) (buckets + 1) small h' in
            rw full (
              suc k,
              omega (arith, count),
              omega (arith, ap (λ (t : ℕ). smallest * t) (pow-suc 2 k), regroup smallest (2 ^ k)),
            )
      ])
]
  where
    regroup : (x y : ℕ) → x * (y * 2) ≡ x * 2 * y
    regroup x y = omega arith

module _ (m mt : ℕ) (small : m ≤ 30) where
  bucket_le : (v b k : ℕ) → InBucket (2 ^ suc m) b v → v < 2 ^ suc m * 2 ^ k → b ≤ k
  bucket_le v b k (below, above) reach = elim (dec_lt k b) [
    | no ge ↦ omega arith
    | yes lt ↦
        let up : 2 ^ suc k ≤ 2 ^ b = pow-le-pow_right {n = 2} (omega arith) lt in
        let big : 2 ^ suc k * 2 ^ suc m ≤ 2 ^ b * 2 ^ suc m = mul-le-mul_right (2 ^ suc m) up in
        let twice : 2 ^ suc k * 2 ^ suc m ≡ 2 ^ suc m * 2 ^ k * 2 =
          ap (λ (t : ℕ). t * 2 ^ suc m) (pow-suc 2 k) ∙ regroup (2 ^ k) (2 ^ suc m) in
        elim above [ inl e ↦ absurd (omega arith) | inr le ↦ absurd (omega arith) ]
  ]
    where
      regroup : (x y : ℕ) → x * 2 * y ≡ y * x * 2
      regroup x y = omega arith

  index_below :
      (v b k : ℕ) → InBucket (2 ^ suc m) b v → b ≤ k → b * 2 ^ m + v / 2 ^ b < (1 + k + 1) * 2 ^ m
  index_below v b k i le =
      omega (arith, (place_range m mt small v b i).0, mul-le-mul_right (2 ^ m) le)

  slots :
      (D : Double)
      → length (empty_histogram D (layout (suc m) mt)).counts
        ≡ (count_buckets 64 mt (2 ^ suc m) 1 + 1) * 2 ^ m
  unfolding layout
  slots D =
      length-replicate _ 0
      ∙ ap (λ (t : ℕ). (count_buckets 64 mt (2 ^ suc m) 1 + 1) * t) {y = 2 ^ m}
          (omega (arith, pow-suc 2 m))

  -- A value up to `max_trackable` (below 2^64) has a slot of its own: its index lies inside the counts, so
  -- `Record` does not clamp it.
  pub trackable-counts_index :
      (D : Double) (v : ℕ)
      → mt < 2 ^ 64
      → v ≤ mt
      → counts_index (layout (suc m) mt) v < length (empty_histogram D (layout (suc m) mt)).counts
  trackable-counts_index D v top le =
      let pos : 1 ≤ 2 ^ suc m = one-le-pow (suc m) 2 (omega arith) in
      let (k, count, reach) = count_buckets-reaches 64 mt (2 ^ suc m) 1 top (omega arith) in
      let b : ℕ = bucket_index (layout (suc m) mt) v in
      let i : InBucket (2 ^ suc m) b v = (bucket_index-InBucket m mt small v (omega arith)).0 in
      rw (slots D, count, counts_index-eq m mt small v b (omega arith) i)
        (index_below v b k i (bucket_le v b k i (omega arith)))

  -- `Record` of a sample up to `max_trackable` (between 1 and 2^64 - 1) counts one more in a slot, and what
  -- `ValueAtQuantile` reports for that slot is no less than the sample, 0 being taken for 1, and exceeds it by at
  -- most one part in 2^m; where the histogram has the slots that its constructor makes for 2^(m + 1) linear places
  -- (m at most 30).
  pub observe-bounds :
      (D : Double) (h : Histogram D) (v : ℕ)
      → h.layout_of ≡ layout (suc m) mt
      → length h.counts ≡ length (empty_histogram D (layout (suc m) mt)).counts
      → 1 ≤ mt
      → mt < 2 ^ 64
      → v ≤ mt
      → let value = max v 1 in
        let slot = slot_for D h value in
        let shown = highest_equivalent h.layout_of (value_from_index h.layout_of slot) in
        ((observe D h v).counts ≡ set h.counts slot ((get_or h.counts slot 0 + 1) % 2 ^ 64))
        × (value ≤ shown)
        × ((shown - value) * 2 ^ m ≤ value)
  unfolding observe
  observe-bounds D h v made slots_made some_range top le =
      let value : ℕ = max v 1 in
      let folded : (if v == 0 then 1 else v) ≡ value = ground arith in
      let inside = trackable-counts_index D value top (omega arith) in
      let slot : min (counts_index (layout (suc m) mt) value) (length h.counts - 1)
          ≡ counts_index (layout (suc m) mt) value =
        omega (arith, inside, slots_made) in
      let shown : ℕ =
        highest_equivalent h.layout_of (value_from_index h.layout_of (slot_for D h value)) in
      let (above, near) : (value ≤ shown) × ((shown - value) * 2 ^ m ≤ value) =
        rw (made, slot) (reported-bounds m mt small value (omega arith)) in
      rw folded (refl, above, near)
