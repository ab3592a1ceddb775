-- ===== src/Histogram/Tests.antt =====
-- The histogram of src/histogram.cpp at concrete samples, and the theorems applied to them.
use framewire.Prelude.{
  ℕ, suc, ◌+◌, ◌-◌, ◌*◌, ◌/◌, ◌^◌, ◌≤◌, ◌<◌, ◌≡◌, refl, arith, [], ◌∷◌, ltb, length, set, get_or,
  ◌%◌, length-set, ◌∙◌,
}
use framewire.Prelude.Result.{ok}
use framewire.Prelude.Int.{pos_part}
use framewire.Double.{Double}
use framewire.Histogram.{
  Histogram, layout, empty_histogram, observe, rank_of, value_at_quantile, merge, counts_index,
  value_from_index, bucket_index, digit_count, highest_equivalent, slot_for, count_buckets,
  magnitude_for_digits,
}
use framewire.Histogram.Bounds.{reported}
use framewire.Histogram.Range.{observe-bounds}
use framewire.Histogram.Counts.{before}
use framewire.Histogram.Samples.{
  IsCountOf, empty-IsCountOf, observe-IsCountOf, merge-IsCountOf, value_at_quantile-rank,
}

-- Numbers with three decimals.
abbrev decimals : Double
decimals = record {
  Carrier = ℕ;
  of_nat = λ n. n * 1000;
  of_int = λ n. pos_part n * 1000;
  plus = λ a b. a + b;
  minus = λ a b. a - b;
  times = λ a b. a * b / 1000;
  over = λ a b. a * 1000 / b;
  sqrt = λ a. a;
  less = ltb;
  ceil = λ a. (a + 999) / 1000 * 1000;
  floor = λ a. a / 1000 * 1000;
  to_nat = λ a. a / 1000;
}

-- One digit: 16 linear places, values to 1000.
abbrev small : Histogram decimals
small = empty_histogram decimals (layout 4 1000)

abbrev two_samples : Histogram decimals
two_samples = observe decimals (observe decimals small 7) 700

some_slots : 0 < ((layout 4 1000).bucket_count + 1) * (layout 4 1000).sub_bucket_half_count
unfolding layout count_buckets
some_slots = omega arith

small-IsCountOf : IsCountOf decimals small []
small-IsCountOf = empty-IsCountOf decimals (layout 4 1000) some_slots

two_samples-IsCountOf : IsCountOf decimals two_samples (700 ∷ 7 ∷ [])
two_samples-IsCountOf =
    observe-IsCountOf decimals (observe decimals small 7) (7 ∷ [])
      (observe-IsCountOf decimals small [] small-IsCountOf 7 (omega arith)) 700 (omega arith)

slots_kept : length two_samples.counts ≡ length small.counts
unfolding observe
slots_kept = length-set (observe decimals small 7).counts _ _ ∙ length-set small.counts _ _

observe-bounds_example :
    let slot = slot_for decimals two_samples 700 in
    let shown =
      highest_equivalent two_samples.layout_of (value_from_index two_samples.layout_of slot) in
    ((observe decimals two_samples 700).counts
      ≡ set two_samples.counts slot ((get_or two_samples.counts slot 0 + 1) % 2 ^ 64))
    × (700 ≤ shown)
    × ((shown - 700) * 2 ^ 3 ≤ 700)
unfolding layout observe
observe-bounds_example =
    observe-bounds 3 1000 (omega arith) decimals two_samples 700 refl slots_kept (omega arith)
      (omega arith) (omega arith)

reported_700 : reported (layout 4 1000) 700 ≡ 703
unfolding layout highest_equivalent value_from_index counts_index bucket_index digit_count
reported_700 = refl

-- Three digits: 512 linear places above the smallest values, and 2048 is reported 0.146 percent too high.
reported_2048 : reported (layout (magnitude_for_digits 3) 60000000000) 2048 ≡ 2051
unfolding layout highest_equivalent value_from_index counts_index magnitude_for_digits bucket_index
    digit_count
reported_2048 = refl

observe-IsCountOf_example : IsCountOf decimals (observe decimals two_samples 9) (9 ∷ 700 ∷ 7 ∷ [])
observe-IsCountOf_example =
    observe-IsCountOf decimals two_samples (700 ∷ 7 ∷ []) two_samples-IsCountOf 9 (omega arith)

same_slots : length small.counts ≡ length two_samples.counts
unfolding observe layout count_buckets counts_index bucket_index digit_count
same_slots = refl

merge-IsCountOf_example :
    (k : Histogram decimals) × (merge decimals two_samples small ≡ ok k)
    × IsCountOf decimals k (700 ∷ 7 ∷ [])
unfolding observe layout
merge-IsCountOf_example =
    merge-IsCountOf decimals two_samples (700 ∷ 7 ∷ []) two_samples-IsCountOf small []
      small-IsCountOf refl same_slots (omega arith)

value_at_quantile-rank_example :
    (i : ℕ) × (value_at_quantile decimals two_samples 500
      ≡ highest_equivalent (layout 4 1000) (value_from_index (layout 4 1000) i))
    × (before (layout 4 1000) (length two_samples.counts) i (700 ∷ 7 ∷ []) < rank_of decimals 500 2)
    × (rank_of decimals 500 2
        ≤ before (layout 4 1000) (length two_samples.counts) (suc i) (700 ∷ 7 ∷ []))
unfolding observe layout
value_at_quantile-rank_example =
    value_at_quantile-rank decimals two_samples (700 ∷ 7 ∷ []) two_samples-IsCountOf 500
      (omega arith)
