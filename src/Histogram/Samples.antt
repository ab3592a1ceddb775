-- ===== src/Histogram/Samples.antt =====
-- src/histogram.cpp: what a histogram says of the samples it was given.
use framewire.Prelude.{
  ℕ, suc, ◌+◌, ◌*◌, ◌%◌, ◌^◌, ◌≤◌, ◌<◌, ◌≡◌, ◌≢◌, refl, sym, ap, ◌∙◌, arith, List, [], ◌∷◌, ◌++◌,
  some, true, false, ltb, ◌==◌, if◌then◌else◌, length, take, set, get_or, length-append, length-set,
  length-replicate,
}
use framewire.Prelude.Result.{ok, err}
use framewire.Double.{Double}
use framewire.Histogram.{
  Layout, Histogram, empty_histogram, observe, rank_of, value_at_quantile, merge, reset, find_slot,
  sum, add_counts, value_from_index, highest_equivalent, layouts_differ,
}
use framewire.Histogram.Counts.{
  slot_of, before, before-append, before_all, get_or_le, sum-take-set, take_all, sum-take-zeros,
  map_zero, sum-take-add_counts, length-add_counts, find_slot-reaches,
}

module _ (D : Double) where
  open D use {Carrier, less}

  -- The histogram counts exactly the samples `xs`: in slots before `i`, for each `i`, as many as there are.
  pub record IsCountOf (h : Histogram D) (xs : List ℕ) : Type 0 where
    pub some_slot : 0 < length h.counts
    pub fits : length xs < 2 ^ 64
    pub total : h.total_count ≡ length xs
    pub prefixes : (i : ℕ) → sum (take i h.counts) ≡ before h.layout_of (length h.counts) i xs

  -- A new histogram with at least one slot has counted nothing.
  pub empty-IsCountOf :
      (l : Layout)
      → 0 < (l.bucket_count + 1) * l.sub_bucket_half_count
      → IsCountOf (empty_histogram D l) []
  empty-IsCountOf l pos = record {
    some_slot = rw length-replicate pos;
    fits = omega arith;
    total = refl;
    prefixes = λ i. sum-take-zeros _ i;
  }

  pub rank_of_range : (q : Carrier) (n : ℕ) → 0 < n → (0 < rank_of D q n) × (rank_of D q n ≤ n)
  unfolding rank_of
  rank_of_range q n pos = ground arith

  module _ (h : Histogram D) (xs : List ℕ) (c : IsCountOf h xs) where
    sum-counts : sum h.counts ≡ length xs
    sum-counts =
        ap sum (sym (take_all h.counts))
        ∙ c.prefixes (length h.counts)
        ∙ before_all h.layout_of (length h.counts) xs c.some_slot

    -- `Record` adds the sample to the samples counted.
    pub observe-IsCountOf : (x : ℕ) → length xs + 1 < 2 ^ 64 → IsCountOf (observe D h x) (x ∷ xs)
    unfolding observe
    observe-IsCountOf x room = record {
      some_slot = rw length-set c.some_slot;
      fits = omega arith;
      total = omega (arith, c.total);
      prefixes = λ i.
          counted i ∙ sym (ap (λ n. before h.layout_of n i (x ∷ xs)) (length-set h.counts k _));
    }
      where
        k : ℕ
        k = slot_of h.layout_of (length h.counts) x

        inside : k < length h.counts
        inside = omega (arith, c.some_slot)

        no_wrap : (get_or h.counts k 0 + 1) % 2 ^ 64 ≡ get_or h.counts k 0 + 1
        no_wrap = omega (arith, get_or_le h.counts k, sum-counts)

        counted :
            (i : ℕ)
            → sum (take i (set h.counts k ((get_or h.counts k 0 + 1) % 2 ^ 64)))
              ≡ before h.layout_of (length h.counts) i (x ∷ xs)
        counted i = rw no_wrap (
            sum-take-set h.counts i k inside
            ∙ ap (λ (t : ℕ). (if ltb k i then 1 else 0) + t) (c.prefixes i))

    -- `Reset` forgets them.
    pub reset-IsCountOf : IsCountOf (reset D h) []
    unfolding reset
    reset-IsCountOf = record {
      some_slot = rw (map_zero, length-replicate) c.some_slot;
      fits = omega arith;
      total = refl;
      prefixes = λ i. rw map_zero (sum-take-zeros (length h.counts) i);
    }

    -- `Merge` of two histograms of the same layout counts the samples of both.
    pub merge-IsCountOf :
        (g : Histogram D) (ys : List ℕ)
        → IsCountOf g ys
        → g.layout_of ≡ h.layout_of
        → length g.counts ≡ length h.counts
        → length xs + length ys < 2 ^ 64
        → (k : Histogram D) × (merge D h g ≡ ok k) × IsCountOf k (xs ++ ys)
    unfolding merge add_counts
    merge-IsCountOf g ys d same slots room =
        let test : (length g.counts == length h.counts) ≡ true = ground arith in
        rw test (
          _,
          refl,
          record {
            some_slot = rw length-add_counts c.some_slot;
            fits = rw length-append room;
            total = omega (arith, length-append xs ys, c.total, d.total);
            prefixes = λ i. rw length-add_counts (merged_prefixes i);
          },
        )
      where
        others : sum g.counts ≡ length ys
        others =
            ap sum (sym (take_all g.counts))
            ∙ d.prefixes (length g.counts)
            ∙ before_all g.layout_of (length g.counts) ys d.some_slot

        moved :
            (i : ℕ)
            → before g.layout_of (length g.counts) i ys ≡ before h.layout_of (length h.counts) i ys
        moved i = rw (same, slots) refl

        merged_prefixes :
            (i : ℕ)
            → sum (take i (add_counts h.counts g.counts))
              ≡ before h.layout_of (length h.counts) i (xs ++ ys)
        merged_prefixes i = omega (
          arith,
          sum-take-add_counts h.counts g.counts (sym slots) (omega (arith, sum-counts, others)) i,
          c.prefixes i,
          d.prefixes i,
          moved i,
          before-append h.layout_of (length h.counts) i xs ys,
        )

    -- `Merge` refuses a histogram with another number of slots, and only that.
    pub merge-refuses :
        (g : Histogram D) → length g.counts ≢ length h.counts → merge D h g ≡ err layouts_differ
    unfolding merge
    merge-refuses g ne =
        let test : (length g.counts == length h.counts) ≡ false = ground arith in rw test refl

    at_slot :
        (q : Carrier) (i : ℕ)
        → 0 < h.total_count
        → find_slot h.counts 0 0 (rank_of D q h.total_count) ≡ some i
        → value_at_quantile D h q ≡ highest_equivalent h.layout_of (value_from_index h.layout_of i)
    unfolding value_at_quantile rank_of
    at_slot q i pos found =
        let test : (h.total_count == 0) ≡ false = ground arith in rw (test, found) refl

    -- `ValueAtQuantile` reports the slot of the sample that the quantile's rank asks for: fewer samples than
    -- the rank lie in slots before it, and at least the rank in slots up to it. It never falls through to the maximum.
    pub value_at_quantile-rank :
        (q : Carrier)
        → 0 < length xs
        → (i : ℕ) × (value_at_quantile D h q
            ≡ highest_equivalent h.layout_of (value_from_index h.layout_of i))
          × (before h.layout_of (length h.counts) i xs < rank_of D q (length xs))
          × (rank_of D q (length xs) ≤ before h.layout_of (length h.counts) (suc i) xs)
    unfolding value_at_quantile
    value_at_quantile-rank q pos =
        let (low, high) = rank_of_range q (length xs) pos in
        let (i, found, under, reach) =
          find_slot-reaches h.counts 0 0 (rank_of D q (length xs))
            (omega (arith, sum-counts, c.fits)) low (omega (arith, sum-counts)) in
        (
          i,
          at_slot q i (omega (arith, c.total)) (
              ap (λ n. find_slot h.counts 0 0 (rank_of D q n)) c.total
              ∙ found
              ∙ ap some (omega arith)),
          omega (arith, c.prefixes i),
          omega (arith, c.prefixes (suc i)),
        )
