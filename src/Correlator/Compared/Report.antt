-- ===== src/Correlator/Compared/Report.antt =====
-- src/stats.cpp, `Correlator::Snapshot`: what the report of a comparison says of the groups.
use framewire.Prelude.{
  ℕ, suc, ◌+◌, ◌^◌, ◌<◌, ◌≤◌, ◌≡◌, refl, ap, subst, ◌∙◌, arith, Bool, true, List, [], ◌∷◌, min, ltb,
  leb, length, take,
}
use framewire.Prelude.Int.{ℤ, pos, leb_ℤ}
use framewire.Prelude.Chars.{Bytes}
use framewire.Double.{Double}
use framewire.Histogram.{rank_of}
use framewire.Window.{Window, count_negative, sample_at_quantile, signed_at_quantile}
use framewire.Window.Quantile.{HasRank, sample_at_quantile-HasRank, signed_at_quantile-HasRank}
use framewire.Aggregator.Snapshot.{q50, StreamSnapshot}
use framewire.Correlator.{Stream, Correlator}
use framewire.Correlator.Snapshot.{
  StreamComparison, compare_baseline, compare_other, compare_others, compare_streams, snapshot,
  stream_label,
}
use framewire.Correlator.Compared.{
  differences, KeepsCosts, IsHistory, Histories, AreCompared, IsComparison,
}

length-differences :
    (xs bs : List ℕ) → length xs ≡ length bs → length (differences xs bs) ≡ length bs
length-differences [] bs e = e
length-differences (x ∷ xs) [] e = absurd (omega arith)
length-differences (x ∷ xs) (b ∷ bs) e = ap suc (length-differences xs bs (omega (arith, e)))

count_negative_le : (ds : List ℤ) → count_negative ds ≤ length ds
count_negative_le [] = omega arith
count_negative_le (d ∷ ds) = let below = count_negative_le ds in ground (arith, below)

module _ (D : Double) where
  open D use {Carrier, of_nat, over}

  -- `v` is the median of the newest of the samples `xs`, up to 4096 of them.
  abbrev pub IsMedian {ℓ} : {A : Type ℓ} → (A → A → Bool) → A → List A → Type 0
  IsMedian le v xs = let n = min (length xs) 4096 in HasRank le v (rank_of D (q50 D) n) (take n xs)

  -- The report on a stream whose costs in all groups are `xs`, where the baseline's are `bs`.
  abbrev pub ReportsOn : List ℕ → List ℕ → StreamComparison D → Type 0
  ReportsOn bs xs r =
      IsMedian leb r.gpu_p50 xs
      × IsMedian leb_ℤ r.delta_p50 (differences xs bs)
      × (r.cheaper_fraction
          ≡ over (of_nat (count_negative (differences xs bs))) (of_nat (length bs)))

  abbrev pub ReportOn : List ℕ → List (List ℕ) → List (StreamComparison D) → Type 0
  ReportOn bs [] [] = Unit
  ReportOn bs [] (r ∷ rs) = ⊥
  ReportOn bs (xs ∷ xss) [] = ⊥
  ReportOn bs (xs ∷ xss) (r ∷ rs) = ReportsOn bs xs r × ReportOn bs xss rs

  -- The report on the baseline, whose costs are `bs`, and on the other streams.
  abbrev pub IsReport : List ℕ → List (List ℕ) → List (StreamComparison D) → Type 0
  IsReport bs xss [] = ⊥
  IsReport bs xss (base ∷ others) = IsMedian leb base.gpu_p50 bs × ReportOn bs xss others

  grouped-IsMedian :
      (w : Window ℕ) (xs : List ℕ)
      → KeepsCosts 0 w xs
      → 0 < length xs
      → IsMedian leb (sample_at_quantile D w (q50 D)) xs
  grouped-IsMedian w xs (k, full) some_cost =
      let held : w.size ≡ min (length xs) 4096 = k.holds.filled ∙ ap (min (length xs)) full in
      subst (λ n. HasRank leb (sample_at_quantile D w (q50 D)) (rank_of D (q50 D) n) (take n xs))
        held (sample_at_quantile-HasRank D w xs (q50 D) k (omega (arith, held)))

  delta-IsMedian :
      (w : Window ℤ) (ds : List ℤ)
      → KeepsCosts (pos 0) w ds
      → 0 < length ds
      → IsMedian leb_ℤ (signed_at_quantile D w (q50 D)) ds
  delta-IsMedian w ds (k, full) some_cost =
      let held : w.size ≡ min (length ds) 4096 = k.holds.filled ∙ ap (min (length ds)) full in
      subst (λ n. HasRank leb_ℤ (signed_at_quantile D w (q50 D)) (rank_of D (q50 D) n) (take n ds))
        held (signed_at_quantile-HasRank D w ds (q50 D) k (omega (arith, held)))

  module _ (bs : List ℕ) (some_group : 0 < length bs) (few : length bs < 2 ^ 64) where
    compare_other-ReportsOn :
        (xs : List ℕ) (s : Stream) (baseline_p50 : ℕ) (label : Bytes)
        → IsHistory bs xs s
        → ReportsOn bs xs (compare_other D (length bs) baseline_p50 label s)
    unfolding compare_other
    compare_other-ReportsOn xs s baseline_p50 label h =
        let ds = differences xs bs in
        let long : length ds ≡ length bs = length-differences xs bs h.same_groups in
        let test : ltb 0 (length bs) ≡ true = ground arith in
        let counted : s.cheaper_than_baseline ≡ count_negative ds =
          omega (arith, h.cheaper, count_negative_le ds, long) in
        (
          grouped-IsMedian s.gpu_grouped xs h.costs (omega (arith, h.same_groups)),
          delta-IsMedian s.gpu_delta ds h.deltas (omega (arith, long)),
          rw (test, counted) refl,
        )

    compare_others-ReportOn :
        (ss : List Stream) (xss : List (List ℕ)) (baseline_p50 : ℕ)
        (snapshots : List (StreamSnapshot D)) (i : ℕ)
        → Histories bs ss xss
        → ReportOn bs xss (compare_others D (length bs) baseline_p50 snapshots i ss)
    unfolding compare_others
    compare_others-ReportOn [] [] baseline_p50 snapshots i h = tt
    compare_others-ReportOn [] (xs ∷ xss) baseline_p50 snapshots i h = absurd h
    compare_others-ReportOn (s ∷ ss) [] baseline_p50 snapshots i h = absurd h
    compare_others-ReportOn (s ∷ ss) (xs ∷ xss) baseline_p50 snapshots i (h, rest) = (
      compare_other-ReportsOn xs s baseline_p50 (stream_label D snapshots i) h,
      compare_others-ReportOn ss xss baseline_p50 snapshots (i + 1) rest,
    )

    compare_streams-IsReport :
        (ss : List Stream) (xss : List (List ℕ)) (grouped : ℕ) (snapshots : List (StreamSnapshot D))
        → AreCompared grouped ss bs xss
        → IsReport bs xss (compare_streams D grouped snapshots ss)
    unfolding compare_streams compare_baseline
    compare_streams-IsReport [] xss grouped snapshots a = absurd a
    compare_streams-IsReport (s ∷ ss) xss grouped snapshots (k, n, h) =
        let all : grouped ≡ length bs = omega (arith, n) in
        rw all (
          grouped-IsMedian s.gpu_grouped bs k some_group,
          compare_others-ReportOn ss xss _ snapshots 1 h,
        )

    -- What `Snapshot` reports is about the same groups of frames for every stream. Where the windows hold the
    -- costs `bs` of the baseline and `xss` of the other streams, for at least one group and fewer than 2^64, the
    -- report has an entry for the baseline, whose `gpu_p50` is the median of the newest 4096 of `bs`, and one for
    -- each other stream, in order: its `gpu_p50` and `delta_p50` are the medians of the newest 4096 of its costs
    -- and of their differences from `bs`, and `cheaper_fraction` is the number of differences below 0 over the
    -- number of groups. The median is the sample of the rank that the code computes for the quantile 0.5.
    pub snapshot-IsReport :
        (c : Correlator) (xss : List (List ℕ)) (snapshots : List (StreamSnapshot D))
        → IsComparison c bs xss
        → IsReport bs xss (snapshot D c snapshots).streams
    unfolding snapshot
    snapshot-IsReport c xss snapshots a =
        compare_streams-IsReport c.streams xss c.grouped snapshots a
