-- ===== src/Correlator/Snapshot.antt =====
-- src/stats.cpp and include/framewire/stats.h, `Correlator::Snapshot` and `WilsonInterval`: the comparison
-- that the dashboard is given.
use framewire.Prelude.{
  ℕ, zero, suc, ◌+◌, min, Bool, true, false, ◌&&◌, ◌||◌, List, [], ◌∷◌, ◌++◌, map, ltb, ◌==◌,
  if◌then◌else◌, get_or, get_elem?, length, none, some,
}
use framewire.Prelude.Chars.{Bytes, codes}
use framewire.Prelude.Int.{ℤ, pos, ltb_ℤ}
use framewire.Double.{Double}
use framewire.Json.Text.{to_string}
use framewire.Window.{
  new_samples, new_signed, sample_at_quantile, signed_at_quantile, quantile_interval,
}
use framewire.Correlator.{Correlator, Stream}
use framewire.Aggregator.Snapshot.{q50, PassView, StreamSnapshot}

pub record PassDelta : Type 0 where
  pub name : Bytes
  pub delta_p50 : ℤ
  pub a_p50 : ℕ
  pub b_p50 : ℕ

module _ (D : Double) where
  open D use {Carrier, of_nat, plus, minus, times, over, sqrt, less}

  pub record StreamComparison : Type 0 where
    pub label : Bytes
    pub gpu_p50 : ℕ
    pub delta_p50 : ℤ
    pub cheaper_fraction : Carrier
    pub speedup : Carrier
    pub is_baseline : Bool
    pub delta_p50_low : ℤ
    pub delta_p50_high : ℤ
    pub cheaper_low : Carrier
    pub cheaper_high : Carrier
    pub interval_valid : Bool
    pub significant : Bool

  pub record ComparisonSnapshot : Type 0 where
    pub grouped : ℕ
    pub unmatched : List ℕ
    pub streams : List StreamComparison
    pub pass_deltas : List PassDelta

  -- kZ95, the literal 1.959964
  abbrev pub z95 : Carrier
  z95 = over (of_nat 1959964) (of_nat 1000000)

  -- `std::max(0.0, v)` and `std::min(1.0, v)`
  abbrev at_least_zero : Carrier → Carrier
  at_least_zero v = if less (of_nat 0) v then v else of_nat 0

  abbrev at_most_one : Carrier → Carrier
  at_most_one v = if less v (of_nat 1) then v else of_nat 1

  -- The two bounds, `low` first.
  unfoldable pub wilson_interval : ℕ → ℕ → Carrier → Carrier × Carrier
  wilson_interval successes trials z =
      let n = of_nat trials in
      let p = over (of_nat successes) n in
      let z2 = times z z in
      let denom = plus (of_nat 1) (over z2 n) in
      let centre = over (plus p (over z2 (times (of_nat 2) n))) denom in
      let under =
        plus (over (times p (minus (of_nat 1) p)) n) (over z2 (times (times (of_nat 4) n) n)) in
      let margin = over (times z (sqrt under)) denom in
      if trials == 0
      then (of_nat 0, of_nat 0)
      else (at_least_zero (minus centre margin), at_most_one (plus centre margin))

  -- Whether both bounds are on one side of zero.
  abbrev pub one_side_of_zero : ℤ → ℤ → Bool
  one_side_of_zero low high =
      ltb_ℤ (pos 0) low && ltb_ℤ (pos 0) high || ltb_ℤ low (pos 0) && ltb_ℤ high (pos 0)

  -- The label that the aggregator reports, or one made of the index.
  unfoldable pub stream_label : List (StreamSnapshot D) → ℕ → Bytes
  stream_label snapshots i = elim (get_elem? snapshots i) [
    | none ↦ codes "stream " ++ to_string (pos i)
    | some s ↦ s.label
  ]

  -- The first round of the loop of `Snapshot` over the streams; `label` is read from the snapshots.
  unfoldable pub compare_baseline : Bytes → Stream → StreamComparison
  compare_baseline label s = record {
    label = label;
    gpu_p50 = sample_at_quantile D s.gpu_grouped (q50 D);
    delta_p50 = pos 0;
    cheaper_fraction = of_nat 0;
    speedup = of_nat 1;
    is_baseline = true;
    delta_p50_low = pos 0;
    delta_p50_high = pos 0;
    cheaper_low = of_nat 0;
    cheaper_high = of_nat 0;
    interval_valid = false;
    significant = false;
  }

  -- The other rounds.
  unfoldable pub compare_other : ℕ → ℕ → Bytes → Stream → StreamComparison
  unfolding wilson_interval
  compare_other grouped baseline_p50 label s =
      let gpu_p50 = sample_at_quantile D s.gpu_grouped (q50 D) in
      let (valid, low, high) = quantile_interval D s.gpu_delta (q50 D) z95 in
      let bounds = wilson_interval s.cheaper_than_baseline grouped z95 in
      record {
        label = label;
        gpu_p50 = gpu_p50;
        delta_p50 = signed_at_quantile D s.gpu_delta (q50 D);
        cheaper_fraction =
            if ltb 0 grouped
            then over (of_nat s.cheaper_than_baseline) (of_nat grouped)
            else of_nat 0;
        speedup = if ltb 0 gpu_p50 then over (of_nat baseline_p50) (of_nat gpu_p50) else of_nat 0;
        is_baseline = false;
        delta_p50_low = low;
        delta_p50_high = high;
        cheaper_low = if ltb 0 grouped then bounds.0 else of_nat 0;
        cheaper_high = if ltb 0 grouped then bounds.1 else of_nat 0;
        interval_valid = valid;
        significant = valid && one_side_of_zero low high;
      }

  unfoldable pub compare_others :
      ℕ → ℕ → List (StreamSnapshot D) → ℕ → List Stream → List StreamComparison
  unfolding compare_other stream_label
  compare_others grouped baseline_p50 snapshots i [] = []
  compare_others grouped baseline_p50 snapshots i (s ∷ ss) =
      compare_other grouped baseline_p50 (stream_label snapshots i) s
      ∷ compare_others grouped baseline_p50 snapshots (i + 1) ss

  unfoldable pub compare_streams : ℕ → List (StreamSnapshot D) → List Stream → List StreamComparison
  unfolding compare_baseline compare_others stream_label
  compare_streams grouped snapshots [] = []
  compare_streams grouped snapshots (s ∷ ss) =
      compare_baseline (stream_label snapshots 0) s
      ∷ compare_others grouped (sample_at_quantile D s.gpu_grouped (q50 D)) snapshots 1 ss

  -- The loop over the passes of the first stream, `p` from 0 and with `left` rounds to go.
  unfoldable pub delta_passes : Correlator → List PassView → ℕ → ℕ → List PassDelta
  delta_passes c views p zero = []
  delta_passes c views p (suc left) =
      let rest = delta_passes c views (p + 1) left in
      let delta = get_or c.pass_delta p (new_signed 4096) in
      if delta.size == 0
      then rest
      else (record {
        name = elim (get_elem? views p) [ none ↦ [] | some view ↦ view.name ];
        delta_p50 = signed_at_quantile D delta (q50 D);
        a_p50 = sample_at_quantile D (get_or c.pass_a p (new_samples 4096)) (q50 D);
        b_p50 = sample_at_quantile D (get_or c.pass_b p (new_samples 4096)) (q50 D);
      }
          ∷ rest)

  -- The pass deltas, for two streams of which two snapshots are given.
  unfoldable pub pair_deltas : Correlator → List (StreamSnapshot D) → List PassDelta
  unfolding delta_passes
  pair_deltas c (a ∷ b ∷ []) =
      if length c.streams == 2
      then delta_passes c a.passes 0 (min (length a.passes) (length b.passes))
      else []
  pair_deltas c snapshots = []

  unfoldable pub snapshot : Correlator → List (StreamSnapshot D) → ComparisonSnapshot
  unfolding compare_streams pair_deltas
  snapshot c snapshots = record {
    grouped = c.grouped;
    unmatched = map (λ s. s.unmatched) c.streams;
    streams = compare_streams c.grouped snapshots c.streams;
    pass_deltas = pair_deltas c snapshots;
  }
