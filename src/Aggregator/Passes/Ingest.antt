-- ===== src/Aggregator/Passes/Ingest.antt =====
-- src/stats.cpp: the statistics of the passes through the loop of `Pump` over the passes of a record.
use framewire.Prelude.{
  ℕ, zero, suc, ◌+◌, ◌^◌, ◌<◌, ◌≡◌, ◌≢◌, refl, sym, ap, subst, ◌∙◌, arith, inl, inr, min,
  Bool-cases, true, false, List, ◌∷◌, ltb, ◌==◌, if◌then◌else◌, get_or, set, length, length-set,
  get_or-set_self, get_or-set_ne, ℕ_discrete,
}
use framewire.Double.{Double}
use framewire.Telemetry.{TelemetryRecord, max_passes}
use framewire.Histogram.{empty_histogram, observe}
use framewire.Histogram.Samples.{IsCountOf, observe-IsCountOf}
use framewire.Window.{new_samples, record_sample}
use framewire.Window.Held.{Keeps, slide-Keeps}
use framewire.Aggregator.{StreamAggregator, default_layout, record_passes, ingest}
use framewire.Aggregator.Tally.{samples_of, samples_of_le}
use framewire.Aggregator.Passes.{time_of, hist_of, window_of, IsPasses, IsPassTally, same_samples}

-- The records `ps`, and `r` too for the passes before `done`.
abbrev history : ℕ → TelemetryRecord → List TelemetryRecord → ℕ → List TelemetryRecord
history done r ps p = if ltb p done then r ∷ ps else ps

module _ (D : Double) where
  module _ (r : TelemetryRecord) (ps : List TelemetryRecord) (room : length ps + 1 < 2 ^ 64) where
    -- A pass without a time adds no sample.
    no_sample :
        (p : ℕ) → time_of p r ≡ 0 → samples_of (time_of p) (r ∷ ps) ≡ samples_of (time_of p) ps
    no_sample p e = rw e refl

    sample :
        (p : ℕ)
        → (time_of p r == 0) ≡ false
        → samples_of (time_of p) (r ∷ ps) ≡ time_of p r ∷ samples_of (time_of p) ps
    sample p e = let test : ltb 0 (time_of p r) ≡ true = ground arith in rw test refl

    -- One round more changes what is described of pass `p` only.
    history-other : (p q : ℕ) → q ≢ p → history (p + 1) r ps q ≡ history p r ps q
    history-other p q ne = let same : ltb q (p + 1) ≡ ltb q p = ground arith in rw same refl

    history-own : (p : ℕ) → history (p + 1) r ps p ≡ r ∷ ps
    history-own p = let test : ltb p (p + 1) ≡ true = ground arith in rw test refl

    history-before : (p : ℕ) → history p r ps p ≡ ps
    history-before p = let test : ltb p p ≡ false = ground arith in rw test refl

    skip_pass :
        (p : ℕ) (a : StreamAggregator D)
        → time_of p r ≡ 0
        → IsPasses D a (history p r ps)
        → IsPasses D a (history (p + 1) r ps)
    skip_pass p a zero_time t = same_samples D a (history p r ps) (history (p + 1) r ps) same t
      where
        same :
            (q : ℕ)
            → samples_of (time_of q) (history p r ps q)
              ≡ samples_of (time_of q) (history (p + 1) r ps q)
        same q = elim (ℕ_discrete q p) [
          | yes e ↦ rw (e, history-own p, history-before p) (sym (no_sample p zero_time))
          | no ne ↦ rw (history-other p q ne) refl
        ]

    record_pass :
        (p ns : ℕ) (a : StreamAggregator D)
        → p < max_passes
        → time_of p r ≡ ns
        → (ns == 0) ≡ false
        → IsPasses D a (history p r ps)
        → IsPasses D
            (record a {
              pass_hist =
                  set a.pass_hist p
                    (observe D (get_or a.pass_hist p (empty_histogram D default_layout)) ns);
              pass_window =
                  set a.pass_window p
                    (record_sample (get_or a.pass_window p (new_samples 4096)) ns);
            })
            (history (p + 1) r ps)
    unfolding record_sample
    record_pass p ns a inside time some_time t = record {
      hists = length-set a.pass_hist p _ ∙ t.hists;
      windows = length-set a.pass_window p _ ∙ t.windows;
      counted = λ q h. elim (ℕ_discrete q p) [
        | yes e ↦
            rw
              (
                e,
                get_or-set_self a.pass_hist p (observe D (hist_of D a p) ns)
                    (empty_histogram D default_layout) (omega (arith, t.hists)),
                own,
              )
              (observe-IsCountOf D (hist_of D a p) (samples_of (time_of p) ps)
                (subst (λ xs. IsCountOf D (hist_of D a p) (samples_of (time_of p) xs))
                  (history-before p) (t.counted p inside))
                ns (omega (arith, samples_of_le (time_of p) ps)))
        | no ne ↦
            rw
              (
                get_or-set_ne a.pass_hist {i = p} {j = q} (observe D (hist_of D a p) ns)
                    (empty_histogram D default_layout) (λ e. ne (sym e)),
                history-other p q ne,
              )
              (t.counted q h)
      ];
      kept = λ q h. elim (ℕ_discrete q p) [
        | yes e ↦
            rw
              (
                e,
                get_or-set_self a.pass_window p (record_sample (window_of D a p) ns)
                    (new_samples 4096) (omega (arith, t.windows)),
                own,
              )
              (slide-Keeps 0 (window_of D a p) (samples_of (time_of p) ps) ns (
                subst (λ xs. Keeps 0 (window_of D a p) (samples_of (time_of p) xs))
                  (history-before p) (t.kept p inside)))
        | no ne ↦
            rw
              (
                get_or-set_ne a.pass_window {i = p} {j = q} (record_sample (window_of D a p) ns)
                    (new_samples 4096) (λ e. ne (sym e)),
                history-other p q ne,
              )
              (t.kept q h)
      ];
    }
      where
        own : samples_of (time_of p) (history (p + 1) r ps p) ≡ ns ∷ samples_of (time_of p) ps
        own =
            let test : (time_of p r == 0) ≡ false = rw time some_time in
            rw history-own (sample p test ∙ ap (λ t. t ∷ samples_of (time_of p) ps) time)

    record_passes-IsPasses :
        (left p : ℕ) (a : StreamAggregator D)
        → p + left ≡ min r.pass_count max_passes
        → IsPasses D a (history p r ps)
        → IsPasses D (record_passes D r p left a) (history (p + left) r ps)
    unfolding record_passes
    record_passes-IsPasses zero p a e t = let same : p + 0 ≡ p = omega arith in rw same t
    record_passes-IsPasses (suc left) p a e t =
        let present : ltb p (min r.pass_count max_passes) ≡ true = ground (arith, e) in
        let time : time_of p r ≡ get_or r.pass_ns p 0 = rw present refl in
        let next : p + suc left ≡ p + 1 + left = omega arith in
        rw next (elim (Bool-cases (get_or r.pass_ns p 0 == 0)) [
          | inl none_given ↦
              let zero_time : time_of p r ≡ 0 = ground (arith, time, none_given) in
              rw none_given (
                record_passes-IsPasses left (p + 1) a (omega (arith, e))
                  (skip_pass p a zero_time t))
          | inr given ↦ rw given (
              record_passes-IsPasses left (p + 1) _ (omega (arith, e))
                (record_pass p (get_or r.pass_ns p 0) a (omega (arith, e)) time given t))
        ])

    -- A record has no time for the passes from its count on.
    all_passes :
        (q : ℕ)
        → samples_of (time_of q) (history (min r.pass_count max_passes) r ps q)
          ≡ samples_of (time_of q) (r ∷ ps)
    all_passes q = elim (Bool-cases (ltb q (min r.pass_count max_passes))) [
      | inl e ↦
          let both : history (min r.pass_count max_passes) r ps q ≡ r ∷ ps = rw e refl in
          ap (samples_of (time_of q)) both
      | inr e ↦
          let old : history (min r.pass_count max_passes) r ps q ≡ ps = rw e refl in
          let absent : time_of q r ≡ 0 = rw e refl in
          ap (samples_of (time_of q)) old ∙ sym (no_sample q absent)
    ]

    no_pass : (q : ℕ) → history 0 r ps q ≡ ps
    no_pass q = let test : ltb q 0 ≡ false = ground arith in rw test refl

    -- Taking in one more record describes its passes too.
    pub ingest-IsPassTally :
        (a : StreamAggregator D) → IsPassTally D a ps → IsPassTally D (ingest D r a) (r ∷ ps)
    unfolding ingest
    ingest-IsPassTally a t =
        let n : ℕ = min r.pass_count max_passes in
        let none_yet =
          same_samples D a (λ p. ps) (history 0 r ps)
            (λ q. ap (samples_of (time_of q)) (sym (no_pass q))) t in
        same_samples D _ (history (0 + n) r ps) (λ p. r ∷ ps)
          (λ q. let zero_add : 0 + n ≡ n = omega arith in rw zero_add (all_passes q))
          (record_passes-IsPasses n 0 _ (omega arith) (record {
            hists = none_yet.hists;
            windows = none_yet.windows;
            counted = none_yet.counted;
            kept = none_yet.kept;
          }))
