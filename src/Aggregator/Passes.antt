-- ===== src/Aggregator/Passes.antt =====
-- src/stats.cpp: what the statistics of each pass say of the records taken in since the layout changed.
pub mod Ingest
use framewire.Prelude.{
  ℕ, zero, suc, ◌+◌, ◌^◌, ◌<◌, ◌≡◌, ◌≢◌, refl, sym, ap, subst, ◌∙◌, arith, inl, inr, min,
  Bool-cases, true, false, List, [], ◌∷◌, ltb, ◌==◌, if◌then◌else◌, get_or, set, length, length-set,
  length-replicate, length-map, get_or-map, get_or-replicate, get_or-set_self, get_or-set_ne,
  ℕ_discrete,
}
use framewire.Prelude.Chars.{Bytes}
use framewire.Double.{Double}
use framewire.Telemetry.{TelemetryRecord, max_passes}
use framewire.Ring.{RingConsumer, RingHeader}
use framewire.Ring.Publish.{read_layout}
use framewire.Histogram
use framewire.Histogram.{Histogram, empty_histogram, observe}
use framewire.Histogram.Samples.{IsCountOf, empty-IsCountOf, observe-IsCountOf, reset-IsCountOf}
use framewire.Window.{SampleWindow, new_samples, record_sample, reset_samples}
use framewire.Window.Held.{Keeps, new_window-Keeps, slide-Keeps, forget-Keeps}
use framewire.Aggregator.{
  StreamAggregator, default_layout, new_aggregator, refresh_layout, record_passes, ingest,
}
use framewire.Aggregator.Tally.{samples_of, samples_of_le, slots_left}

-- The time that a record gives for pass `p`, 0 if it has no such pass.
abbrev pub time_of : ℕ → TelemetryRecord → ℕ
time_of p r = if ltb p (min r.pass_count max_passes) then get_or r.pass_ns p 0 else 0

module _ (D : Double) where
  abbrev pub hist_of : StreamAggregator D → ℕ → Histogram D
  hist_of a p = get_or a.pass_hist p (empty_histogram D default_layout)

  abbrev pub window_of : StreamAggregator D → ℕ → SampleWindow
  window_of a p = get_or a.pass_window p (new_samples 4096)

  -- The histogram and the window of each pass `p` describe the times above 0 that the records `of p` give for it.
  pub record IsPasses (a : StreamAggregator D) (of : ℕ → List TelemetryRecord) : Type 0 where
    pub hists : length a.pass_hist ≡ max_passes
    pub windows : length a.pass_window ≡ max_passes
    pub counted :
        (p : ℕ)
        → p < max_passes
        → IsCountOf D
            (get_or a.pass_hist p (empty_histogram D default_layout))
            (samples_of (time_of p) (of p))
    pub kept :
        (p : ℕ)
        → p < max_passes
        → Keeps 0 (get_or a.pass_window p (new_samples 4096)) (samples_of (time_of p) (of p))

  -- The statistics of every pass describe the records `ps`, listed newest first.
  abbrev pub IsPassTally : StreamAggregator D → List TelemetryRecord → Type 0
  IsPassTally a ps = IsPasses a (λ p. ps)

  pub new_aggregator-IsPassTally :
      (label : Bytes) (consumer : RingConsumer) → IsPassTally (new_aggregator D label consumer) []
  unfolding new_aggregator new_samples
  new_aggregator-IsPassTally label consumer = record {
    hists = length-replicate max_passes (empty_histogram D default_layout);
    windows = length-replicate max_passes (new_samples 4096);
    counted = λ p h.
        subst (λ x. IsCountOf D x []) (sym (get_or-replicate max_passes p _))
          (empty-IsCountOf D default_layout (slots_left D));
    kept = λ p h.
        subst (λ x. Keeps {A = ℕ} 0 x []) (sym (get_or-replicate max_passes p _))
          (new_window-Keeps 0 4096);
  }

  -- Only the samples of the records matter.
  pub same_samples :
      (a : StreamAggregator D) (of of' : ℕ → List TelemetryRecord)
      → ((q : ℕ) → samples_of (time_of q) (of q) ≡ samples_of (time_of q) (of' q))
      → IsPasses a of
      → IsPasses a of'
  same_samples a of of' same t = record {
    hists = t.hists;
    windows = t.windows;
    counted = λ q h.
        subst (λ xs. IsCountOf D (get_or a.pass_hist q (empty_histogram D default_layout)) xs)
          (same q) (t.counted q h);
    kept = λ q h.
        subst (λ xs. Keeps {A = ℕ} 0 (get_or a.pass_window q (new_samples 4096)) xs) (same q)
          (t.kept q h);
  }

  -- The records that the pass statistics describe after `RefreshLayout`: none, where the layout is a new one.
  abbrev pub since :
      RingHeader → List Bytes → StreamAggregator D → List TelemetryRecord → List TelemetryRecord
  since h names a ps = if (read_layout h names).2 == a.layout_version then ps else []

  pub refresh_layout-IsPassTally :
      (h : RingHeader) (names : List Bytes) (a : StreamAggregator D) (ps : List TelemetryRecord)
      → IsPassTally a ps
      → IsPassTally (refresh_layout D h names a) (since h names a ps)
  unfolding refresh_layout reset_samples
  refresh_layout-IsPassTally h names a ps t =
      elim (Bool-cases ((read_layout h names).2 == a.layout_version)) [
        | inl e ↦ rw e t
        | inr e ↦ rw e (record {
          hists = length-map (framewire.Histogram.reset D) a.pass_hist ∙ t.hists;
          windows = length-map reset_samples a.pass_window ∙ t.windows;
          counted = λ p inside.
              subst (λ x. IsCountOf D x [])
                (sym (
                  get_or-map (framewire.Histogram.reset D) a.pass_hist p _
                    (empty_histogram D default_layout) (omega (arith, t.hists))))
                (reset-IsCountOf D (hist_of a p) (samples_of (time_of p) ps) (t.counted p inside));
          kept = λ p inside.
              subst (λ x. Keeps {A = ℕ} 0 x [])
                (sym (
                  get_or-map reset_samples a.pass_window p _ (new_samples 4096)
                    (omega (arith, t.windows))))
                (forget-Keeps 0 (window_of a p) (samples_of (time_of p) ps) (t.kept p inside));
        })
      ]
