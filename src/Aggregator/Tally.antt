-- ===== src/Aggregator/Tally.antt =====
-- src/stats.cpp: what the statistics of a stream say of the records taken in.
use Prim.Native.Nat.{bit_and}
use framewire.Prelude.{
  ℕ, zero, suc, ◌+◌, ◌*◌, ◌%◌, ◌^◌, ◌≤◌, ◌<◌, ◌≡◌, refl, arith, inl, inr, min, not, Bool,
  Bool-cases, List, [], ◌∷◌, ltb, ◌==◌, if◌then◌else◌, get_or, length,
}
use framewire.Prelude.Chars.{Bytes}
use framewire.Double.{Double}
use framewire.Telemetry.{TelemetryRecord, max_passes, flag_dropped_frame, flag_delayed_frame}
use framewire.Ring.{RingConsumer}
use framewire.Histogram.{Histogram, layout, magnitude_for_digits, count_buckets, observe}
use framewire.Histogram.Samples.{IsCountOf, empty-IsCountOf, observe-IsCountOf, reset-IsCountOf}
use framewire.Window.{SampleWindow, new_samples, record_sample, reset_samples}
use framewire.Window.Held.{Keeps, new_window-Keeps, slide-Keeps, forget-Keeps}
use framewire.Window.Sort.{count}
use framewire.Aggregator.{
  StreamAggregator, default_layout, new_aggregator, record_passes, ingest, reset_stats,
}

-- The samples above 0 of one kind.
abbrev pub samples_of : (TelemetryRecord → ℕ) → List TelemetryRecord → List ℕ
samples_of f [] = []
samples_of f (r ∷ rs) = let rest = samples_of f rs in if ltb 0 (f r) then f r ∷ rest else rest

pub samples_of_le :
    (f : TelemetryRecord → ℕ) (rs : List TelemetryRecord) → length (samples_of f rs) ≤ length rs
samples_of_le f [] = omega arith
samples_of_le f (r ∷ rs) = ground (arith, samples_of_le f rs)

abbrev pub has_flag : ℕ → TelemetryRecord → Bool
has_flag flag r = not (bit_and r.flags flag == 0)

module _ (D : Double) where
  -- The statistics of a stream describe the records `rs`, listed newest first, and no others.
  pub record IsTally (a : StreamAggregator D) (rs : List TelemetryRecord) : Type 0 where
    pub frames : IsCountOf D a.frame_time_hist (samples_of (λ r. r.frame_time_ns) rs)
    pub recent_frames : Keeps 0 a.frame_time_window (samples_of (λ r. r.frame_time_ns) rs)
    pub gpu : IsCountOf D a.gpu_hist (samples_of (λ r. r.gpu_total_ns) rs)
    pub recent_gpu : Keeps 0 a.gpu_window (samples_of (λ r. r.gpu_total_ns) rs)
    pub recorded : a.records ≡ length rs
    pub dropped : a.dropped_frames ≡ count (has_flag flag_dropped_frame) rs
    pub delayed : a.delayed_frames ≡ count (has_flag flag_delayed_frame) rs

  pub slots_left : 0 < (default_layout.bucket_count + 1) * default_layout.sub_bucket_half_count
  unfolding default_layout layout magnitude_for_digits count_buckets
  slots_left = omega arith

  -- A new aggregator has taken in nothing.
  pub new_aggregator-IsTally :
      (label : Bytes) (consumer : RingConsumer) → IsTally (new_aggregator D label consumer) []
  unfolding new_aggregator new_samples
  new_aggregator-IsTally label consumer = record {
    frames = empty-IsCountOf D default_layout slots_left;
    recent_frames = new_window-Keeps 0 4096;
    gpu = empty-IsCountOf D default_layout slots_left;
    recent_gpu = new_window-Keeps 0 4096;
    recorded = refl;
    dropped = refl;
    delayed = refl;
  }

  record_passes-IsTally :
      (rec : TelemetryRecord) (left p : ℕ) (a : StreamAggregator D) (rs : List TelemetryRecord)
      → IsTally a rs
      → IsTally (record_passes D rec p left a) rs
  unfolding record_passes
  record_passes-IsTally rec zero p a rs t = t
  record_passes-IsTally rec (suc left) p a rs t = elim (Bool-cases (get_or rec.pass_ns p 0 == 0)) [
    | inl e ↦ rw e (record_passes-IsTally rec left (p + 1) a rs t)
    | inr e ↦ rw e (
        record_passes-IsTally rec left (p + 1) _ rs (record {
          frames = t.frames;
          recent_frames = t.recent_frames;
          gpu = t.gpu;
          recent_gpu = t.recent_gpu;
          recorded = t.recorded;
          dropped = t.dropped;
          delayed = t.delayed;
        }))
  ]

  observed :
      (f : TelemetryRecord → ℕ) (h : Histogram D) (rec : TelemetryRecord)
      (rs : List TelemetryRecord)
      → IsCountOf D h (samples_of f rs)
      → length rs + 1 < 2 ^ 64
      → IsCountOf D (if ltb 0 (f rec) then observe D h (f rec) else h) (samples_of f (rec ∷ rs))
  observed f h rec rs c room = elim (Bool-cases (ltb 0 (f rec))) [
    | inl e ↦
        rw e (observe-IsCountOf D h (samples_of f rs) c (f rec) (omega (arith, samples_of_le f rs)))
    | inr e ↦ rw e c
  ]

  kept :
      (f : TelemetryRecord → ℕ) (w : SampleWindow) (rec : TelemetryRecord)
      (rs : List TelemetryRecord)
      → Keeps 0 w (samples_of f rs)
      → Keeps 0 (if ltb 0 (f rec) then record_sample w (f rec) else w) (samples_of f (rec ∷ rs))
  unfolding record_sample
  kept f w rec rs k = elim (Bool-cases (ltb 0 (f rec))) [
    | inl e ↦ rw e (slide-Keeps 0 w (samples_of f rs) (f rec) k)
    | inr e ↦ rw e k
  ]

  counted :
      (p : TelemetryRecord → Bool) (n : ℕ) (rec : TelemetryRecord) (rs : List TelemetryRecord)
      → n ≡ count p rs
      → n ≤ length rs
      → length rs + 1 < 2 ^ 64
      → (if p rec then (n + 1) % 2 ^ 64 else n) ≡ count p (rec ∷ rs)
  counted p n rec rs e le room = ground arith

  count_le : (p : TelemetryRecord → Bool) (rs : List TelemetryRecord) → count p rs ≤ length rs
  count_le p [] = omega arith
  count_le p (r ∷ rs) = ground (arith, count_le p rs)

  -- Taking in one more record describes that record too.
  pub ingest-IsTally :
      (rec : TelemetryRecord) (a : StreamAggregator D) (rs : List TelemetryRecord)
      → IsTally a rs
      → length rs + 1 < 2 ^ 64
      → IsTally (ingest D rec a) (rec ∷ rs)
  unfolding ingest
  ingest-IsTally rec a rs t room =
      record_passes-IsTally rec (min rec.pass_count max_passes) 0 _ (rec ∷ rs) (record {
        frames = observed (λ r. r.frame_time_ns) a.frame_time_hist rec rs t.frames room;
        recent_frames = kept (λ r. r.frame_time_ns) a.frame_time_window rec rs t.recent_frames;
        gpu = observed (λ r. r.gpu_total_ns) a.gpu_hist rec rs t.gpu room;
        recent_gpu = kept (λ r. r.gpu_total_ns) a.gpu_window rec rs t.recent_gpu;
        recorded = omega (arith, t.recorded);
        dropped =
            counted (has_flag flag_dropped_frame) a.dropped_frames rec rs t.dropped
              (omega (arith, t.dropped, count_le (has_flag flag_dropped_frame) rs)) room;
        delayed =
            counted (has_flag flag_delayed_frame) a.delayed_frames rec rs t.delayed
              (omega (arith, t.delayed, count_le (has_flag flag_delayed_frame) rs)) room;
      })

  -- `ResetStats` forgets every record.
  pub reset_stats-IsTally :
      (a : StreamAggregator D) (rs : List TelemetryRecord)
      → IsTally a rs
      → IsTally (reset_stats D a) []
  unfolding reset_stats reset_samples
  reset_stats-IsTally a rs t = record {
    frames = reset-IsCountOf D a.frame_time_hist (samples_of (λ r. r.frame_time_ns) rs) t.frames;
    recent_frames =
        forget-Keeps 0 a.frame_time_window (samples_of (λ r. r.frame_time_ns) rs) t.recent_frames;
    gpu = reset-IsCountOf D a.gpu_hist (samples_of (λ r. r.gpu_total_ns) rs) t.gpu;
    recent_gpu = forget-Keeps 0 a.gpu_window (samples_of (λ r. r.gpu_total_ns) rs) t.recent_gpu;
    recorded = refl;
    dropped = refl;
    delayed = refl;
  }
