-- ===== src/Aggregator/Snapshot.antt =====
-- src/stats.cpp and include/framewire/stats.h, `StreamAggregator::Snapshot`: what the dashboard is given.
use framewire.Prelude.{
  ℕ, zero, suc, ◌+◌, ◌-◌, Bool, not, ◌&&◌, List, [], ◌∷◌, ltb, if◌then◌else◌, get_or,
}
use framewire.Prelude.Chars.{Bytes, c_str}
use framewire.Double.{Double}
use framewire.Ring.{RingMapping, pending_count}
use framewire.Ring.Publish.{read_environment, producer_gone}
use framewire.Histogram.{Histogram, empty_histogram, value_at_quantile, mean}
use framewire.Window.{
  SampleWindow, new_samples, newest, copy_recent, values_at_quantiles, sample_at_quantile,
  mean_samples,
}
use framewire.Aggregator.{StreamAggregator, default_layout}

pub record QuantileSet : Type 0 where
  pub p50 : ℕ
  pub p99 : ℕ
  pub p999 : ℕ
  pub max : ℕ

pub record PassView : Type 0 where
  pub name : Bytes
  pub p50 : ℕ
  pub p99 : ℕ
  pub mean : ℕ
  pub samples : ℕ

-- kProducerStaleNs, kSparkSamples
abbrev pub producer_stale_ns : ℕ
producer_stale_ns = 2000000000

abbrev pub spark_samples : ℕ
spark_samples = 64

module _ (D : Double) where
  open D use {Carrier, of_nat, times, over, less, to_nat}

  -- kQ50, kQ99 and kQ999: a quotient is rounded to the double nearest to it, as a literal is.
  abbrev pub q50 : Carrier
  q50 = over (of_nat 50) (of_nat 100)

  abbrev pub q99 : Carrier
  q99 = over (of_nat 99) (of_nat 100)

  abbrev pub q999 : Carrier
  q999 = over (of_nat 999) (of_nat 1000)

  unfoldable pub from_window : SampleWindow → QuantileSet
  from_window w =
      let values = values_at_quantiles D w (q50 ∷ q99 ∷ q999 ∷ []) in
      record {
        p50 = get_or values 0 0;
        p99 = get_or values 1 0;
        p999 = get_or values 2 0;
        max = sample_at_quantile D w (of_nat 1);
      }

  unfoldable pub from_histogram : Histogram D → QuantileSet
  from_histogram h = record {
    p50 = value_at_quantile D h q50;
    p99 = value_at_quantile D h q99;
    p999 = value_at_quantile D h q999;
    max = h.max_seen;
  }

  pub record StreamSnapshot : Type 0 where
    pub label : Bytes
    pub records : ℕ
    pub fps : Carrier
    pub fps_recent : Carrier
    pub gpu_last : ℕ
    pub frame_last : ℕ
    pub frame_time_recent : QuantileSet
    pub frame_time_life : QuantileSet
    pub gpu_recent : QuantileSet
    pub gpu_life : QuantileSet
    pub gpu_mean : Carrier
    pub dropped_frames : ℕ
    pub delayed_frames : ℕ
    pub producer_drops : ℕ
    pub ring_pending : ℕ
    pub checksum_errors : ℕ
    pub sequence_gaps : ℕ
    pub producer_alive : Bool
    pub environment : Bytes
    pub geometry_changes : ℕ
    pub passes : List PassView
    pub spark : List ℕ

  -- The loop of `Snapshot` over the passes, from pass `p` on, with `left` rounds to go.
  unfoldable pub view_passes : StreamAggregator D → ℕ → ℕ → List PassView
  view_passes a p zero = []
  view_passes a p (suc left) =
      let window = get_or a.pass_window p (new_samples 4096) in
      let hist = get_or a.pass_hist p (empty_histogram D default_layout) in
      record {
        name = c_str (get_or a.pass_names p []);
        p50 = sample_at_quantile D window q50;
        p99 = sample_at_quantile D window q99;
        mean = to_nat (framewire.Histogram.mean D hist);
        samples = hist.total_count;
      }
      ∷ view_passes a (p + 1) left

  unfoldable pub frame_rate : ℕ → ℕ → Carrier
  frame_rate records span =
      if ltb 0 span && ltb 1 records
      then over (times (of_nat (records - 1)) (of_nat 1000000000)) (of_nat span)
      else of_nat 0

  unfoldable pub recent_rate : Carrier → Carrier
  recent_rate recent_gap =
      if less (of_nat 0) recent_gap then over (of_nat 1000000000) recent_gap else of_nat 0

  -- `now` is the clock that `ProducerGone` reads.
  unfoldable pub snapshot : RingMapping → ℕ → StreamAggregator D → StreamSnapshot
  unfolding view_passes from_window from_histogram frame_rate recent_rate
  snapshot m now a = record {
    label = a.label;
    records = a.records;
    fps = frame_rate a.records (if ltb a.first_ts a.last_ts then a.last_ts - a.first_ts else 0);
    fps_recent = recent_rate (mean_samples D a.frame_time_window);
    gpu_last = newest a.gpu_window;
    frame_last = newest a.frame_time_window;
    frame_time_recent = from_window a.frame_time_window;
    frame_time_life = from_histogram a.frame_time_hist;
    gpu_recent = from_window a.gpu_window;
    gpu_life = from_histogram a.gpu_hist;
    gpu_mean = framewire.Histogram.mean D a.gpu_hist;
    dropped_frames = a.dropped_frames;
    delayed_frames = a.delayed_frames;
    producer_drops = m.header.push_dropped;
    ring_pending = pending_count m;
    checksum_errors = a.checksum_errors;
    sequence_gaps = a.sequence_gaps;
    producer_alive = not (producer_gone m.header producer_stale_ns now);
    environment = read_environment m.header;
    geometry_changes = m.header.geometry_changes;
    passes = view_passes a 0 a.pass_count;
    spark = copy_recent a.gpu_window spark_samples;
  }
