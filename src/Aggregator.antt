-- ===== src/Aggregator.antt =====
-- src/stats.cpp and include/framewire/stats.h, class `StreamAggregator`: one ring drained into histograms,
-- windows and counters. `scratch_` is the list that `PopBatch` returns.
pub mod Tally
pub mod Trace
pub mod Passes
pub mod Described
pub mod Pump
pub mod Snapshot
pub mod Newest
mod Tests
use Prim.Native.Nat.{bit_and}
use framewire.Prelude.{
  ℕ, zero, suc, ◌+◌, ◌-◌, ◌%◌, ◌^◌, min, not, ◌&&◌, Bool, List, [], ◌∷◌, ◌++◌, map, ltb, ◌==◌,
  if◌then◌else◌, get_or, set, length, replicate,
}
use framewire.Prelude.Chars.{Bytes}
use framewire.Double.{Double}
use framewire.Telemetry.{
  TelemetryRecord, verify_checksum, max_passes, pass_name_len, flag_dropped_frame,
  flag_delayed_frame,
}
use framewire.Ring.{RingHeader, RingMapping, RingConsumer, pop_batch}
use framewire.Ring.Publish.{read_layout}
use framewire.Histogram
use framewire.Histogram.{Layout, Histogram, layout, magnitude_for_digits, empty_histogram, observe}
use framewire.Window.{SampleWindow, new_samples, record_sample, reset_samples}

-- The default arguments of the constructor of `Histogram`: a ceiling of 60 seconds, three digits.
unfoldable pub default_layout : Layout
unfolding layout magnitude_for_digits
default_layout = layout (magnitude_for_digits 3) 60000000000

module _ (D : Double) where
  pub record StreamAggregator : Type 0 where
    pub label : Bytes
    pub consumer : RingConsumer
    pub frame_time_hist : Histogram D
    pub gpu_hist : Histogram D
    pub frame_time_window : SampleWindow
    pub gpu_window : SampleWindow
    pub pass_hist : List (Histogram D)
    pub pass_window : List SampleWindow
    pub pass_names : List Bytes
    pub pass_count : ℕ
    pub layout_version : ℕ
    pub records : ℕ
    pub dropped_frames : ℕ
    pub delayed_frames : ℕ
    pub checksum_errors : ℕ
    pub sequence_gaps : ℕ
    pub last_seq : ℕ
    pub first_ts : ℕ
    pub last_ts : ℕ

  unfoldable pub new_aggregator : Bytes → RingConsumer → StreamAggregator
  unfolding default_layout
  new_aggregator label consumer = record {
    label = label;
    consumer = consumer;
    frame_time_hist = empty_histogram D default_layout;
    gpu_hist = empty_histogram D default_layout;
    frame_time_window = new_samples 4096;
    gpu_window = new_samples 4096;
    pass_hist = replicate max_passes (empty_histogram D default_layout);
    pass_window = replicate max_passes (new_samples 4096);
    pass_names = replicate max_passes (replicate pass_name_len 0);
    pass_count = 0;
    layout_version = 2 ^ 32 - 1;
    records = 0;
    dropped_frames = 0;
    delayed_frames = 0;
    checksum_errors = 0;
    sequence_gaps = 0;
    last_seq = 0;
    first_ts = 0;
    last_ts = 0;
  }

  -- `RefreshLayout`; `names` is what the uninitialised array of names holds before `ReadLayout` fills it.
  unfoldable pub refresh_layout : RingHeader → List Bytes → StreamAggregator → StreamAggregator
  refresh_layout h names a =
      let (count, read, version) = read_layout h names in
      if version == a.layout_version then a else record a {
        pass_hist = map (framewire.Histogram.reset D) a.pass_hist;
        pass_window = map reset_samples a.pass_window;
        pass_names = read;
        pass_count = count;
        layout_version = version;
      }

  -- The loop of `Pump` over the passes of a record, from pass `p` on, with `left` rounds to go.
  unfoldable pub record_passes : TelemetryRecord → ℕ → ℕ → StreamAggregator → StreamAggregator
  record_passes rec p zero a = a
  record_passes rec p (suc left) a =
      let ns = get_or rec.pass_ns p 0 in
      record_passes rec (p + 1) left (
        if ns == 0 then a else record a {
          pass_hist =
              set a.pass_hist p
                (observe D (get_or a.pass_hist p (empty_histogram D default_layout)) ns);
          pass_window =
              set a.pass_window p (record_sample (get_or a.pass_window p (new_samples 4096)) ns);
        })

  -- What `Pump` does with a record whose checksum is right.
  unfoldable pub ingest : TelemetryRecord → StreamAggregator → StreamAggregator
  unfolding record_passes
  ingest rec a = record_passes rec 0 (min rec.pass_count max_passes) (record a {
    sequence_gaps =
        if not (a.last_seq == 0) && not (rec.seq == (a.last_seq + 1) % 2 ^ 64)
        then (a.sequence_gaps + 1) % 2 ^ 64
        else a.sequence_gaps;
    last_seq = rec.seq;
    first_ts = if a.first_ts == 0 then rec.t_mono_ns else a.first_ts;
    last_ts = rec.t_mono_ns;
    frame_time_hist =
        if ltb 0 rec.frame_time_ns
        then observe D a.frame_time_hist rec.frame_time_ns
        else a.frame_time_hist;
    frame_time_window =
        if ltb 0 rec.frame_time_ns
        then record_sample a.frame_time_window rec.frame_time_ns
        else a.frame_time_window;
    gpu_hist = if ltb 0 rec.gpu_total_ns then observe D a.gpu_hist rec.gpu_total_ns else a.gpu_hist;
    gpu_window =
        if ltb 0 rec.gpu_total_ns
        then record_sample a.gpu_window rec.gpu_total_ns
        else a.gpu_window;
    dropped_frames =
        if not (bit_and rec.flags flag_dropped_frame == 0)
        then (a.dropped_frames + 1) % 2 ^ 64
        else a.dropped_frames;
    delayed_frames =
        if not (bit_and rec.flags flag_delayed_frame == 0)
        then (a.delayed_frames + 1) % 2 ^ 64
        else a.delayed_frames;
    records = (a.records + 1) % 2 ^ 64;
  })

  -- The loop of `Pump` over the records read: the records handed on are those whose checksum is right.
  unfoldable pub pump_records :
      List TelemetryRecord → StreamAggregator → StreamAggregator × List TelemetryRecord
  unfolding ingest
  pump_records [] a = (a, [])
  pump_records (rec ∷ recs) a =
      let good = pump_records recs (ingest rec a) in
      let bad =
        pump_records recs (record a { checksum_errors = (a.checksum_errors + 1) % 2 ^ 64 }) in
      if verify_checksum rec then (good.0, rec ∷ good.1) else bad

  -- `Pump`: the segment, the aggregator, the number of records read, and what is appended to `out_matched`.
  unfoldable pub pump :
      RingMapping
      → StreamAggregator
      → ℕ
      → List Bytes
      → RingMapping × StreamAggregator × ℕ × List TelemetryRecord
  unfolding refresh_layout pump_records
  pump m a max_records names =
      let (m', c, recs) = pop_batch m a.consumer max_records in
      let (a', matched) =
        pump_records recs (refresh_layout m'.header names (record a { consumer = c })) in
      if length recs == 0
      then (m', record a { consumer = c }, 0, [])
      else (m', a', length recs, matched)

  unfoldable pub reset_stats : StreamAggregator → StreamAggregator
  reset_stats a = record a {
    frame_time_hist = framewire.Histogram.reset D a.frame_time_hist;
    gpu_hist = framewire.Histogram.reset D a.gpu_hist;
    frame_time_window = reset_samples a.frame_time_window;
    gpu_window = reset_samples a.gpu_window;
    pass_hist = map (framewire.Histogram.reset D) a.pass_hist;
    pass_window = map reset_samples a.pass_window;
    records = 0;
    dropped_frames = 0;
    delayed_frames = 0;
    checksum_errors = 0;
    sequence_gaps = 0;
    first_ts = 0;
    last_ts = 0;
  }
