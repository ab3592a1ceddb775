-- ===== src/Correlator.antt =====
-- src/stats.cpp and include/framewire/stats.h, class `Correlator`: frames of several streams, grouped by
-- their keys. The class keeps one vector for each kind of data, all indexed by the stream; here a stream's
-- entries stand together in a record, and the streams in a list.
pub mod Process
pub mod Account
pub mod Rounds
mod Tests
pub mod Keys
pub mod Snapshot
pub mod Compared
use framewire.Prelude.{
  ℕ, zero, suc, ◌+◌, ◌-◌, ◌%◌, ◌^◌, min, Bool, true, false, ◌&&◌, List, [], ◌∷◌, ◌++◌, map, ltb,
  leb, ◌==◌, if◌then◌else◌, get_or, set, length, replicate,
}
use framewire.Prelude.Int.{ℤ, pos, ◌-ℤ◌, ltb_ℤ, leb_ℤ}
use framewire.Ring.{blank}
use framewire.Telemetry.{TelemetryRecord, signed64, max_passes}
use framewire.Window.{
  SampleWindow, SignedWindow, new_samples, new_signed, record_sample, record_signed, reset_samples,
  reset_signed,
}

-- What the class keeps for one stream.
pub record Stream : Type 0 where
  pub media_seen : Bool
  pub queue : List TelemetryRecord
  pub gpu_delta : SignedWindow
  pub gpu_grouped : SampleWindow
  pub cheaper_than_baseline : ℕ
  pub unmatched : ℕ

pub record Correlator : Type 0 where
  pub tolerance_ns : ℕ
  pub use_media_time : Bool
  pub streams : List Stream
  pub pass_delta : List SignedWindow
  pub pass_a : List SampleWindow
  pub pass_b : List SampleWindow
  pub grouped : ℕ

-- `PairingKey`
unfoldable pub pairing_key : Bool → TelemetryRecord → ℤ
pairing_key use_media rec =
    if use_media && ltb_ℤ (pos 0) (signed64 rec.media_time_ns)
    then signed64 rec.media_time_ns
    else signed64 rec.t_mono_ns

unfoldable pub new_stream : Stream
new_stream = record {
  media_seen = false;
  queue = [];
  gpu_delta = new_signed 4096;
  gpu_grouped = new_samples 4096;
  cheaper_than_baseline = 0;
  unmatched = 0;
}

unfoldable pub new_correlator : ℕ → ℕ → Correlator
unfolding new_stream
new_correlator stream_count tolerance = record {
  tolerance_ns = tolerance;
  use_media_time = false;
  streams = replicate (if ltb stream_count 2 then 2 else stream_count) new_stream;
  pass_delta = replicate max_passes (new_signed 4096);
  pass_a = replicate max_passes (new_samples 4096);
  pass_b = replicate max_passes (new_samples 4096);
  grouped = 0;
}

-- The loop of `Push` over the records.
unfoldable pub push_records : Stream → List TelemetryRecord → Stream
push_records s [] = s
push_records s (r ∷ rs) =
    push_records
      (record s {
        media_seen = if ltb_ℤ (pos 0) (signed64 r.media_time_ns) then true else s.media_seen;
        queue = s.queue ++ r ∷ [];
      })
      rs

unfoldable pub push_at : List Stream → ℕ → List TelemetryRecord → List Stream
unfolding push_records
push_at [] stream records = []
push_at (s ∷ ss) zero records = push_records s records ∷ ss
push_at (s ∷ ss) (suc stream) records = s ∷ push_at ss stream records

abbrev pub all_seen : List Stream → Bool
all_seen [] = true
all_seen (s ∷ ss) = s.media_seen && all_seen ss

unfoldable pub push : Correlator → ℕ → List TelemetryRecord → Correlator
push c stream records =
    let streams = push_at c.streams stream records in
    if leb (length c.streams) stream
    then c
    else record c { streams = streams; use_media_time = all_seen streams }

-- No code reads the front of an empty queue.
abbrev pub front : List TelemetryRecord → TelemetryRecord
front [] = blank
front (r ∷ rs) = r

abbrev pub pop_front : List TelemetryRecord → List TelemetryRecord
pop_front [] = []
pop_front (r ∷ rs) = rs

-- The loop of `EmitGroup` over the streams after the baseline, each with its front removed.
unfoldable pub emit_others : TelemetryRecord → List Stream → List Stream
emit_others base [] = []
emit_others base (s ∷ ss) =
    let rec = front s.queue in
    let delta = signed64 rec.gpu_total_ns -ℤ signed64 base.gpu_total_ns in
    record s {
      queue = pop_front s.queue;
      gpu_delta = record_signed s.gpu_delta delta;
      gpu_grouped = record_sample s.gpu_grouped rec.gpu_total_ns;
      cheaper_than_baseline =
          if ltb_ℤ delta (pos 0)
          then (s.cheaper_than_baseline + 1) % 2 ^ 64
          else s.cheaper_than_baseline;
    }
    ∷ emit_others base ss

abbrev pub emit_baseline : Stream → Stream
emit_baseline s = record s {
  queue = pop_front s.queue;
  gpu_grouped = record_sample s.gpu_grouped (front s.queue).gpu_total_ns;
}

-- The loop of `EmitGroup` over the passes, from pass `p` on, with `left` rounds to go.
unfoldable pub emit_passes : TelemetryRecord → TelemetryRecord → ℕ → ℕ → Correlator → Correlator
emit_passes base other p zero c = c
emit_passes base other p (suc left) c =
    let a = get_or base.pass_ns p 0 in
    let b = get_or other.pass_ns p 0 in
    emit_passes base other (p + 1) left (record c {
      pass_delta =
          set c.pass_delta p
            (record_signed (get_or c.pass_delta p (new_signed 4096)) (pos b -ℤ pos a));
      pass_a = set c.pass_a p (record_sample (get_or c.pass_a p (new_samples 4096)) a);
      pass_b = set c.pass_b p (record_sample (get_or c.pass_b p (new_samples 4096)) b);
    })

-- Per pass differences, for two streams whose records have as many passes.
unfoldable pub emit_pair : Stream → List Stream → Correlator → Correlator
unfolding emit_passes
emit_pair s [] c = c
emit_pair s (o ∷ []) c =
    let base = front s.queue in
    let other = front o.queue in
    if base.pass_count == other.pass_count
    then emit_passes base other 0 (min base.pass_count max_passes) c
    else c
emit_pair s (o ∷ p ∷ os) c = c

unfoldable pub emit_group : Correlator → Correlator
unfolding emit_others emit_pair
emit_group c = elim c.streams [
  | [] ↦ c
  | s ∷ ss ↦ record (emit_pair s ss c) {
    streams = emit_baseline s ∷ emit_others (front s.queue) ss;
    grouped = (c.grouped + 1) % 2 ^ 64;
  }
]

abbrev pub reset_stream : Stream → Stream
reset_stream s = record {
  media_seen = false;
  queue = [];
  gpu_delta = reset_signed s.gpu_delta;
  gpu_grouped = reset_samples s.gpu_grouped;
  cheaper_than_baseline = 0;
  unmatched = 0;
}

unfoldable pub reset : Correlator → Correlator
reset c = record c {
  use_media_time = false;
  streams = map reset_stream c.streams;
  pass_delta = map reset_signed c.pass_delta;
  pass_a = map reset_samples c.pass_a;
  pass_b = map reset_samples c.pass_b;
  grouped = 0;
}
