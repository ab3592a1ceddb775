-- ===== src/Aggregator/Newest.antt =====
-- src/stats.cpp: a snapshot's latest values, in terms of the records taken in.
use framewire.Prelude.{ℕ, suc, ◌-◌, ◌<◌, ◌≡◌, List, get_or, ltb, if◌then◌else◌}
use framewire.Double.{Double}
use framewire.Telemetry.{TelemetryRecord}
use framewire.Ring.{RingMapping}
use framewire.Window.Readback.{newest-last, copy_recent-get}
use framewire.Aggregator.{StreamAggregator}
use framewire.Aggregator.Snapshot.{snapshot, spark_samples}
use framewire.Aggregator.Tally.{IsTally, samples_of}

module _ (D : Double) where
  -- Where the statistics describe the records `rs` (newest first), `Snapshot` shows their latest GPU time and frame
  -- time above 0 (0 if there is none), and the sparkline holds the latest GPU times, the newest at its end, and 0 before
  -- those that the window holds.
  pub snapshot-newest :
      (m : RingMapping) (now : ℕ) (a : StreamAggregator D) (rs : List TelemetryRecord)
      → IsTally D a rs
      → let shown = snapshot D m now a in
        let gpu_times = samples_of (λ r. r.gpu_total_ns) rs in
        (shown.gpu_last ≡ get_or gpu_times 0 0)
        × (shown.frame_last ≡ get_or (samples_of (λ r. r.frame_time_ns) rs) 0 0)
        × ((j : ℕ)
            → j < spark_samples
            → get_or shown.spark (spark_samples - suc j) 0
              ≡ (if ltb j a.gpu_window.size then get_or gpu_times j 0 else 0))
  unfolding snapshot
  snapshot-newest m now a rs t = (
    newest-last a.gpu_window (samples_of (λ r. r.gpu_total_ns) rs) t.recent_gpu.holds,
    newest-last a.frame_time_window (samples_of (λ r. r.frame_time_ns) rs) t.recent_frames.holds,
    λ j h.
        copy_recent-get a.gpu_window (samples_of (λ r. r.gpu_total_ns) rs) t.recent_gpu.holds
          spark_samples j h,
  )
