-- ===== src/Aggregator/Described.antt =====
-- src/stats.cpp: all that the statistics of a stream say of the records taken in, through `RefreshLayout` and a record.
use framewire.Prelude.{
  ℕ, zero, suc, ◌+◌, ◌^◌, ◌<◌, ◌≤◌, ◌≡◌, refl, arith, inl, inr, Bool-cases, min, get_or, List, [],
  ◌∷◌, ◌==◌, if◌then◌else◌, length,
}
use framewire.Prelude.Chars.{Bytes}
use framewire.Double.{Double}
use framewire.Telemetry.{TelemetryRecord, max_passes}
use framewire.Ring.{RingHeader, RingConsumer}
use framewire.Ring.Publish.{read_layout}
use framewire.Aggregator.{StreamAggregator, new_aggregator, refresh_layout, record_passes, ingest}
use framewire.Aggregator.Tally.{IsTally, new_aggregator-IsTally, ingest-IsTally}
use framewire.Aggregator.Trace.{IsTrace, new_aggregator-IsTrace, ingest-IsTrace}
use framewire.Aggregator.Passes.Ingest.{ingest-IsPassTally}
use framewire.Aggregator.Passes.{
  IsPassTally, since, new_aggregator-IsPassTally, refresh_layout-IsPassTally,
}

module _ (D : Double) where
  -- The statistics describe the records `rs` taken in, and those of the passes the records `ps` taken in since the
  -- layout changed, both newest first; `earlier` is the sequence number before `rs`.
  pub record Describes (earlier : ℕ) (a : StreamAggregator D) (rs ps : List TelemetryRecord)
      : Type 0 where
    pub tally : IsTally D a rs
    pub trace : IsTrace D earlier a rs
    pub passes : IsPassTally D a ps

  -- The layout of the passes that the aggregator has read last: its version, their number and their names.
  abbrev pub directory : StreamAggregator D → ℕ × ℕ × List Bytes
  directory a = (a.layout_version, a.pass_count, a.pass_names)

  -- The layout known after `RefreshLayout`.
  abbrev pub layout_after : RingHeader → List Bytes → StreamAggregator D → ℕ × ℕ × List Bytes
  layout_after h names a =
      let (count, read, version) = read_layout h names in
      if version == a.layout_version then directory a else (version, count, read)

  pub new_aggregator-Describes :
      (label : Bytes) (consumer : RingConsumer)
      → Describes 0 (new_aggregator D label consumer) [] []
  new_aggregator-Describes label consumer = record {
    tally = new_aggregator-IsTally D label consumer;
    trace = new_aggregator-IsTrace D label consumer;
    passes = new_aggregator-IsPassTally D label consumer;
  }

  -- The reader and the count of errors are not described.
  pub untouched :
      (earlier : ℕ) (a : StreamAggregator D) (rs ps : List TelemetryRecord) (c : RingConsumer)
      (errors : ℕ)
      → Describes earlier a rs ps
      → Describes earlier (record a { consumer = c; checksum_errors = errors }) rs ps
  untouched earlier a rs ps c errors d = record {
    tally = record {
      frames = d.tally.frames;
      recent_frames = d.tally.recent_frames;
      gpu = d.tally.gpu;
      recent_gpu = d.tally.recent_gpu;
      recorded = d.tally.recorded;
      dropped = d.tally.dropped;
      delayed = d.tally.delayed;
    };
    trace = record {
      last = d.trace.last;
      skipped = d.trace.skipped;
      latest = d.trace.latest;
      oldest = d.trace.oldest;
    };
    passes = record {
      hists = d.passes.hists;
      windows = d.passes.windows;
      counted = d.passes.counted;
      kept = d.passes.kept;
    };
  }

  -- What no record changes.
  abbrev pub unread : StreamAggregator D → ℕ × (ℕ × ℕ × List Bytes)
  unread a = (a.checksum_errors, directory a)

  unread-record_passes :
      (rec : TelemetryRecord) (left p : ℕ) (a : StreamAggregator D)
      → unread (record_passes D rec p left a) ≡ unread a
  unfolding record_passes
  unread-record_passes rec zero p a = refl
  unread-record_passes rec (suc left) p a = elim (Bool-cases (get_or rec.pass_ns p 0 == 0)) [
    | inl e ↦ rw (record_passes, e) (unread-record_passes rec left (p + 1) a)
    | inr e ↦ rw (record_passes, e) (unread-record_passes rec left (p + 1) _)
  ]

  pub unread-ingest :
      (rec : TelemetryRecord) (a : StreamAggregator D) → unread (ingest D rec a) ≡ unread a
  unfolding ingest
  unread-ingest rec a = unread-record_passes rec (min rec.pass_count max_passes) 0 _

  pub ingest-Describes :
      (rec : TelemetryRecord) (earlier : ℕ) (a : StreamAggregator D) (rs ps : List TelemetryRecord)
      → Describes earlier a rs ps
      → length rs + 1 < 2 ^ 64
      → length ps + 1 < 2 ^ 64
      → Describes earlier (ingest D rec a) (rec ∷ rs) (rec ∷ ps)
  ingest-Describes rec earlier a rs ps d room few = record {
    tally = ingest-IsTally D rec a rs d.tally room;
    trace = ingest-IsTrace D rec earlier a rs d.trace room;
    passes = ingest-IsPassTally D rec ps few a d.passes;
  }

  refresh_layout-rest :
      (h : RingHeader) (names : List Bytes) (earlier : ℕ) (a : StreamAggregator D)
      (rs : List TelemetryRecord)
      → IsTally D a rs
      → IsTrace D earlier a rs
      → IsTally D (refresh_layout D h names a) rs
        × IsTrace D earlier (refresh_layout D h names a) rs
        × ((refresh_layout D h names a).checksum_errors ≡ a.checksum_errors)
        × (directory (refresh_layout D h names a) ≡ layout_after h names a)
  unfolding refresh_layout
  refresh_layout-rest h names earlier a rs tally trace =
      elim (Bool-cases ((read_layout h names).2 == a.layout_version)) [
        | inl e ↦ rw (refresh_layout, e) (tally, trace, refl, refl)
        | inr e ↦
            rw (refresh_layout, e)
              (
                record {
                  frames = tally.frames;
                  recent_frames = tally.recent_frames;
                  gpu = tally.gpu;
                  recent_gpu = tally.recent_gpu;
                  recorded = tally.recorded;
                  dropped = tally.dropped;
                  delayed = tally.delayed;
                },
                record {
                  last = trace.last;
                  skipped = trace.skipped;
                  latest = trace.latest;
                  oldest = trace.oldest;
                },
                refl,
                refl,
              )
      ]

  pub refresh_layout-Describes :
      (h : RingHeader) (names : List Bytes) (earlier : ℕ) (a : StreamAggregator D)
      (rs ps : List TelemetryRecord)
      → Describes earlier a rs ps
      → Describes earlier (refresh_layout D h names a) rs (since D h names a ps)
        × ((refresh_layout D h names a).checksum_errors ≡ a.checksum_errors)
        × (directory (refresh_layout D h names a) ≡ layout_after h names a)
  refresh_layout-Describes h names earlier a rs ps d =
      let (tally, trace, errors, known) =
        refresh_layout-rest h names earlier a rs d.tally d.trace in
      (
        record {
          tally = tally;
          trace = trace;
          passes = refresh_layout-IsPassTally D h names a ps d.passes;
        },
        errors,
        known,
      )

  pub since_le :
      (h : RingHeader) (names : List Bytes) (a : StreamAggregator D) (ps : List TelemetryRecord)
      → length (since D h names a ps) ≤ length ps
  since_le h names a ps = elim (Bool-cases ((read_layout h names).2 == a.layout_version)) [
    | inl e ↦ rw e (omega arith)
    | inr e ↦ rw e (omega arith)
  ]
