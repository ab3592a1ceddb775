-- ===== src/Aggregator/Trace.antt =====
-- src/stats.cpp: the sequence numbers and the times of the records taken in.
use framewire.Prelude.{
  ℕ, zero, suc, ◌+◌, ◌%◌, ◌^◌, ◌≤◌, ◌<◌, ◌≡◌, refl, arith, inl, inr, min, not, ◌&&◌, Bool,
  Bool-cases, List, [], ◌∷◌, ◌==◌, if◌then◌else◌, get_or, length,
}
use framewire.Prelude.Chars.{Bytes}
use framewire.Double.{Double}
use framewire.Telemetry.{TelemetryRecord, max_passes}
use framewire.Ring.{RingConsumer}
use framewire.Aggregator.{StreamAggregator, new_aggregator, record_passes, ingest}

-- The number of the newest of the records, which are listed newest first; `earlier` is that of the one before them.
abbrev pub newest_seq : ℕ → List TelemetryRecord → ℕ
newest_seq earlier [] = earlier
newest_seq earlier (r ∷ rs) = r.seq

-- Whether a number is not the one after that before it; after 0 any number will do.
abbrev pub skips : ℕ → ℕ → Bool
skips before now = not (before == 0) && not (now == (before + 1) % 2 ^ 64)

-- How often a record's number is not the one after that of the record before it.
abbrev pub gaps : ℕ → List TelemetryRecord → ℕ
gaps earlier [] = 0
gaps earlier (r ∷ rs) = (if skips (newest_seq earlier rs) r.seq then 1 else 0) + gaps earlier rs

gaps_le : (earlier : ℕ) (rs : List TelemetryRecord) → gaps earlier rs ≤ length rs
gaps_le earlier [] = omega arith
gaps_le earlier (r ∷ rs) = let below = gaps_le earlier rs in ground (arith, below)

abbrev pub newest_time : List TelemetryRecord → ℕ
newest_time [] = 0
newest_time (r ∷ rs) = r.t_mono_ns

-- The time of the oldest record that has one.
abbrev pub first_time : List TelemetryRecord → ℕ
first_time [] = 0
first_time (r ∷ rs) = let first = first_time rs in if first == 0 then r.t_mono_ns else first

module _ (D : Double) where
  -- The aggregator knows the newest number, the gaps, and the times of the records `rs`.
  pub record IsTrace (earlier : ℕ) (a : StreamAggregator D) (rs : List TelemetryRecord)
      : Type 0 where
    pub last : a.last_seq ≡ newest_seq earlier rs
    pub skipped : a.sequence_gaps ≡ gaps earlier rs
    pub latest : a.last_ts ≡ newest_time rs
    pub oldest : a.first_ts ≡ first_time rs

  pub new_aggregator-IsTrace :
      (label : Bytes) (consumer : RingConsumer) → IsTrace 0 (new_aggregator D label consumer) []
  unfolding new_aggregator
  new_aggregator-IsTrace label consumer = record {
    last = refl;
    skipped = refl;
    latest = refl;
    oldest = refl;
  }

  record_passes-IsTrace :
      (rec : TelemetryRecord) (left p : ℕ) (earlier : ℕ) (a : StreamAggregator D)
      (rs : List TelemetryRecord)
      → IsTrace earlier a rs
      → IsTrace earlier (record_passes D rec p left a) rs
  unfolding record_passes
  record_passes-IsTrace rec zero p earlier a rs t = t
  record_passes-IsTrace rec (suc left) p earlier a rs t =
      elim (Bool-cases (get_or rec.pass_ns p 0 == 0)) [
        | inl e ↦ rw e (record_passes-IsTrace rec left (p + 1) earlier a rs t)
        | inr e ↦ rw e (
            record_passes-IsTrace rec left (p + 1) earlier _ rs
              (record { last = t.last; skipped = t.skipped; latest = t.latest; oldest = t.oldest }))
      ]

  counted_skip :
      (b : Bool) (n k : ℕ)
      → n ≡ k
      → k + 1 < 2 ^ 64
      → (if b then (n + 1) % 2 ^ 64 else n) ≡ (if b then 1 else 0) + k
  counted_skip b n k e room = ground arith

  -- Taking in one more record adds it to the trace.
  pub ingest-IsTrace :
      (rec : TelemetryRecord) (earlier : ℕ) (a : StreamAggregator D) (rs : List TelemetryRecord)
      → IsTrace earlier a rs
      → length rs + 1 < 2 ^ 64
      → IsTrace earlier (ingest D rec a) (rec ∷ rs)
  unfolding ingest
  ingest-IsTrace rec earlier a rs t room =
      record_passes-IsTrace rec (min rec.pass_count max_passes) 0 earlier _ (rec ∷ rs) (record {
        last = refl;
        skipped = rw t.last (
            counted_skip (skips (newest_seq earlier rs) rec.seq) a.sequence_gaps (gaps earlier rs)
              t.skipped (omega (arith, gaps_le earlier rs)));
        latest = refl;
        oldest = rw t.oldest refl;
      })
