-- ===== src/Aggregator/Tests.antt =====
-- The aggregator of src/stats.cpp on a ring of two records, and the theorems applied to it.
use framewire.Prelude.{
  ℕ, ◌+◌, ◌<◌, ◌≡◌, refl, arith, false, [], ◌∷◌, ◌-◌, suc, length, get_or, ltb, ◌==◌, if◌then◌else◌,
}
use framewire.Prelude.Int.{pos_part}
use framewire.Double.{Double}
use framewire.Telemetry.{TelemetryRecord, stamp_checksum}
use framewire.Ring.{RingMapping, RingConsumer, blank, pop_batch, take_batch, copy_batch}
use framewire.Ring.Mapping.{new_header}
use framewire.Aggregator.{StreamAggregator, new_aggregator, ingest, pump}
use framewire.Aggregator.Tally.{IsTally, new_aggregator-IsTally, samples_of, ingest-IsTally}
use framewire.Aggregator.Snapshot.{snapshot, spark_samples}
use framewire.Aggregator.Newest.{snapshot-newest}
use framewire.Aggregator.Passes.{since}
use framewire.Aggregator.Described.{Describes, directory, layout_after, new_aggregator-Describes}
use framewire.Aggregator.Pump.{Takes, pump-Takes}

abbrev nothing : Double
nothing = record {
  Carrier = ℕ;
  of_nat = λ n. n;
  of_int = λ n. pos_part n;
  plus = λ a b. a + b;
  minus = λ a b. a;
  times = λ a b. b;
  over = λ a b. a;
  sqrt = λ a. a;
  less = λ a b. false;
  ceil = λ a. a;
  floor = λ a. a;
  to_nat = λ a. a;
}

abbrev good : TelemetryRecord
good = stamp_checksum (record blank { seq = 1; gpu_total_ns = 700; flags = 1 })

-- Its checksum is 0, which is wrong.
abbrev torn : TelemetryRecord
torn = record blank { seq = 2 }

abbrev shm : RingMapping
shm = record {
  size = 2688;
  header = record (new_header 2 [] 5 77) { head = 2 };
  slots = good ∷ torn ∷ [];
}

abbrev reader : RingConsumer
reader = record { mask = 1; cached_head = 0 }

abbrev fresh : StreamAggregator nothing
fresh = new_aggregator nothing [] reader

two_read : length (pop_batch shm fresh.consumer 8).2 ≡ 2
unfolding pop_batch take_batch copy_batch new_aggregator
two_read = refl

fresh-Describes : Describes nothing 0 fresh [] []
fresh-Describes = new_aggregator-Describes nothing [] reader

pump-Takes_example :
    let recs = (pop_batch shm fresh.consumer 8).2 in
    let (m', a', n, matched) = pump nothing shm fresh 8 [] in
    (m' ≡ (pop_batch shm fresh.consumer 8).0)
    × (n ≡ length recs)
    × Takes nothing recs fresh 0 []
        (if length recs == 0 then [] else since nothing m'.header [] fresh [])
        a'
        matched
    × (directory nothing a' ≡ (
        if length recs == 0
        then directory nothing fresh
        else layout_after nothing m'.header [] fresh))
unfolding new_aggregator
pump-Takes_example =
    pump-Takes nothing shm fresh 8 [] 0 [] [] fresh-Describes (omega (arith, two_read))
      (omega (arith, two_read)) (omega (arith, two_read, no_errors))
  where
    no_errors : fresh.checksum_errors ≡ 0
    no_errors = refl

abbrev one : StreamAggregator nothing
one = ingest nothing good fresh

one-IsTally : IsTally nothing one (good ∷ [])
one-IsTally =
    ingest-IsTally nothing good fresh [] (new_aggregator-IsTally nothing [] reader) (omega arith)

snapshot-newest_example :
    let shown = snapshot nothing shm 9 one in
    (shown.gpu_last ≡ get_or (samples_of (λ r. r.gpu_total_ns) (good ∷ [])) 0 0)
    × (shown.frame_last ≡ get_or (samples_of (λ r. r.frame_time_ns) (good ∷ [])) 0 0)
    × ((j : ℕ)
        → j < spark_samples
        → get_or shown.spark (spark_samples - suc j) 0 ≡ (
            if ltb j one.gpu_window.size
            then get_or (samples_of (λ r. r.gpu_total_ns) (good ∷ [])) j 0
            else 0))
snapshot-newest_example = snapshot-newest nothing shm 9 one (good ∷ []) one-IsTally
