-- ===== src/Correlator/Compared/Tests.antt =====
-- The comparison of src/stats.cpp for two streams with a record each, and the theorems applied to it.
use framewire.Prelude.{ℕ, ◌+◌, ◌*◌, ◌-◌, ◌/◌, ◌≡◌, refl, arith, true, [], ◌∷◌, ltb, List}
use framewire.Prelude.Int.{pos, pos_part, ◌-ℤ◌}
use framewire.Double.{Double}
use framewire.Ring.{blank}
use framewire.Telemetry.{TelemetryRecord, signed64}
use framewire.Window.{new_samples, new_signed}
use framewire.Window.Held.{new_window-Keeps}
use framewire.Correlator.{
  Correlator, new_correlator, new_stream, push, push_at, push_records, emit_group, emit_others,
  pairing_key,
}
use framewire.Correlator.Process.{process, process_loop}
use framewire.Correlator.Snapshot.{snapshot}
use framewire.Correlator.Compared.{KeepsCosts, IsComparison}
use framewire.Correlator.Compared.Rounds.{
  push-IsComparison, process-IsComparison, record_sample-KeepsCosts, record_signed-KeepsCosts,
}
use framewire.Correlator.Compared.Lanes.{Steps, lanes}
use framewire.Correlator.Compared.Report.{IsReport, snapshot-IsReport}

-- Doubles that are whole numbers.
abbrev whole : Double
whole = record {
  Carrier = ℕ;
  of_nat = λ n. n;
  of_int = λ n. pos_part n;
  plus = λ a b. a + b;
  minus = λ a b. a - b;
  times = λ a b. a * b;
  over = λ a b. a / b;
  sqrt = λ a. a;
  less = ltb;
  ceil = λ a. a;
  floor = λ a. a;
  to_nat = λ a. a;
}

abbrev costing : ℕ → TelemetryRecord
costing n = record blank { t_mono_ns = 50; gpu_total_ns = n }

abbrev empty : Correlator
empty = new_correlator 2 10

-- The second stream is the cheaper one.
abbrev pushed : Correlator
pushed = push (push empty 0 (costing 9 ∷ [])) 1 (costing 4 ∷ [])

empty_samples-KeepsCosts : KeepsCosts 0 (new_samples 4096) []
unfolding new_samples
empty_samples-KeepsCosts = (new_window-Keeps 0 4096, refl)

empty_signed-KeepsCosts : KeepsCosts (pos 0) (new_signed 4096) []
unfolding new_signed
empty_signed-KeepsCosts = (new_window-Keeps (pos 0) 4096, refl)

empty-IsComparison : IsComparison empty [] ([] ∷ [])
unfolding new_correlator new_stream
empty-IsComparison = (
  empty_samples-KeepsCosts,
  refl,
  (
    record {
      same_groups = refl;
      costs = empty_samples-KeepsCosts;
      deltas = empty_signed-KeepsCosts;
      cheaper = refl;
    },
    tt,
  ),
)

pushed-IsComparison : IsComparison pushed [] ([] ∷ [])
pushed-IsComparison =
    push-IsComparison _ [] _ 1 _ (push-IsComparison empty [] ([] ∷ []) 0 _ empty-IsComparison)

process-IsComparison_example :
    (cs : List ℕ) × (yss : List (List ℕ)) × IsComparison (process true pushed) cs yss
    × Steps (lanes pushed.streams ([] ∷ [] ∷ [])) (lanes (process true pushed).streams (cs ∷ yss))
process-IsComparison_example = process-IsComparison true pushed [] ([] ∷ []) pushed-IsComparison

compared_grouped : (process true pushed).grouped ≡ 1
unfolding process process_loop push new_correlator push_at ◌-ℤ◌ pairing_key emit_group
compared_grouped = refl

-- The one group that the two records make.
abbrev one_group : Correlator
one_group = emit_group pushed

one_group-IsComparison : IsComparison one_group (9 ∷ []) ((4 ∷ []) ∷ [])
unfolding ◌-ℤ◌ emit_group emit_others push push_at push_records new_correlator new_stream
one_group-IsComparison = (
  record_sample-KeepsCosts (new_samples 4096) [] 9 empty_samples-KeepsCosts,
  refl,
  (
    record {
      same_groups = refl;
      costs = record_sample-KeepsCosts (new_samples 4096) [] 4 empty_samples-KeepsCosts;
      deltas =
          record_signed-KeepsCosts (new_signed 4096) [] (signed64 4 -ℤ signed64 9)
            empty_signed-KeepsCosts;
      cheaper = refl;
    },
    tt,
  ),
)

snapshot-IsReport_example :
    IsReport whole (9 ∷ []) ((4 ∷ []) ∷ []) (snapshot whole one_group []).streams
snapshot-IsReport_example =
    snapshot-IsReport whole (9 ∷ []) (omega arith) (omega arith) one_group ((4 ∷ []) ∷ []) []
      one_group-IsComparison
