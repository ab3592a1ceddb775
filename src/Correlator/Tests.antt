-- ===== src/Correlator/Tests.antt =====
-- The correlator of src/stats.cpp at two streams with a few records, and the theorems applied to it.
use framewire.Prelude.{ℕ, ◌<◌, ◌≡◌, refl, arith, ◌⊎◌, true, false, [], ◌∷◌, length}
use framewire.Prelude.Int.{◌-ℤ◌}
use framewire.Ring.{blank}
use framewire.Telemetry.{TelemetryRecord}
use framewire.Correlator.{
  Correlator, new_correlator, new_stream, pairing_key, push, push_at, push_records, emit_group,
}
use framewire.Correlator.Process.{
  process, process_loop, any_empty, total_queued, decide, retire_at, max_queued,
}
use framewire.Correlator.Account.{IsAccount, push-IsAccount, process-IsAccount}
use framewire.Correlator.Keys.{AllClose, IsLate, decide-groups_or_retires}
use framewire.Correlator.Rounds.{AllShort, process_loop-ends, process-AllShort}

abbrev at : ℕ → TelemetryRecord
at n = record blank { t_mono_ns = n; gpu_total_ns = n }

abbrev empty : Correlator
empty = new_correlator 2 10

abbrev one_side : Correlator
one_side = push empty 0 (at 5 ∷ at 100 ∷ [])

abbrev both : Correlator
both = push one_side 1 (at 103 ∷ [])

empty-IsAccount : IsAccount empty (0 ∷ 0 ∷ [])
unfolding new_correlator new_stream
empty-IsAccount = ((refl, omega arith), ((refl, omega arith), tt))

one_side-IsAccount : IsAccount one_side (2 ∷ 0 ∷ [])
one_side-IsAccount =
    push-IsAccount empty (0 ∷ 0 ∷ []) 0 (at 5 ∷ at 100 ∷ []) empty-IsAccount
      (omega arith, (omega arith, tt))

both-IsAccount : IsAccount both (2 ∷ 1 ∷ [])
both-IsAccount =
    push-IsAccount one_side (2 ∷ 0 ∷ []) 1 (at 103 ∷ []) one_side-IsAccount
      (omega arith, (omega arith, tt))

-- The record at 5 is retired, those at 100 and 103 are grouped.
both_grouped : (process false both).grouped ≡ 1
unfolding process process_loop push new_correlator push_at ◌-ℤ◌ pairing_key emit_group
both_grouped = refl

process-IsAccount_example : IsAccount (process true both) (2 ∷ 1 ∷ [])
process-IsAccount_example = process-IsAccount true both (2 ∷ 1 ∷ []) both-IsAccount

two_streams : 0 < length both.streams
unfolding push push_at new_correlator new_stream
two_streams = omega arith

decide-groups_or_retires_example :
    (AllClose both × (decide both ≡ emit_group both))
    ⊎ ((j : ℕ) × IsLate both j × (decide both ≡ record both { streams = retire_at both.streams j }))
decide-groups_or_retires_example = decide-groups_or_retires both two_streams

three_queued : total_queued both.streams < 4
unfolding push push_at push_records new_correlator new_stream
three_queued = omega arith

process_loop-ends_example : any_empty (process_loop 4 both).streams ≡ true
process_loop-ends_example = process_loop-ends 4 both two_streams three_queued

process-AllShort_example : AllShort max_queued (process false both).streams
process-AllShort_example = process-AllShort false both
