-- ===== src/Correlator/Process.antt =====
-- src/stats.cpp, `Correlator::Process`: the merge over all queues, round by round, and the drain after it.
use framewire.Prelude.{
  ℕ, zero, suc, ◌+◌, ◌%◌, ◌^◌, Bool, true, false, ◌||◌, List, [], ◌∷◌, map, ltb, if◌then◌else◌,
  length,
}
use framewire.Prelude.Int.{ℤ, pos, ◌-ℤ◌, ltb_ℤ, leb_ℤ}
use framewire.Telemetry.{TelemetryRecord, signed64}
use framewire.Correlator.{Stream, Correlator, pairing_key, front, pop_front, emit_group}

-- The loop of `Process` that looks for the earliest front, from stream `i` on.
pub record Scan : Type 0 where
  pub earliest : ℕ
  pub min_key : ℤ
  pub max_key : ℤ

abbrev pub scan_step : Bool → ℕ → Scan → Stream → Scan
scan_step use_media i found s =
    let key = pairing_key use_media (front s.queue) in
    record {
      earliest = if ltb_ℤ key found.min_key then i else found.earliest;
      min_key = if ltb_ℤ key found.min_key then key else found.min_key;
      max_key = if ltb_ℤ found.max_key key then key else found.max_key;
    }

unfoldable pub scan : Bool → ℕ → Scan → List Stream → Scan
scan use_media i found [] = found
scan use_media i found (s ∷ ss) = scan use_media (i + 1) (scan_step use_media i found s) ss

unfoldable pub scan_fronts : Bool → List Stream → Scan
unfolding scan
scan_fronts use_media [] = record { earliest = 0; min_key = pos 0; max_key = pos 0 }
scan_fronts use_media (s ∷ ss) =
    let key = pairing_key use_media (front s.queue) in
    scan use_media 1 (record { earliest = 0; min_key = key; max_key = key }) ss

abbrev pub retire_front : Stream → Stream
retire_front s = record s { queue = pop_front s.queue; unmatched = (s.unmatched + 1) % 2 ^ 64 }

unfoldable pub retire_at : List Stream → ℕ → List Stream
retire_at [] i = []
retire_at (s ∷ ss) zero = retire_front s ∷ ss
retire_at (s ∷ ss) (suc i) = s ∷ retire_at ss i

abbrev pub is_empty : List TelemetryRecord → Bool
is_empty [] = true
is_empty (r ∷ rs) = false

unfoldable pub any_empty : List Stream → Bool
any_empty [] = false
any_empty (s ∷ ss) = is_empty s.queue || any_empty ss

-- One round of the loop of `Process`, where every stream has a record.
unfoldable pub decide : Correlator → Correlator
unfolding scan_fronts retire_at
decide c =
    let found = scan_fronts c.use_media_time c.streams in
    if leb_ℤ (found.max_key -ℤ found.min_key) (signed64 c.tolerance_ns)
    then emit_group c
    else record c { streams = retire_at c.streams found.earliest }

-- The loop of `Process`. Each round takes a record from a queue, so as many rounds as there are records
-- queued, and one to find a queue empty, are enough.
unfoldable pub process_loop : ℕ → Correlator → Correlator
unfolding decide any_empty
process_loop zero c = c
process_loop (suc fuel) c =
    let next = process_loop fuel (decide c) in if any_empty c.streams then c else next

abbrev pub total_queued : List Stream → ℕ
total_queued [] = 0
total_queued (s ∷ ss) = length s.queue + total_queued ss

abbrev pub flush_stream : Stream → Stream
flush_stream s = record s { queue = []; unmatched = (s.unmatched + length s.queue) % 2 ^ 64 }

-- kMaxQueued
abbrev pub max_queued : ℕ
max_queued = 2 ^ 16

-- the loop that retires the oldest records of a queue that is too long
unfoldable pub cap_queue : Stream → List TelemetryRecord → Stream
cap_queue s [] = record s { queue = [] }
cap_queue s (r ∷ rs) =
    let shorter = cap_queue (record s { unmatched = (s.unmatched + 1) % 2 ^ 64 }) rs in
    if ltb max_queued (length (r ∷ rs)) then shorter else record s { queue = r ∷ rs }

unfoldable pub cap_stream : Stream → Stream
unfolding cap_queue
cap_stream s = cap_queue s s.queue

unfoldable pub process : Bool → Correlator → Correlator
unfolding process_loop cap_stream
process flush c =
    let settled = process_loop (suc (total_queued c.streams)) c in
    record settled { streams = map (if flush then flush_stream else cap_stream) settled.streams }
