-- ===== src/Correlator/Rounds.antt =====
-- src/stats.cpp: the rounds of the loop of `Correlator::Process`, and the length of the queues.
use framewire.Prelude.{
  ℕ, zero, suc, ◌+◌, ◌≤◌, ◌<◌, ◌≡◌, refl, ap, arith, inl, inr, Bool, Bool-cases, true, false, List,
  [], ◌∷◌, some, map, ltb, if◌then◌else◌, length, get_elem?,
}
use framewire.Telemetry.{TelemetryRecord}
use framewire.Correlator.{Stream, Correlator, front, emit_others, emit_pair, emit_group}
use framewire.Correlator.Process.{
  any_empty, retire_at, decide, process_loop, total_queued, flush_stream, cap_queue, cap_stream,
  max_queued, process,
}
use framewire.Correlator.Account.{length-pop_front, any_empty-parts}
use framewire.Correlator.Keys.{decide-groups_or_retires}

emit_others-total :
    (base : TelemetryRecord) (ss : List Stream)
    → any_empty ss ≡ false
    → (total_queued (emit_others base ss) + length ss ≡ total_queued ss)
      × (length (emit_others base ss) ≡ length ss)
unfolding emit_others
emit_others-total base [] h = (refl, refl)
emit_others-total base (s ∷ ss) h =
    let (full, others) = any_empty-parts s ss h in
    let (total, long) = emit_others-total base ss others in
    (omega (arith, total, length-pop_front s.queue full), ap suc long)

retire_at-total :
    (ss : List Stream) (i : ℕ) (s : Stream)
    → any_empty ss ≡ false
    → get_elem? ss i ≡ some s
    → (total_queued (retire_at ss i) + 1 ≡ total_queued ss) × (length (retire_at ss i) ≡ length ss)
unfolding retire_at
retire_at-total [] i s h e = absurd (cc e)
retire_at-total (t ∷ ss) zero s h e =
    (omega (arith, length-pop_front t.queue (any_empty-parts t ss h).0), refl)
retire_at-total (t ∷ ss) (suc i) s h e =
    let (total, long) = retire_at-total ss i s (any_empty-parts t ss h).1 e in
    (omega (arith, total), ap suc long)

emit_group-total :
    (c : Correlator)
    → any_empty c.streams ≡ false
    → 0 < length c.streams
    → (total_queued (emit_group c).streams < total_queued c.streams)
      × (length (emit_group c).streams ≡ length c.streams)
unfolding emit_group emit_pair
emit_group-total c h some_stream = go c.streams refl h some_stream
  where
    go :
        (ss : List Stream)
        → c.streams ≡ ss
        → any_empty ss ≡ false
        → 0 < length ss
        → (total_queued (emit_group c).streams < total_queued ss)
          × (length (emit_group c).streams ≡ length ss)
    go [] e h p = absurd (omega arith)
    go (s ∷ ss) e h p =
        let (full, others) = any_empty-parts s ss h in
        let (total, long) = emit_others-total (front s.queue) ss others in
        rw e (omega (arith, total, length-pop_front s.queue full), ap suc long)

-- A round takes at least one record from the queues, and keeps the streams.
decide-shrinks :
    (c : Correlator)
    → any_empty c.streams ≡ false
    → 0 < length c.streams
    → (total_queued (decide c).streams < total_queued c.streams)
      × (length (decide c).streams ≡ length c.streams)
decide-shrinks c h p = elim (decide-groups_or_retires c p) [
  | inl (_, e) ↦ rw e (emit_group-total c h p)
  | inr (j, (s, at, _, _), e) ↦
      let (total, long) = retire_at-total c.streams j s h at in rw e (omega (arith, total), long)
]

-- With one round more than there are records queued, the loop of `Process` ends as it does in the source: at an empty queue.
pub process_loop-ends :
    (fuel : ℕ) (c : Correlator)
    → 0 < length c.streams
    → total_queued c.streams < fuel
    → any_empty (process_loop fuel c).streams ≡ true
unfolding process_loop
process_loop-ends zero c p h = absurd (omega arith)
process_loop-ends (suc fuel) c p h = elim (Bool-cases (any_empty c.streams)) [
  | inl e ↦ rw e e
  | inr e ↦
      let (fewer, long) = decide-shrinks c e p in
      rw e (process_loop-ends fuel (decide c) (omega (arith, long)) (omega (arith, fewer)))
]

-- Every queue is at most this long.
abbrev pub AllShort : ℕ → List Stream → Type 0
AllShort bound [] = Unit
AllShort bound (s ∷ ss) = (length s.queue ≤ bound) × AllShort bound ss

map-AllShort :
    (f : Stream → Stream) (bound : ℕ)
    → ((s : Stream) → length (f s).queue ≤ bound)
    → (ss : List Stream) → AllShort bound (map f ss)
map-AllShort f bound each [] = tt
map-AllShort f bound each (s ∷ ss) = (each s, map-AllShort f bound each ss)

cap_queue_short :
    (q : List TelemetryRecord) (s : Stream) → length (cap_queue s q).queue ≤ max_queued
unfolding cap_queue
cap_queue_short [] s = omega arith
cap_queue_short (r ∷ rs) s = elim (Bool-cases (ltb max_queued (length (r ∷ rs)))) [
  | inl e ↦ rw e (cap_queue_short rs _)
  | inr e ↦ rw e (ground (arith, e))
]

-- After `Process`, no queue holds more than 65536 records; after a flush, no queue holds any.
pub process-AllShort :
    (flush : Bool) (c : Correlator)
    → AllShort (if flush then 0 else max_queued) (process flush c).streams
unfolding process cap_stream
process-AllShort true c = map-AllShort flush_stream 0 (λ s. omega arith) _
process-AllShort false c = map-AllShort cap_stream max_queued (λ s. cap_queue_short s.queue s) _
