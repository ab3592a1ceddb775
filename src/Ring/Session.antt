-- ===== src/Ring/Session.antt =====
-- A producer and a consumer that share one ring, their calls in any order.
use framewire.Prelude.{
  ℕ, ◌^◌, ◌≡◌, sym, ap, ◌∙◌, Bool, List, [], ◌∷◌, ◌++◌, Option, none, some, arith, append_assoc,
  append-nil, length, ltb, if◌then◌else◌, Bool-cases, inl, inr,
}
use framewire.Telemetry.{TelemetryRecord}
use framewire.Ring.Inv.{
  Ring, IsValid, push, pop, pop_many, push-IsValid, pop-IsValid, pop_many-IsValid,
}
use framewire.Ring.Fifo.{contents, enqueue, dequeue, push_refines, pop_refines}
use framewire.Ring.Batch.{pop_many_takes}

pub data Call : Type 0 where
  pushes : TelemetryRecord → Call
  pops : Call
  pops_many : ℕ → Call

-- what a session has stored, refused and handed out so far, each in the order of the calls
pub record Log : Type 0 where
  pub accepted : List TelemetryRecord
  pub refused : List TelemetryRecord
  pub received : List TelemetryRecord

abbrev pub to_list : Option TelemetryRecord → List TelemetryRecord
to_list none = []
to_list (some x) = x ∷ []

abbrev pub note_push : Log → TelemetryRecord → Bool → Log
note_push l rec done =
    if done
    then record l { accepted = l.accepted ++ rec ∷ [] }
    else record l { refused = l.refused ++ rec ∷ [] }

abbrev pub note_received : Log → List TelemetryRecord → Log
note_received l out = record l { received = l.received ++ out }

unfoldable pub step : Call → Ring → Log → Ring × Log
step (pushes rec) r l = let (r', done) = push r rec in (r', note_push l rec done)
step pops r l = let (r', out) = pop r in (r', note_received l (to_list out))
step (pops_many n) r l = let (r', out) = pop_many r n in (r', note_received l out)

unfoldable pub run : List Call → Ring → Log → Ring × Log
run [] r l = (r, l)
run (c ∷ cs) r l = let (r', l') = step c r l in run cs r' l'

step-IsValid : {k : ℕ} {r : Ring} (c : Call) (l : Log) → IsValid k r → IsValid k (step c r l).0
unfolding step
step-IsValid (pushes rec) l v = push-IsValid rec v
step-IsValid pops l v = pop-IsValid v
step-IsValid (pops_many n) l v = pop_many-IsValid n v

-- Nothing is lost, repeated, reordered or made up: what was accepted is what was received, followed
-- by what the ring still holds.
abbrev pub Conserves : ℕ → Ring → Log → Type 0
Conserves k r l = l.accepted ≡ l.received ++ contents k r

push-Conserves :
    (l : Log) (most : ℕ) (rec : TelemetryRecord) (q q' : List TelemetryRecord) (done : Bool)
    → (q', done) ≡ enqueue most q rec
    → l.accepted ≡ l.received ++ q
    → (note_push l rec done).accepted ≡ (note_push l rec done).received ++ q'
push-Conserves l most rec q q' done e h = elim (Bool-cases (ltb (length q) most)) [
  | inl room ↦
      let (e_q, e_done) = parts (rw room at e) in
      rw (e_q, e_done) (ap (λ xs. xs ++ rec ∷ []) h ∙ append_assoc l.received q (rec ∷ []))
  | inr full ↦ let (e_q, e_done) = parts (rw full at e) in rw (e_q, e_done) h
]
  where
    parts :
        {x : List TelemetryRecord} {b : Bool}
        → ◌≡◌ {A = List TelemetryRecord × Bool} (q', done) (x, b)
        → (q' ≡ x) × (done ≡ b)
    parts p = (ap (λ t. t.0) p, ap (λ t. t.1) p)

pop-Conserves :
    (l : Log) (q q' : List TelemetryRecord) (out : Option TelemetryRecord)
    → (q', out) ≡ dequeue q
    → l.accepted ≡ l.received ++ q
    → l.accepted ≡ (note_received l (to_list out)).received ++ q'
pop-Conserves l [] q' out e h = ground (arith, append-nil l.received)
pop-Conserves l (x ∷ q) q' out e h = ground (arith, append_assoc l.received (x ∷ []) q)

step-Conserves :
    {k : ℕ} {r : Ring} (c : Call) (l : Log)
    → IsValid k r
    → Conserves k r l
    → let (r', l') = step c r l in Conserves k r' l'
unfolding step
step-Conserves {k} {r} (pushes rec) l v h =
    push-Conserves l (2 ^ k) rec (contents k r) (contents k (push r rec).0) (push r rec).1
      (push_refines rec v) h
step-Conserves {k} {r} pops l v h =
    pop-Conserves l (contents k r) (contents k (pop r).0) (pop r).1 (pop_refines v) h
step-Conserves {k} {r} (pops_many n) l v h =
    h
    ∙ ap (◌++◌ l.received) (pop_many_takes n v).0
    ∙ sym (append_assoc l.received (pop_many r n).1 (contents k (pop_many r n).0))

-- In every sequence of calls on a valid ring the records received and those still in the ring are the accepted
-- ones, in order, and the ring stays valid.
pub run_conserves :
    {k : ℕ} {r : Ring} (cs : List Call) (l : Log)
    → IsValid k r
    → l.accepted ≡ l.received ++ contents k r
    → let (r', l') = run cs r l in (l'.accepted ≡ l'.received ++ contents k r') × IsValid k r'
unfolding run
run_conserves [] l v h = (h, v)
run_conserves {r} (c ∷ cs) l v h =
    run_conserves {r = (step c r l).0} cs (step c r l).1 (step-IsValid c l v)
      (step-Conserves c l v h)
