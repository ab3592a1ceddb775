-- ===== src/Ring/Threads/Alone.antt =====
-- src/spsc_ring.cpp: a call whose turns follow one another, against the operation of `Ring`.
use Prim.Native.Nat.{bit_and}
use framewire.Prelude.{
  ℕ, zero, suc, ◌+◌, ◌≡◌, refl, sym, ap, ◌∙◌, inl, inr, min, true, false, Bool-cases, List, [], ◌∷◌,
  ◌++◌, append_assoc, append-nil, arith, ◌==◌, ltb, if◌then◌else◌, replicate, get_or,
}
use framewire.Telemetry.{TelemetryRecord}
use framewire.Ring.{
  RingMapping, RingConsumer, looks_full, try_push, copy_batch, take_batch, pop_batch, sub64, add64,
  blank,
}
use framewire.Ring.Threads.{
  PushPoint, PopPoint, looking, copying, System, push_turn, begin_copy, pop_turn, producer_turn,
  consumer_turn, turn, schedule, publish_tail,
}

-- The producer alone, from `idle` to `idle`: what `TryPush` leaves of the segment and of the handle.
pub producer_alone :
    (s : System) (rec : TelemetryRecord)
    → s.push_point ≡ PushPoint.idle
    → (n : ℕ) × let s' = schedule (replicate n (producer_turn rec)) s in
        (s'.push_point ≡ PushPoint.idle)
        × (s'.shm ≡ (try_push s.shm s.producer rec).0)
        × (s'.producer ≡ (try_push s.shm s.producer rec).1)
unfolding schedule turn push_turn try_push
producer_alone s rec e =
    elim (Bool-cases (looks_full s.producer.mask s.shm.header.head s.producer.cached_tail)) [
      | inr room ↦ (4, ground arith)
      | inl full ↦
          elim (Bool-cases (looks_full s.producer.mask s.shm.header.head s.shm.header.tail)) [
            | inr room ↦ (5, ground arith)
            | inl still ↦ (4, ground arith)
          ]
    ]

-- what a pop leaves of the system once it has copied `out` and published the tail
abbrev popped : System → ℕ → ℕ → List TelemetryRecord → System
popped s t n out = record s {
  shm = publish_tail s.shm t n;
  pop_point = PopPoint.idle;
  received = s.received ++ out;
}

abbrev copied_one : System → ℕ → ℕ → ℕ → List TelemetryRecord → System
copied_one s t i n out = record s {
  pop_point =
      copying t (i + 1) n
        (out ++ get_or s.shm.slots (bit_and (add64 t i) s.consumer.mask) blank ∷ []);
}

copy_turn :
    (s : System) (t i n most : ℕ) (out : List TelemetryRecord)
    → s.pop_point ≡ copying t i n out
    → turn (consumer_turn most) s ≡ (if ltb i n then copied_one s t i n out else popped s t n out)
unfolding turn pop_turn
copy_turn s t i n most out e = ap (λ p. pop_turn p s most) e

-- The copying loop alone: the turns copy what the loop of `PopBatch` does, and one more publishes.
copy_alone :
    (m i n t most : ℕ) (s : System) (out : List TelemetryRecord)
    → s.pop_point ≡ copying t i n out
    → i + m ≡ n
    → schedule (replicate (suc m) (consumer_turn most)) s
      ≡ popped s t n (out ++ copy_batch s.shm.slots s.consumer.mask t i m)
unfolding schedule copy_batch
copy_alone zero i n t most s out e h =
    let at_end : ltb i n ≡ false = ground arith in
    copy_turn s t i n most out e ∙ rw (at_end, append-nil)
copy_alone (suc m) i n t most s out e h =
    let before_end : ltb i n ≡ true = ground arith in
    ap (schedule (replicate (suc m) (consumer_turn most)))
      (copy_turn s t i n most out e ∙ rw before_end)
    ∙ copy_alone m (i + 1) n t most (copied_one s t i n out)
        (out ++ get_or s.shm.slots (bit_and (add64 t i) s.consumer.mask) blank ∷ []) refl
        (omega arith)
    ∙ ap (popped s t n) (
        append_assoc out (get_or s.shm.slots (bit_and (add64 t i) s.consumer.mask) blank ∷ [])
          (copy_batch s.shm.slots s.consumer.mask t (i + 1) m))

-- what a whole call of `PopBatch` leaves of the system
abbrev pub after_pop : System → ℕ → System
after_pop s most =
    let (m, c, out) = pop_batch s.shm s.consumer most in
    record s { shm = m; consumer = c; received = s.received ++ out }

-- the copying loop, from its beginning
begun_alone :
    (s : System) (bound most : ℕ)
    → let (m, c, out) = take_batch s.shm s.consumer bound in
      schedule
        (replicate
          (suc (min (sub64 s.consumer.cached_head s.shm.header.tail) bound))
          (consumer_turn most))
        (begin_copy s s.shm.header.tail bound)
      ≡ record s { shm = m; consumer = c; pop_point = PopPoint.idle; received = s.received ++ out }
unfolding take_batch
begun_alone s bound most =
    let n = min (sub64 s.consumer.cached_head s.shm.header.tail) bound in
    copy_alone n 0 n s.shm.header.tail most (begin_copy s s.shm.header.tail bound) [] refl
      (omega arith)

module _ (s : System) (bound : ℕ) (some_asked : (bound == 0) ≡ false) where
  seen_batch :
      (s.shm.header.tail == s.consumer.cached_head) ≡ false
      → pop_batch s.shm s.consumer bound ≡ take_batch s.shm s.consumer bound
  unfolding pop_batch
  seen_batch h = rw (some_asked, h)

  empty_batch :
      (s.shm.header.tail == s.consumer.cached_head) ≡ true
      → (s.shm.header.tail == s.shm.header.head) ≡ true
      → pop_batch s.shm s.consumer bound
        ≡ (s.shm, record (s.consumer) { cached_head = s.shm.header.head }, [])
  unfolding pop_batch
  empty_batch h g = rw (some_asked, h, g)

  held_batch :
      (s.shm.header.tail == s.consumer.cached_head) ≡ true
      → (s.shm.header.tail == s.shm.header.head) ≡ false
      → pop_batch s.shm s.consumer bound
        ≡ take_batch s.shm (record (s.consumer) { cached_head = s.shm.header.head }) bound
  unfolding pop_batch
  held_batch h g = rw (some_asked, h, g)

  abbrev landed : RingMapping × RingConsumer × List TelemetryRecord → System
  landed (m, c, out) = record s {
    shm = m;
    consumer = c;
    pop_point = PopPoint.idle;
    received = s.received ++ out;
  }

  looking_alone :
      (most : ℕ)
      → s.pop_point ≡ looking s.shm.header.tail bound
      → (n : ℕ) × (schedule (replicate n (consumer_turn most)) s
          ≡ landed (pop_batch s.shm s.consumer bound))
  unfolding schedule turn pop_turn
  looking_alone most e = elim (Bool-cases (s.shm.header.tail == s.consumer.cached_head)) [
    | inr seen ↦ (
      suc (suc (min (sub64 s.consumer.cached_head s.shm.header.tail) bound)),
      ap
            (schedule (
              replicate (suc (min (sub64 s.consumer.cached_head s.shm.header.tail) bound))
                (consumer_turn most)))
            {y = begin_copy s s.shm.header.tail bound} (ap (λ p. pop_turn p s most) e ∙ rw seen)
          ∙ begun_alone s bound most
          ∙ ap landed (sym (seen_batch seen)),
    )
    | inl unseen ↦ elim (Bool-cases (s.shm.header.tail == s.shm.header.head)) [
      | inl empty ↦ (
        1,
        ap (λ p. pop_turn p s most) e
            ∙ rw (unseen, empty)
                (rw (empty_batch unseen empty) (
                  ap (λ l. record fresh { pop_point = PopPoint.idle; received = l })
                    (sym (append-nil s.received)))),
      )
      | inr some_held ↦ (
        suc (suc (min (sub64 s.shm.header.head s.shm.header.tail) bound)),
        ap
              (schedule (
                replicate (suc (min (sub64 s.shm.header.head s.shm.header.tail) bound))
                  (consumer_turn most)))
              {y = begin_copy fresh s.shm.header.tail bound}
              (ap (λ p. pop_turn p s most) e ∙ rw (unseen, some_held))
            ∙ begun_alone fresh bound most
            ∙ ap landed (sym (held_batch unseen some_held)),
      )
    ]
  ]
    where
      fresh : System
      fresh = record s { consumer = record (s.consumer) { cached_head = s.shm.header.head } }

begin_turn :
    (s : System) (most : ℕ)
    → s.pop_point ≡ PopPoint.idle
    → (most == 0) ≡ false
    → turn (consumer_turn most) s ≡ record s { pop_point = looking s.shm.header.tail most }
unfolding turn pop_turn
begin_turn s most e some_asked = ap (λ p. pop_turn p s most) e ∙ rw some_asked

nothing_asked :
    (m : RingMapping) (c : RingConsumer) (most : ℕ)
    → (most == 0) ≡ true
    → pop_batch m c most ≡ (m, c, [])
unfolding pop_batch
nothing_asked m c most h = rw h

-- The consumer alone, from `idle` to `idle`: what `PopBatch` leaves of the segment and of the handle,
-- and what it hands out.
pub consumer_alone :
    (s : System) (most : ℕ)
    → s.pop_point ≡ PopPoint.idle
    → (n : ℕ) × let s' = schedule (replicate n (consumer_turn most)) s in
        let (m, c, out) = pop_batch s.shm s.consumer most in
        (s'.pop_point ≡ PopPoint.idle)
        × (s'.shm ≡ m)
        × (s'.consumer ≡ c)
        × (s'.received ≡ s.received ++ out)
unfolding schedule
consumer_alone s most e = elim (Bool-cases (most == 0)) [
  | inl none_asked ↦
      let same = nothing_asked s.shm s.consumer most none_asked in
      (0, (e, rw same, rw same, rw same (sym (append-nil s.received))))
  | inr some_asked ↦
      let begun : System = record s { pop_point = looking s.shm.header.tail most } in
      let (n, rest) = looking_alone begun most some_asked most refl in
      let all =
        ap (schedule (replicate n (consumer_turn most))) (begin_turn s most e some_asked) ∙ rest in
      (
        suc n,
        (
          ap (λ t. t.pop_point) all,
          ap (λ t. t.shm) all,
          ap (λ t. t.consumer) all,
          ap (λ t. t.received) all,
        ),
      )
]
