-- ===== src/Ring/Threads/Race.antt =====
-- src/spsc_ring.cpp: schedules of the two sides from a valid ring, their accesses to slots and the
-- order of the records.
use Prim.Native.Nat.{bit_and}
use framewire.Prelude.{
  ℕ, ◌+◌, ◌-◌, ◌%◌, ◌^◌, ◌≤◌, ◌<◌, ◌≡◌, ◌≢◌, refl, sym, ap, subst, ◌∙◌, suc, List, [], ◌++◌, arith,
}
use framewire.Telemetry.{TelemetryRecord}
use framewire.Ring.{sub64, add64, blank}
use framewire.Ring.Window.{window, mod_apart}
use framewire.Ring.Inv.{Ring, IsValid, held}
use framewire.Ring.Fifo.{contents, slot_at}
use framewire.Ring.Threads.{PushPoint, storing, PopPoint, copying, System, Turn, schedule}
use framewire.Ring.Threads.Inv.{ring_of, PushOk, PopOk, Inv, slot_of_head, schedule-Inv}

-- Two sides at rest over a ring; what the ring holds counts as accepted.
abbrev pub start : ℕ → Ring → System
start k r = record {
  shm = r.shm;
  producer = r.producer;
  consumer = r.consumer;
  push_point = PushPoint.idle;
  pop_point = PopPoint.idle;
  accepted = contents k r;
  received = [];
}

start-Inv : {k : ℕ} {r : Ring} → IsValid k r → Inv k (start k r)
start-Inv v = record { valid = v; pushing = tt; popping = tt; history = refl }

apart :
    {k : ℕ} {s : System} (h t i n : ℕ) (rec : TelemetryRecord) (out : List TelemetryRecord)
    → Inv k s
    → s.push_point ≡ storing rec h
    → s.pop_point ≡ copying t i n out
    → i < n
    → bit_and h s.producer.mask ≢ bit_and (add64 t i) s.consumer.mask
apart {k} {s} h t i n rec out v p c lt same =
    mod_apart (2 ^ k) (s.shm.header.tail + i) gap (omega (arith, pushing, popping)) (
      ap (λ j. j % 2 ^ k) further
      ∙ sym (slot_of_head h v.valid pushing.0)
      ∙ same
      ∙ ap (λ j. bit_and (add64 j i) s.consumer.mask) popping.0
      ∙ slot_at i v.valid)
  where
    gap : ℕ
    gap = held (ring_of s) - i - 1

    popping :
        (t ≡ s.shm.header.tail)
        × (i ≤ n)
        × (n ≤ sub64 s.consumer.cached_head s.shm.header.tail)
        × (out ≡ window blank s.shm.slots (2 ^ k) s.shm.header.tail i)
    popping = subst (PopOk k s.shm.slots s.shm.header.tail s.consumer.cached_head) c v.popping

    further : s.shm.header.tail + i + suc gap ≡ s.shm.header.tail + held (ring_of s)
    further = omega (arith, popping.1, popping.2, lt, v.valid.head_in)

    pushing : (h ≡ s.shm.header.head) × (sub64 s.shm.header.head s.producer.cached_tail < 2 ^ k)
    pushing =
        subst (PushOk k s.shm.slots s.producer.mask s.shm.header.head s.producer.cached_tail) p
          v.pushing

-- No data race: while the producer copies a record into a slot, the slot that the consumer copies out
-- of is another one, in every schedule from any valid ring.
pub no_race :
    {k : ℕ} {r : Ring} (ts : List Turn) (h t i n : ℕ) (rec : TelemetryRecord)
    (out : List TelemetryRecord)
    → IsValid k r
    → let s = schedule ts (start k r) in
      s.push_point ≡ storing rec h
      → s.pop_point ≡ copying t i n out
      → i < n
      → bit_and h s.producer.mask ≢ bit_and (add64 t i) s.consumer.mask
no_race {k} {r} ts h t i n rec out v =
    apart {s = schedule ts (start k r)} h t i n rec out (schedule-Inv ts (start-Inv v))

-- In every schedule from a valid ring the records received, followed by those still in the ring, are those that were in
-- it at the start and those published since, in order.
pub schedule_fifo :
    {k : ℕ} {r : Ring} (ts : List Turn)
    → IsValid k r
    → let s = schedule ts (start k r) in s.accepted ≡ s.received ++ contents k (ring_of s)
schedule_fifo ts v = (schedule-Inv ts (start-Inv v)).history
