-- ===== src/Ring/Threads.antt =====
-- `TryPush`, `TryPop` and `PopBatch` of src/spsc_ring.cpp, one access to shared memory at a time. Each
-- side stands at a program point with its local variables; a schedule picks whose turn it is. A turn
-- at `idle` begins a call with the argument given. What acquire and release have to provide is that
-- the accesses can be read as such a sequence: the plain copies of slots never overlap (Race).
pub mod Inv
pub mod Race
pub mod Alone
use Prim.Native.Nat.{bit_and}
use framewire.Prelude.{
  ℕ, ◌+◌, ◌-◌, ◌%◌, ◌^◌, min, Bool, List, [], ◌∷◌, ◌++◌, ◌==◌, ltb, if◌then◌else◌, get_or, set,
}
use framewire.Telemetry.{TelemetryRecord}
use framewire.Ring.{
  RingHeader, RingMapping, RingProducer, RingConsumer, looks_full, count_drop, sub64, add64, blank,
}

-- Where the producer stands in `TryPush`, with `rec` and the value of `head` that it loaded.
pub data PushPoint : Type 0 where
  idle : PushPoint
  loaded : TelemetryRecord → ℕ → PushPoint
  refreshed : TelemetryRecord → ℕ → PushPoint
  storing : TelemetryRecord → ℕ → PushPoint
  publishing : TelemetryRecord → ℕ → PushPoint
  dropping : PushPoint

-- Where the consumer stands in a pop of at most so many records: behind the load of `tail`, and in
-- the copying loop with `tail`, the index, the bound and what is copied.
pub data PopPoint : Type 0 where
  idle : PopPoint
  looking : ℕ → ℕ → PopPoint
  copying : ℕ → ℕ → ℕ → List TelemetryRecord → PopPoint

pub record System : Type 0 where
  pub shm : RingMapping
  pub producer : RingProducer
  pub consumer : RingConsumer
  pub push_point : PushPoint
  pub pop_point : PopPoint
  pub accepted : List TelemetryRecord
  pub received : List TelemetryRecord

-- `slots_[head & mask_] = rec`, and the publication of the new head
abbrev pub write_slot : RingMapping → ℕ → TelemetryRecord → RingMapping
write_slot m i rec = record m { slots = set m.slots i rec }

abbrev pub publish_head : RingMapping → ℕ → RingMapping
publish_head m head = record m { header = record h { head = add64 head 1 } }
  where
    h : RingHeader
    h = m.header

abbrev pub publish_tail : RingMapping → ℕ → ℕ → RingMapping
publish_tail m tail n = record m { header = record h { tail = add64 tail n } }
  where
    h : RingHeader
    h = m.header

-- One turn of the producer; `next` is the record that a new call would push.
unfoldable pub push_turn : PushPoint → System → TelemetryRecord → System
push_turn PushPoint.idle s next = record s { push_point = loaded next s.shm.header.head }
push_turn (loaded rec head) s next =
    if looks_full s.producer.mask head s.producer.cached_tail
    then record s {
      producer = record p { cached_tail = s.shm.header.tail };
      push_point = refreshed rec head;
    }
    else record s { push_point = storing rec head }
  where
    p : RingProducer
    p = s.producer
push_turn (refreshed rec head) s next =
    if looks_full s.producer.mask head s.producer.cached_tail
    then record s { push_point = dropping }
    else record s { push_point = storing rec head }
push_turn (storing rec head) s next = record s {
  shm = write_slot s.shm (bit_and head s.producer.mask) rec;
  push_point = publishing rec head;
}
push_turn (publishing rec head) s next = record s {
  shm = publish_head s.shm head;
  push_point = PushPoint.idle;
  accepted = s.accepted ++ rec ∷ [];
}
push_turn dropping s next = record s { shm = count_drop s.shm; push_point = PushPoint.idle }

-- The entry into the copying loop, behind the last look at the cached head.
abbrev pub begin_copy : System → ℕ → ℕ → System
begin_copy s tail most = record s {
  pop_point = copying tail 0 (min (sub64 s.consumer.cached_head tail) most) [];
}

-- One turn of the consumer; `most` is the bound that a new call would have, 1 for `TryPop`.
unfoldable pub pop_turn : PopPoint → System → ℕ → System
pop_turn PopPoint.idle s most =
    if most == 0 then s else record s { pop_point = looking s.shm.header.tail most }
pop_turn (looking tail bound) s most =
    let fresh = record s { consumer = record c { cached_head = s.shm.header.head } } in
    if tail == s.consumer.cached_head
    then if tail == s.shm.header.head
      then record fresh { pop_point = PopPoint.idle }
      else begin_copy fresh tail bound
    else begin_copy s tail bound
  where
    c : RingConsumer
    c = s.consumer
pop_turn (copying tail i n out) s most =
    if ltb i n
    then record s {
      pop_point =
          copying tail (i + 1) n
            (out ++ get_or s.shm.slots (bit_and (add64 tail i) s.consumer.mask) blank ∷ []);
    }
    else record s {
      shm = publish_tail s.shm tail n;
      pop_point = PopPoint.idle;
      received = s.received ++ out;
    }

pub data Turn : Type 0 where
  producer_turn : TelemetryRecord → Turn
  consumer_turn : ℕ → Turn

unfoldable pub turn : Turn → System → System
turn (producer_turn next) s = push_turn s.push_point s next
turn (consumer_turn most) s = pop_turn s.pop_point s most

unfoldable pub schedule : List Turn → System → System
schedule [] s = s
schedule (t ∷ ts) s = schedule ts (turn t s)
