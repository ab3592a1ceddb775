-- ===== src/Ring/Inv.antt =====
-- src/spsc_ring.cpp: a ring with both its handles, and which values the indices and their cached
-- copies can take.
use Prim.Native.Nat.{bit_and}
use framewire.Prelude.{ℕ, ◌-◌, ◌^◌, ◌≤◌, ◌<◌, ◌≡◌, Bool, List, Option, arith, length, length-set}
use framewire.Telemetry.{TelemetryRecord}
use framewire.Ring.{
  RingMapping, RingProducer, RingConsumer, sub64, try_push, try_pop, take_batch, pop_batch,
}

-- One segment, the producer's handle and the consumer's.
pub record Ring : Type 0 where
  pub shm : RingMapping
  pub producer : RingProducer
  pub consumer : RingConsumer

-- how many records lie between two positions
abbrev pub held : Ring → ℕ
held r = sub64 r.shm.header.head r.shm.header.tail

-- Read from the cached tail on, the positions stand in the order
-- cached tail, tail, cached head, head, and the last is at most the capacity away from the first.
pub record IsValid (k : ℕ) (r : Ring) : Type 0 where
  pub small : (k ≤ 31) × (2 ^ k ≤ 2 ^ 31) × (1 ≤ 2 ^ k)
  pub masks : (r.producer.mask ≡ 2 ^ k - 1) × (r.consumer.mask ≡ 2 ^ k - 1)
  pub storage : length r.shm.slots ≡ 2 ^ k
  pub words :
      (r.shm.header.head < 2 ^ 64)
      × (r.shm.header.tail < 2 ^ 64)
      × (r.producer.cached_tail < 2 ^ 64)
      × (r.consumer.cached_head < 2 ^ 64)
  pub room : sub64 r.shm.header.head r.producer.cached_tail ≤ 2 ^ k
  pub tail_in :
      sub64 r.shm.header.tail r.producer.cached_tail
      ≤ sub64 r.shm.header.head r.producer.cached_tail
  pub head_in :
      sub64 r.consumer.cached_head r.shm.header.tail ≤ sub64 r.shm.header.head r.shm.header.tail

-- The operations on the whole ring: what the caller sees, and the ring afterwards.
unfoldable pub push : Ring → TelemetryRecord → Ring × Bool
push r rec =
    let (m, p, done) = try_push r.shm r.producer rec in (record r { shm = m; producer = p }, done)

unfoldable pub pop : Ring → Ring × Option TelemetryRecord
pop r = let (m, c, out) = try_pop r.shm r.consumer in (record r { shm = m; consumer = c }, out)

unfoldable pub pop_many : Ring → ℕ → Ring × List TelemetryRecord
pop_many r n =
    let (m, c, out) = pop_batch r.shm r.consumer n in (record r { shm = m; consumer = c }, out)

-- `TryPush` keeps the ring valid, stored or dropped.
pub push-IsValid :
    {k : ℕ} {r : Ring} (rec : TelemetryRecord) → IsValid k r → IsValid k (push r rec).0
unfolding push try_push
push-IsValid {k} {r} rec v =
    ground (arith, length-set r.shm.slots (bit_and r.shm.header.head r.producer.mask) rec)

pub pop-IsValid : {k : ℕ} {r : Ring} → IsValid k r → IsValid k (pop r).0
unfolding pop try_pop
pop-IsValid v = ground arith

pub pop_many-IsValid : {k : ℕ} {r : Ring} (n : ℕ) → IsValid k r → IsValid k (pop_many r n).0
unfolding pop_many pop_batch take_batch
pop_many-IsValid n v = ground arith
