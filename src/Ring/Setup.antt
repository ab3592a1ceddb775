-- ===== src/Ring/Setup.antt =====
-- src/spsc_ring.cpp: what `RingMapping::Open` accepts, and what `RingMapping::Create` makes or refuses.
use framewire.Prelude.{
  ℕ, ◌+◌, ◌^◌, ◌≤◌, ◌<◌, ◌≡◌, ap, ◌∙◌, ◌↔◌, true, [], Option, none, some, arith, length, replicate,
  length-replicate,
}
use native.Mathlib.Nat.{pow-le-pow_right, one-le-pow}
use framewire.Prelude.Result.{ok, err}
use framewire.Prelude.Chars.{Bytes}
use framewire.Ring.{
  RingMapping, ring_magic, ring_abi_version, header_size, telemetry_size, ring_bytes, sub64, blank,
  new_producer, new_consumer,
}
use framewire.Ring.Mapping.{
  in_use, is_power_of_two, live_producer_ns, describe_live_owner, new_header, create, open_ring,
}
use framewire.Ring.PowerOfTwo.{is_power_of_two→pow, exponent_bound}
use framewire.Ring.Inv.{Ring, IsValid}
use framewire.Ring.Fifo.{contents}

-- A segment that this build can read.
pub record IsRing (m : RingMapping) : Type 0 where
  pub magic : m.header.magic ≡ ring_magic
  pub abi : m.header.abi_version ≡ ring_abi_version
  pub record_size : m.header.record_size ≡ telemetry_size
  pub capacity : is_power_of_two m.header.capacity ≡ true
  pub size : ring_bytes m.header.capacity ≤ m.size

-- `Open` accepts a segment exactly if its magic number, its ABI version and its record size are this build's, its
-- capacity is a power of two and the segment is large enough for a ring of that capacity; and then it hands it on
-- unchanged.
pub open_ring-IsRing : (m n : RingMapping) → (open_ring (some m) ≡ ok n) ↔ ((n ≡ m) × IsRing m)
unfolding open_ring ring_bytes
open_ring-IsRing m n = (λ h. ground arith, λ h. ground arith)

-- The segment that `Create` makes passes every check of `Open`.
pub open-create :
    (existing : Option RingMapping) (capacity : ℕ) (label : Bytes) (now pid : ℕ) {m : RingMapping}
    → create existing capacity label now pid ≡ ok m
    → open_ring (some m) ≡ ok m
unfolding open_ring create ring_bytes
open-create none capacity label now pid h = ground arith
open-create (some probe) capacity label now pid h = ground arith

-- The words of a segment have their widths, and its indices are at most the capacity apart.
pub record IsIndexed (m : RingMapping) : Type 0 where
  pub capacity : m.header.capacity < 2 ^ 32
  pub slots : length m.slots ≡ m.header.capacity
  pub head : m.header.head < 2 ^ 64
  pub tail : m.header.tail < 2 ^ 64
  pub near : sub64 m.header.head m.header.tail ≤ m.header.capacity

abbrev pub attach : RingMapping → Ring
attach m = record { shm = m; producer = new_producer m; consumer = new_consumer m }

-- Handles attached to a segment that `Open` accepts form a valid ring, wherever its indices stand.
pub attach-IsValid :
    {m : RingMapping}
    → open_ring (some m) ≡ ok m
    → IsIndexed m
    → (k : ℕ) × (m.header.capacity ≡ 2 ^ k) × IsValid k (attach m)
unfolding new_producer new_consumer
attach-IsValid {m} h x =
    let ring = ((open_ring-IsRing m m).0 h).1 in
    let (k, e) = is_power_of_two→pow m.header.capacity ring.capacity in
    let low : k ≤ 31 = exponent_bound k m.header.capacity e x.capacity in
    let top : 2 ^ k ≤ 2 ^ 31 = pow-le-pow_right {n = 2} (omega arith) low in
    let pos : 1 ≤ 2 ^ k = one-le-pow k 2 (omega arith) in (k, e, ground arith)

-- what `Create` returns, where it returns
create-made :
    (existing : Option RingMapping) (capacity : ℕ) (label : Bytes) (now pid : ℕ) {m : RingMapping}
    → create existing capacity label now pid ≡ ok m
    → (m.header ≡ new_header capacity label now pid) × (m.slots ≡ replicate capacity blank)
unfolding create
create-made none capacity label now pid h = (ground arith, ground arith)
create-made (some probe) capacity label now pid h = (ground arith, ground arith)

new_header-IsIndexed :
    (m : RingMapping) (capacity : ℕ) (label : Bytes) (now pid : ℕ)
    → capacity < 2 ^ 32
    → m.header ≡ new_header capacity label now pid
    → m.slots ≡ replicate capacity blank
    → IsIndexed m × (m.header.capacity ≡ capacity) × (sub64 m.header.head m.header.tail ≡ 0)
new_header-IsIndexed m capacity label now pid w e s =
    let slots : length m.slots ≡ capacity = ap length s ∙ length-replicate capacity blank in
    let cap_eq : m.header.capacity ≡ capacity = ap (λ h. h.capacity) e in
    let head_eq : m.header.head ≡ 0 = ap (λ h. h.head) e in
    let tail_eq : m.header.tail ≡ 0 = ap (λ h. h.tail) e in (omega arith, cap_eq, omega arith)

-- A new ring is valid, empty, and has the capacity asked for.
pub create-IsValid :
    (existing : Option RingMapping) (capacity : ℕ) (label : Bytes) (now pid : ℕ) {m : RingMapping}
    → capacity < 2 ^ 32
    → create existing capacity label now pid ≡ ok m
    → (k : ℕ) × (capacity ≡ 2 ^ k) × IsValid k (attach m) × (contents k (attach m) ≡ [])
create-IsValid existing capacity label now pid {m} w h =
    let (e, s) = create-made existing capacity label now pid h in
    let (x, cap_eq, empty) = new_header-IsIndexed m capacity label now pid w e s in
    let (k, pow, v) = attach-IsValid (open-create existing capacity label now pid h) x in
    (k, omega arith, v, rw empty)

-- Another producer is at work on the segment: it is a ring, not finished, and its last heartbeat is
-- no more than three seconds old.
pub record IsLive (m : RingMapping) (now : ℕ) : Type 0 where
  pub sized : header_size ≤ m.size
  pub magic : m.header.magic ≡ ring_magic
  pub running : m.header.producer_done ≡ 0
  pub recent : now ≤ m.header.producer_heartbeat_ns + live_producer_ns

-- Where the capacity asked for is a power of two, `Create` on a name that exists refuses it, with the owner's
-- process id, exactly if the segment of that name is large enough for a header and has the ring's magic number, its
-- producer is not marked done, and the last heartbeat is no more than three seconds old.
pub create_in_use :
    (m : RingMapping) (capacity : ℕ) (label : Bytes) (now pid : ℕ)
    → is_power_of_two capacity ≡ true
    → (create (some m) capacity label now pid ≡ err (in_use m.header.producer_pid)) ↔ IsLive m now
unfolding create describe_live_owner
create_in_use m capacity label now pid h = (λ e. ground arith, λ l. ground arith)
