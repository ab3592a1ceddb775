-- ===== src/Ring.antt =====
-- include/framewire/spsc_ring.h and src/spsc_ring.cpp: the header in shared memory, the two handles
-- that are private to their processes, and every operation on them. An operation takes the shared
-- segment and the caller's handle, and returns what it leaves of both.
pub mod Mapping
pub mod Publish
pub mod PowerOfTwo
pub mod Window
pub mod Inv
pub mod Fifo
pub mod Batch
pub mod Session
pub mod Setup
pub mod Directory
pub mod Threads
mod Tests
use Prim.Native.Nat.{bit_and}
use framewire.Prelude.{
  ℕ, zero, suc, ◌+◌, ◌-◌, ◌*◌, ◌%◌, ◌^◌, min, Bool, true, false, not, ◌&&◌, List, [], ◌∷◌, ◌++◌,
  Option, none, some, ◌==◌, ltb, leb, if◌then◌else◌, get_or, set, replicate,
}
use framewire.Prelude.Chars.{Bytes, c_str, snprintf}
use framewire.Telemetry.{TelemetryRecord, max_passes, pass_name_len}

-- kRingMagic
abbrev pub ring_magic : ℕ
ring_magic = 0x4657_524B

-- kRingAbiVersion
abbrev pub ring_abi_version : ℕ
ring_abi_version = 2

-- kEnvironmentLen
abbrev pub environment_len : ℕ
environment_len = 512

pub record RingHeader : Type 0 where
  pub magic : ℕ
  pub abi_version : ℕ
  pub capacity : ℕ
  pub record_size : ℕ
  pub created_mono_ns : ℕ
  pub label : Bytes
  pub head : ℕ
  pub tail : ℕ
  pub push_dropped : ℕ
  pub producer_heartbeat_ns : ℕ
  pub layout_version : ℕ
  pub pass_count : ℕ
  pub producer_pid : ℕ
  pub producer_done : ℕ
  pub environment_version : ℕ
  pub geometry_changes : ℕ
  pub pass_names : List Bytes
  pub environment : Bytes

-- A mapped segment: its size in bytes, the header at its front and the slot array behind it.
pub record RingMapping : Type 0 where
  pub size : ℕ
  pub header : RingHeader
  pub slots : List TelemetryRecord

-- sizeof(RingHeader): four lines of counters, 32 names of 48 bytes, 512 bytes of environment.
abbrev pub header_size : ℕ
header_size = 4 * 64 + max_passes * pass_name_len + environment_len

-- sizeof(TelemetryRecord)
abbrev pub telemetry_size : ℕ
telemetry_size = 192

unfoldable pub ring_bytes : ℕ → ℕ
ring_bytes capacity = header_size + capacity * telemetry_size

-- `uint64_t` subtraction and increment wrap.
abbrev pub sub64 : ℕ → ℕ → ℕ
sub64 a b = (a + 2 ^ 64 - b) % 2 ^ 64

abbrev pub add64 : ℕ → ℕ → ℕ
add64 a b = (a + b) % 2 ^ 64

abbrev pub add32 : ℕ → ℕ → ℕ
add32 a b = (a + b) % 2 ^ 32

-- what a slot that was never written holds
abbrev pub blank : TelemetryRecord
blank = record {
  seq = 0;
  t_mono_ns = 0;
  frame_time_ns = 0;
  gpu_total_ns = 0;
  media_time_ns = 0;
  reserved = 0;
  pass_ns = replicate max_passes 0;
  pass_count = 0;
  layout_version = 0;
  flags = 0;
  dropped_total = 0;
  delayed_total = 0;
  checksum = 0;
}

-- `mask_` and `cached_tail_`
pub record RingProducer : Type 0 where
  pub mask : ℕ
  pub cached_tail : ℕ

-- `mask_` and `cached_head_`
pub record RingConsumer : Type 0 where
  pub mask : ℕ
  pub cached_head : ℕ

unfoldable pub new_producer : RingMapping → RingProducer
new_producer m = record { mask = m.header.capacity - 1; cached_tail = m.header.tail }

unfoldable pub new_consumer : RingMapping → RingConsumer
new_consumer m = record { mask = m.header.capacity - 1; cached_head = m.header.head }

-- the test of `TryPush`, made once with the cached tail and once more with the real one
abbrev pub looks_full : ℕ → ℕ → ℕ → Bool
looks_full mask head cached_tail = leb (add64 mask 1) (sub64 head cached_tail)

-- the store into the slot, and the publication of the new head
abbrev pub store : RingMapping → ℕ → TelemetryRecord → RingMapping
store m mask rec = record m {
  slots = set m.slots (bit_and m.header.head mask) rec;
  header = record h { head = add64 h.head 1 };
}
  where
    h : RingHeader
    h = m.header

abbrev pub count_drop : RingMapping → RingMapping
count_drop m = record m { header = record h { push_dropped = add64 h.push_dropped 1 } }
  where
    h : RingHeader
    h = m.header

unfoldable pub try_push :
    RingMapping → RingProducer → TelemetryRecord → RingMapping × RingProducer × Bool
try_push m p rec =
    let fresh = record p { cached_tail = m.header.tail } in
    if looks_full p.mask m.header.head p.cached_tail
    then if looks_full p.mask m.header.head m.header.tail
      then (count_drop m, fresh, false)
      else (store m p.mask rec, fresh, true)
    else (store m p.mask rec, p, true)

abbrev pub advance_tail : RingMapping → ℕ → RingMapping
advance_tail m n = record m { header = record h { tail = add64 h.tail n } }
  where
    h : RingHeader
    h = m.header

-- `none` where `TryPop` returns false
unfoldable pub try_pop :
    RingMapping → RingConsumer → RingMapping × RingConsumer × Option TelemetryRecord
try_pop m c =
    let fresh = record c { cached_head = m.header.head } in
    let out = some (get_or m.slots (bit_and m.header.tail c.mask) blank) in
    if m.header.tail == c.cached_head
    then if m.header.tail == m.header.head then (m, fresh, none) else (advance_tail m 1, fresh, out)
    else (advance_tail m 1, c, out)

-- `out[i] = slots_[(tail + i) & mask_]` for `n` rounds from `i`
unfoldable pub copy_batch : List TelemetryRecord → ℕ → ℕ → ℕ → ℕ → List TelemetryRecord
copy_batch slots mask tail i zero = []
copy_batch slots mask tail i (suc n) =
    get_or slots (bit_and (add64 tail i) mask) blank ∷ copy_batch slots mask tail (i + 1) n

-- the part of `PopBatch` behind the refresh of the cached head
unfoldable pub take_batch :
    RingMapping → RingConsumer → ℕ → RingMapping × RingConsumer × List TelemetryRecord
unfolding copy_batch
take_batch m c max_records =
    let available = min (sub64 c.cached_head m.header.tail) max_records in
    (advance_tail m available, c, copy_batch m.slots c.mask m.header.tail 0 available)

unfoldable pub pop_batch :
    RingMapping → RingConsumer → ℕ → RingMapping × RingConsumer × List TelemetryRecord
pop_batch m c max_records =
    let fresh = record c { cached_head = m.header.head } in
    if max_records == 0
    then (m, c, [])
    else if m.header.tail == c.cached_head
    then if m.header.tail == m.header.head then (m, fresh, []) else take_batch m fresh max_records
    else take_batch m c max_records

unfoldable pub pending_count : RingMapping → ℕ
pending_count m = sub64 m.header.head m.header.tail
