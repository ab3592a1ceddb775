-- ===== src/Ring/Mapping.antt =====
-- src/spsc_ring.cpp, `RingMapping::Create`, `RingMapping::Open` and what they check. The segment that
-- stands under the given name is an argument, with `none` where `ShmRegion::Open` throws or nothing
-- stands there; so are the clock and the process id. `ShmRegion::Create` is taken to succeed.
use Prim.Native.Nat.{bit_and}
use framewire.Prelude.{
  ℕ, ◌-◌, Bool, not, ◌&&◌, Option, none, some, ◌==◌, ltb, if◌then◌else◌, replicate,
}
use framewire.Prelude.Result.{Result, ok, err, throw_if, ◌>>=◌, ◌>>◌}
use framewire.Prelude.Chars.{Bytes, snprintf}
use framewire.Telemetry.{max_passes, pass_name_len}
use framewire.Ring.{
  RingHeader, RingMapping, ring_magic, ring_abi_version, environment_len, header_size,
  telemetry_size, ring_bytes, blank,
}

unfoldable pub is_power_of_two : ℕ → Bool
is_power_of_two v = not (v == 0) && bit_and v (v - 1) == 0

pub data Error : Type 0 where
  bad_capacity : ℕ → Error
  in_use : ℕ → Error
  open_failed too_small not_a_ring : Error
  abi_mismatch size_mismatch : ℕ → Error
  capacity_not_power_of_two shorter_than_declared : Error

-- kLiveProducerNs
abbrev pub live_producer_ns : ℕ
live_producer_ns = 3_000_000_000

-- `DescribeLiveOwner`: the process id that its message names, `none` for the empty string.
unfoldable pub describe_live_owner : Option RingMapping → ℕ → Option ℕ
describe_live_owner none now = none
describe_live_owner (some probe) now =
    if ltb probe.size header_size
    then none
    else if not (h.magic == ring_magic)
    then none
    else if not (h.producer_done == 0)
    then none
    else if ltb h.producer_heartbeat_ns now && ltb live_producer_ns (now - h.producer_heartbeat_ns)
    then none
    else some h.producer_pid
  where
    h : RingHeader
    h = probe.header

-- The header that `Create` writes over zeroed pages.
abbrev pub new_header : ℕ → Bytes → ℕ → ℕ → RingHeader
new_header capacity label now pid = record {
  magic = ring_magic;
  abi_version = ring_abi_version;
  capacity = capacity;
  record_size = telemetry_size;
  created_mono_ns = now;
  label = snprintf (replicate 32 0) 32 label;
  head = 0;
  tail = 0;
  push_dropped = 0;
  producer_heartbeat_ns = now;
  layout_version = 0;
  pass_count = 0;
  producer_pid = pid;
  producer_done = 0;
  environment_version = 0;
  geometry_changes = 0;
  pass_names = replicate max_passes (replicate pass_name_len 0);
  environment = replicate environment_len 0;
}

fresh_mapping : ℕ → Bytes → ℕ → ℕ → RingMapping
fresh_mapping capacity label now pid = record {
  size = ring_bytes capacity;
  header = new_header capacity label now pid;
  slots = replicate capacity blank;
}

refuse_owner : Option ℕ → Result Error (Unit {0})
refuse_owner none = ok tt
refuse_owner (some pid) = err (in_use pid)

unfoldable pub create : Option RingMapping → ℕ → Bytes → ℕ → ℕ → Result Error RingMapping
unfolding refuse_owner fresh_mapping
create existing capacity label now pid = do
  throw_if (not (is_power_of_two capacity)) (bad_capacity capacity)
  refuse_owner (describe_live_owner existing now)
  ok (fresh_mapping capacity label now pid)

or_throw : Option RingMapping → Result Error RingMapping
or_throw none = err open_failed
or_throw (some m) = ok m

unfoldable pub open_ring : Option RingMapping → Result Error RingMapping
unfolding or_throw
open_ring segment = do
  m ← or_throw segment
  throw_if (ltb m.size header_size) too_small
  throw_if (not (m.header.magic == ring_magic)) not_a_ring
  throw_if (not (m.header.abi_version == ring_abi_version)) (abi_mismatch m.header.abi_version)
  throw_if (not (m.header.record_size == telemetry_size)) (size_mismatch m.header.record_size)
  throw_if (not (is_power_of_two m.header.capacity)) capacity_not_power_of_two
  throw_if (ltb m.size (ring_bytes m.header.capacity)) shorter_than_declared
  ok m
