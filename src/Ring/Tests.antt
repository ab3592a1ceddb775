-- ===== src/Ring/Tests.antt =====
-- Runs of the ring of src/spsc_ring.cpp at concrete inputs, and the theorems applied to them.
use Prim.Native.Nat.{bit_and}
use framewire.Prelude.{
  ℕ, ◌-◌, ◌^◌, ◌≤◌, ◌<◌, ◌≡◌, ◌≢◌, refl, ◌↔◌, List, [], ◌∷◌, ◌++◌, map, none, some, arith, length,
  replicate,
}
use framewire.Prelude.Result.{ok, err}
use framewire.Prelude.Chars.{c_str}
use framewire.Telemetry.{TelemetryRecord}
use framewire.Ring.{
  RingHeader, RingMapping, add64, blank, ring_bytes, try_push, try_pop, copy_batch, take_batch,
  pop_batch,
}
use framewire.Ring.Mapping.{
  in_use, bad_capacity, is_power_of_two, describe_live_owner, new_header, create, open_ring,
}
use framewire.Ring.Publish.{publish_layout, read_layout, publish_environment, read_environment}
use framewire.Ring.Inv.{Ring, IsValid, push, pop, pop_many}
use framewire.Ring.Fifo.{contents, enqueue, dequeue, push_refines, pop_refines}
use framewire.Ring.Batch.{pop_many_takes}
use framewire.Ring.Session.{Call, pushes, pops, pops_many, Log, step, run, run_conserves}
use framewire.Ring.Setup.{IsRing, IsLive, attach, open_ring-IsRing, create-IsValid, create_in_use}
use framewire.Ring.Threads.{
  storing, copying, push_turn, pop_turn, Turn, producer_turn, consumer_turn, turn, schedule,
}
use framewire.Ring.Threads.Inv.{ring_of}
use framewire.Ring.Threads.Race.{start, no_race, schedule_fifo}
use framewire.Ring.Directory.{shown, read-publish_environment, read-publish_layout}

abbrev rec_of : ℕ → TelemetryRecord
rec_of n = record blank { seq = n }

abbrev header : RingHeader
header = new_header 2 (b'a' ∷ []) 5 77

-- Capacity two, with indices about to wrap: one record is held, in slot 1.
abbrev shm : RingMapping
shm = record {
  size = 2688;
  header = record header { head = 0; tail = 2 ^ 64 - 1 };
  slots = rec_of 1 ∷ rec_of 2 ∷ [];
}

abbrev ring : Ring
ring = record {
  shm = shm;
  producer = record { mask = 1; cached_tail = 2 ^ 64 - 2 };
  consumer = record { mask = 1; cached_head = 2 ^ 64 - 1 };
}

ring-IsValid : IsValid 1 ring
ring-IsValid = omega arith

contents-ring : contents 1 ring ≡ rec_of 2 ∷ []
contents-ring = refl

push-ring : contents 1 (push ring (rec_of 3)).0 ≡ rec_of 2 ∷ rec_of 3 ∷ []
unfolding push try_push
push-ring = refl

push_refines_example :
    let (r', done) = push ring (rec_of 3) in
    (contents 1 r', done) ≡ enqueue 2 (rec_of 2 ∷ []) (rec_of 3)
push_refines_example = push_refines (rec_of 3) ring-IsValid

pop_refines_example : let (r', out) = pop ring in (contents 1 r', out) ≡ dequeue (rec_of 2 ∷ [])
pop_refines_example = pop_refines ring-IsValid

abbrev calls : List Call
calls = pops ∷ pushes (rec_of 3) ∷ pushes (rec_of 4) ∷ pushes (rec_of 5) ∷ pops_many 7 ∷ pops ∷ []

abbrev log : Log
log = record { accepted = rec_of 2 ∷ []; refused = []; received = [] }

run-calls : (run calls ring log).1 ≡ record {
  accepted = rec_of 2 ∷ rec_of 3 ∷ rec_of 4 ∷ [];
  refused = rec_of 5 ∷ [];
  received = rec_of 2 ∷ rec_of 3 ∷ rec_of 4 ∷ [];
}
unfolding run step push try_push pop try_pop pop_many pop_batch take_batch copy_batch
run-calls = refl

run_conserves_example :
    let (r', l') = run calls ring log in (l'.accepted ≡ l'.received ++ contents 1 r') × IsValid 1 r'
run_conserves_example = run_conserves calls log ring-IsValid refl

pop_many_takes_example :
    let (r', out) = pop_many ring 4 in
    (contents 1 ring ≡ out ++ contents 1 r')
    × (length out ≤ 4)
    × (0 < 4 → 0 < length (contents 1 ring) → 0 < length out)
pop_many_takes_example = pop_many_takes 4 ring-IsValid

-- A header that a producer finished with, found by a consumer that starts late.
abbrev made : RingMapping
made = record { size = 2688; header = new_header 2 (b'a' ∷ []) 5 77; slots = blank ∷ blank ∷ [] }

made-create : create none 2 (b'a' ∷ []) 5 77 ≡ ok made
unfolding create describe_live_owner is_power_of_two ring_bytes
made-create = refl

not_power_of_two : create none 6 [] 0 0 ≡ err (bad_capacity 6)
unfolding create describe_live_owner is_power_of_two
not_power_of_two = refl

made-IsRing : IsRing made
unfolding is_power_of_two ring_bytes
made-IsRing = record {
  magic = refl;
  abi = refl;
  record_size = refl;
  capacity = refl;
  size = omega arith;
}

open_ring-IsRing_example : (open_ring (some made) ≡ ok made) ↔ ((made ≡ made) × IsRing made)
open_ring-IsRing_example = open_ring-IsRing made made

shm-IsRing : IsRing shm
unfolding is_power_of_two ring_bytes
shm-IsRing = record {
  magic = refl;
  abi = refl;
  record_size = refl;
  capacity = refl;
  size = omega arith;
}

create-IsValid_example :
    (k : ℕ) × ◌≡◌ {A = ℕ} 2 (2 ^ k) × IsValid k (attach made) × (contents k (attach made) ≡ [])
create-IsValid_example = create-IsValid none 2 (b'a' ∷ []) 5 77 (omega arith) made-create

create_in_use_example :
    (create (some made) 4 [] 6 1 ≡ err (in_use made.header.producer_pid)) ↔ IsLive made 6
unfolding is_power_of_two
create_in_use_example = create_in_use made 4 [] 6 1 refl

read-publish_environment_example :
    read_environment (publish_environment header (b'v' ∷ b'o' ∷ [])) ≡ b'v' ∷ b'o' ∷ []
unfolding c_str
read-publish_environment_example = read-publish_environment header (b'v' ∷ b'o' ∷ [])

read-publish_layout_example :
    map c_str
      (read_layout (publish_layout header (some (b'x' ∷ []) ∷ []) 1).0 (replicate 32 (7 ∷ []))).1
    ≡ shown 1 (some (b'x' ∷ []) ∷ []) 32
read-publish_layout_example =
    (read-publish_layout header (some (b'x' ∷ []) ∷ []) 1 (replicate 32 (7 ∷ [])) (omega arith) refl
      refl (omega arith)).1

-- The producer stores into one slot while the consumer copies out of the other.
abbrev crossing : List Turn
crossing =
    producer_turn (rec_of 3)
    ∷ producer_turn (rec_of 3)
    ∷ producer_turn (rec_of 3)
    ∷ consumer_turn 4
    ∷ consumer_turn 4
    ∷ []

crossing-points :
    let s = schedule crossing (start 1 ring) in
    (s.push_point ≡ storing (rec_of 3) 0) × (s.pop_point ≡ copying (2 ^ 64 - 1) 0 1 [])
unfolding schedule turn push_turn pop_turn
crossing-points = (refl, refl)

no_race_example : bit_and 0 1 ≢ bit_and (add64 (2 ^ 64 - 1) 0) 1
unfolding schedule turn push_turn pop_turn
no_race_example =
    no_race crossing 0 (2 ^ 64 - 1) 0 1 (rec_of 3) [] ring-IsValid crossing-points.0
      crossing-points.1 (omega arith)

schedule_fifo_example :
    let s = schedule crossing (start 1 ring) in s.accepted ≡ s.received ++ contents 1 (ring_of s)
schedule_fifo_example = schedule_fifo crossing ring-IsValid
