-- ===== src/Producer.antt =====
-- src/producer_main.cpp: the state of the producer's loop, its options, and what the members of a pass list give.
pub mod Passes
pub mod Lines
pub mod Loop
pub mod Moves
pub mod Polls
pub mod Totals
pub mod Clock
pub mod Records
mod Tests
use framewire.Prelude.{
  ℕ, zero, suc, ◌+◌, ◌-◌, ◌*◌, ◌%◌, ◌^◌, Bool, true, false, not, ◌&&◌, ◌||◌, List, [], ◌∷◌, ◌++◌,
  Option, none, some, ltb, leb, ◌==◌, if◌then◌else◌, length,
}
use framewire.Prelude.Chars.{Bytes, codes}
use framewire.Prelude.Int.{ℤ, pos, negsuc}
use framewire.Report.{same_bytes}
use framewire.Ring.{RingMapping, RingProducer}
use framewire.Json.Text.{is_digit}

-- kMaxOutstandingPolls
abbrev pub max_outstanding_polls : ℕ
max_outstanding_polls = 4

-- kPollIdBase
abbrev pub poll_id_base : ℕ
poll_id_base = 1000

-- kEnvIdBase
abbrev pub env_id_base : ℕ
env_id_base = 100

-- kHeartbeatIntervalNs
abbrev pub heartbeat_interval_ns : ℕ
heartbeat_interval_ns = 250 * 1000 * 1000

-- kGeometryCheckNs
abbrev pub geometry_check_ns : ℕ
geometry_check_ns = 2 * 1000 * 1000 * 1000

-- kLoopBackstepNs
abbrev pub loop_backstep_ns : ℕ
loop_backstep_ns = 1000000000

pub record LayoutTracker : Type 0 where
  pub hash : ℕ
  pub count : ℕ
  pub version : ℕ

-- The locals of `Run` around its loop, the ring that it writes, and the static counter of `ReadRenderSize`.
pub record ProducerState : Type 0 where
  pub mapping : RingMapping
  pub handle : RingProducer
  pub layout : LayoutTracker
  pub render_w : ℤ
  pub render_h : ℤ
  pub next_size_id : ℕ
  pub seq : ℕ
  pub last_frame_ns : ℕ
  pub last_heartbeat : ℕ
  pub drop_total : ℕ
  pub delayed_total : ℕ
  pub last_drop_total : ℕ
  pub last_delayed_total : ℕ
  pub parse_errors : ℕ
  pub poll_errors : ℕ
  pub frame_ticks : ℕ
  pub next_poll_id : ℕ
  pub outstanding_polls : ℕ
  pub media_time_ns : ℤ
  pub last_position_ns : ℤ
  pub media_epoch_ns : ℤ
  pub loops : ℕ
  pub last_geometry_check : ℕ
  pub geometry_changes : ℕ

pub record Options : Type 0 where
  pub socket_path : Bytes
  pub shm_name : Bytes
  pub label : Bytes
  pub capacity : ℕ
  pub connect_timeout_ms : ℤ
  pub verbose : Bool

abbrev pub default_options : Options
default_options = record {
  socket_path = [];
  shm_name = [];
  label = codes "stream";
  capacity = 65536;
  connect_timeout_ms = pos 10000;
  verbose = false;
}

-- `strtoul` and `atoi` in base ten: white space, a sign, digits, and whatever follows is not read. `strtoul` stays at its
-- largest value where the digits run over.
abbrev is_space : ℕ → Bool
is_space c = c == b' ' || leb 9 c && leb c 13

unfoldable pub skip_spaces : Bytes → Bytes
skip_spaces [] = []
skip_spaces (c ∷ cs) = let rest = skip_spaces cs in if is_space c then rest else c ∷ cs

unfoldable pub read_digits : ℕ → Bytes → ℕ
unfolding is_digit
read_digits n [] = n
read_digits n (c ∷ cs) =
    let more = read_digits (n * 10 + (c - b'0')) cs in if is_digit c then more else n

abbrev signed_digits : Bytes → Bool × ℕ
unfolding read_digits
signed_digits [] = (false, 0)
signed_digits (c ∷ cs) =
    if c == b'-'
    then (true, read_digits 0 cs)
    else if c == b'+'
    then (false, read_digits 0 cs)
    else (false, read_digits 0 (c ∷ cs))

unfoldable pub strtoul : Bytes → ℕ
unfolding skip_spaces signed_digits
strtoul text =
    let (negative, n) = signed_digits (skip_spaces text) in
    if leb (2 ^ 64) n then 2 ^ 64 - 1 else if negative then (2 ^ 64 - n) % 2 ^ 64 else n

unfoldable pub atoi : Bytes → ℤ
unfolding skip_spaces signed_digits
atoi text =
    let (negative, n) = signed_digits (skip_spaces text) in
    if negative && not (n == 0) then negsuc (n - 1) else pos n

-- The loop of `ParseArgs`: `none` where it returns false. An option that needs a value takes the argument behind it.
unfoldable pub parse_args_loop : List Bytes → Options → Option Options
unfolding strtoul atoi
parse_args_loop [] opt = some opt
parse_args_loop (arg ∷ []) opt =
    if same_bytes arg (codes "--verbose") then some (record opt { verbose = true }) else none
parse_args_loop (arg ∷ v ∷ rest) opt =
    let socket = parse_args_loop rest (record opt { socket_path = v }) in
    let shm = parse_args_loop rest (record opt { shm_name = v }) in
    let labelled = parse_args_loop rest (record opt { label = v }) in
    let sized = parse_args_loop rest (record opt { capacity = strtoul v % 2 ^ 32 }) in
    let timed = parse_args_loop rest (record opt { connect_timeout_ms = atoi v }) in
    let verbose = parse_args_loop (v ∷ rest) (record opt { verbose = true }) in
    if same_bytes arg (codes "--socket")
    then socket
    else if same_bytes arg (codes "--shm")
    then shm
    else if same_bytes arg (codes "--label")
    then labelled
    else if same_bytes arg (codes "--capacity")
    then sized
    else if same_bytes arg (codes "--timeout")
    then timed
    else if same_bytes arg (codes "--verbose")
    then verbose
    else none

-- The arguments behind the program's name.
unfoldable pub parse_args : List Bytes → Option Options
unfolding parse_args_loop
parse_args args = elim (parse_args_loop args default_options) [
  | none ↦ none
  | some opt ↦ if length opt.socket_path == 0 || length opt.shm_name == 0 then none else some opt
]
