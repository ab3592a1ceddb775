-- ===== src/Producer/Tests.antt =====
-- src/producer_main.cpp, run on lines that mpv could send.
use native.Mathlib.Omega.{arith}
use framewire.Prelude.{
  ℕ, ◌+◌, ◌*◌, ◌^◌, ◌≤◌, ◌<◌, ◌≡◌, refl, true, List, [], ◌∷◌, ◌++◌, some, length, replicate,
}
use framewire.Prelude.Chars.{Bytes, codes}
use framewire.Prelude.Int.{pos, ◌+ℤ◌, ◌≤ℤ◌, ltb_ℤ}
use framewire.Prelude.Result.{ok, err}
use framewire.Ring.{RingHeader, blank}
use framewire.Json.{Reader}
use framewire.Json.Naturals.{naturals}
use framewire.Json.Parse.{parse}
use framewire.Json.Values.{get_first_child}
use framewire.Ipc.{line, timeout}
use framewire.Producer.{ProducerState, parse_args, max_outstanding_polls, loop_backstep_ns}
use framewire.Producer.Passes.{read_passes}
use framewire.Producer.Lines.{handle_line, move_position}
use framewire.Producer.Loop.{Round, step, run_loop}
use framewire.Producer.Moves.{Move, brings_reply, view, step-Move}
use framewire.Producer.Polls.{run_loop-bound, run_loop-stalls, Unanswered, replies}
use framewire.Producer.Totals.{times, siblings, Reports, read_passes-totals}
use framewire.Producer.Clock.{OnClock, move_position-media}
use framewire.Producer.Records.{Effect, handle_line-Effect}

abbrev header : RingHeader
header = record {
  magic = 0;
  abi_version = 2;
  capacity = 4;
  record_size = 192;
  created_mono_ns = 0;
  label = [];
  head = 0;
  tail = 0;
  push_dropped = 0;
  producer_heartbeat_ns = 0;
  layout_version = 0;
  pass_count = 0;
  producer_pid = 0;
  producer_done = 0;
  environment_version = 0;
  geometry_changes = 0;
  pass_names = replicate 32 (replicate 48 0);
  environment = replicate 512 0;
}

abbrev start : ProducerState
start = record {
  mapping = record { size = 0; header = header; slots = replicate 4 blank };
  handle = record { mask = 3; cached_tail = 0 };
  layout = record { hash = 0; count = 0; version = 0 };
  render_w = pos 640;
  render_h = pos 480;
  next_size_id = 151;
  seq = 0;
  last_frame_ns = 0;
  last_heartbeat = 0;
  drop_total = 0;
  delayed_total = 0;
  last_drop_total = 0;
  last_delayed_total = 0;
  parse_errors = 0;
  poll_errors = 0;
  frame_ticks = 0;
  next_poll_id = 0;
  outstanding_polls = 0;
  media_time_ns = pos 0;
  last_position_ns = pos 0;
  media_epoch_ns = pos 0;
  loops = 0;
  last_geometry_check = 0;
  geometry_changes = 0;
}

abbrev tick : Bytes
tick = codes "{\"event\":\"property-change\",\"name\":\"playback-time\",\"data\":3}"

abbrev reply : Bytes
reply =
    codes
      "{\"request_id\":1000,\"error\":\"success\",\"data\":{\"fresh\":[{\"desc\":\"a\",\"last\":70},{\"desc\":\"b\",\"last\":5}]}}"

abbrev size_reply : ℕ → Bytes
size_reply digit =
    codes "{\"request_id\":15"
    ++ (b'0' + digit)
      ∷ codes
          ",\"error\":\"success\",\"data\":{\"w\":640,\"h\":480,\"ml\":0,\"mr\":0,\"mt\":0,\"mb\":0}}"

-- A round that presents a frame, and one whose check of the geometry gets the reply to the frame's request first.
abbrev frame : ℕ → Round naturals
frame now = record {
  now = now;
  beat_ns = now;
  size_sent = true;
  size_polls = [];
  polled = line tick;
  poll_sent = true;
  t_mono_ns = now;
}

abbrev check : ℕ → ℕ → Round naturals
check now digit = record {
  now = now;
  beat_ns = now;
  size_sent = true;
  size_polls = line reply ∷ line (size_reply digit) ∷ [];
  polled = timeout;
  poll_sent = true;
  t_mono_ns = now;
}

-- Every reply comes in, but while the size of the window is awaited: none is counted.
abbrev second : ℕ
second = 1000000000

abbrev swallowed : List (Round naturals)
swallowed =
    frame 1
    ∷ check (3 * second) 1
    ∷ frame (3 * second + 1)
    ∷ check (6 * second) 2
    ∷ frame (6 * second + 1)
    ∷ check (9 * second) 3
    ∷ frame (9 * second + 1)
    ∷ check (12 * second) 4
    ∷ []

abbrev stalled : ProducerState
unfolding run_loop
stalled = run_loop naturals swallowed start

stalled_at_cap : stalled.outstanding_polls ≡ 4
unfolding run_loop stalled
stalled_at_cap = refl

abbrev frames : List (Round naturals)
frames = frame (12 * second + 1) ∷ frame (12 * second + 2) ∷ []

frames-Unanswered : Unanswered naturals frames
unfolding brings_reply
frames-Unanswered = (refl, (refl, tt))

run_loop-stalls_example :
    ((run_loop naturals frames stalled).seq ≡ stalled.seq)
    × ((run_loop naturals frames stalled).next_poll_id ≡ stalled.next_poll_id)
    × ((run_loop naturals frames stalled).outstanding_polls ≡ max_outstanding_polls)
run_loop-stalls_example = run_loop-stalls naturals frames stalled stalled_at_cap frames-Unanswered

run_loop-bound_example :
    ((run_loop naturals swallowed start).outstanding_polls ≤ max_outstanding_polls)
    × ((run_loop naturals swallowed start).next_poll_id + start.outstanding_polls
        ≤ start.next_poll_id
          + (run_loop naturals swallowed start).outstanding_polls
          + replies naturals swallowed)
run_loop-bound_example = run_loop-bound naturals swallowed start (omega arith)

step-Move_example :
    Move
      (brings_reply naturals (line reply))
      (view start)
      (view (step naturals (record (frame 1) { polled = line reply }) start).0)
step-Move_example = step-Move naturals (record (frame 1) { polled = line reply }) start

handle_line-Effect_example : Effect start (handle_line naturals reply true 50 start)
handle_line-Effect_example = handle_line-Effect naturals reply true 50 start

-- One frame and its reply make one record.
one_record :
    (run_loop naturals (frame 1 ∷ record (frame 2) { polled = line reply } ∷ []) start).seq ≡ 1
unfolding run_loop
one_record = refl

abbrev passes_document : Reader ℕ
unfolding parse
passes_document =
    elim (parse naturals (codes "[{\"desc\":\"a\",\"last\":70},{\"desc\":\"b\",\"last\":5}]")) [
      | ok doc ↦ doc
      | err f ↦ record { nodes = []; text_pool = []; rest = []; pos = 0 }
    ]

two_times : times naturals passes_document (some 0) ≡ 70 ∷ 5 ∷ []
unfolding passes_document siblings get_first_child
two_times = refl

few_passes : length (times naturals passes_document (some 0)) < 2 ^ 32
few_passes = rw two_times (omega arith)

read_passes-totals_example :
    Reports
      (times naturals passes_document (some 0))
      blank
      (read_passes naturals passes_document (some 0) blank)
read_passes-totals_example =
    read_passes-totals naturals passes_document (some 0) blank refl few_passes

move_position-media_example :
    let s' = move_position (pos 5) start in
    OnClock s'
    × (pos 0 ≤ℤ s'.media_time_ns +ℤ pos loop_backstep_ns)
    × (pos 0 ≤ℤ pos 5 → pos 0 ≤ℤ s'.media_time_ns)
    × (ltb_ℤ (pos 5 +ℤ pos loop_backstep_ns) (pos 0) ≡ true → pos 0 ≤ℤ s'.media_time_ns)
unfolding ◌+ℤ◌
move_position-media_example = move_position-media 5 start refl

accepted_args :
    parse_args (
      codes "--shm"
      ∷ codes "/a"
      ∷ codes "--socket"
      ∷ codes "s"
      ∷ codes "--capacity"
      ∷ codes "16"
      ∷ codes "--verbose"
      ∷ [])
    ≡ some (record {
      socket_path = codes "s";
      shm_name = codes "/a";
      label = codes "stream";
      capacity = 16;
      connect_timeout_ms = pos 10000;
      verbose = true;
    })
unfolding parse_args
accepted_args = refl
