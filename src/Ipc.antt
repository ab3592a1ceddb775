-- ===== src/Ipc.antt =====
-- src/ipc_client.cpp and include/framewire/ipc_client.h: the client of mpv's JSON socket. What the operating system answers
-- is a parameter: each call takes the list of the answers that it gets, and waits where the list ends.
pub mod Lines
pub mod Framing
pub mod Sending
mod Tests
use framewire.Prelude.{
  ℕ, zero, suc, ◌+◌, ◌-◌, ◌*◌, Bool, true, false, List, [], ◌∷◌, ◌++◌, Option, none, some, ltb, leb,
  ◌==◌, if◌then◌else◌, length, take, drop,
}
use framewire.Prelude.Chars.{Bytes, codes}
use framewire.Prelude.Int.{ℤ}
use framewire.Json.Text.{build_mpv_command, build_mpv_observe_command}

-- `fd_ >= 0` is `connected`; the text of `last_error_` is not kept.
pub record MpvIpcClient : Type 0 where
  pub connected : Bool
  pub read_buffer : Bytes
  pub scan_from : ℕ

pub data PollResult : Type 0 where
  line : Bytes → PollResult
  timeout : PollResult
  closed : PollResult
  error : PollResult

-- The answers to one round of `poll` and `recv`; `late` says whether the deadline has passed when it is looked at.
pub data Wake : Type 0 where
  poll_interrupted : Wake
  poll_failed : Wake
  poll_expired : Wake
  peer_closed : Wake
  would_block : Bool → Wake
  recv_interrupted : Wake
  recv_failed : Wake
  received : Bytes → Bool → Wake

abbrev pub max_buffer_bytes : ℕ
max_buffer_bytes = 4 * 1024 * 1024

abbrev pub closed_client : MpvIpcClient
closed_client = record { connected = false; read_buffer = []; scan_from = 0 }

unfoldable pub close : MpvIpcClient → MpvIpcClient
close c = closed_client

-- `std::string::find`: the first place of a byte.
unfoldable pub find_byte : ℕ → Bytes → Option ℕ
find_byte stop [] = none
find_byte stop (b ∷ bs) =
    let later = find_byte stop bs in
    if b == stop then some 0 else elim later [ none ↦ none | some i ↦ some (suc i) ]

unfoldable pub take_buffered_line : MpvIpcClient → Option Bytes × MpvIpcClient
unfolding find_byte
take_buffered_line c = elim (find_byte b'\n' (drop c.scan_from c.read_buffer)) [
  | none ↦ (none, record c { scan_from = length c.read_buffer })
  | some i ↦
      let newline = c.scan_from + i in
      (
        some (take newline c.read_buffer),
        record c { read_buffer = drop (newline + 1) c.read_buffer; scan_from = 0 },
      )
]

-- What `PollLine` returns, `none` while it waits; the client behind it; and the answers it has not used.
abbrev pub Polled : Type 0
Polled = Option PollResult × (MpvIpcClient × List Wake)

-- The end of a round that has appended to the buffer: the size check, then a line if there is one, then the deadline.
abbrev pub after_append : MpvIpcClient → Bool → List Wake → Polled → Polled
after_append c late ws more =
    if ltb max_buffer_bytes (length c.read_buffer)
    then (some error, (c, ws))
    else let (found, c) = take_buffered_line c in
      elim found [
        | some text ↦ (some (line text), (c, ws))
        | none ↦ if late then (some timeout, (c, ws)) else more
      ]

unfoldable pub poll_rounds : MpvIpcClient → List Wake → Polled
unfolding take_buffered_line
poll_rounds c [] = (none, (c, []))
poll_rounds c (poll_interrupted ∷ ws) = (some timeout, (c, ws))
poll_rounds c (poll_failed ∷ ws) = (some error, (c, ws))
poll_rounds c (poll_expired ∷ ws) = (some timeout, (c, ws))
poll_rounds c (peer_closed ∷ ws) = (some closed, (c, ws))
poll_rounds c (would_block late ∷ ws) =
    let more = poll_rounds c ws in if late then (some timeout, (c, ws)) else more
poll_rounds c (recv_interrupted ∷ ws) = poll_rounds c ws
poll_rounds c (recv_failed ∷ ws) = (some error, (c, ws))
poll_rounds c (received chunk late ∷ ws) =
    let appended = record c { read_buffer = c.read_buffer ++ chunk } in
    let more = poll_rounds (take_buffered_line appended).1 ws in after_append appended late ws more

unfoldable pub poll_line : MpvIpcClient → List Wake → Polled
unfolding take_buffered_line poll_rounds
poll_line c ws =
    if c.connected
    then (let (found, c') = take_buffered_line c in
        elim found [ some text ↦ (some (line text), (c', ws)) | none ↦ poll_rounds c' ws ])
    else (some error, (c, ws))

-- The answers to one `send`, and to the `poll` behind one that would block.
pub data Sent : Type 0 where
  accepted : ℕ → Sent
  writable_again : Sent
  not_writable : Sent
  send_failed : Sent

-- The loop of `SendRaw` on what is left of the line: whether it is done and how it ended, with the bytes that the socket
-- took. `send` takes a byte at least and no more than it is given.
unfoldable pub send_rounds : Bytes → List Sent → Option Bool × Bytes
send_rounds [] answers = (some true, [])
send_rounds (b ∷ bs) [] = (none, [])
send_rounds (b ∷ bs) (accepted n ∷ answers) =
    let (done, written) = send_rounds (drop n (b ∷ bs)) answers in
    (done, take n (b ∷ bs) ++ written)
send_rounds (b ∷ bs) (writable_again ∷ answers) = send_rounds (b ∷ bs) answers
send_rounds (b ∷ bs) (not_writable ∷ answers) = (some false, [])
send_rounds (b ∷ bs) (send_failed ∷ answers) = (some false, [])

unfoldable pub send_raw : MpvIpcClient → Bytes → List Sent → Option Bool × Bytes
unfolding send_rounds
send_raw c text answers = if c.connected then send_rounds text answers else (some false, [])

unfoldable pub send_command : MpvIpcClient → List Bytes → ℤ → List Sent → Option Bool × Bytes
unfolding send_raw build_mpv_command
send_command c args request_id answers =
    if c.connected then send_raw c (build_mpv_command args request_id) answers else (some false, [])

unfoldable pub observe_property : MpvIpcClient → ℤ → Bytes → List Sent → Option Bool × Bytes
unfolding send_raw build_mpv_observe_command
observe_property c observe_id property answers =
    if c.connected
    then send_raw c (build_mpv_observe_command observe_id property observe_id) answers
    else (some false, [])

unfoldable pub get_property : MpvIpcClient → Bytes → ℤ → List Sent → Option Bool × Bytes
unfolding send_command
get_property c property request_id answers =
    send_command c (codes "get_property" ∷ property ∷ []) request_id answers

-- The answers to one round of `Connect`; `late` says whether the deadline has passed.
pub data Attempt : Type 0 where
  socket_failed : Attempt
  connect_done : Attempt
  fcntl_failed : Attempt
  connect_failed : Bool → Attempt

unfoldable pub connect_rounds : List Attempt → Option Bool × MpvIpcClient
connect_rounds [] = (none, closed_client)
connect_rounds (socket_failed ∷ later) = (some false, closed_client)
connect_rounds (connect_done ∷ later) = (some true, record closed_client { connected = true })
connect_rounds (fcntl_failed ∷ later) = (some false, closed_client)
connect_rounds (connect_failed late ∷ later) =
    let more = connect_rounds later in if late then (some false, closed_client) else more

-- `sun_path` has 108 bytes on Linux.
unfoldable pub connect : MpvIpcClient → Bytes → List Attempt → Option Bool × MpvIpcClient
unfolding close connect_rounds
connect c path attempts =
    if leb 108 (length path) then (some false, close c) else connect_rounds attempts
