-- ===== src/Ipc/Framing.antt =====
-- src/ipc_client.cpp: the lines that `PollLine` delivers are the lines of the bytes received, however these were chunked.
use native.Mathlib.Omega.{arith}
use framewire.Prelude.{
  ℕ, zero, suc, ◌+◌, ◌≡◌, refl, sym, ap, subst, ◌∙◌, inl, inr, Bool-cases, Option-cases, Bool, true,
  false, List, [], ◌∷◌, ◌++◌, Option, none, some, ltb, if◌then◌else◌, length, length-append, take,
  drop, take-append-drop, take-length, take_add, drop_add, take-append, append_assoc,
}
use framewire.Prelude.Chars.{Bytes}
use framewire.Ipc.{
  MpvIpcClient, line, timeout, Wake, poll_interrupted, poll_failed, poll_expired, peer_closed,
  would_block, recv_interrupted, recv_failed, received, max_buffer_bytes, find_byte,
  take_buffered_line, Polled, after_append, poll_rounds, poll_line,
}
use framewire.Ipc.Lines.{
  lines, bytes_received, delivered, Scanned, find_byte-append, find_byte-some, lines-first,
}

-- What one call of `TakeBufferedLine` does to the lines of the buffer and all that is to come.
abbrev Takes : Bytes → MpvIpcClient → Option Bytes × MpvIpcClient → Type 0
Takes future c (none, c') =
    (c'.read_buffer ≡ c.read_buffer)
    × (find_byte b'\n' c.read_buffer ≡ none)
    × (c'.connected ≡ c.connected)
    × Scanned c'
Takes future c (some text, c') =
    (lines (c.read_buffer ++ future) ≡ text ∷ lines (c'.read_buffer ++ future))
    × (c'.connected ≡ c.connected)
    × Scanned c'

found_line :
    (future : Bytes) (c : MpvIpcClient) (i : ℕ)
    → let behind = drop c.scan_from c.read_buffer in
      find_byte b'\n' (take c.scan_from c.read_buffer) ≡ none
      → behind ≡ take i behind ++ b'\n' ∷ drop (suc i) behind
      → find_byte b'\n' (take i behind) ≡ none
      → lines (c.read_buffer ++ future)
        ≡ take (c.scan_from + i) c.read_buffer
          ∷ lines (drop (c.scan_from + i + 1) c.read_buffer ++ future)
found_line future c i before split first =
    let s = c.scan_from in
    let b = c.read_buffer in
    let behind = drop s b in
    let rest = drop (suc i) behind in
    let text = take s b ++ take i behind in
    let e : s + i + 1 ≡ s + suc i = omega arith in
    let whole : b ≡ text ++ b'\n' ∷ rest =
      sym (take-append-drop s b)
      ∙ ap (◌++◌ (take s b)) split
      ∙ sym (append_assoc (take s b) (take i behind) (b'\n' ∷ rest)) in
    rw (take_add s i b, e, drop_add s (suc i) b)
      (ap (λ t. lines (t ++ future)) whole
        ∙ ap lines (append_assoc text (b'\n' ∷ rest) future)
        ∙ lines-first text (rest ++ future)
            (find_byte-append b'\n' (take s b) (take i behind) before first))

take_buffered_line-Takes :
    (future : Bytes) (c : MpvIpcClient) → Scanned c → Takes future c (take_buffered_line c)
unfolding take_buffered_line
take_buffered_line-Takes future c (h, before) =
    elim (Option-cases (find_byte b'\n' (drop c.scan_from c.read_buffer))) [
      | inl absent ↦
          let whole = find_byte-append b'\n' (take c.scan_from c.read_buffer) _ before absent in
          let joined : find_byte b'\n' c.read_buffer ≡ none =
            subst (λ b. find_byte b'\n' b ≡ none) (take-append-drop c.scan_from c.read_buffer)
              whole in
          rw (take_buffered_line, absent)
            (refl, joined, refl, (omega arith, rw (take-length c.read_buffer) joined))
      | inr (i, present) ↦
          let (split, first) = find_byte-some b'\n' (drop c.scan_from c.read_buffer) i present in
          rw (take_buffered_line, present)
            (found_line future c i before split first, refl, (omega arith, refl))
    ]

-- A call of `PollLine` neither loses nor reorders a line, whatever it returns.
abbrev Keeps : MpvIpcClient → List Wake → Polled → Type 0
Keeps c ws (result, (c', ws')) =
    (lines (c.read_buffer ++ bytes_received ws)
      ≡ delivered result ++ lines (c'.read_buffer ++ bytes_received ws'))
    × Scanned c'

Scanned-append :
    (c : MpvIpcClient) (chunk : Bytes)
    → Scanned c
    → Scanned (record c { read_buffer = c.read_buffer ++ chunk })
Scanned-append c chunk (h, before) = (
  omega (arith, length-append c.read_buffer chunk),
  rw (take-append c.scan_from c.read_buffer chunk h) before,
)

found-Keeps :
    (c : MpvIpcClient) (late : Bool) (ws : List Wake) (more : Polled)
    (taken : Option Bytes × MpvIpcClient)
    → Takes (bytes_received ws) c taken
    → Keeps taken.1 ws more
    → Keeps c ws (elim taken.0 [
      | some text ↦ (some (line text), (taken.1, ws))
      | none ↦ if late then (some timeout, (taken.1, ws)) else more
    ])
found-Keeps c late ws more (some text, c') (e, same, scanned) k = (e, scanned)
found-Keeps c true ws more (none, c') (same, absent, conn, scanned) k =
    (ap (λ b. lines (b ++ bytes_received ws)) (sym same), scanned)
found-Keeps c false ws more (none, c') (same, absent, conn, scanned) (e, k) =
    (ap (λ b. lines (b ++ bytes_received ws)) (sym same) ∙ e, k)

taken-Scanned :
    (future : Bytes) (c : MpvIpcClient) (taken : Option Bytes × MpvIpcClient)
    → Takes future c taken
    → Scanned taken.1
taken-Scanned future c (some text, c') (e, same, scanned) = scanned
taken-Scanned future c (none, c') (same, absent, conn, scanned) = scanned

after_append-Keeps :
    (c : MpvIpcClient) (late : Bool) (ws : List Wake) (more : Polled)
    → Scanned c
    → Keeps (take_buffered_line c).1 ws more
    → Keeps c ws (after_append c late ws more)
after_append-Keeps c late ws more h k =
    elim (Bool-cases (ltb max_buffer_bytes (length c.read_buffer))) [
      | inl big ↦ rw big (refl, h)
      | inr fits ↦ rw fits (
          found-Keeps c late ws more (take_buffered_line c)
            (take_buffered_line-Takes (bytes_received ws) c h) k)
    ]

poll_rounds-Keeps : (c : MpvIpcClient) (ws : List Wake) → Scanned c → Keeps c ws (poll_rounds c ws)
unfolding poll_rounds
poll_rounds-Keeps c [] h = (refl, h)
poll_rounds-Keeps c (poll_interrupted ∷ ws) h = (refl, h)
poll_rounds-Keeps c (poll_failed ∷ ws) h = (refl, h)
poll_rounds-Keeps c (poll_expired ∷ ws) h = (refl, h)
poll_rounds-Keeps c (peer_closed ∷ ws) h = (refl, h)
poll_rounds-Keeps c (would_block true ∷ ws) h = (refl, h)
poll_rounds-Keeps c (would_block false ∷ ws) h = poll_rounds-Keeps c ws h
poll_rounds-Keeps c (recv_interrupted ∷ ws) h = poll_rounds-Keeps c ws h
poll_rounds-Keeps c (recv_failed ∷ ws) h = (refl, h)
poll_rounds-Keeps c (received chunk late ∷ ws) h =
    let appended = record c { read_buffer = c.read_buffer ++ chunk } in
    let taken = take_buffered_line appended in
    let scanned = Scanned-append c chunk h in
    let after =
      taken-Scanned (bytes_received ws) appended taken
        (take_buffered_line-Takes (bytes_received ws) appended scanned) in
    let (e, k) =
      after_append-Keeps appended late ws (poll_rounds taken.1 ws) scanned
        (poll_rounds-Keeps taken.1 ws after) in
    (ap lines (sym (append_assoc c.read_buffer chunk (bytes_received ws))) ∙ e, k)

poll_line-Keeps : (c : MpvIpcClient) (ws : List Wake) → Scanned c → Keeps c ws (poll_line c ws)
unfolding poll_line
poll_line-Keeps c ws h = elim (Bool-cases c.connected) [
  | inl e ↦ rw e (
      let taken = take_buffered_line c in
      let takes = take_buffered_line-Takes (bytes_received ws) c h in
      found-Keeps c false ws (poll_rounds taken.1 ws) taken takes
        (poll_rounds-Keeps taken.1 ws (taken-Scanned (bytes_received ws) c taken takes)))
  | inr e ↦ rw e (refl, h)
]

-- A number of calls of `PollLine`, one after the other: the lines that they return.
unfoldable pub poll_lines : ℕ → MpvIpcClient → List Wake → List Bytes × (MpvIpcClient × List Wake)
unfolding poll_line
poll_lines zero c ws = ([], (c, ws))
poll_lines (suc n) c ws =
    let (result, (c', ws')) = poll_line c ws in
    let (more, end) = poll_lines n c' ws' in (delivered result ++ more, end)

-- Any number of calls of `PollLine` returns, whole and in order, the first of the lines in the bytes that the socket
-- gives: the lines returned, before those of what is left in the buffer and still to come, are the lines of the buffer at
-- the start and all that comes. So how the bytes are cut into reads, timeouts and interruptions change no line. Where no
-- line ends in the part of the buffer that was searched before the first call.
pub poll_lines-lines :
    (n : ℕ) (c : MpvIpcClient) (ws : List Wake)
    → Scanned c
    → let (returned, (c', ws')) = poll_lines n c ws in
      lines (c.read_buffer ++ bytes_received ws)
      ≡ returned ++ lines (c'.read_buffer ++ bytes_received ws')
unfolding poll_lines
poll_lines-lines zero c ws h = refl
poll_lines-lines (suc n) c ws h =
    let (result, (c', ws')) = poll_line c ws in
    let (e, scanned) = poll_line-Keeps c ws h in
    e
    ∙ ap (◌++◌ (delivered result)) (poll_lines-lines n c' ws' scanned)
    ∙ sym (append_assoc (delivered result) (poll_lines n c' ws').0 _)

-- A call that waits or times out has no line to give.
abbrev pub Idle : Polled → Type 0
Idle (none, (c, ws)) = find_byte b'\n' c.read_buffer ≡ none
Idle (some timeout, (c, ws)) = find_byte b'\n' c.read_buffer ≡ none
Idle _ = Unit

found-Idle :
    (future : Bytes) (c : MpvIpcClient) (late : Bool) (ws : List Wake) (more : Polled)
    (taken : Option Bytes × MpvIpcClient)
    → Takes future c taken
    → (taken.0 ≡ none → find_byte b'\n' taken.1.read_buffer ≡ none → Idle more)
    → Idle (elim taken.0 [
      | some text ↦ (some (line text), (taken.1, ws))
      | none ↦ if late then (some timeout, (taken.1, ws)) else more
    ])
found-Idle future c late ws more (some text, c') takes k = tt
found-Idle future c true ws more (none, c') (same, absent, conn, scanned) k = rw same absent
found-Idle future c false ws more (none, c') (same, absent, conn, scanned) k =
    k refl (rw same absent)

poll_rounds-Idle :
    (c : MpvIpcClient) (ws : List Wake)
    → find_byte b'\n' c.read_buffer ≡ none
    → Scanned c
    → Idle (poll_rounds c ws)
unfolding poll_rounds
poll_rounds-Idle c [] absent h = absent
poll_rounds-Idle c (poll_interrupted ∷ ws) absent h = absent
poll_rounds-Idle c (poll_failed ∷ ws) absent h = tt
poll_rounds-Idle c (poll_expired ∷ ws) absent h = absent
poll_rounds-Idle c (peer_closed ∷ ws) absent h = tt
poll_rounds-Idle c (would_block true ∷ ws) absent h = absent
poll_rounds-Idle c (would_block false ∷ ws) absent h = poll_rounds-Idle c ws absent h
poll_rounds-Idle c (recv_interrupted ∷ ws) absent h = poll_rounds-Idle c ws absent h
poll_rounds-Idle c (recv_failed ∷ ws) absent h = tt
poll_rounds-Idle c (received chunk late ∷ ws) absent h =
    let appended = record c { read_buffer = c.read_buffer ++ chunk } in
    let taken = take_buffered_line appended in
    let takes = take_buffered_line-Takes [] appended (Scanned-append c chunk h) in
    elim (Bool-cases (ltb max_buffer_bytes (length appended.read_buffer))) [
      | inl big ↦ rw big tt
      | inr fits ↦ rw fits (
          found-Idle [] appended late ws (poll_rounds taken.1 ws) taken takes
            (λ _ gone. poll_rounds-Idle taken.1 ws gone (taken-Scanned [] appended taken takes)))
    ]

-- `PollLine` of a connected client reports a timeout, or goes on waiting, only with no complete line in its buffer. Where
-- no line ends in the part of the buffer that was searched before.
pub poll_line-Idle :
    (c : MpvIpcClient) (ws : List Wake) → c.connected ≡ true → Scanned c → Idle (poll_line c ws)
unfolding poll_line
poll_line-Idle c ws e h =
    let taken = take_buffered_line c in
    let takes = take_buffered_line-Takes [] c h in
    rw e (
      found-Idle [] c false ws (poll_rounds taken.1 ws) taken takes
        (λ _ gone. poll_rounds-Idle taken.1 ws gone (taken-Scanned [] c taken takes)))
