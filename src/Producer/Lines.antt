-- ===== src/Producer/Lines.antt =====
-- src/producer_main.cpp: what the loop of `Run` does with one line from mpv.
use Prim.Native.Nat.{bit_or}
use framewire.Prelude.{
  ℕ, ◌+◌, ◌-◌, Bool, true, false, not, ◌&&◌, List, [], Option, none, some, ltb, ◌==◌, if◌then◌else◌,
  length, map,
}
use framewire.Prelude.Chars.{Bytes, codes}
use framewire.Prelude.Int.{ℤ, pos, negsuc, ◌+ℤ◌, ltb_ℤ, to_unsigned}
use framewire.Prelude.Result.{Result, ok, err}
use framewire.Report.{same_bytes}
use framewire.Telemetry.{TelemetryRecord, flag_dropped_frame, flag_delayed_frame, stamp_checksum}
use framewire.Ring.{RingMapping, blank, sub64, add64, try_push}
use framewire.Ring.Publish.{publish_layout}
use framewire.Json.{Numbers, Reader, Failure}
use framewire.Json.Parse.{parse}
use framewire.Json.Values.{JsonValue, root, size, member, as_double, as_int, as_string}
use framewire.Producer.{ProducerState, max_outstanding_polls, poll_id_base, loop_backstep_ns}
use framewire.Producer.Passes.{read_passes, hash_names}

abbrev pub flag_redraw : ℕ
flag_redraw = 4

abbrev pub flag_layout_change : ℕ
flag_layout_change = 8

-- A playback position that was read: the epoch moves on where the clock jumps back by more than the backstep.
unfoldable pub move_position : ℤ → ProducerState → ProducerState
unfolding ◌+ℤ◌
move_position position_ns s =
    let restarted = ltb_ℤ (position_ns +ℤ pos loop_backstep_ns) s.last_position_ns in
    let epoch = if restarted then s.media_epoch_ns +ℤ s.last_position_ns else s.media_epoch_ns in
    record s {
      media_epoch_ns = epoch;
      loops = if restarted then add64 s.loops 1 else s.loops;
      last_position_ns = position_ns;
      media_time_ns = epoch +ℤ position_ns;
    }

-- The directory is published again where the names have changed; the result says whether.
unfoldable pub track_layout : List Bytes → ProducerState → ProducerState × Bool
unfolding hash_names publish_layout
track_layout names s =
    let name_hash = hash_names 0 names in
    let (header, version) =
      publish_layout s.mapping.header (map (λ n. some n) names) (length names) in
    let published = record s {
      mapping = record m { header = header };
      layout = record { hash = name_hash; count = length names; version = version };
    } in
    if name_hash == s.layout.hash && length names == s.layout.count
    then (s, false)
    else (published, true)
  where
    m : RingMapping
    m = s.mapping

-- What is known of a record before its list of passes is read, and what is filled in behind.
abbrev pub fill_record : ProducerState → ℕ → TelemetryRecord → TelemetryRecord
fill_record s flags rec = stamp_checksum (record rec {
  seq = add64 s.seq 1;
  media_time_ns = to_unsigned 64 s.media_time_ns;
  layout_version = s.layout.version;
  frame_time_ns = if s.last_frame_ns == 0 then 0 else sub64 rec.t_mono_ns s.last_frame_ns;
  dropped_total = s.drop_total;
  delayed_total = s.delayed_total;
  flags = bit_or rec.flags flags;
})

-- The flags of a record: those of its list of passes, and those of the counters that have moved since the last record.
abbrev pub record_flags : ProducerState → ℕ → ℕ
record_flags s flags =
    let dropped =
      if ltb s.last_drop_total s.drop_total then bit_or flags flag_dropped_frame else flags in
    if ltb s.last_delayed_total s.delayed_total then bit_or dropped flag_delayed_frame else dropped

-- From the choice of the flags on: the counters move, and the record goes to the ring.
unfoldable pub push_record : ProducerState → ℕ → TelemetryRecord → ProducerState
unfolding stamp_checksum try_push
push_record s flags rec =
    let (mapping, handle, done) =
      try_push s.mapping s.handle (fill_record s (record_flags s flags) rec) in
    record s {
      mapping = mapping;
      handle = handle;
      seq = add64 s.seq 1;
      last_frame_ns = rec.t_mono_ns;
      last_drop_total = s.drop_total;
      last_delayed_total = s.delayed_total;
    }

module _ (F : Numbers) where
  -- A playback-time event: the position, then the request for the passes behind the frame. `sent` is what `GetProperty`
  -- returns, where it is called.
  unfoldable pub frame_tick : ProducerState → F.Number → Bool → ProducerState
  unfolding move_position
  frame_tick s position sent =
      let moved =
        if F.at_least_zero position then move_position (F.seconds_to_nanos position) s else s in
      let ticked = record moved { frame_ticks = add64 moved.frame_ticks 1 } in
      if ltb ticked.outstanding_polls max_outstanding_polls && sent
      then record ticked {
        next_poll_id = ticked.next_poll_id + 1;
        outstanding_polls = ticked.outstanding_polls + 1;
      }
      else ticked

  module _ (doc : Reader F.Number) where
    abbrev field : JsonValue → Bytes → JsonValue
    field v name = member F doc v name

    unfoldable pub handle_event : JsonValue → Bool → ProducerState → ProducerState
    unfolding root member as_int as_string as_double frame_tick
    handle_event event sent s =
        let top = root F doc in
        let prop = as_string F doc [] (field top (codes "name")) in
        let payload = field top (codes "data") in
        let counter = to_unsigned 32 (as_int F doc (pos 0) payload) in
        if not (same_bytes (as_string F doc [] event) (codes "property-change"))
        then s
        else if same_bytes prop (codes "frame-drop-count")
        then record s { drop_total = counter }
        else if same_bytes prop (codes "vo-delayed-frame-count")
        then record s { delayed_total = counter }
        else if not (same_bytes prop (codes "playback-time"))
        then s
        else frame_tick s (as_double F doc F.minus_one payload) sent

    -- The list that `fresh` names, or else the one that `redraw` names, with the flags so far; `none` where both are empty.
    unfoldable pub choose_passes : JsonValue → Option (JsonValue × ℕ)
    unfolding member size
    choose_passes payload =
        let fresh = field payload (codes "fresh") in
        let redraw = field payload (codes "redraw") in
        if not (size F doc fresh == 0)
        then some (fresh, 0)
        else if not (size F doc redraw == 0)
        then some (redraw, flag_redraw)
        else none

    -- A list of passes was chosen; `t_mono_ns` is the clock read for the record.
    unfoldable pub handle_passes : JsonValue → ℕ → ℕ → ProducerState → ProducerState
    unfolding read_passes track_layout push_record
    handle_passes passes flags t_mono_ns s =
        let (rec, names, seen) =
          read_passes F doc passes (record blank { t_mono_ns = t_mono_ns }) in
        let (tracked, changed) = track_layout names s in
        let flags =
          if changed && not (s.seq == 0) then bit_or flags flag_layout_change else flags in
        if rec.pass_count == 0 then s else push_record tracked flags rec

    unfoldable pub handle_reply : ℕ → ProducerState → ProducerState
    unfolding root member as_int as_string choose_passes handle_passes
    handle_reply t_mono_ns s =
        let top = root F doc in
        let answered = record s { outstanding_polls = s.outstanding_polls - 1 } in
        if ltb_ℤ (as_int F doc (negsuc 0) (field top (codes "request_id"))) (pos poll_id_base)
        then s
        else if not (same_bytes (as_string F doc [] (field top (codes "error"))) (codes "success"))
        then record answered { poll_errors = add64 s.poll_errors 1 }
        else elim (choose_passes (field top (codes "data"))) [
          | none ↦ answered
          | some (passes, flags) ↦ handle_passes passes flags t_mono_ns answered
        ]

    unfoldable pub handle_document : Bool → ℕ → ProducerState → ProducerState
    unfolding root member handle_event handle_reply
    handle_document sent t_mono_ns s =
        let event = field (root F doc) (codes "event") in
        elim event [ some e ↦ handle_event (some e) sent s | none ↦ handle_reply t_mono_ns s ]

  unfoldable pub handle_parsed :
      Result Failure (Reader F.Number) → Bool → ℕ → ProducerState → ProducerState
  unfolding handle_document
  handle_parsed (err f) sent t_mono_ns s = record s { parse_errors = add64 s.parse_errors 1 }
  handle_parsed (ok doc) sent t_mono_ns s = handle_document doc sent t_mono_ns s

  unfoldable pub handle_line : Bytes → Bool → ℕ → ProducerState → ProducerState
  unfolding parse handle_parsed
  handle_line text = handle_parsed (parse F text)
