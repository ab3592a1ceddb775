-- ===== src/Producer/Loop.antt =====
-- src/producer_main.cpp: the queries that wait for their own reply, the environment text, and the loop of `Run`.
use framewire.Prelude.{
  ℕ, ◌+◌, ◌-◌, Bool, true, false, not, ◌&&◌, List, [], ◌∷◌, ◌++◌, Option, none, some, ltb, ◌==◌,
  if◌then◌else◌, take,
}
use framewire.Prelude.Chars.{Bytes, codes, c_str}
use framewire.Prelude.Int.{ℤ, pos, negsuc, ◌-ℤ◌, ltb_ℤ, to_int32}
use framewire.Prelude.Result.{ok, err}
use framewire.Report.{same_bytes}
use framewire.Ring.{RingMapping, environment_len, sub64, add64}
use framewire.Ring.Publish.{heartbeat, note_geometry_change, mark_done}
use framewire.Json.{Numbers, Reader, json_bool, json_number, json_string, json_array, json_object}
use framewire.Json.Text.{to_string}
use framewire.Json.Parse.{parse}
use framewire.Json.Values.{root, size, type_of, member, element, as_bool, as_int, as_string}
use framewire.Ipc.{PollResult, line, timeout, closed, error}
use framewire.Producer.{ProducerState, heartbeat_interval_ns, geometry_check_ns}
use framewire.Producer.Lines.{handle_line}

abbrev pub is_id : ℕ → ℤ → Bool
is_id want (pos n) = n == want
is_id want (negsuc n) = false

abbrev pub same_ℤ : ℤ → ℤ → Bool
same_ℤ a b = not (ltb_ℤ a b) && not (ltb_ℤ b a)

module _ (F : Numbers) where
  -- The parts of the two loops that wait for the reply with the id `want`: `polls` is what `PollLine` gives before the
  -- deadline. Whatever is no line, no document or another message is passed over.
  unfoldable pub await_reply : ℕ → List PollResult → Option (Reader F.Number)
  unfolding parse root member as_int
  await_reply want [] = none
  await_reply want (line text ∷ polls) =
      let later = await_reply want polls in
      elim (parse F text) [
        | err f ↦ later
        | ok doc ↦
            if is_id want (as_int F doc (negsuc 0) (member F doc (root F doc) (codes "request_id")))
            then some doc
            else later
      ]
  await_reply want (_ ∷ polls) = await_reply want polls

  -- What `ReadPropertyText` makes of the reply.
  unfoldable pub property_text : Reader F.Number → Bytes
  unfolding root member type_of size element as_bool as_int as_string to_string
  property_text doc =
      let top = root F doc in
      let payload = member F doc top (codes "data") in
      let first = element F doc payload 0 in
      let first_text : Bytes = elim (type_of F doc first) [
        | json_string ↦ as_string F doc [] first
        | _ ↦ []
      ] in
      if not (same_bytes (as_string F doc [] (member F doc top (codes "error"))) (codes "success"))
      then []
      else elim (type_of F doc payload) [
        | json_string ↦ as_string F doc [] payload
        | json_number ↦ to_string (as_int F doc (pos 0) payload)
        | json_bool ↦ if as_bool F doc false payload then codes "yes" else codes "no"
        | json_array ↦ if size F doc payload == 0 then [] else first_text
        | _ ↦ []
      ]

  unfoldable pub read_property_text : ℕ → Bool → List PollResult → Bytes
  unfolding await_reply property_text
  read_property_text want sent polls =
      if not sent
      then []
      else elim (await_reply want polls) [ none ↦ [] | some doc ↦ property_text doc ]

  -- `none` where `ReadRenderSize` returns false.
  unfoldable pub render_size : Reader F.Number → Option (ℤ × ℤ)
  unfolding root member type_of as_int ◌-ℤ◌
  render_size doc =
      let d = member F doc (root F doc) (codes "data") in
      let get = λ (name : Bytes). as_int F doc (pos 0) (member F doc d name) in
      let width = to_int32 (get (codes "w") -ℤ get (codes "ml") -ℤ get (codes "mr")) in
      let height = to_int32 (get (codes "h") -ℤ get (codes "mt") -ℤ get (codes "mb")) in
      elim (type_of F doc d) [
        | json_object ↦
            if ltb_ℤ (pos 0) width && ltb_ℤ (pos 0) height then some (width, height) else none
        | _ ↦ none
      ]

  unfoldable pub read_render_size : ℕ → Bool → List PollResult → Option (ℤ × ℤ)
  unfolding await_reply render_size
  read_render_size want sent polls =
      if not sent
      then none
      else elim (await_reply want polls) [ none ↦ none | some doc ↦ render_size doc ]

  -- What the clock, the socket and mpv give to one round of the loop: the clock at its start, and in a heartbeat; for a check of the geometry,
  -- whether the query went out and what was polled for it; what `PollLine` returns; and, for the line, whether a query
  -- for the passes goes out and the clock of the record.
  pub record Round : Type 0 where
    pub now : ℕ
    pub beat_ns : ℕ
    pub size_sent : Bool
    pub size_polls : List PollResult
    pub polled : PollResult
    pub poll_sent : Bool
    pub t_mono_ns : ℕ

  abbrev pub beat : Round → ProducerState → ProducerState
  beat r s =
      if ltb heartbeat_interval_ns (sub64 r.now s.last_heartbeat)
      then record s {
        mapping = record m { header = heartbeat m.header r.beat_ns };
        last_heartbeat = r.now;
      }
      else s
    where
      m : RingMapping
      m = s.mapping

  -- The size that was read, if it is another.
  abbrev pub resize : Option (ℤ × ℤ) → ProducerState → ProducerState
  resize none s = s
  resize (some (w, h)) s = if same_ℤ w s.render_w && same_ℤ h s.render_h then s else record s {
    render_w = w;
    render_h = h;
    geometry_changes = add64 s.geometry_changes 1;
    mapping = record m { header = note_geometry_change m.header };
  }
    where
      m : RingMapping
      m = s.mapping

  unfoldable pub check_geometry : Round → ProducerState → ProducerState
  unfolding read_render_size
  check_geometry r s =
      let checked = record s { last_geometry_check = r.now; next_size_id = s.next_size_id + 1 } in
      if ltb_ℤ (pos 0) s.render_w && ltb geometry_check_ns (sub64 r.now s.last_geometry_check)
      then resize (read_render_size s.next_size_id r.size_sent r.size_polls) checked
      else s

  -- What comes behind the call of `PollLine`, and whether the loop goes on.
  unfoldable pub after_poll : PollResult → Bool → ℕ → ProducerState → ProducerState × Bool
  unfolding handle_line
  after_poll closed sent t_mono_ns s = (s, false)
  after_poll error sent t_mono_ns s = (s, false)
  after_poll timeout sent t_mono_ns s = (s, true)
  after_poll (line text) sent t_mono_ns s = (handle_line F text sent t_mono_ns s, true)

  -- One round.
  unfoldable pub step : Round → ProducerState → ProducerState × Bool
  unfolding check_geometry after_poll
  step r s = after_poll r.polled r.poll_sent r.t_mono_ns (check_geometry r (beat r s))

  -- The loop; it ends with the rounds where a shutdown is requested.
  unfoldable pub run_loop : List Round → ProducerState → ProducerState
  unfolding step
  run_loop [] s = s
  run_loop (r ∷ rs) s =
      let (s', more) = step r s in let rest = run_loop rs s' in if more then rest else s'

  -- The end of `Run`.
  unfoldable pub finish : ℕ → ProducerState → ProducerState
  finish now s = record s { mapping = record m { header = mark_done m.header now } }
    where
      m : RingMapping
      m = s.mapping

-- The texts that the environment names, in the order of the format.
pub record Environment : Type 0 where
  pub mpv_version : Bytes
  pub current_vo : Bytes
  pub gpu_context : Bytes
  pub hwdec : Bytes
  pub display : Bytes
  pub width : Bytes
  pub height : Bytes

-- `snprintf` into `env`: at most one byte less than the buffer has.
unfoldable pub environment_text : Environment → ℤ → ℤ → Bytes
unfolding c_str to_string
environment_text e render_w render_h = take (environment_len - 1) (
    codes "mpv="
    ++ c_str e.mpv_version
    ++ codes "\nvo="
    ++ c_str e.current_vo
    ++ codes "\ngpu_context="
    ++ c_str e.gpu_context
    ++ codes "\nhwdec="
    ++ c_str e.hwdec
    ++ codes "\ndisplay="
    ++ c_str e.display
    ++ codes "\nrender="
    ++ to_string render_w
    ++ codes "x"
    ++ to_string render_h
    ++ codes "\nvideo="
    ++ c_str e.width
    ++ codes "x"
    ++ c_str e.height
    ++ codes "\n")
