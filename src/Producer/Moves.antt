-- ===== src/Producer/Moves.antt =====
-- src/producer_main.cpp: a round of the loop as a move of its counters of requests, replies and records.
use Prim.Native.Nat.{bit_or}
use framewire.Prelude.{
  ℕ, ◌+◌, ◌-◌, ◌<◌, ◌≡◌, refl, sym, ap, subst, ◌∙◌, inl, inr, Bool-cases, Option-cases, Bool, true,
  false, not, ◌&&◌, List, [], Option, none, some, ltb, ◌==◌, if◌then◌else◌, length, tests,
}
use framewire.Prelude.Chars.{Bytes, codes}
use framewire.Prelude.Int.{ℤ, pos, negsuc, ltb_ℤ}
use framewire.Prelude.Result.{Result, ok, err}
use framewire.Report.{same_bytes}
use framewire.Json.{Numbers, Reader, Failure}
use framewire.Json.Parse.{parse}
use framewire.Json.Values.{root, member, as_int, as_string, as_double}
use framewire.Ipc.{PollResult, line, timeout, closed, error}
use framewire.Telemetry.{TelemetryRecord}
use framewire.Ring.{sub64, add64, blank}
use framewire.Producer.{
  heartbeat_interval_ns, geometry_check_ns, ProducerState, max_outstanding_polls, poll_id_base,
}
use framewire.Producer.Lines.{
  flag_layout_change, move_position, track_layout, push_record, frame_tick, handle_event,
  choose_passes, handle_passes, handle_reply, handle_document, handle_parsed, handle_line,
}
use framewire.Producer.Passes.{read_passes, hash_names}
use framewire.Producer.Loop.{
  Round, beat, after_poll, resize, same_ℤ, check_geometry, read_render_size, step,
}

-- What the loop keeps count of: the vo-passes requests that it takes to be outstanding (`outstanding_polls`), the id of
-- the next one, and the records it has made.
pub record Flight : Type 0 where
  pub outstanding : ℕ
  pub asked : ℕ
  pub recorded : ℕ

abbrev pub view : ProducerState → Flight
view s = record { outstanding = s.outstanding_polls; asked = s.next_poll_id; recorded = s.seq }

abbrev pub answer : Flight → Flight
answer f = record f { outstanding = f.outstanding - 1 }

-- What a round may do to them, by whether the line that its poll brings is taken for a reply.
pub data Move : Bool → Flight → Flight → Type 0 where
  idle : {f : Flight} → Move false f f
  ask :
      {f : Flight}
      → f.outstanding < max_outstanding_polls
      → Move false f (record f { outstanding = f.outstanding + 1; asked = f.asked + 1 })
  answered : {f : Flight} → Move true f (answer f)
  recorded : {f : Flight} → Move true f (record (answer f) { recorded = add64 f.recorded 1 })

view-if :
    (b : Bool) (x y : ProducerState) (v : Flight)
    → view x ≡ v
    → view y ≡ v
    → view (if b then x else y) ≡ v
view-if true x y v hx hy = hx
view-if false x y v hx hy = hy

Move-if :
    (r b : Bool) (x y : ProducerState) (v : Flight)
    → Move r v (view x)
    → Move r v (view y)
    → Move r v (view (if b then x else y))
Move-if r true x y v hx hy = hx
Move-if r false x y v hx hy = hy

move_position-view : (p : ℤ) (s : ProducerState) → view (move_position p s) ≡ view s
unfolding move_position
move_position-view p s = refl

track_layout-view :
    (names : List Bytes) (s : ProducerState) → view (track_layout names s).0 ≡ view s
unfolding track_layout
track_layout-view names s =
    elim (Bool-cases (hash_names 0 names == s.layout.hash && length names == s.layout.count)) [
      | inl e ↦ rw e refl
      | inr e ↦ rw e refl
    ]

push_record-view :
    (s : ProducerState) (flags : ℕ) (rec : TelemetryRecord)
    → view (push_record s flags rec) ≡ record (view s) { recorded = add64 s.seq 1 }
unfolding push_record
push_record-view s flags rec = refl

module _ (F : Numbers) where
  -- A line that the loop takes for the reply to a vo-passes request: no event, and its request id is at least
  -- kPollIdBase, which a late reply about the size of the window may have too.
  unfoldable pub is_reply : Reader F.Number → Bool
  unfolding root member as_int
  is_reply doc = elim (member F doc (root F doc) (codes "event")) [
    | some e ↦ false
    | none ↦ not (
        ltb_ℤ (as_int F doc (negsuc 0) (member F doc (root F doc) (codes "request_id")))
          (pos poll_id_base))
  ]

  unfoldable pub parsed_reply : Result Failure (Reader F.Number) → Bool
  unfolding is_reply
  parsed_reply (err f) = false
  parsed_reply (ok doc) = is_reply doc

  unfoldable pub brings_reply : PollResult → Bool
  unfolding parse parsed_reply
  brings_reply (line text) = parsed_reply (parse F text)
  brings_reply _ = false

  beat-view : (r : Round F) (s : ProducerState) → view (beat F r s) ≡ view s
  beat-view r s = view-if (ltb heartbeat_interval_ns (sub64 r.now s.last_heartbeat)) _ s _ refl refl

  resize-view : (found : Option (ℤ × ℤ)) (s : ProducerState) → view (resize F found s) ≡ view s
  resize-view none s = refl
  resize-view (some (w, h)) s = view-if (same_ℤ w s.render_w && same_ℤ h s.render_h) s _ _ refl refl

  -- A check of the geometry changes no counter, whatever lines are polled for it.
  check_geometry-view : (r : Round F) (s : ProducerState) → view (check_geometry F r s) ≡ view s
  unfolding check_geometry
  check_geometry-view r s =
      view-if
        (ltb_ℤ (pos 0) s.render_w && ltb geometry_check_ns (sub64 r.now s.last_geometry_check)) _ s
        _ (resize-view (read_render_size F s.next_size_id r.size_sent r.size_polls) _) refl

  ask-Move :
      (s : ProducerState) (sent : Bool)
      → Move false (view s) (
          view (
            if ltb s.outstanding_polls max_outstanding_polls && sent
            then record s {
              next_poll_id = s.next_poll_id + 1;
              outstanding_polls = s.outstanding_polls + 1;
            }
            else s))
  ask-Move s sent = elim (Bool-cases (ltb s.outstanding_polls max_outstanding_polls)) [
    | inl e ↦ rw e (Move-if false sent _ s (view s) (ask (omega tests)) idle)
    | inr e ↦ rw e idle
  ]

  frame_tick-Move :
      (s : ProducerState) (p : F.Number) (sent : Bool)
      → Move false (view s) (view (frame_tick F s p sent))
  unfolding frame_tick
  frame_tick-Move s p sent =
      let moved = if F.at_least_zero p then move_position (F.seconds_to_nanos p) s else s in
      let same : view moved ≡ view s =
        view-if (F.at_least_zero p) _ s (view s) (move_position-view (F.seconds_to_nanos p) s)
          refl in
      subst (λ v. Move false v (view (frame_tick F s p sent))) same
        (ask-Move (record moved { frame_ticks = add64 moved.frame_ticks 1 }) sent)

  handle_event-Move :
      (doc : Reader F.Number) (event : Option ℕ) (sent : Bool) (s : ProducerState)
      → Move false (view s) (view (handle_event F doc event sent s))
  unfolding handle_event
  handle_event-Move doc event sent s =
      let v = view s in
      let top = root F doc in
      let prop = as_string F doc [] (member F doc top (codes "name")) in
      let position = as_double F doc F.minus_one (member F doc top (codes "data")) in
      Move-if false (not (same_bytes (as_string F doc [] event) (codes "property-change"))) s _ v
        idle
        (Move-if false (same_bytes prop (codes "frame-drop-count")) _ _ v idle (
          Move-if false (same_bytes prop (codes "vo-delayed-frame-count")) _ _ v idle (
            Move-if false (not (same_bytes prop (codes "playback-time"))) s _ v idle
              (frame_tick-Move s position sent))))

  handle_passes-Move :
      (doc : Reader F.Number) (passes : Option ℕ) (flags t : ℕ) (s : ProducerState)
      → Move true (view s) (
          view (
            handle_passes F doc passes flags t
              (record s { outstanding_polls = s.outstanding_polls - 1 })))
  unfolding handle_passes
  handle_passes-Move doc passes flags t s =
      let answered_s = record s { outstanding_polls = s.outstanding_polls - 1 } in
      let (rec, names, seen) = read_passes F doc passes (record blank { t_mono_ns = t }) in
      let (tracked, changed) = track_layout names answered_s in
      let flags = if changed && not (s.seq == 0) then bit_or flags flag_layout_change else flags in
      let pushed : view (push_record tracked flags rec)
          ≡ record (answer (view s)) { recorded = add64 s.seq 1 } =
        push_record-view tracked flags rec
        ∙ ap {A = Flight} (λ v. record v { recorded = add64 v.recorded 1 })
            (track_layout-view names answered_s) in
      Move-if true (rec.pass_count == 0) _ _ (view s) answered
        (subst (λ v. Move true (view s) v) (sym pushed) recorded)

  handle_reply-Move :
      (doc : Reader F.Number) (t : ℕ) (s : ProducerState)
      → ltb_ℤ
          (as_int F doc (negsuc 0) (member F doc (root F doc) (codes "request_id")))
          (pos poll_id_base)
        ≡ false
      → Move true (view s) (view (handle_reply F doc t s))
  unfolding handle_reply
  handle_reply-Move doc t s e =
      let answered_s = record s { outstanding_polls = s.outstanding_polls - 1 } in
      let top = root F doc in
      rw e (
        Move-if true
          (not
            (same_bytes (as_string F doc [] (member F doc top (codes "error"))) (codes "success")))
          _ _ (view s) answered
          (elim (Option-cases (choose_passes F doc (member F doc top (codes "data")))) [
            | inl none_chosen ↦ rw none_chosen answered
            | inr ((passes, flags), chosen) ↦ rw chosen (handle_passes-Move doc passes flags t s)
          ]))

  handle_document-Move :
      (doc : Reader F.Number) (sent : Bool) (t : ℕ) (s : ProducerState)
      → Move (is_reply doc) (view s) (view (handle_document F doc sent t s))
  unfolding handle_document is_reply handle_reply
  handle_document-Move doc sent t s =
      elim (Option-cases (member F doc (root F doc) (codes "event"))) [
        | inr (e, present) ↦
            rw (is_reply, handle_document, present) (handle_event-Move doc (some e) sent s)
        | inl absent ↦
            elim (Bool-cases (
              ltb_ℤ (as_int F doc (negsuc 0) (member F doc (root F doc) (codes "request_id")))
                (pos poll_id_base))) [
                  | inl low ↦ rw (is_reply, handle_document, absent, handle_reply, low) idle
                  | inr high ↦
                      rw (is_reply, handle_document, absent)
                        (subst (λ b. Move (not b) (view s) (view (handle_reply F doc t s)))
                          (sym high) (handle_reply-Move doc t s high))
                ]
      ]

  handle_parsed-Move :
      (parsed : Result Failure (Reader F.Number)) (sent : Bool) (t : ℕ) (s : ProducerState)
      → Move (parsed_reply parsed) (view s) (view (handle_parsed F parsed sent t s))
  unfolding handle_parsed parsed_reply
  handle_parsed-Move (err f) sent t s = idle
  handle_parsed-Move (ok doc) sent t s = handle_document-Move doc sent t s

  handle_line-Move :
      (text : Bytes) (sent : Bool) (t : ℕ) (s : ProducerState)
      → Move (brings_reply (line text)) (view s) (view (handle_line F text sent t s))
  unfolding handle_line brings_reply
  handle_line-Move text sent t s = handle_parsed-Move (parse F text) sent t s

  after_poll-Move :
      (polled : PollResult) (sent : Bool) (t : ℕ) (s : ProducerState)
      → Move (brings_reply polled) (view s) (view (after_poll F polled sent t s).0)
  unfolding after_poll brings_reply
  after_poll-Move closed sent t s = idle
  after_poll-Move error sent t s = idle
  after_poll-Move timeout sent t s = idle
  after_poll-Move (line text) sent t s = handle_line-Move text sent t s

  -- Every round of the loop is one move of `outstanding_polls`, the next request id and the count of records, by what
  -- its poll brings. Unless that is a line taken for a reply (no event, and a request id of at least 1000), either all
  -- three stay, or `outstanding_polls`, which is then below four, and the request id go up by one. Such a line takes one
  -- off `outstanding_polls`, unless it is 0, and counts at most one record. What `ReadRenderSize` polls in the same
  -- round, replies included, changes none of the three.
  pub step-Move :
      (r : Round F) (s : ProducerState)
      → Move (brings_reply r.polled) (view s) (view (step F r s).0)
  unfolding step
  step-Move r s =
      let checked = check_geometry F r (beat F r s) in
      let same : view checked ≡ view s = check_geometry-view r (beat F r s) ∙ beat-view r s in
      subst (λ v. Move (brings_reply r.polled) v (view (step F r s).0)) same
        (after_poll-Move r.polled r.poll_sent r.t_mono_ns checked)
