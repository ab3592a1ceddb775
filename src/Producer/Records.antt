-- ===== src/Producer/Records.antt =====
-- src/producer_main.cpp: the records that the loop pushes, line by line.
use Prim.Native.Nat.{bit_or}
use framewire.Prelude.{
  ℕ, ◌-◌, ◌≡◌, refl, ap, ◌⊎◌, inl, inr, Bool-cases, Option-cases, Bool, true, false, not, ◌&&◌,
  Option, some, ltb, ◌==◌, if◌then◌else◌, List, [], length, map,
}
use framewire.Prelude.Chars.{Bytes, codes}
use framewire.Prelude.Int.{pos, negsuc, ltb_ℤ}
use framewire.Prelude.Result.{Result, ok, err}
use framewire.Report.{same_bytes}
use framewire.Telemetry.{TelemetryRecord, verify_checksum, stamp_checksum}
use framewire.Telemetry.Checksum.{verify_checksum-stamp_checksum}
use framewire.Ring.{RingMapping, RingProducer, blank, add64, try_push}
use framewire.Ring.Publish.{publish_layout}
use framewire.Json.{Numbers, Reader, Failure}
use framewire.Json.Parse.{parse}
use framewire.Json.Values.{root, member, as_int, as_string, as_double}
use framewire.Producer.{ProducerState, max_outstanding_polls, poll_id_base}
use framewire.Producer.Passes.{read_passes, hash_names}
use framewire.Producer.Lines.{
  flag_layout_change, fill_record, record_flags, move_position, track_layout, push_record,
  frame_tick, handle_event, choose_passes, handle_passes, handle_reply, handle_document,
  handle_parsed, handle_line,
}

-- The part of the state that the consumer can see the effect of.
pub record Ringside : Type 0 where
  pub seq : ℕ
  pub mapping : RingMapping
  pub handle : RingProducer

abbrev pub ringside : ProducerState → Ringside
ringside s = record { seq = s.seq; mapping = s.mapping; handle = s.handle }

-- The segment after `PublishLayout` of some names.
abbrev pub published : RingMapping → List Bytes → RingMapping
published m names = record m {
  header = (publish_layout m.header (map (λ n. some n) names) (length names)).0;
}

-- One record goes to the ring, where nothing has changed, or the directory of the passes has been published.
pub record Pushed (s s' : ProducerState) : Type 0 where
  pub before : RingMapping
  pub rec : TelemetryRecord
  pub same_but_directory :
      (before ≡ s.mapping) ⊎ ((names : List Bytes) × (before ≡ published s.mapping names))
  pub numbered : rec.seq ≡ add64 s.seq 1
  pub counted : s'.seq ≡ rec.seq
  pub stamped : verify_checksum rec ≡ true
  pub kept_mapping : s'.mapping ≡ (try_push before s.handle rec).0
  pub kept_handle : s'.handle ≡ (try_push before s.handle rec).1

abbrev pub Effect : ProducerState → ProducerState → Type 0
Effect s s' = (ringside s' ≡ ringside s) ⊎ Pushed s s'

Effect-if :
    (b : Bool) (s x y : ProducerState) → Effect s x → Effect s y → Effect s (if b then x else y)
Effect-if true s x y hx hy = hx
Effect-if false s x y hx hy = hy

ringside-if :
    (b : Bool) (x y : ProducerState) (v : Ringside)
    → ringside x ≡ v
    → ringside y ≡ v
    → ringside (if b then x else y) ≡ v
ringside-if true x y v hx hy = hx
ringside-if false x y v hx hy = hy

-- At most the directory is published.
record Beside (s t : ProducerState) : Type 0 where
  pub directory :
      (t.mapping ≡ s.mapping) ⊎ ((names : List Bytes) × (t.mapping ≡ published s.mapping names))
  pub seq : t.seq ≡ s.seq
  pub handle : t.handle ≡ s.handle

track_layout-Beside : (names : List Bytes) (s : ProducerState) → Beside s (track_layout names s).0
unfolding track_layout publish_layout
track_layout-Beside names s =
    elim (Bool-cases (hash_names 0 names == s.layout.hash && length names == s.layout.count)) [
      | inl e ↦ rw (track_layout, e) (record { directory = inl refl; seq = refl; handle = refl })
      | inr e ↦
          rw (track_layout, e) (record { directory = inr (names, refl); seq = refl; handle = refl })
    ]

push_record-Pushed :
    (s t : ProducerState) (flags : ℕ) (rec : TelemetryRecord)
    → Beside s t
    → Pushed s (push_record t flags rec)
unfolding push_record stamp_checksum
push_record-Pushed s t flags rec b =
    let pushed = fill_record t (record_flags t flags) rec in
    record {
      before = t.mapping;
      rec = pushed;
      same_but_directory = b.directory;
      numbered = ap (λ q. add64 q 1) b.seq;
      counted = refl;
      stamped = verify_checksum-stamp_checksum _;
      kept_mapping = ap (λ h. (try_push t.mapping h pushed).0) b.handle;
      kept_handle = ap (λ h. (try_push t.mapping h pushed).1) b.handle;
    }

-- The counter of outstanding requests is no difference here.
answered-Effect :
    (s u : ProducerState)
    → Effect (record s { outstanding_polls = s.outstanding_polls - 1 }) u
    → Effect s u
answered-Effect s u (inl e) = inl e
answered-Effect s u (inr p) = inr (record {
  before = p.before;
  rec = p.rec;
  same_but_directory = p.same_but_directory;
  numbered = p.numbered;
  counted = p.counted;
  stamped = p.stamped;
  kept_mapping = p.kept_mapping;
  kept_handle = p.kept_handle;
})

module _ (F : Numbers) where
  frame_tick-ringside :
      (s : ProducerState) (p : F.Number) (sent : Bool)
      → ringside (frame_tick F s p sent) ≡ ringside s
  unfolding frame_tick move_position
  frame_tick-ringside s p sent =
      let moved = if F.at_least_zero p then move_position (F.seconds_to_nanos p) s else s in
      let same : ringside moved ≡ ringside s =
        ringside-if (F.at_least_zero p) _ s (ringside s) refl refl in
      ringside-if (ltb moved.outstanding_polls max_outstanding_polls && sent) _ _ (ringside s) same
        same

  handle_event-ringside :
      (doc : Reader F.Number) (event : Option ℕ) (sent : Bool) (s : ProducerState)
      → ringside (handle_event F doc event sent s) ≡ ringside s
  unfolding handle_event
  handle_event-ringside doc event sent s =
      let v = ringside s in
      let top = root F doc in
      let prop = as_string F doc [] (member F doc top (codes "name")) in
      let position = as_double F doc F.minus_one (member F doc top (codes "data")) in
      ringside-if (not (same_bytes (as_string F doc [] event) (codes "property-change"))) s _ v refl
        (ringside-if (same_bytes prop (codes "frame-drop-count")) _ _ v refl (
          ringside-if (same_bytes prop (codes "vo-delayed-frame-count")) _ _ v refl (
            ringside-if (not (same_bytes prop (codes "playback-time"))) s _ v refl
              (frame_tick-ringside s position sent))))

  handle_passes-Effect :
      (doc : Reader F.Number) (passes : Option ℕ) (flags t : ℕ) (s : ProducerState)
      → Effect s (handle_passes F doc passes flags t s)
  unfolding handle_passes
  handle_passes-Effect doc passes flags t s =
      let (rec, names, seen) = read_passes F doc passes (record blank { t_mono_ns = t }) in
      let (tracked, changed) = track_layout names s in
      let flags = if changed && not (s.seq == 0) then bit_or flags flag_layout_change else flags in
      Effect-if (rec.pass_count == 0) s s _ (inl refl)
        (inr (push_record-Pushed s tracked flags rec (track_layout-Beside names s)))

  handle_reply-Effect :
      (doc : Reader F.Number) (t : ℕ) (s : ProducerState) → Effect s (handle_reply F doc t s)
  unfolding handle_reply
  handle_reply-Effect doc t s =
      let answered = record s { outstanding_polls = s.outstanding_polls - 1 } in
      let top = root F doc in
      Effect-if
        (ltb_ℤ (as_int F doc (negsuc 0) (member F doc top (codes "request_id"))) (pos poll_id_base))
        s s _ (inl refl)
        (Effect-if
          (not
            (same_bytes (as_string F doc [] (member F doc top (codes "error"))) (codes "success")))
          s _ _ (inl refl)
          (elim (Option-cases (choose_passes F doc (member F doc top (codes "data")))) [
            | inl absent ↦ rw absent (inl refl)
            | inr ((passes, flags), chosen) ↦
                rw chosen (answered-Effect s _ (handle_passes-Effect doc passes flags t answered))
          ]))

  handle_document-Effect :
      (doc : Reader F.Number) (sent : Bool) (t : ℕ) (s : ProducerState)
      → Effect s (handle_document F doc sent t s)
  unfolding handle_document
  handle_document-Effect doc sent t s =
      elim (Option-cases (member F doc (root F doc) (codes "event"))) [
        | inl absent ↦ rw (handle_document, absent) (handle_reply-Effect doc t s)
        | inr (e, present) ↦
            rw (handle_document, present) (inl (handle_event-ringside doc (some e) sent s))
      ]

  handle_parsed-Effect :
      (parsed : Result Failure (Reader F.Number)) (sent : Bool) (t : ℕ) (s : ProducerState)
      → Effect s (handle_parsed F parsed sent t s)
  unfolding handle_parsed
  handle_parsed-Effect (err f) sent t s = inl refl
  handle_parsed-Effect (ok doc) sent t s = handle_document-Effect doc sent t s

  -- A line leaves the ring and the count of records as they are, or pushes one record: its number is the next one, its
  -- checksum verifies, and the push is `TryPush` on the segment as it was, or as `PublishLayout` of some names makes it. Whatever the line is.
  pub handle_line-Effect :
      (text : Bytes) (sent : Bool) (t : ℕ) (s : ProducerState)
      → Effect s (handle_line F text sent t s)
  unfolding handle_line
  handle_line-Effect text sent t s = handle_parsed-Effect (parse F text) sent t s
