-- ===== src/Correlator/Account.antt =====
-- src/stats.cpp: where the records pushed into the correlator are: grouped, retired or queued.
use framewire.Prelude.{
  ℕ, zero, suc, ◌+◌, ◌%◌, ◌^◌, ◌≤◌, ◌<◌, ◌≡◌, refl, sym, ap, subst, ◌∙◌, arith, inl, inr, Bool,
  Bool-cases, true, false, List, [], ◌∷◌, map, ltb, leb, leb→le, length, length-append,
}
use framewire.Prelude.Int.{leb_ℤ, ◌-ℤ◌}
use framewire.Telemetry.{TelemetryRecord, signed64}
use framewire.Correlator.{
  Stream, Correlator, push_records, push_at, push, front, pop_front, emit_others, emit_passes,
  emit_pair, emit_group,
}
use framewire.Correlator.Process.{
  is_empty, any_empty, scan_fronts, retire_at, decide, process_loop, total_queued, flush_stream,
  cap_queue, cap_stream, process, max_queued,
}

-- `g` groups, and `n` records pushed to the stream: those not grouped are retired or queued, and no counter wraps.
abbrev pub AccountsFor : ℕ → Stream → ℕ → Type 0
AccountsFor g s n = (s.unmatched + length s.queue + g ≡ n) × (n < 2 ^ 64)

abbrev pub Accounts : ℕ → List Stream → List ℕ → Type 0
Accounts g [] [] = Unit
Accounts g [] (n ∷ ns) = ⊥
Accounts g (s ∷ ss) [] = ⊥
Accounts g (s ∷ ss) (n ∷ ns) = AccountsFor g s n × Accounts g ss ns

-- `k` more records pushed to stream `i`
abbrev pub add_at : List ℕ → ℕ → ℕ → List ℕ
add_at [] i k = []
add_at (n ∷ ns) zero k = (n + k) ∷ ns
add_at (n ∷ ns) (suc i) k = n ∷ add_at ns i k

-- Every counter stays a `uint64_t`.
abbrev pub AllFit : List ℕ → Type 0
AllFit [] = Unit
AllFit (n ∷ ns) = (n < 2 ^ 64) × AllFit ns

push_records-queue :
    (rs : List TelemetryRecord) (s : Stream)
    → (length (push_records s rs).queue ≡ length s.queue + length rs)
      × ((push_records s rs).unmatched ≡ s.unmatched)
unfolding push_records
push_records-queue [] s = (omega arith, refl)
push_records-queue (r ∷ rs) s =
    let (queued, kept) = push_records-queue rs _ in
    (queued ∙ omega (arith, length-append s.queue (r ∷ [])), kept)

add_at_beyond :
    (g : ℕ) (ss : List Stream) (ns : List ℕ) (i k : ℕ)
    → Accounts g ss ns
    → length ss ≤ i
    → add_at ns i k ≡ ns
add_at_beyond g [] [] i k a h = refl
add_at_beyond g [] (n ∷ ns) i k a h = absurd a
add_at_beyond g (s ∷ ss) [] i k a h = absurd a
add_at_beyond g (s ∷ ss) (n ∷ ns) zero k a h = absurd (omega arith)
add_at_beyond g (s ∷ ss) (n ∷ ns) (suc i) k (_, a) h =
    ap (◌∷◌ n) (add_at_beyond g ss ns i k a (omega arith))

push_at-Accounts :
    (g : ℕ) (ss : List Stream) (ns : List ℕ) (i : ℕ) (rs : List TelemetryRecord)
    → Accounts g ss ns
    → AllFit (add_at ns i (length rs))
    → Accounts g (push_at ss i rs) (add_at ns i (length rs))
unfolding push_at
push_at-Accounts g [] [] i rs a f = tt
push_at-Accounts g [] (n ∷ ns) i rs a f = absurd a
push_at-Accounts g (s ∷ ss) [] i rs a f = absurd a
push_at-Accounts g (s ∷ ss) (n ∷ ns) zero rs ((e, _), rest) (fit, _) =
    ((omega (arith, e, (push_records-queue rs s).0, (push_records-queue rs s).1), fit), rest)
push_at-Accounts g (s ∷ ss) (n ∷ ns) (suc i) rs (here, rest) (_, fits) =
    (here, push_at-Accounts g ss ns i rs rest fits)

pub length-pop_front :
    (q : List TelemetryRecord) → is_empty q ≡ false → length q ≡ length (pop_front q) + 1
length-pop_front [] h = absurd (cc h)
length-pop_front (r ∷ rs) h = omega arith

-- Where no queue is empty, the first is not, nor any after it.
pub any_empty-parts :
    (s : Stream) (ss : List Stream)
    → any_empty (s ∷ ss) ≡ false
    → (is_empty s.queue ≡ false) × (any_empty ss ≡ false)
unfolding any_empty
any_empty-parts s ss h = elim (Bool-cases (is_empty s.queue)) [
  | inl e ↦ let h' : true ≡ false = rw e at h in absurd (cc h')
  | inr e ↦ (e, rw e at h)
]

emit_others-Accounts :
    (g : ℕ) (base : TelemetryRecord) (ss : List Stream) (ns : List ℕ)
    → any_empty ss ≡ false
    → Accounts g ss ns
    → Accounts (g + 1) (emit_others base ss) ns
unfolding emit_others
emit_others-Accounts g base [] [] h a = tt
emit_others-Accounts g base [] (n ∷ ns) h a = absurd a
emit_others-Accounts g base (s ∷ ss) [] h a = absurd a
emit_others-Accounts g base (s ∷ ss) (n ∷ ns) h ((e, fit), rest) =
    let (full, others) = any_empty-parts s ss h in
    (
      (omega (arith, e, length-pop_front s.queue full), fit),
      emit_others-Accounts g base ss ns others rest,
    )

retire_at-Accounts :
    (g : ℕ) (ss : List Stream) (ns : List ℕ) (i : ℕ)
    → any_empty ss ≡ false
    → Accounts g ss ns
    → Accounts g (retire_at ss i) ns
unfolding retire_at
retire_at-Accounts g [] [] i h a = tt
retire_at-Accounts g [] (n ∷ ns) i h a = absurd a
retire_at-Accounts g (s ∷ ss) [] i h a = absurd a
retire_at-Accounts g (s ∷ ss) (n ∷ ns) zero h ((e, fit), rest) =
    let (full, others) = any_empty-parts s ss h in
    ((omega (arith, e, fit, length-pop_front s.queue full), fit), rest)
retire_at-Accounts g (s ∷ ss) (n ∷ ns) (suc i) h (here, rest) =
    (here, retire_at-Accounts g ss ns i (any_empty-parts s ss h).1 rest)

emit_passes-rest :
    (base other : TelemetryRecord) (left p : ℕ) (c : Correlator)
    → ((emit_passes base other p left c).streams ≡ c.streams)
      × ((emit_passes base other p left c).grouped ≡ c.grouped)
unfolding emit_passes
emit_passes-rest base other zero p c = (refl, refl)
emit_passes-rest base other (suc left) p c = emit_passes-rest base other left (p + 1) _

-- The groups and streams of a correlator, after the records of each stream's number in `ns`.
abbrev pub IsAccount : Correlator → List ℕ → Type 0
IsAccount c ns = Accounts c.grouped c.streams ns

emit_group-IsAccount :
    (c : Correlator) (ns : List ℕ)
    → any_empty c.streams ≡ false
    → IsAccount c ns
    → IsAccount (emit_group c) ns
unfolding emit_group emit_pair
emit_group-IsAccount c ns h a = go c.streams ns refl h a
  where
    go :
        (ss : List Stream) (ms : List ℕ)
        → c.streams ≡ ss
        → any_empty ss ≡ false
        → Accounts c.grouped ss ms
        → IsAccount (emit_group c) ms
    go [] ms e h a = rw e a
    go (s ∷ ss) [] e h a = absurd a
    go (s ∷ ss) (m ∷ ms) e h ((sum, fit), rest) =
        let (full, others) = any_empty-parts s ss h in
        let room : (c.grouped + 1) % 2 ^ 64 ≡ c.grouped + 1 =
          omega (arith, sum, fit, length-pop_front s.queue full) in
        rw e (
          (omega (arith, sum, room, length-pop_front s.queue full), fit),
          subst (λ g. Accounts g (emit_others (front s.queue) ss) ms) (sym room)
              (emit_others-Accounts c.grouped (front s.queue) ss ms others rest),
        )

decide-IsAccount :
    (c : Correlator) (ns : List ℕ)
    → any_empty c.streams ≡ false
    → IsAccount c ns
    → IsAccount (decide c) ns
unfolding decide
decide-IsAccount c ns h a =
    elim (Bool-cases (
      leb_ℤ
        ((scan_fronts c.use_media_time c.streams).max_key
          -ℤ (scan_fronts c.use_media_time c.streams).min_key)
        (signed64 c.tolerance_ns))) [
          | inl e ↦ rw e (emit_group-IsAccount c ns h a)
          | inr e ↦ rw e (retire_at-Accounts c.grouped c.streams ns _ h a)
        ]

process_loop-IsAccount :
    (fuel : ℕ) (c : Correlator) (ns : List ℕ) → IsAccount c ns → IsAccount (process_loop fuel c) ns
unfolding process_loop
process_loop-IsAccount zero c ns a = a
process_loop-IsAccount (suc fuel) c ns a = elim (Bool-cases (any_empty c.streams)) [
  | inl e ↦ rw e a
  | inr e ↦ rw e (process_loop-IsAccount fuel (decide c) ns (decide-IsAccount c ns e a))
]

cap_queue-account :
    (q : List TelemetryRecord) (s : Stream)
    → s.unmatched + length q < 2 ^ 64
    → (cap_queue s q).unmatched + length (cap_queue s q).queue ≡ s.unmatched + length q
unfolding cap_queue
cap_queue-account [] s h = refl
cap_queue-account (r ∷ rs) s h = elim (Bool-cases (ltb max_queued (length (r ∷ rs)))) [
  | inl e ↦ rw e (
      cap_queue-account rs (record s { unmatched = (s.unmatched + 1) % 2 ^ 64 }) (omega arith)
      ∙ omega arith)
  | inr e ↦ rw e refl
]

map-Accounts :
    (f : Stream → Stream) (g : ℕ)
    → ((s : Stream) (n : ℕ) → AccountsFor g s n → AccountsFor g (f s) n)
    → (ss : List Stream) (ns : List ℕ) → Accounts g ss ns
    → Accounts g (map f ss) ns
map-Accounts f g each [] [] a = tt
map-Accounts f g each [] (n ∷ ns) a = absurd a
map-Accounts f g each (s ∷ ss) [] a = absurd a
map-Accounts f g each (s ∷ ss) (n ∷ ns) (here, rest) =
    (each s n here, map-Accounts f g each ss ns rest)

-- `Process` loses no record, on a flush or without one: if, for each stream, the records pushed (fewer than 2^64)
-- are those grouped, those retired and those still queued, then they are so afterwards.
pub process-IsAccount :
    (flush : Bool) (c : Correlator) (ns : List ℕ) → IsAccount c ns → IsAccount (process flush c) ns
unfolding process cap_stream
process-IsAccount true c ns a =
    map-Accounts flush_stream _ (λ s n (e, fit). (omega (arith, e, fit), fit)) _ ns
      (process_loop-IsAccount (suc (total_queued c.streams)) c ns a)
process-IsAccount false c ns a =
    map-Accounts cap_stream _
      (λ s n (e, fit). (omega (arith, e, cap_queue-account s.queue s (omega (arith, e, fit))), fit))
      _ ns (process_loop-IsAccount (suc (total_queued c.streams)) c ns a)

-- `Push` of records to a stream adds them to that stream's account, where every count stays below 2^64.
pub push-IsAccount :
    (c : Correlator) (ns : List ℕ) (i : ℕ) (rs : List TelemetryRecord)
    → IsAccount c ns
    → AllFit (add_at ns i (length rs))
    → IsAccount (push c i rs) (add_at ns i (length rs))
unfolding push
push-IsAccount c ns i rs a f = elim (Bool-cases (leb (length c.streams) i)) [
  | inl e ↦ rw e (
      subst (Accounts c.grouped c.streams)
        (sym (add_at_beyond c.grouped c.streams ns i (length rs) a (leb→le (length c.streams) i e)))
        a)
  | inr e ↦ rw e (push_at-Accounts c.grouped c.streams ns i rs a f)
]
