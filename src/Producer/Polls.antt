-- ===== src/Producer/Polls.antt =====
-- src/producer_main.cpp: the counter of outstanding vo-passes requests, over any rounds of the loop.
use native.Mathlib.Omega.{arith}
use framewire.Prelude.{
  ℕ, ◌+◌, if◌then◌else◌, ◌≤◌, ◌≡◌, refl, ap, ◌∙◌, inl, inr, Bool-cases, Bool, false, List, [], ◌∷◌,
}
use framewire.Json.{Numbers}
use framewire.Producer.{ProducerState, max_outstanding_polls}
use framewire.Producer.Loop.{Round, step, run_loop}
use framewire.Producer.Moves.{
  Flight, view, Move, idle, ask, answered, recorded, brings_reply, step-Move,
}

module _ (F : Numbers) where
  -- No round's poll brings a line that is taken for a reply.
  abbrev pub Unanswered : List (Round F) → Type 0
  Unanswered [] = Unit
  Unanswered (r ∷ rs) = (brings_reply F r.polled ≡ false) × Unanswered rs

  Move-bound : {b : Bool} {v w : Flight} → Move b v w → v.outstanding ≤ 4 → w.outstanding ≤ 4
  Move-bound idle h = h
  Move-bound (ask lt) h = omega arith
  Move-bound answered h = omega arith
  Move-bound recorded h = omega arith

  Move-stuck : {b : Bool} {v w : Flight} → Move b v w → b ≡ false → v.outstanding ≡ 4 → w ≡ v
  Move-stuck idle e h = refl
  Move-stuck (ask lt) e h = absurd (omega arith)
  Move-stuck answered e h = absurd (cc e)
  Move-stuck recorded e h = absurd (cc e)

  -- The rounds whose poll brings a line that is taken for a reply.
  abbrev pub replies : List (Round F) → ℕ
  replies [] = 0
  replies (r ∷ rs) = (if brings_reply F r.polled then 1 else 0) + replies rs

  -- What a move sends, the counter grows by, but for a reply.
  Move-sent :
      {b : Bool} {v w : Flight}
      → Move b v w
      → w.asked + v.outstanding ≤ v.asked + w.outstanding + (if b then 1 else 0)
  Move-sent idle = omega arith
  Move-sent (ask lt) = omega arith
  Move-sent answered = omega arith
  Move-sent recorded = omega arith

  -- Over any rounds, where `outstanding_polls` is at most four at the start, it is so at the end, and the loop sends no
  -- more vo-passes requests than that counter grows by and its polls bring lines that it takes for replies (no event,
  -- and a request id of at least 1000): from 0, at most four more than there are such lines.
  pub run_loop-bound :
      (rs : List (Round F)) (s : ProducerState)
      → s.outstanding_polls ≤ max_outstanding_polls
      → ((run_loop F rs s).outstanding_polls ≤ max_outstanding_polls)
        × ((run_loop F rs s).next_poll_id + s.outstanding_polls
            ≤ s.next_poll_id + (run_loop F rs s).outstanding_polls + replies rs)
  unfolding run_loop
  run_loop-bound [] s h = (h, omega arith)
  run_loop-bound (r ∷ rs) s h =
      let after = (step F r s).0 in
      let bound : after.outstanding_polls ≤ 4 = Move-bound (step-Move F r s) h in
      let sent = Move-sent (step-Move F r s) in
      elim (Bool-cases (step F r s).1) [
        | inl e ↦
            let (still, total) = run_loop-bound rs after bound in
            rw e (still, omega (arith, sent, total))
        | inr e ↦ rw e (bound, omega (arith, sent))
      ]

  -- With `outstanding_polls` at four and no line to come that is taken for a reply, the loop stays as it is for good:
  -- over any rounds it sends no request and makes no record, however many frames mpv presents.
  pub run_loop-stalls :
      (rs : List (Round F)) (s : ProducerState)
      → s.outstanding_polls ≡ max_outstanding_polls
      → Unanswered rs
      → ((run_loop F rs s).seq ≡ s.seq)
        × ((run_loop F rs s).next_poll_id ≡ s.next_poll_id)
        × ((run_loop F rs s).outstanding_polls ≡ max_outstanding_polls)
  unfolding run_loop
  run_loop-stalls rs s h u =
      let e = stays rs s h u in
      (ap (λ v. v.recorded) e, ap (λ v. v.asked) e, ap (λ v. v.outstanding) e ∙ h)
    where
      stays :
          (rs : List (Round F)) (s : ProducerState)
          → s.outstanding_polls ≡ 4
          → Unanswered rs
          → view (run_loop F rs s) ≡ view s
      stays [] s h u = refl
      stays (r ∷ rs) s h (u, us) =
          let after = (step F r s).0 in
          let same : view after ≡ view s = Move-stuck (step-Move F r s) u h in
          elim (Bool-cases (step F r s).1) [
            | inl e ↦ rw e (stays rs after (ap (λ v. v.outstanding) same ∙ h) us ∙ same)
            | inr e ↦ rw e same
          ]
