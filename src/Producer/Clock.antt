-- ===== src/Producer/Clock.antt =====
-- src/producer_main.cpp: the media time that records carry, over the positions that mpv reports.
use native.Mathlib.Omega.{arith}
use framewire.Prelude.{ℕ, ◌≡◌, refl, inl, inr, Bool-cases, true}
use framewire.Prelude.Int.{ℤ, pos, ◌+ℤ◌, ◌≤ℤ◌, ltb_ℤ, +ℤ_parts, ltb_ℤ→ge}
use framewire.Producer.{ProducerState, loop_backstep_ns}
use framewire.Producer.Lines.{move_position}

add_mono : (e l p : ℤ) → l ≤ℤ p → e +ℤ l ≤ℤ e +ℤ p
add_mono e l p h = omega (arith, +ℤ_parts e l, +ℤ_parts e p)

add_step : (e l p : ℤ) (k : ℕ) → l ≤ℤ p +ℤ pos k → e +ℤ l ≤ℤ (e +ℤ p) +ℤ pos k
add_step e l p k h =
    omega (arith, +ℤ_parts e l, +ℤ_parts e p, +ℤ_parts p (pos k), +ℤ_parts (e +ℤ p) (pos k))

add_up : (m : ℤ) (n : ℕ) → m ≤ℤ m +ℤ pos n
add_up m n = omega (arith, +ℤ_parts m (pos n))

-- The media time is the last position, behind the epoch.
abbrev pub OnClock : ProducerState → Type 0
OnClock s = s.media_time_ns ≡ s.media_epoch_ns +ℤ s.last_position_ns

move_position-OnClock : (p : ℤ) (s : ProducerState) → OnClock (move_position p s)
unfolding move_position
move_position-OnClock p s = refl

-- A position that is not negative moves the media time on from wherever it was, except that a step back of at most one
-- second goes through as it is: the time never falls by more than that second, and it does not fall at all where the
-- position does not, or where it jumps back far enough to count as a restart. Where the time stood at the last position.
pub move_position-media :
    (n : ℕ) (s : ProducerState)
    → OnClock s
    → let s' = move_position (pos n) s in
      OnClock s'
      × (s.media_time_ns ≤ℤ s'.media_time_ns +ℤ pos loop_backstep_ns)
      × (s.last_position_ns ≤ℤ pos n → s.media_time_ns ≤ℤ s'.media_time_ns)
      × (ltb_ℤ (pos n +ℤ pos loop_backstep_ns) s.last_position_ns ≡ true
          → s.media_time_ns ≤ℤ s'.media_time_ns)
unfolding move_position
move_position-media n s h =
    elim (Bool-cases (ltb_ℤ (pos n +ℤ pos loop_backstep_ns) s.last_position_ns)) [
      | inl e ↦
          let up : s.media_time_ns ≤ℤ (s.media_epoch_ns +ℤ s.last_position_ns) +ℤ pos n =
            rw h (add_up (s.media_epoch_ns +ℤ s.last_position_ns) n) in
          rw e (
            refl,
            omega (
              arith,
              up,
              add_up ((s.media_epoch_ns +ℤ s.last_position_ns) +ℤ pos n) loop_backstep_ns,
            ),
            (λ _. up),
            λ _. up,
          )
      | inr e ↦
          let back : s.last_position_ns ≤ℤ pos n +ℤ pos loop_backstep_ns =
            ltb_ℤ→ge (pos n +ℤ pos loop_backstep_ns) s.last_position_ns e in
          rw e (
            refl,
            rw h (add_step s.media_epoch_ns s.last_position_ns (pos n) loop_backstep_ns back),
            (λ le. rw h (add_mono s.media_epoch_ns s.last_position_ns (pos n) le)),
            λ up. absurd (cc up),
          )
    ]
