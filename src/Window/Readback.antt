-- ===== src/Window/Readback.antt =====
-- src/histogram.cpp: `Newest` and `CopyRecent` of a window, in terms of the samples recorded.
use framewire.Prelude.{
  ℕ, zero, suc, ◌+◌, ◌-◌, ◌%◌, ◌≤◌, ◌<◌, ◌≡◌, refl, sym, ap, ◌∙◌, arith, List, [], ◌∷◌, true, false,
  ltb, ◌==◌, if◌then◌else◌, length, set, get_or, replicate, min, length-set, length-replicate,
  get_or-set_self, get_or-set_ne, dec_lt, ℕ_discrete,
}
use framewire.Window.{SampleWindow, new_samples, record_sample, newest, copy_loop, copy_recent}
use framewire.Window.Recent.{Holds, place, new_window-Holds, slide-Holds}

-- The window of a given capacity after the samples `xs`, listed newest first.
abbrev pub recorded : ℕ → List ℕ → SampleWindow
recorded capacity [] = new_samples capacity
recorded capacity (x ∷ xs) = record_sample (recorded capacity xs) x

pub recorded-Holds : (capacity : ℕ) (xs : List ℕ) → Holds 0 (recorded capacity xs) xs
unfolding record_sample new_samples
recorded-Holds capacity [] = new_window-Holds 0 capacity
recorded-Holds capacity (x ∷ xs) =
    slide-Holds 0 (recorded capacity xs) xs x (recorded-Holds capacity xs)

get_or_beyond : (xs : List ℕ) (i : ℕ) → length xs ≤ i → get_or xs i 0 ≡ 0
get_or_beyond [] i h = refl
get_or_beyond (x ∷ xs) zero h = absurd (omega arith)
get_or_beyond (x ∷ xs) (suc i) h = get_or_beyond xs i (omega arith)

get_or-replicate : (n i : ℕ) → get_or {A = ℕ} (replicate n 0) i 0 ≡ 0
get_or-replicate zero i = refl
get_or-replicate (suc n) zero = refl
get_or-replicate (suc n) (suc i) = get_or-replicate n i

-- Position `p` of what the loop of `CopyRecent` leaves: written in its rounds, or as it was.
copy_loop-get :
    (w : SampleWindow) (n taken left i : ℕ) (out : List ℕ) (p : ℕ)
    → length out ≡ n
    → taken ≤ n
    → i + left ≡ taken
    → get_or (copy_loop w n taken left i out) p 0 ≡ (
        if ltb p (n - taken + i)
        then get_or out p 0
        else if ltb p n
        then get_or w.values ((w.next + length w.values - (n - p)) % length w.values) 0
        else get_or out p 0)
unfolding copy_loop
copy_loop-get w n taken zero i out p len small all = ground arith
copy_loop-get w n taken (suc left) i out p len small all =
    rw
      (copy_loop-get w n taken left (i + 1) (set out (n - taken + i) v) p (length-set out _ v ∙ len)
        small (omega arith))
      (elim (ℕ_discrete p (n - taken + i)) [
        | yes e ↦
            let above : ltb p (n - taken + (i + 1)) ≡ true = ground arith in
            let below : ltb p (n - taken + i) ≡ false = ground arith in
            let inside : ltb p n ≡ true = ground arith in
            let offset : taken - i ≡ n - p = omega arith in
            let written : get_or (set out (n - taken + i) v) p 0 ≡ v =
              ap (λ q. get_or (set out (n - taken + i) v) q 0) e
              ∙ get_or-set_self out (n - taken + i) v 0 (omega arith) in
            rw (above, below, inside)
              (written
                ∙ ap (λ o. get_or w.values ((w.next + length w.values - o) % length w.values) 0)
                    offset)
        | no ne ↦ rw (get_or-set_ne out v 0 (λ e. ne (sym e))) (ground arith)
      ])
  where
    v : ℕ
    v = get_or w.values ((w.next + length w.values - (taken - i)) % length w.values) 0

module _ (w : SampleWindow) (xs : List ℕ) (h : Holds 0 w xs) where
  -- `Newest` is the last sample recorded, and 0 where there is none.
  pub newest-last : newest w ≡ get_or xs 0 0
  unfolding newest place
  newest-last = elim (ℕ_discrete w.size 0) [
    | yes e ↦
        let test : (w.size == 0) ≡ true = ground arith in
        rw test (sym (get_or_beyond xs 0 (omega (arith, h.filled, h.room))))
    | no ne ↦
        let test : (w.size == 0) ≡ false = ground arith in rw test (h.newest_first 0 (omega arith))
  ]

  range :
      (n j : ℕ)
      → j < n
      → (if ltb (n - suc j) (n - min n w.size + 0)
          then get_or (replicate n 0) (n - suc j) 0
          else if ltb (n - suc j) n
          then get_or w.values ((w.next + length w.values - (n - (n - suc j))) % length w.values) 0
          else get_or (replicate n 0) (n - suc j) 0)
        ≡ (if ltb j w.size then get_or xs j 0 else 0)
  unfolding place
  range n j g = elim (dec_lt j w.size) [
    | yes lt ↦
        let above : ltb (n - suc j) (n - min n w.size + 0) ≡ false = ground arith in
        let inside : ltb (n - suc j) n ≡ true = ground arith in
        let held : ltb j w.size ≡ true = ground arith in
        let offset : n - (n - suc j) ≡ suc j = omega arith in
        rw (above, inside, held, offset) (h.newest_first j lt)
    | no ge ↦
        let below : ltb (n - suc j) (n - min n w.size + 0) ≡ true = ground arith in
        let late : ltb j w.size ≡ false = ground arith in
        rw (below, late) (get_or-replicate n (n - suc j))
  ]

  -- `CopyRecent` leaves the sample recorded `j` before the newest at place `j` from the end, for as many samples as
  -- the window holds and the destination has places; the places before are 0.
  pub copy_recent-get :
      (n j : ℕ)
      → j < n
      → get_or (copy_recent w n) (n - suc j) 0 ≡ (if ltb j w.size then get_or xs j 0 else 0)
  unfolding copy_recent place
  copy_recent-get n j g = elim (ℕ_discrete w.size 0) [
    | yes e ↦
        let test : (w.size == 0) ≡ true = ground arith in
        let late : ltb j w.size ≡ false = ground arith in
        rw (test, late) (get_or-replicate n (n - suc j))
    | no ne ↦
        let test : (w.size == 0) ≡ false = ground arith in
        rw test (
          copy_loop-get w n (min n w.size) (min n w.size) 0 (replicate n 0) (n - suc j)
            (length-replicate n 0) (omega arith) (omega arith)
          ∙ range n j g)
  ]
