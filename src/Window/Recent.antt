-- ===== src/Window/Recent.antt =====
-- src/histogram.cpp: which samples a sliding window holds, and in what order.
use native.Mathlib.Nat.{mod-eq_of_lt, mod-lt, add-mod_right, mod_self}
use framewire.Prelude.{
  ℕ, zero, suc, ◌+◌, ◌-◌, ◌%◌, ◌<◌, ◌≡◌, ◌≢◌, ◌∙◌, arith, List, [], ◌∷◌, true, false, ltb, ◌==◌,
  if◌then◌else◌, length, set, get_or, min, length-set, length-replicate, get_or-set_self,
  get_or-set_ne, dec_lt, ℕ_discrete,
}
use framewire.Window.{Window, new_window, slide, forget}

-- The place of the sample recorded `j` samples before the newest, in `n` places of which `next` is written next.
unfoldable pub place : ℕ → ℕ → ℕ → ℕ
place n next j = (next + n - suc j) % n

place-eq :
    (n next j : ℕ)
    → next < n
    → j < n
    → place n next j ≡ (if ltb j next then next - suc j else next + n - suc j)
unfolding place
place-eq n next j h g = elim (dec_lt j next) [
  | yes lt ↦
      let test : ltb j next ≡ true = ground arith in
      let shift : next + n - suc j ≡ next - suc j + n = omega arith in
      rw (test, shift) (add-mod_right (next - suc j) n ∙ mod-eq_of_lt (omega arith))
  | no ge ↦ let test : ltb j next ≡ false = ground arith in rw test (mod-eq_of_lt (omega arith))
]

succ_mod : (n next : ℕ) → next < n → (next + 1) % n ≡ (if next + 1 == n then 0 else next + 1)
succ_mod n next h = elim (ℕ_discrete (next + 1) n) [
  | yes e ↦ let test : (next + 1 == n) ≡ true = ground arith in rw (test, e) (mod_self n)
  | no ne ↦
      let test : (next + 1 == n) ≡ false = ground arith in rw test (mod-eq_of_lt (omega arith))
]

place-slide_zero : (n next : ℕ) → next < n → place n ((next + 1) % n) 0 ≡ next
place-slide_zero n next h =
    rw
      (
        place-eq n ((next + 1) % n) 0 (mod-lt (next + 1) (omega arith)) (omega arith),
        succ_mod n next h,
      )
      (ground arith)

place-slide_suc :
    (n next j : ℕ) → next < n → suc j < n → place n ((next + 1) % n) (suc j) ≡ place n next j
place-slide_suc n next j h g =
    rw
      (
        place-eq n ((next + 1) % n) (suc j) (mod-lt (next + 1) (omega arith)) g,
        place-eq n next j h (omega arith),
        succ_mod n next h,
      )
      (ground arith)

place_ne : (n next j : ℕ) → next < n → suc j < n → next ≢ place n next j
place_ne n next j h g e = ground (arith, e, place-eq n next j h (omega arith))

module _ {ℓ} {A : Type ℓ} (blank : A) where
  -- The window `w` holds the newest of the samples `xs`, which are listed newest first.
  pub record Holds (w : Window A) (xs : List A) : Type ℓ where
    pub room : w.next < length w.values
    pub filled : w.size ≡ min (length xs) (length w.values)
    pub newest_first :
        (j : ℕ)
        → j < w.size
        → get_or w.values (place (length w.values) w.next j) blank ≡ get_or xs j blank

  pub new_window-Holds : (capacity : ℕ) → Holds (new_window blank capacity) []
  new_window-Holds capacity = record {
    room = rw length-replicate (ground arith);
    filled = omega arith;
    newest_first = λ j h. absurd (omega arith);
  }

  pub forget-Holds : (w : Window A) (xs : List A) → Holds w xs → Holds (forget blank w) []
  forget-Holds w xs h = record {
    room = omega (arith, h.room);
    filled = omega arith;
    newest_first = λ j g. absurd (omega arith);
  }

  -- After one more sample, the window holds that sample and those before it.
  pub slide-Holds :
      (w : Window A) (xs : List A) (v : A) → Holds w xs → Holds (slide blank w v) (v ∷ xs)
  slide-Holds w xs v h = record {
    room = rw length-set (mod-lt (w.next + 1) (omega (arith, h.room)));
    filled = rw length-set (ground (arith, h.filled));
    newest_first = λ j g. rw length-set (reads j g);
  }
    where
      n : ℕ
      n = length w.values

      slid : ℕ
      slid = if ltb w.size n then w.size + 1 else w.size

      reads :
          (j : ℕ)
          → j < slid
          → get_or (set w.values w.next v) (place n ((w.next + 1) % n) j) blank
            ≡ get_or (v ∷ xs) j blank
      reads zero g =
          rw (place-slide_zero n w.next h.room) (get_or-set_self w.values w.next v blank h.room)
      reads (suc j) g =
          let inside : suc j < n = ground (arith, h.filled, h.room) in
          let held : j < w.size = ground (arith, h.filled, h.room) in
          rw (place-slide_suc n w.next j h.room inside) (
            get_or-set_ne w.values v blank (place_ne n w.next j h.room inside)
            ∙ h.newest_first j held)
