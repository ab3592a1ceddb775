-- ===== src/Window/Held.antt =====
-- src/histogram.cpp: the samples in the first places of a window against those recorded.
use framewire.Prelude.{
  ℕ, zero, suc, ◌+◌, ◌-◌, ◌%◌, ◌<◌, ◌≡◌, refl, sym, ap, ◌∙◌, arith, Bool, List, [], ◌∷◌, ltb,
  if◌then◌else◌, length, get_or, set, take, length-set, dec_lt,
}
use native.Mathlib.Nat.{mod-eq_of_lt}
use framewire.Window.{Window, new_window, slide, forget}
use framewire.Window.Recent.{Holds, place, new_window-Holds, forget-Holds, slide-Holds}
use framewire.Window.Sort.{count}

module _ {ℓ} {A : Type ℓ} (d : A) (p : A → Bool) where
  -- Writing place `k` among the first `n` takes the old element out of the count and puts the new one in.
  count-take-set :
      (vs : List A) (n k : ℕ) (v : A)
      → k < n
      → k < length vs
      → count p (take n (set vs k v)) + (if p (get_or vs k d) then 1 else 0)
        ≡ count p (take n vs) + (if p v then 1 else 0)
  count-take-set [] n k v h g = absurd (omega arith)
  count-take-set (x ∷ xs) zero k v h g = absurd (omega arith)
  count-take-set (x ∷ xs) (suc n) zero v h g = omega arith
  count-take-set (x ∷ xs) (suc n) (suc k) v h g =
      omega (arith, count-take-set xs n k v (omega arith) (omega arith))

  -- One more element is counted.
  count-take-suc :
      (vs : List A) (n : ℕ)
      → n < length vs
      → count p (take (suc n) vs) ≡ count p (take n vs) + (if p (get_or vs n d) then 1 else 0)
  count-take-suc [] n h = absurd (omega arith)
  count-take-suc (x ∷ xs) zero h = omega arith
  count-take-suc (x ∷ xs) (suc n) h = omega (arith, count-take-suc xs n (omega arith))

module _ {ℓ} {A : Type ℓ} (blank : A) where
  -- The window holds the newest samples in order, and its first places hold those and no others.
  pub record Keeps (w : Window A) (xs : List A) : Type ℓ where
    pub holds : Holds blank w xs
    pub growing : w.size < length w.values → w.next ≡ w.size
    pub counted : (p : A → Bool) → count p (take w.size w.values) ≡ count p (take w.size xs)

  pub new_window-Keeps : (capacity : ℕ) → Keeps (new_window blank capacity) []
  new_window-Keeps capacity = record {
    holds = new_window-Holds blank capacity;
    growing = λ h. refl;
    counted = λ p. refl;
  }

  pub forget-Keeps : (w : Window A) (xs : List A) → Keeps w xs → Keeps (forget blank w) []
  forget-Keeps w xs k = record {
    holds = forget-Holds blank w xs k.holds;
    growing = λ h. refl;
    counted = λ p. refl;
  }

  -- `Record` keeps the window to the newest samples: those it holds are the new one and the ones before it, in
  -- order, as many as there are places, and its first places hold each as often as it was recorded.
  pub slide-Keeps :
      (w : Window A) (xs : List A) (v : A) → Keeps w xs → Keeps (slide blank w v) (v ∷ xs)
  unfolding place
  slide-Keeps w xs v k = record {
    holds = slide-Holds blank w xs v k.holds;
    growing = λ h. elim (dec_lt w.size n) [
      | yes lt ↦
          rw (size_grows lt) (mod-eq_of_lt (below lt h) ∙ ap (λ (t : ℕ). t + 1) (k.growing lt))
      | no ge ↦ absurd (ge (at_full ge h))
    ];
    counted = λ p. elim (dec_lt w.size n) [
      | yes lt ↦ rw (size_grows lt) (grows p lt)
      | no ge ↦ rw (size_stays ge) (full p ge)
    ];
  }
    where
      n : ℕ
      n = length w.values

      slid : ℕ
      slid = if ltb w.size n then w.size + 1 else w.size

      size_grows : w.size < n → slid ≡ w.size + 1
      size_grows lt = ground arith

      size_stays : ¬ (w.size < n) → slid ≡ w.size
      size_stays ge = ground arith

      below : w.size < n → slid < length (set w.values w.next v) → w.next + 1 < n
      below lt h = omega (arith, size_grows lt, length-set w.values w.next v, k.growing lt)

      at_full : ¬ (w.size < n) → slid < length (set w.values w.next v) → w.size < n
      at_full ge h = omega (arith, size_stays ge, length-set w.values w.next v)

      grows :
          (p : A → Bool)
          → w.size < n
          → count p (take (w.size + 1) (set w.values w.next v))
            ≡ count p (take (w.size + 1) (v ∷ xs))
      grows p lt =
          let e : w.size + 1 ≡ suc w.size = omega arith in
          rw e (
            omega (
              arith,
              count-take-set blank p w.values (suc w.size) w.next v (omega (arith, k.growing lt))
                  k.holds.room,
              count-take-suc blank p w.values w.size lt,
              ap {B = ℕ} (λ (i : ℕ). if p (get_or w.values i blank) then 1 else 0) (k.growing lt),
              k.counted p,
            ))

      oldest : ¬ (w.size < n) → get_or w.values w.next blank ≡ get_or xs (n - 1) blank
      oldest ge =
          let wrap : (w.next + n - suc (n - 1)) % n ≡ w.next =
            ap (λ (t : ℕ). t % n) {y = w.next} (omega (arith, k.holds.room))
            ∙ mod-eq_of_lt k.holds.room in
          ap (λ i. get_or w.values i blank) (sym wrap)
          ∙ k.holds.newest_first (n - 1) (omega (arith, k.holds.room))

      full :
          (p : A → Bool)
          → ¬ (w.size < n)
          → count p (take w.size (set w.values w.next v)) ≡ count p (take w.size (v ∷ xs))
      full p ge =
          let e : w.size ≡ suc (n - 1) = omega (arith, k.holds.room, k.holds.filled) in
          omega (
            arith,
            ap (λ (i : ℕ). count p (take i (set w.values w.next v))) e,
            ap (λ (i : ℕ). count p (take i (v ∷ xs))) e,
            ap (λ (i : ℕ). count p (take i w.values)) e,
            ap (λ (i : ℕ). count p (take i xs)) e,
            count-take-set blank p w.values (suc (n - 1)) w.next v (omega (arith, k.holds.room))
                k.holds.room,
            count-take-suc blank p xs (n - 1) (omega (arith, k.holds.room, k.holds.filled)),
            ap {B = ℕ} (λ (a : A). if p a then 1 else 0) (oldest ge),
            k.counted p,
          )
