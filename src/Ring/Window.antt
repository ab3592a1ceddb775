-- ===== src/Ring/Window.antt =====
-- The records that lie in the slot array between two positions, and how one store extends them.
use Prim.Native.Nat.{◌∣◌}
use native.Mathlib.Nat.{mod-add-mod, mod-eq_of_lt, mod-eq-sub-mod, mod-mod_of_dvd, mod-lt}
use framewire.Prelude.{
  ℕ, zero, suc, ◌+◌, ◌-◌, ◌%◌, ◌≤◌, ◌<◌, ◌≡◌, refl, sym, ap, ap₂, ◌∙◌, ◌≢◌, List, [], ◌∷◌, ◌++◌,
  arith, dec_lt, length, get_or, set, get_or-set_self, get_or-set_ne,
}

-- Fewer than `c` steps round a ring of `c` places do not come back to the start.
pub mod-step_ne : (c r d : ℕ) → r < c → suc d < c → (r + suc d) % c ≢ r
mod-step_ne c r d hr hd = elim (dec_lt (r + suc d) c) [
  | yes p ↦ omega (arith, mod-eq_of_lt p)
  | no p ↦ omega (
    arith,
    mod-eq-sub-mod {n = r + suc d} {m = c} (omega arith),
    mod-eq_of_lt {n = r + suc d - c} {m = c} (omega arith),
  )
]

pub mod_apart : (c t d : ℕ) → suc d < c → (t + suc d) % c ≢ t % c
mod_apart c t d hd e =
    mod-step_ne c (t % c) d (mod-lt t (omega arith)) hd (mod-add-mod t c (suc d) ∙ e)

module _ {ℓ} {A : Type ℓ} (d : A) where
  -- the `n` entries from position `t` on
  abbrev pub window : List A → ℕ → ℕ → ℕ → List A
  window buf c t zero = []
  window buf c t (suc n) = get_or buf (t % c) d ∷ window buf c (t + 1) n

  pub length-window : (buf : List A) (c t n : ℕ) → length (window buf c t n) ≡ n
  length-window buf c t zero = refl
  length-window buf c t (suc n) = ap suc (length-window buf c (t + 1) n)

  -- A store just behind the window extends it by what is stored.
  pub window-set_last :
      (buf : List A) (c t n i : ℕ) (x : A)
      → c ≤ length buf
      → n < c
      → i ≡ (t + n) % c
      → window (set buf i x) c t (suc n) ≡ window buf c t n ++ x ∷ []
  window-set_last buf c t zero i x hl hn e =
      let at : i ≡ t % c = e ∙ ap (λ j. j % c) (omega arith) in
      rw at (ap (λ y. y ∷ []) (get_or-set_self buf (t % c) x d (omega arith)))
  window-set_last buf c t (suc n) i x hl hn e =
      ap₂ ◌∷◌ (get_or-set_ne buf x d (rw e (mod_apart c t n hn)))
        (window-set_last buf c (t + 1) n i x hl (omega arith) (e ∙ ap (λ j. j % c) (omega arith)))

  -- A store behind the window leaves it as it was.
  pub window-set_behind :
      (buf : List A) (c t n m i : ℕ) (x : A)
      → n ≤ m
      → m < c
      → i ≡ (t + m) % c
      → window (set buf i x) c t n ≡ window buf c t n
  window-set_behind buf c t zero m i x hn hm e = refl
  window-set_behind buf c t (suc n) zero i x hn hm e = absurd (omega arith)
  window-set_behind buf c t (suc n) (suc m) i x hn hm e =
      ap₂ ◌∷◌ (get_or-set_ne buf x d (rw e (mod_apart c t m hm))) (
        window-set_behind buf c (t + 1) n m i x (omega arith) (omega arith)
          (e ∙ ap (λ j. j % c) (omega arith)))

  -- The window one longer has the next entry at its end.
  pub window-last :
      (buf : List A) (c t n : ℕ)
      → window buf c t (suc n) ≡ window buf c t n ++ get_or buf ((t + n) % c) d ∷ []
  window-last buf c t zero = ap (λ i. get_or buf (i % c) d ∷ []) (omega arith)
  window-last buf c t (suc n) = ap (◌∷◌ (get_or buf (t % c) d)) (
      window-last buf c (t + 1) n
      ∙ ap (λ i. window buf c (t + 1) n ++ get_or buf (i % c) d ∷ []) (omega arith))

  -- Positions that agree modulo a multiple of the capacity show the same window.
  pub window-mod : (buf : List A) (c m t n : ℕ) → c ∣ m → window buf c (t % m) n ≡ window buf c t n
  window-mod buf c m t zero h = refl
  window-mod buf c m t (suc n) h = ap₂ ◌∷◌ (ap (λ i. get_or buf i d) (mod-mod_of_dvd c t h)) (
      sym (window-mod buf c m (t % m + 1) n h)
      ∙ ap (λ i. window buf c i n) (mod-add-mod t m 1)
      ∙ window-mod buf c m (t + 1) n h)

  pub window-split :
      (buf : List A) (c t a b : ℕ)
      → window buf c t (a + b) ≡ window buf c t a ++ window buf c (t + a) b
  window-split buf c t zero b =
      let e : 0 + b ≡ b = omega arith in let e' : t + 0 ≡ t = omega arith in rw (e, e')
  window-split buf c t (suc a) b =
      let e : suc a + b ≡ suc (a + b) = omega arith in
      let e' : t + suc a ≡ t + 1 + a = omega arith in
      rw (e, e') (ap (◌∷◌ (get_or buf (t % c) d)) (window-split buf c (t + 1) a b))
