-- ===== src/Correlator/Keys.antt =====
-- src/stats.cpp: what each round of `Correlator::Process` decides, in terms of the keys of the fronts.
use framewire.Prelude.{
  ℕ, zero, suc, ◌+◌, ◌<◌, ◌≡◌, refl, sym, ap, ap₂, subst, ◌∙◌, arith, ◌⊎◌, inl, inr, Bool,
  Bool-cases, true, false, List, [], ◌∷◌, some, none, length, get_elem?,
}
use framewire.Prelude.Int.{ℤ, ◌-ℤ◌, ◌≤ℤ◌, ltb_ℤ, leb_ℤ, -ℤ_parts}
use framewire.Telemetry.{signed64}
use framewire.Correlator.{Stream, Correlator, pairing_key, front, emit_group}
use framewire.Correlator.Process.{Scan, scan, scan_step, scan_fronts, retire_at, decide}

-- The key of a stream's front.
abbrev pub front_key : Bool → Stream → ℤ
front_key u s = pairing_key u (front s.queue)

-- Every front's key lies between the two.
abbrev pub AllWithin : Bool → ℤ → ℤ → List Stream → Type 0
AllWithin u low high [] = Unit
AllWithin u low high (s ∷ ss) =
    (low ≤ℤ front_key u s) × (front_key u s ≤ℤ high) × AllWithin u low high ss

-- Stream `k` has a front with this key.
abbrev pub KeyAt : Bool → List Stream → ℕ → ℤ → Type 0
KeyAt u ss k key = (s : Stream) × (get_elem? ss k ≡ some s) × (front_key u s ≡ key)

scan-bounds :
    (u : Bool) (i : ℕ) (found : Scan) (ss : List Stream)
    → ((scan u i found ss).min_key ≤ℤ found.min_key)
      × (found.max_key ≤ℤ (scan u i found ss).max_key)
      × AllWithin u (scan u i found ss).min_key (scan u i found ss).max_key ss
unfolding scan
scan-bounds u i found [] = (omega arith, omega arith, tt)
scan-bounds u i found (s ∷ ss) =
    let (low, high, all) = scan-bounds u (i + 1) (scan_step u i found s) ss in
    (ground (arith, low), ground (arith, high), (ground (arith, low), ground (arith, high), all))

scan_step_earlier :
    (u : Bool) (i : ℕ) (found : Scan) (s : Stream)
    → ltb_ℤ (front_key u s) found.min_key ≡ true
    → ((scan_step u i found s).earliest ≡ i) × ((scan_step u i found s).min_key ≡ front_key u s)
scan_step_earlier u i found s t = rw t (refl, refl)

scan_step_kept :
    (u : Bool) (i : ℕ) (found : Scan) (s : Stream)
    → ltb_ℤ (front_key u s) found.min_key ≡ false
    → ((scan_step u i found s).earliest ≡ found.earliest)
      × ((scan_step u i found s).min_key ≡ found.min_key)
scan_step_kept u i found s t = rw t (refl, refl)

scan_step_max :
    (u : Bool) (i : ℕ) (found : Scan) (s : Stream)
    → ((scan_step u i found s).max_key ≡ front_key u s)
      ⊎ ((scan_step u i found s).max_key ≡ found.max_key)
scan_step_max u i found s = elim (Bool-cases (ltb_ℤ found.max_key (front_key u s))) [
  | inl t ↦ inl (rw t refl)
  | inr t ↦ inr (rw t refl)
]

scan-earliest :
    (u : Bool) (i : ℕ) (found : Scan) (ss : List Stream)
    → (((scan u i found ss).earliest ≡ found.earliest)
        × ((scan u i found ss).min_key ≡ found.min_key))
      ⊎ ((k : ℕ) × ((scan u i found ss).earliest ≡ i + k)
          × KeyAt u ss k (scan u i found ss).min_key)
unfolding scan
scan-earliest u i found [] = inl (refl, refl)
scan-earliest u i found (s ∷ ss) = elim (scan-earliest u (i + 1) (scan_step u i found s) ss) [
  | inr (k, e, at) ↦ inr (suc k, e ∙ omega arith, at)
  | inl (e, m) ↦ elim (Bool-cases (ltb_ℤ (front_key u s) found.min_key)) [
    | inl t ↦
        let (place, key) = scan_step_earlier u i found s t in
        inr (0, e ∙ place ∙ omega arith, (s, refl, sym (m ∙ key)))
    | inr t ↦ let (place, key) = scan_step_kept u i found s t in inl (e ∙ place, m ∙ key)
  ]
]

scan-latest :
    (u : Bool) (i : ℕ) (found : Scan) (ss : List Stream)
    → ((scan u i found ss).max_key ≡ found.max_key)
      ⊎ ((k : ℕ) × KeyAt u ss k (scan u i found ss).max_key)
unfolding scan
scan-latest u i found [] = inl refl
scan-latest u i found (s ∷ ss) = elim (scan-latest u (i + 1) (scan_step u i found s) ss) [
  | inr (k, at) ↦ inr (suc k, at)
  | inl m ↦ elim (scan_step_max u i found s) [
    | inl t ↦ inr (0, (s, refl, sym (m ∙ t)))
    | inr t ↦ inl (m ∙ t)
  ]
]

-- The scan of at least one front finds the least and the greatest key, and the first stream that has the least.
pub scan_fronts-extremes :
    (u : Bool) (ss : List Stream)
    → 0 < length ss
    → AllWithin u (scan_fronts u ss).min_key (scan_fronts u ss).max_key ss
      × KeyAt u ss (scan_fronts u ss).earliest (scan_fronts u ss).min_key
      × ((k : ℕ) × KeyAt u ss k (scan_fronts u ss).max_key)
unfolding scan_fronts
scan_fronts-extremes u [] h = absurd (omega arith)
scan_fronts-extremes u (s ∷ ss) h = (
  (low, high, all),
  elim (scan-earliest u 1 start ss) [
    | inl (e, m) ↦
        subst (λ k. KeyAt u (s ∷ ss) k (scan u 1 start ss).min_key) (sym e) (s, refl, sym m)
    | inr (k, e, at) ↦
        subst (λ k. KeyAt u (s ∷ ss) k (scan u 1 start ss).min_key) {x = suc k} (omega (arith, e))
          at
  ],
  elim (scan-latest u 1 start ss) [ inl m ↦ (0, (s, refl, sym m)) | inr (k, at) ↦ (suc k, at) ],
)
  where
    start : Scan
    start = record { earliest = 0; min_key = front_key u s; max_key = front_key u s }

    low : (scan u 1 start ss).min_key ≤ℤ front_key u s
    low = (scan-bounds u 1 start ss).0

    high : front_key u s ≤ℤ (scan u 1 start ss).max_key
    high = (scan-bounds u 1 start ss).1

    all : AllWithin u (scan u 1 start ss).min_key (scan u 1 start ss).max_key ss
    all = (scan-bounds u 1 start ss).2

AllWithin-get :
    (u : Bool) (low high : ℤ) (ss : List Stream) (k : ℕ) (s : Stream)
    → AllWithin u low high ss
    → get_elem? ss k ≡ some s
    → (low ≤ℤ front_key u s) × (front_key u s ≤ℤ high)
AllWithin-get u low high [] k s a e = absurd (cc e)
AllWithin-get u low high (t ∷ ss) zero s (l, h, _) e =
    let same : t ≡ s = ap (λ o. elim o [ none ↦ t | some x ↦ x ]) e in
    subst (λ x. (low ≤ℤ front_key u x) × (front_key u x ≤ℤ high)) same (l, h)
AllWithin-get u low high (t ∷ ss) (suc k) s (_, _, a) e = AllWithin-get u low high ss k s a e

within-close :
    (low high a b w : ℤ) → low ≤ℤ a → b ≤ℤ high → leb_ℤ (high -ℤ low) w ≡ true → (b -ℤ a) ≤ℤ w
within-close low high a b w l h t = ground (arith, -ℤ_parts high low, -ℤ_parts b a)

far_apart : (a b w : ℤ) → leb_ℤ (b -ℤ a) w ≡ false → ltb_ℤ w (b -ℤ a) ≡ true
far_apart a b w t = ground arith

-- Any two fronts' keys differ by no more than the tolerance, read as an `int64_t`.
abbrev pub AllClose : Correlator → Type 0
AllClose c =
    (j k : ℕ) (s t : Stream)
    → get_elem? c.streams j ≡ some s
    → get_elem? c.streams k ≡ some t
    → (front_key c.use_media_time t -ℤ front_key c.use_media_time s) ≤ℤ signed64 c.tolerance_ns

-- Stream `j` has the least key of all fronts, and some front's key is further from it than the tolerance.
abbrev pub IsLate : Correlator → ℕ → Type 0
IsLate c j =
    (s : Stream) × (get_elem? c.streams j ≡ some s)
    × ((k : ℕ) (t : Stream)
        → get_elem? c.streams k ≡ some t
        → front_key c.use_media_time s ≤ℤ front_key c.use_media_time t)
    × ((k : ℕ) × (t : Stream) × (get_elem? c.streams k ≡ some t)
        × (ltb_ℤ (signed64 c.tolerance_ns)
              (front_key c.use_media_time t -ℤ front_key c.use_media_time s)
            ≡ true))

-- A round of `Process` with at least one stream groups the fronts where every two of them are within the tolerance,
-- and otherwise retires the front with the least key, which is too far from another front.
pub decide-groups_or_retires :
    (c : Correlator)
    → 0 < length c.streams
    → (AllClose c × (decide c ≡ emit_group c))
      ⊎ ((j : ℕ) × IsLate c j × (decide c ≡ record c { streams = retire_at c.streams j }))
unfolding decide
decide-groups_or_retires c h =
    let u = c.use_media_time in
    let found = scan_fronts u c.streams in
    let (all, first, last) = scan_fronts-extremes u c.streams h in
    elim (Bool-cases (leb_ℤ (found.max_key -ℤ found.min_key) (signed64 c.tolerance_ns))) [
      | inl e ↦ inl (
        (λ j k s t at_j at_k.
            within-close found.min_key found.max_key (front_key u s) (front_key u t)
              (signed64 c.tolerance_ns)
              (AllWithin-get u found.min_key found.max_key c.streams j s all at_j).0
              (AllWithin-get u found.min_key found.max_key c.streams k t all at_k).1 e),
        rw e refl,
      )
      | inr e ↦
          let (s, at_s, key_s) = first in
          let (k, (t, at_t, key_t)) = last in
          inr (
            found.earliest,
            (
              s,
              at_s,
              (λ i x at_x.
                  subst (λ low. low ≤ℤ front_key u x) (sym key_s)
                    (AllWithin-get u found.min_key found.max_key c.streams i x all at_x).0),
              (
                k,
                t,
                at_t,
                far_apart (front_key u s) (front_key u t) (signed64 c.tolerance_ns) (
                    ap₂ (λ high low. leb_ℤ (high -ℤ low) (signed64 c.tolerance_ns)) key_t key_s
                    ∙ e),
              ),
            ),
            rw e refl,
          )
    ]
