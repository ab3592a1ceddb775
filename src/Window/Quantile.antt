-- ===== src/Window/Quantile.antt =====
-- src/histogram.cpp: the quantile of a window against the samples it holds.
use framewire.Prelude.{
  ℕ, ◌+◌, ◌-◌, ◌≤◌, ◌<◌, ◌≡◌, ◌∙◌, arith, ◌⊎◌, inl, inr, Bool, List, true, false, not, leb, ◌==◌,
  length, get_or, take, length-take, dec_lt,
}
use framewire.Prelude.Int.{ℤ, pos, pos_part, neg_part, leb_ℤ}
use framewire.Double.{Double}
use framewire.Histogram.{rank_of}
use framewire.Histogram.Samples.{rank_of_range}
use framewire.Window.{
  Window, SampleWindow, SignedWindow, ordered, sample_at_quantile, signed_at_quantile,
  values_at_quantiles,
}
use framewire.Window.Sort.{count, count-sort, length-sort, sort-IsSorted, IsSorted-rank}
use framewire.Window.Held.{Keeps}

-- `v` is the sample of rank `r` of `xs`: fewer than `r` samples are below it, and at least `r` are not above it.
abbrev pub HasRank {ℓ} : {A : Type ℓ} → (A → A → Bool) → A → ℕ → List A → Type 0
HasRank le v r xs = (count (λ x. not (le v x)) xs < r) × (r ≤ count (λ x. le x v) xs)

module _ {ℓ} {A : Type ℓ} (le : A → A → Bool)
    (total : (x y : A) → (le x y ≡ true) ⊎ (le y x ≡ true))
    (trans : (x y z : A) → le x y ≡ true → le y z ≡ true → le x z ≡ true) (blank : A) (w : Window A)
    (xs : List A) (k : Keeps blank w xs) where
  ordered-HasRank :
      (r : ℕ)
      → 0 < r
      → r ≤ w.size
      → HasRank le (get_or (ordered blank le w) (r - 1) blank) r (take w.size xs)
  ordered-HasRank r low high =
      let sorted = sort-IsSorted le total trans (take w.size w.values) in
      let long : length (ordered blank le w) ≡ w.size =
        length-sort le (take w.size w.values)
        ∙ length-take w.size w.values
        ∙ omega (arith, k.holds.filled) in
      let (few, many) =
        IsSorted-rank le total trans blank (ordered blank le w) (r - 1) sorted
          (omega (arith, long)) in
      let moved : (p : A → Bool) → count p (ordered blank le w) ≡ count p (take w.size xs) =
        λ p. count-sort le p (take w.size w.values) ∙ k.counted p in
      (
        omega (arith, few, moved (λ x. not (le (get_or (ordered blank le w) (r - 1) blank) x))),
        omega (arith, many, moved (λ x. le x (get_or (ordered blank le w) (r - 1) blank))),
      )

leb_total : (x y : ℕ) → (leb x y ≡ true) ⊎ (leb y x ≡ true)
leb_total x y = elim (dec_lt y x) [ yes h ↦ inr (ground arith) | no h ↦ inl (ground arith) ]

leb_trans : (x y z : ℕ) → leb x y ≡ true → leb y z ≡ true → leb x z ≡ true
leb_trans x y z h g = ground arith

leb_ℤ_total : (x y : ℤ) → (leb_ℤ x y ≡ true) ⊎ (leb_ℤ y x ≡ true)
leb_ℤ_total x y = elim (dec_lt (pos_part y + neg_part x) (pos_part x + neg_part y)) [
  | yes h ↦ inr (ground arith)
  | no h ↦ inl (ground arith)
]

leb_ℤ_trans : (x y z : ℤ) → leb_ℤ x y ≡ true → leb_ℤ y z ≡ true → leb_ℤ x z ≡ true
leb_ℤ_trans x y z h g = ground arith

module _ (D : Double) where
  open D use {Carrier}

  -- `SampleWindow::ValueAtQuantile` of a window that holds samples is the sample, of those it holds, with the rank
  -- that the quantile asks for.
  pub sample_at_quantile-HasRank :
      (w : SampleWindow) (xs : List ℕ) (q : Carrier)
      → Keeps 0 w xs
      → 0 < w.size
      → HasRank leb (sample_at_quantile D w q) (rank_of D q w.size) (take w.size xs)
  unfolding sample_at_quantile values_at_quantiles
  sample_at_quantile-HasRank w xs q k filled =
      let test : (w.size == 0) ≡ false = ground arith in
      let (low, high) = rank_of_range D q w.size filled in
      rw test (ordered-HasRank leb leb_total leb_trans 0 w xs k (rank_of D q w.size) low high)

  -- The same of `SignedWindow::ValueAtQuantile`.
  pub signed_at_quantile-HasRank :
      (w : SignedWindow) (xs : List ℤ) (q : Carrier)
      → Keeps (pos 0) w xs
      → 0 < w.size
      → HasRank leb_ℤ (signed_at_quantile D w q) (rank_of D q w.size) (take w.size xs)
  unfolding signed_at_quantile
  signed_at_quantile-HasRank w xs q k filled =
      let test : (w.size == 0) ≡ false = ground arith in
      let (low, high) = rank_of_range D q w.size filled in
      rw test
        (ordered-HasRank leb_ℤ leb_ℤ_total leb_ℤ_trans (pos 0) w xs k (rank_of D q w.size) low high)
