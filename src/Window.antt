-- ===== src/Window.antt =====
-- src/histogram.cpp and include/framewire/histogram.h, classes `SampleWindow` and `SignedWindow`: the
-- most recent samples in an array that wraps around. The two differ in the type of a sample only.
pub mod Recent
pub mod Readback
pub mod Sort
mod Tests
pub mod Held
pub mod Quantile
use framewire.Prelude.{
  ℕ, zero, suc, ◌+◌, ◌-◌, ◌%◌, min, Bool, true, false, List, [], ◌∷◌, map, ltb, leb, ◌==◌,
  if◌then◌else◌, get_or, set, length, take, replicate,
}
use framewire.Prelude.Int.{ℤ, pos, negsuc, ltb_ℤ, leb_ℤ}
use framewire.Double.{Double}
use framewire.Histogram.{rank_of, clamp_unit}

pub record Window {ℓ} (A : Type ℓ) : Type ℓ where
  pub values : List A
  pub next : ℕ
  pub size : ℕ

abbrev pub SampleWindow : Type 0
SampleWindow = Window ℕ

abbrev pub SignedWindow : Type 0
SignedWindow = Window ℤ

-- `std::sort`: the samples in order, by inserting one after the other.
module _ {ℓ} {A : Type ℓ} (le : A → A → Bool) where
  abbrev pub insert : A → List A → List A
  insert x [] = x ∷ []
  insert x (y ∷ ys) = let rest = insert x ys in if le x y then x ∷ y ∷ ys else y ∷ rest

  abbrev pub sort : List A → List A
  sort [] = []
  sort (x ∷ xs) = insert x (sort xs)

-- What the two classes share. `blank` is what the array is filled with.
module _ {ℓ} {A : Type ℓ} (blank : A) where
  abbrev pub new_window : ℕ → Window A
  new_window capacity = record {
    values = replicate (if capacity == 0 then 1 else capacity) blank;
    next = 0;
    size = 0;
  }

  abbrev pub slide : Window A → A → Window A
  slide w v = record {
    values = set w.values w.next v;
    next = (w.next + 1) % length w.values;
    size = if ltb w.size (length w.values) then w.size + 1 else w.size;
  }

  abbrev pub forget : Window A → Window A
  forget w = record w { next = 0; size = 0 }

  -- `scratch_` after the sort
  abbrev pub ordered : (A → A → Bool) → Window A → List A
  ordered le w = sort le (take w.size w.values)

-- `SampleWindow`
unfoldable pub new_samples : ℕ → SampleWindow
new_samples capacity = new_window 0 capacity

unfoldable pub record_sample : SampleWindow → ℕ → SampleWindow
record_sample w value = slide 0 w value

unfoldable pub reset_samples : SampleWindow → SampleWindow
reset_samples w = forget 0 w

unfoldable pub newest : SampleWindow → ℕ
newest w =
    if w.size == 0 then 0 else get_or w.values ((w.next + length w.values - 1) % length w.values) 0

-- The loop of `CopyRecent`, from its round `i` on, with `left` rounds to go.
unfoldable pub copy_loop : SampleWindow → ℕ → ℕ → ℕ → ℕ → List ℕ → List ℕ
copy_loop w n taken zero i out = out
copy_loop w n taken (suc left) i out =
    let idx = (w.next + length w.values - (taken - i)) % length w.values in
    copy_loop w n taken left (i + 1) (set out (n - taken + i) (get_or w.values idx 0))

unfoldable pub copy_recent : SampleWindow → ℕ → List ℕ
unfolding copy_loop
copy_recent w n =
    if w.size == 0
    then replicate n 0
    else copy_loop w n (min n w.size) (min n w.size) 0 (replicate n 0)

-- `SignedWindow`
unfoldable pub new_signed : ℕ → SignedWindow
new_signed capacity = new_window (pos 0) capacity

unfoldable pub record_signed : SignedWindow → ℤ → SignedWindow
record_signed w value = slide (pos 0) w value

unfoldable pub reset_signed : SignedWindow → SignedWindow
reset_signed w = forget (pos 0) w

abbrev pub count_negative : List ℤ → ℕ
count_negative [] = 0
count_negative (v ∷ vs) = (if ltb_ℤ v (pos 0) then 1 else 0) + count_negative vs

module _ (D : Double) where
  open D use {Carrier, of_nat, of_int, plus, minus, times, over, sqrt, less, ceil, floor, to_nat}

  unfoldable pub values_at_quantiles : SampleWindow → List Carrier → List ℕ
  unfolding rank_of
  values_at_quantiles w quantiles =
      if w.size == 0
      then map (λ _. 0) quantiles
      else map (λ q. get_or (ordered 0 leb w) (rank_of D q w.size - 1) 0) quantiles

  unfoldable pub sample_at_quantile : SampleWindow → Carrier → ℕ
  unfolding values_at_quantiles
  sample_at_quantile w quantile = get_or (values_at_quantiles w (quantile ∷ [])) 0 0

  abbrev pub add_all : {A : Type 0} → (A → Carrier) → Carrier → List A → Carrier
  add_all f acc [] = acc
  add_all f acc (v ∷ vs) = add_all f (plus acc (f v)) vs

  unfoldable pub mean_samples : SampleWindow → Carrier
  mean_samples w =
      if w.size == 0
      then of_nat 0
      else over (add_all of_nat (of_nat 0) (take w.size w.values)) (of_nat w.size)

  unfoldable pub signed_at_quantile : SignedWindow → Carrier → ℤ
  unfolding rank_of
  signed_at_quantile w quantile =
      if w.size == 0
      then pos 0
      else get_or (ordered (pos 0) leb_ℤ w) (rank_of D quantile w.size - 1) (pos 0)

  -- `clamp_index` of `QuantileInterval`
  abbrev pub clamp_index : ℕ → Carrier → ℕ
  clamp_index size v =
      if less v (of_nat 0) then 0 else (if leb size (to_nat v) then size - 1 else to_nat v)

  -- `QuantileInterval`: whether it holds, and the two bounds
  unfoldable pub quantile_interval : SignedWindow → Carrier → Carrier → Bool × ℤ × ℤ
  quantile_interval w quantile z =
      let q = clamp_unit D quantile in
      let n = of_nat w.size in
      let centre = times n q in
      let spread = times z (sqrt (times (times n q) (minus (of_nat 1) q))) in
      let scratch = ordered (pos 0) leb_ℤ w in
      if ltb w.size 8 then (false, pos 0, pos 0) else (
        true,
        get_or scratch (clamp_index w.size (floor (minus centre spread))) (pos 0),
        get_or scratch (clamp_index w.size (ceil (plus centre spread))) (pos 0),
      )

  unfoldable pub mean_signed : SignedWindow → Carrier
  mean_signed w =
      if w.size == 0
      then of_nat 0
      else over (add_all of_int (of_nat 0) (take w.size w.values)) (of_nat w.size)

  unfoldable pub fraction_negative : SignedWindow → Carrier
  fraction_negative w =
      if w.size == 0
      then of_nat 0
      else over (of_nat (count_negative (take w.size w.values))) (of_nat w.size)
