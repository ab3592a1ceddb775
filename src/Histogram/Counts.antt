-- ===== src/Histogram/Counts.antt =====
-- src/histogram.cpp: sums over the counts, and the loops of `Merge` and `ValueAtQuantile` over them.
use framewire.Prelude.{
  ℕ, zero, suc, ◌+◌, ◌-◌, ◌%◌, ◌^◌, ◌≤◌, ◌<◌, ◌≡◌, refl, ap, ◌∙◌, arith, List, [], ◌∷◌, ◌++◌, some,
  true, false, ltb, leb, ◌==◌, if◌then◌else◌, length, take, set, get_or, replicate, map, min,
  dec_lt,
}
use framewire.Histogram.{Layout, find_slot, sum, add_counts, counts_index}

-- The slot, of `n` slots, that a sample counts in.
abbrev pub slot_of : Layout → ℕ → ℕ → ℕ
slot_of l n sample = min (counts_index l (if sample == 0 then 1 else sample)) (n - 1)

-- How many of the samples count in a slot before `i`.
abbrev pub before : Layout → ℕ → ℕ → List ℕ → ℕ
before l n i [] = 0
before l n i (x ∷ xs) = (if ltb (slot_of l n x) i then 1 else 0) + before l n i xs

pub before-append :
    (l : Layout) (n i : ℕ) (xs ys : List ℕ)
    → before l n i (xs ++ ys) ≡ before l n i xs + before l n i ys
before-append l n i [] ys = omega arith
before-append l n i (x ∷ xs) ys = omega (arith, before-append l n i xs ys)

pub before_le : (l : Layout) (n i : ℕ) (xs : List ℕ) → before l n i xs ≤ length xs
before_le l n i [] = omega arith
before_le l n i (x ∷ xs) = ground (arith, before_le l n i xs)

pub before_all : (l : Layout) (n : ℕ) (xs : List ℕ) → 0 < n → before l n n xs ≡ length xs
before_all l n [] h = refl
before_all l n (x ∷ xs) h = ground (arith, before_all l n xs h)

pub get_or_le : (cs : List ℕ) (k : ℕ) → get_or cs k 0 ≤ sum cs
get_or_le [] k = omega arith
get_or_le (c ∷ cs) zero = omega arith
get_or_le (c ∷ cs) (suc k) = omega (arith, get_or_le cs k)

-- One more in slot k is one more in every prefix that reaches beyond k.
pub sum-take-set :
    (cs : List ℕ) (i k : ℕ)
    → k < length cs
    → sum (take i (set cs k (get_or cs k 0 + 1))) ≡ (if ltb k i then 1 else 0) + sum (take i cs)
sum-take-set [] i k h = absurd (omega arith)
sum-take-set (c ∷ cs) zero k h = ground arith
sum-take-set (c ∷ cs) (suc i) zero h = ground arith
sum-take-set (c ∷ cs) (suc i) (suc k) h = ground (arith, sum-take-set cs i k (omega arith))

pub take_all : (cs : List ℕ) → take (length cs) cs ≡ cs
take_all [] = refl
take_all (c ∷ cs) = ap (◌∷◌ c) (take_all cs)

pub sum-take_le : (cs : List ℕ) (i : ℕ) → sum (take i cs) ≤ sum cs
sum-take_le [] zero = omega arith
sum-take_le [] (suc i) = omega arith
sum-take_le (c ∷ cs) zero = omega arith
sum-take_le (c ∷ cs) (suc i) = omega (arith, sum-take_le cs i)

pub sum-take-zeros : (n i : ℕ) → sum (take i (replicate n 0)) ≡ 0
sum-take-zeros zero zero = refl
sum-take-zeros zero (suc i) = refl
sum-take-zeros (suc n) zero = refl
sum-take-zeros (suc n) (suc i) = omega (arith, sum-take-zeros n i)

pub map_zero : (cs : List ℕ) → map {B = ℕ} (λ _. 0) cs ≡ replicate (length cs) 0
map_zero [] = refl
map_zero (c ∷ cs) = ap (◌∷◌ 0) (map_zero cs)

pub sum-take-add_counts :
    (cs ds : List ℕ)
    → length cs ≡ length ds
    → sum cs + sum ds < 2 ^ 64
    → (i : ℕ) → sum (take i (add_counts cs ds)) ≡ sum (take i cs) + sum (take i ds)
unfolding add_counts
sum-take-add_counts [] [] e h zero = refl
sum-take-add_counts [] [] e h (suc i) = refl
sum-take-add_counts [] (d ∷ ds) e h i = absurd (omega arith)
sum-take-add_counts (c ∷ cs) [] e h i = absurd (omega arith)
sum-take-add_counts (c ∷ cs) (d ∷ ds) e h zero = refl
sum-take-add_counts (c ∷ cs) (d ∷ ds) e h (suc i) =
    omega (arith, sum-take-add_counts cs ds (omega arith) (omega arith) i)

pub length-add_counts : (cs ds : List ℕ) → length (add_counts cs ds) ≡ length cs
unfolding add_counts
length-add_counts [] ds = refl
length-add_counts (c ∷ cs) [] = refl
length-add_counts (c ∷ cs) (d ∷ ds) = ap suc (length-add_counts cs ds)

-- The loop of `ValueAtQuantile` stops at the slot where the running count reaches what is wanted.
pub find_slot-reaches :
    (cs : List ℕ) (k seen wanted : ℕ)
    → seen + sum cs < 2 ^ 64
    → seen < wanted
    → wanted ≤ seen + sum cs
    → (i : ℕ) × (find_slot cs k seen wanted ≡ some (k + i))
      × (seen + sum (take i cs) < wanted)
      × (wanted ≤ seen + sum (take (suc i) cs))
unfolding find_slot
find_slot-reaches [] k seen wanted small low high = absurd (omega arith)
find_slot-reaches (c ∷ cs) k seen wanted small low high =
    let no_wrap : (seen + c) % 2 ^ 64 ≡ seen + c = omega arith in
    rw no_wrap (elim (dec_lt (seen + c) wanted) [
      | yes lt ↦
          let test : leb wanted (seen + c) ≡ false = ground arith in
          let (i, found, under, reach) =
            find_slot-reaches cs (k + 1) (seen + c) wanted (omega arith) lt (omega arith) in
          rw test (suc i, found ∙ ap some (omega arith), omega arith, omega arith)
      | no ge ↦
          let test : leb wanted (seen + c) ≡ true = ground arith in
          rw test (0, ap some (omega arith), omega arith, omega arith)
    ])
