-- ===== src/Window/Sort.antt =====
-- src/histogram.cpp: the sorted scratch copy of a window, and its order statistics.
use framewire.Prelude.{
  ℕ, zero, suc, ◌+◌, ◌≤◌, ◌<◌, ◌≡◌, refl, ap, ◌∙◌, arith, ◌⊎◌, inl, inr, Bool, List, [], ◌∷◌, true,
  false, not, if◌then◌else◌, length, get_or, Bool-cases,
}
use framewire.Window.{insert, sort}

module _ {ℓ} {A : Type ℓ} where
  -- How many elements pass the test.
  abbrev pub count : (A → Bool) → List A → ℕ
  count p [] = 0
  count p (x ∷ xs) = (if p x then 1 else 0) + count p xs

module _ {ℓ} {A : Type ℓ} (le : A → A → Bool) where
  count-insert :
      (p : A → Bool) (x : A) (ys : List A)
      → count p (insert le x ys) ≡ (if p x then 1 else 0) + count p ys
  count-insert p x [] = refl
  count-insert p x (y ∷ ys) = ground (arith, count-insert p x ys)

  pub count-sort : (p : A → Bool) (xs : List A) → count p (sort le xs) ≡ count p xs
  count-sort p [] = refl
  count-sort p (x ∷ xs) =
      count-insert p x (sort le xs) ∙ ap (λ (t : ℕ). (if p x then 1 else 0) + t) (count-sort p xs)

  length-insert : (x : A) (ys : List A) → length (insert le x ys) ≡ suc (length ys)
  length-insert x [] = refl
  length-insert x (y ∷ ys) = ground (arith, length-insert x ys)

  pub length-sort : (xs : List A) → length (sort le xs) ≡ length xs
  length-sort [] = refl
  length-sort (x ∷ xs) = length-insert x (sort le xs) ∙ ap suc (length-sort xs)

  -- Every element is at least `v`.
  abbrev pub AllAbove : A → List A → Type 0
  AllAbove v [] = Unit
  AllAbove v (x ∷ xs) = (le v x ≡ true) × AllAbove v xs

  abbrev pub IsSorted : List A → Type 0
  IsSorted [] = Unit
  IsSorted (x ∷ xs) = AllAbove x xs × IsSorted xs

  module _ (total : (x y : A) → (le x y ≡ true) ⊎ (le y x ≡ true))
      (trans : (x y z : A) → le x y ≡ true → le y z ≡ true → le x z ≡ true) where
    flipped : (x y : A) → le x y ≡ false → le y x ≡ true
    flipped x y e = elim (total x y) [ inl t ↦ absurd (cc (t, e)) | inr t ↦ t ]

    self : (x : A) → le x x ≡ true
    self x = elim (total x x) [ inl t ↦ t | inr t ↦ t ]

    AllAbove-below : (v x : A) (ys : List A) → le v x ≡ true → AllAbove x ys → AllAbove v ys
    AllAbove-below v x [] h a = tt
    AllAbove-below v x (y ∷ ys) h (first, rest) =
        (trans v x y h first, AllAbove-below v x ys h rest)

    AllAbove-insert :
        (v x : A) (ys : List A) → le v x ≡ true → AllAbove v ys → AllAbove v (insert le x ys)
    AllAbove-insert v x [] h a = (h, tt)
    AllAbove-insert v x (y ∷ ys) h (first, rest) = elim (Bool-cases (le x y)) [
      | inl e ↦ rw e (h, (first, rest))
      | inr e ↦ rw e (first, AllAbove-insert v x ys h rest)
    ]

    insert-IsSorted : (x : A) (ys : List A) → IsSorted ys → IsSorted (insert le x ys)
    insert-IsSorted x [] s = (tt, tt)
    insert-IsSorted x (y ∷ ys) (above, rest) = elim (Bool-cases (le x y)) [
      | inl e ↦ rw e ((e, AllAbove-below x y ys e above), (above, rest))
      | inr e ↦ rw e (AllAbove-insert y x ys (flipped x y e) above, insert-IsSorted x ys rest)
    ]

    pub sort-IsSorted : (xs : List A) → IsSorted (sort le xs)
    sort-IsSorted [] = tt
    sort-IsSorted (x ∷ xs) = insert-IsSorted x (sort le xs) (sort-IsSorted xs)

    none_below : (v : A) (xs : List A) → AllAbove v xs → count (λ x. not (le v x)) xs ≡ 0
    none_below v [] a = refl
    none_below v (x ∷ xs) (first, rest) = rw first (omega (arith, none_below v xs rest))

    AllAbove-get :
        (v d : A) (xs : List A) (i : ℕ)
        → AllAbove v xs
        → i < length xs
        → le v (get_or xs i d) ≡ true
    AllAbove-get v d [] i a h = absurd (omega arith)
    AllAbove-get v d (x ∷ xs) zero (first, rest) h = first
    AllAbove-get v d (x ∷ xs) (suc i) (first, rest) h = AllAbove-get v d xs i rest (omega arith)

    -- In a sorted list, at most `i` elements are below the one at place `i`, and more than `i` are not above it.
    pub IsSorted-rank :
        (d : A) (xs : List A) (i : ℕ)
        → IsSorted xs
        → i < length xs
        → (count (λ x. not (le (get_or xs i d) x)) xs ≤ i)
          × (i < count (λ x. le x (get_or xs i d)) xs)
    IsSorted-rank d [] i s h = absurd (omega arith)
    IsSorted-rank d (x ∷ xs) zero (above, rest) h =
        (rw (self x) (omega (arith, none_below x xs above)), rw (self x) (omega arith))
    IsSorted-rank d (x ∷ xs) (suc i) (above, rest) h =
        let (few, many) = IsSorted-rank d xs i rest (omega arith) in
        let under : le x (get_or xs i d) ≡ true = AllAbove-get x d xs i above (omega arith) in
        (ground (arith, few), rw under (omega (arith, many)))
