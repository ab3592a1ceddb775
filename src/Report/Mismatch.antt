-- ===== src/Report/Mismatch.antt =====
-- src/stats.cpp: when `EnvironmentMismatches` reports nothing.
use native.Mathlib.Omega.{arith}
use framewire.Prelude.{
  ℕ, ◌≡◌, refl, sym, ap, ap₂, ◌∙◌, ◌↔◌, inl, inr, Bool-cases, true, false, List, [], ◌∷◌, ◌++◌,
  Option, none, some, ◌==◌, ==_iff,
}
use framewire.Prelude.Chars.{Bytes}
use framewire.Report.{
  same_bytes, find, parse_environment, critical_keys, mismatch, compare_key, compare_keys,
  environment_mismatches,
}

same_bytes→eq : (xs ys : Bytes) → same_bytes xs ys ≡ true → xs ≡ ys
same_bytes→eq [] [] e = refl
same_bytes→eq [] (y ∷ ys) e = absurd (cc e)
same_bytes→eq (x ∷ xs) [] e = absurd (cc e)
same_bytes→eq (x ∷ xs) (y ∷ ys) e = elim (Bool-cases (x == y)) [
  | inl t ↦
      let e' : same_bytes xs ys ≡ true = rw t at e in
      ap₂ ◌∷◌ ((==_iff x y).0 t) (same_bytes→eq xs ys e')
  | inr t ↦ let e' : false ≡ true = rw t at e in absurd (cc e')
]

same_bytes_refl : (xs : Bytes) → same_bytes xs xs ≡ true
same_bytes_refl [] = refl
same_bytes_refl (x ∷ xs) = let t : (x == x) ≡ true = ground arith in rw t (same_bytes_refl xs)

-- Where both are there, they are the same.
abbrev pub Agree : Option Bytes → Option Bytes → Type 0
Agree x y = (u v : Bytes) → x ≡ some u → y ≡ some v → u ≡ v

compare_key-Agree : (x y : Option Bytes) (key : Bytes) → (compare_key x y key ≡ []) ↔ Agree x y
unfolding compare_key
compare_key-Agree none y key = (λ e u v p q. absurd (cc p), λ a. refl)
compare_key-Agree (some x) none key = (λ e u v p q. absurd (cc q), λ a. refl)
compare_key-Agree (some x) (some y) key = elim (Bool-cases (same_bytes x y)) [
  | inl t ↦ (λ e u v p q. cc (same_bytes→eq x y t, p, q), λ a. rw t refl)
  | inr t ↦ (
    λ e. let e' : mismatch key x y ∷ [] ≡ [] = rw t at e in absurd (cc e'),
    λ a. absurd (cc (t, sym (ap (same_bytes x) (a x y refl refl)) ∙ same_bytes_refl x)),
  )
]

-- The two environments agree on every one of the keys.
abbrev pub AllAgree : List (Bytes × Bytes) → List (Bytes × Bytes) → List Bytes → Type 0
AllAgree ea eb [] = Unit
AllAgree ea eb (key ∷ keys) = Agree (find ea key) (find eb key) × AllAgree ea eb keys

append-nil_parts : {A : Type 0} (xs ys : List A) → xs ++ ys ≡ [] → (xs ≡ []) × (ys ≡ [])
append-nil_parts [] ys e = (refl, e)
append-nil_parts (x ∷ xs) ys e = absurd (cc e)

compare_keys-AllAgree :
    (ea eb : List (Bytes × Bytes)) (keys : List Bytes)
    → (compare_keys ea eb keys ≡ []) ↔ AllAgree ea eb keys
unfolding compare_keys
compare_keys-AllAgree ea eb [] = (λ e. tt, λ a. refl)
compare_keys-AllAgree ea eb (key ∷ keys) = (
  λ e.
      let (here, rest) =
        append-nil_parts (compare_key (find ea key) (find eb key) key) (compare_keys ea eb keys)
          e in
      (
        (compare_key-Agree (find ea key) (find eb key) key).0 here,
        (compare_keys-AllAgree ea eb keys).0 rest,
      ),
  λ (a, rest).
      ap₂ ◌++◌ ((compare_key-Agree (find ea key) (find eb key) key).1 a)
        ((compare_keys-AllAgree ea eb keys).1 rest),
)

-- For two environments that are not empty, no mismatch is reported exactly if each critical key that both of them
-- have has the same value in both.
pub environment_mismatches-AllAgree :
    (x y : ℕ) (a b : Bytes)
    → (environment_mismatches (x ∷ a) (y ∷ b) ≡ [])
      ↔ AllAgree (parse_environment (x ∷ a)) (parse_environment (y ∷ b)) critical_keys
unfolding environment_mismatches
environment_mismatches-AllAgree x y a b =
    compare_keys-AllAgree (parse_environment (x ∷ a)) (parse_environment (y ∷ b)) critical_keys
