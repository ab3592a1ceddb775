-- ===== src/Producer/Totals.antt =====
-- src/producer_main.cpp: what `ReadPasses` writes, against the list of the passes' times.
use Prim.Native.Nat.{bit_or}
use native.Mathlib.Omega.{arith}
use framewire.Prelude.{
  ℕ, zero, suc, ◌+◌, ◌-◌, ◌%◌, ◌^◌, ◌≤◌, ◌<◌, ◌≡◌, refl, sym, ap, ◌∙◌, inl, inr, Bool-cases, List,
  [], ◌∷◌, ◌++◌, Option, none, some, ltb, if◌then◌else◌, length, min, map, set, take, replicate,
  length-set, append_assoc, append-nil, tests, ltb→ge,
}
use framewire.Prelude.Chars.{Bytes}
use framewire.Telemetry.{TelemetryRecord, max_passes}
use framewire.Json.{Numbers, Reader}
use framewire.Json.Values.{JsonValue, get_first_child, get_next_sibling}
use framewire.Producer.Passes.{
  PassList, flag_pass_overflow, pass_fields, add_pass, pass_loop, read_passes,
}

abbrev pub sum : List ℕ → ℕ
sum [] = 0
sum (v ∷ vs) = v + sum vs

-- A time as a record stores it.
abbrev pub capped : ℕ → ℕ
capped v = min v (2 ^ 32 - 1)

ltb-min : (n : ℕ) → ltb (min max_passes n) n ≡ ltb max_passes n
ltb-min n = ground arith

take-set : (xs : List ℕ) (i v : ℕ) → i < length xs → take (i + 1) (set xs i v) ≡ take i xs ++ v ∷ []
take-set [] i v h = absurd (omega arith)
take-set (x ∷ xs) zero v h = refl
take-set (x ∷ xs) (suc i) v h =
    let e : suc i + 1 ≡ suc (i + 1) = omega arith in
    rw e (ap (◌∷◌ x) (take-set xs i v (omega arith)))

abbrev add_all : PassList → List (ℕ × Bytes) → PassList
add_all l [] = l
add_all l (p ∷ ps) = add_all (add_pass l p) ps

-- What passes with the times `vs` add to `l`.
record Adds (l : PassList) (vs : List ℕ) (l' : PassList) : Type 0 where
  pub sums : l'.total % 2 ^ 64 ≡ (l.total + sum vs) % 2 ^ 64
  pub sees : l'.seen ≡ l.seen + length vs
  pub counts : l'.count ≡ min max_passes (l.count + length vs)
  pub keeps : length l'.pass_ns ≡ max_passes
  pub stores :
      take l'.count l'.pass_ns
      ≡ take l.count l.pass_ns ++ map capped (take (max_passes - l.count) vs)

take-none : {A : Type 0} (n : ℕ) (xs : List A) → n ≡ 0 → take n xs ≡ []
take-none zero xs h = refl
take-none (suc n) xs h = absurd (omega arith)

take-none-left : (n : ℕ) → take {A = ℕ} n [] ≡ []
take-none-left zero = refl
take-none-left (suc n) = refl

take-first : (n v : ℕ) (vs : List ℕ) → 0 < n → take n (v ∷ vs) ≡ v ∷ take (n - 1) vs
take-first zero v vs h = absurd (omega arith)
take-first (suc n) v vs h = let e : suc n - 1 ≡ n = omega arith in rw e refl

-- One more pass in front.
add_pass-Adds :
    (l l' : PassList) (v : ℕ) (name : Bytes) (vs : List ℕ)
    → l.seen + 1 < 2 ^ 32
    → l.count ≤ max_passes
    → length l.pass_ns ≡ max_passes
    → Adds (add_pass l (v, name)) vs l'
    → Adds l (v ∷ vs) l'
unfolding add_pass
add_pass-Adds l l' v name vs hs hc hl h = elim (Bool-cases (ltb l.count max_passes)) [
  | inl e ↦
      let lt : l.count < max_passes = omega tests in
      let h' : Adds _ vs l' = rw (add_pass, e) at h in
      let room : max_passes - l.count - 1 ≡ max_passes - (l.count + 1) = omega arith in
      record {
        sums = omega (arith, h'.sums);
        sees = omega (arith, h'.sees);
        counts = omega (arith, h'.counts);
        keeps = h'.keeps;
        stores =
            h'.stores
            ∙ rw
                (
                  take-set l.pass_ns l.count (capped v) (omega arith),
                  take-first (max_passes - l.count) v vs (omega arith),
                  room,
                )
                (append_assoc (take l.count l.pass_ns) (capped v ∷ []) _);
      }
  | inr e ↦
      let full : l.count ≡ max_passes = omega (arith, ltb→ge l.count max_passes e) in
      let h' : Adds _ vs l' = rw (add_pass, e) at h in
      let none_left : max_passes - l.count ≡ 0 = omega arith in
      record {
        sums = omega (arith, h'.sums);
        sees = omega (arith, h'.sees);
        counts = omega (arith, h'.counts);
        keeps = h'.keeps;
        stores =
            h'.stores
            ∙ rw
                (
                  take-none (max_passes - l.count) vs none_left,
                  take-none (max_passes - l.count) (v ∷ vs) none_left,
                )
                refl;
      }
]

-- What the loop needs of its locals in each round, where `n` passes are still to come.
abbrev Fits : ℕ → PassList → Type 0
Fits n l =
    (l.seen + n < 2 ^ 32)
    × (l.count ≤ max_passes)
    × (length l.pass_ns ≡ max_passes)
    × (l.total < 2 ^ 64)

add_pass-Fits : (l : PassList) (p : ℕ × Bytes) (n : ℕ) → Fits (suc n) l → Fits n (add_pass l p)
unfolding add_pass
add_pass-Fits l (v, name) n (hs, hc, hl, ht) = elim (Bool-cases (ltb l.count max_passes)) [
  | inl e ↦
      let lt : l.count < max_passes = omega tests in
      rw (add_pass, e)
        (omega arith, omega arith, length-set l.pass_ns l.count (capped v) ∙ hl, omega arith)
  | inr e ↦ rw (add_pass, e) (omega arith, hc, hl, omega arith)
]

add_all-Adds :
    (ps : List (ℕ × Bytes)) (l : PassList)
    → Fits (length ps) l
    → Adds l (map (λ p. p.0) ps) (add_all l ps)
add_all-Adds [] l (hs, hc, hl, ht) = record {
  sums = omega arith;
  sees = omega arith;
  counts = omega arith;
  keeps = hl;
  stores = rw (take-none-left (max_passes - l.count)) (sym (append-nil (take l.count l.pass_ns)));
}
add_all-Adds ((v, name) ∷ ps) l h =
    add_pass-Adds l _ v name (map (λ p. p.0) ps) (omega arith) h.1 h.2
      (add_all-Adds ps (add_pass l (v, name)) (add_pass-Fits l (v, name) (length ps) h))

length-map : (ps : List (ℕ × Bytes)) → length (map (λ p. p.0) ps) ≡ length ps
length-map [] = refl
length-map (p ∷ ps) = ap suc (length-map ps)

add_all-small :
    (ps : List (ℕ × Bytes)) (l : PassList) → Fits (length ps) l → (add_all l ps).total < 2 ^ 64
add_all-small [] l h = h.3
add_all-small (p ∷ ps) l h = add_all-small ps (add_pass l p) (add_pass-Fits l p (length ps) h)

-- What `ReadPasses` makes of a record and of passes with the times `vs`.
abbrev pub Reports : List ℕ → TelemetryRecord → TelemetryRecord × List Bytes × ℕ → Type 0
Reports vs rec (rec', names, seen) =
    (seen ≡ length vs)
    × (rec'.gpu_total_ns ≡ sum vs % 2 ^ 64)
    × (rec'.pass_count ≡ min max_passes (length vs))
    × (rec'.pass_ns
        ≡ map capped (take max_passes vs) ++ replicate (max_passes - min max_passes (length vs)) 0)
    × (rec'.flags
        ≡ (if ltb max_passes (length vs) then bit_or rec.flags flag_pass_overflow else rec.flags))

module _ (F : Numbers) (doc : Reader F.Number) where
  -- The passes that the loop visits, from one on.
  unfoldable pub siblings : ℕ → Option ℕ → List (ℕ × Bytes)
  unfolding get_next_sibling pass_fields
  siblings fuel none = []
  siblings zero (some p) = []
  siblings (suc fuel) (some p) =
      pass_fields F doc p ∷ siblings fuel (get_next_sibling F doc (some p))

  pass_loop-siblings :
      (fuel : ℕ) (c : Option ℕ) (l : PassList)
      → pass_loop F doc fuel c l ≡ add_all l (siblings fuel c)
  unfolding pass_loop siblings
  pass_loop-siblings fuel none l = refl
  pass_loop-siblings zero (some p) l = refl
  pass_loop-siblings (suc fuel) (some p) l =
      pass_loop-siblings fuel (get_next_sibling F doc (some p)) (add_pass l (pass_fields F doc p))

  -- The times of the passes in a list, as the loop reads them.
  abbrev pub times : JsonValue → List ℕ
  times passes = map (λ p. p.0) (siblings (length doc.nodes) (get_first_child F doc passes))

  -- `ReadPasses` reports every pass of the list: it returns how many there are, and the total is the sum of all their
  -- times, modulo 2^64, also past the 32 that the record can hold; the record holds the first 32 times, cut at 2^32 - 1,
  -- zeros behind them, and their number; and the overflow flag is set exactly where there are more than 32. For a
  -- record with 32 places, and fewer than 2^32 passes.
  pub read_passes-totals :
      (passes : JsonValue) (rec : TelemetryRecord)
      → length rec.pass_ns ≡ max_passes
      → length (times passes) < 2 ^ 32
      → Reports (times passes) rec (read_passes F doc passes rec)
  unfolding read_passes
  read_passes-totals passes rec hl hs =
      let ps = siblings (length doc.nodes) (get_first_child F doc passes) in
      let start : PassList = record {
        count = 0;
        total = 0;
        seen = 0;
        pass_ns = rec.pass_ns;
        names = [];
      } in
      let fits : Fits (length ps) start =
        (omega (arith, hs, length-map ps), omega arith, hl, omega arith) in
      let a = add_all-Adds ps start fits in
      let small = add_all-small ps start fits in
      let all : 0 + length (times passes) ≡ length (times passes) = omega arith in
      let kept : (add_all start ps).count ≡ min max_passes (length (times passes)) =
        rw all at a.counts in
      rw (pass_loop-siblings (length doc.nodes) (get_first_child F doc passes) start) (
        omega (arith, a.sees),
        omega (arith, a.sums, small),
        omega (arith, kept),
        rw (a.stores, kept) refl,
        rw (kept, a.sees, all)
            (ap (λ b. if b then bit_or rec.flags flag_pass_overflow else rec.flags)
              (ltb-min (length (times passes)))),
      )
