-- ===== src/Report/Environment.antt =====
-- src/stats.cpp: what `ParseEnvironment` reads from a text of key=value lines, and when two texts are comparable.
use native.Mathlib.Omega.{arith}
use framewire.Prelude.{
  ℕ, zero, suc, ◌+◌, ◌≤◌, ◌<◌, ◌≡◌, refl, ap, ◌∙◌, inl, inr, Bool-cases, true, false, List, [], ◌∷◌,
  ◌++◌, length-append, ◌==◌, if◌then◌else◌, length,
}
use framewire.Prelude.Chars.{Bytes}
use framewire.Report.{put, before_byte, after_byte, has_byte, parse_lines, parse_environment}

-- One key=value line for each pair.
abbrev pub print : List (Bytes × Bytes) → Bytes
print [] = []
print ((k, v) ∷ pairs) = k ++ b'=' ∷ v ++ b'\n' ∷ print pairs

-- Keys hold no `=` and no line end, values no line end.
abbrev pub IsPrintable : List (Bytes × Bytes) → Type 0
IsPrintable [] = Unit
IsPrintable ((k, v) ∷ pairs) =
    (has_byte b'=' k ≡ false)
    × (has_byte b'\n' k ≡ false)
    × (has_byte b'\n' v ≡ false)
    × IsPrintable pairs

abbrev pub put_all : List (Bytes × Bytes) → List (Bytes × Bytes) → List (Bytes × Bytes)
put_all out [] = out
put_all out ((k, v) ∷ pairs) = put_all (put out k v) pairs

-- A text whose first `stop` stands behind `xs`.
split_at :
    (stop : ℕ) (xs ys : Bytes)
    → has_byte stop xs ≡ false
    → (before_byte stop (xs ++ stop ∷ ys) ≡ xs)
      × (after_byte stop (xs ++ stop ∷ ys) ≡ ys)
      × (has_byte stop (xs ++ stop ∷ ys) ≡ true)
unfolding before_byte after_byte has_byte
split_at stop [] ys h = let t : (stop == stop) ≡ true = ground arith in rw t (refl, refl, refl)
split_at stop (x ∷ xs) ys h = elim (Bool-cases (x == stop)) [
  | inl e ↦ let h' : true ≡ false = rw e at h in absurd (cc h')
  | inr e ↦
      let h' : has_byte stop xs ≡ false = rw e at h in
      let (b, a, s) = split_at stop xs ys h' in rw e (ap (◌∷◌ x) b, a, s)
]

has_byte-append :
    (stop : ℕ) (xs ys : Bytes)
    → has_byte stop xs ≡ false
    → has_byte stop (xs ++ ys) ≡ has_byte stop ys
unfolding has_byte
has_byte-append stop [] ys h = refl
has_byte-append stop (x ∷ xs) ys h = elim (Bool-cases (x == stop)) [
  | inl e ↦ let h' : true ≡ false = rw e at h in absurd (cc h')
  | inr e ↦ let h' : has_byte stop xs ≡ false = rw e at h in rw e (has_byte-append stop xs ys h')
]

one_line :
    (k v : Bytes)
    → has_byte b'\n' k ≡ false
    → has_byte b'\n' v ≡ false
    → has_byte b'\n' (k ++ b'=' ∷ v) ≡ false
unfolding has_byte
one_line k v hk hv = has_byte-append b'\n' k (b'=' ∷ v) hk ∙ hv

parse_line :
    (fuel : ℕ) (text : Bytes) (out : List (Bytes × Bytes))
    → 0 < length text
    → let line = before_byte b'\n' text in
      parse_lines (suc fuel) text out
      ≡ parse_lines fuel (after_byte b'\n' text) (
          if has_byte b'=' line
          then put out (before_byte b'=' line) (after_byte b'=' line)
          else out)
unfolding parse_lines
parse_line fuel [] out h = absurd (omega arith)
parse_line fuel (b ∷ bs) out h = refl

parse_pair :
    (fuel : ℕ) (k v rest : Bytes) (out : List (Bytes × Bytes))
    → has_byte b'=' k ≡ false
    → has_byte b'\n' k ≡ false
    → has_byte b'\n' v ≡ false
    → parse_lines (suc fuel) (k ++ b'=' ∷ v ++ b'\n' ∷ rest) out
      ≡ parse_lines fuel rest (put out k v)
parse_pair fuel k v rest out he hk hv =
    let (line, behind, _) = split_at b'\n' (k ++ b'=' ∷ v) rest (one_line k v hk hv) in
    let (key, value, test) = split_at b'=' k v he in
    let some_text : 0 < length ((k ++ b'=' ∷ v) ++ b'\n' ∷ rest) =
      omega (arith, length-append (k ++ b'=' ∷ v) (b'\n' ∷ rest)) in
    parse_line fuel ((k ++ b'=' ∷ v) ++ b'\n' ∷ rest) out some_text
    ∙ rw (line, behind, test, key, value) refl

text_length :
    (k v : Bytes) (pairs : List (Bytes × Bytes))
    → length (print ((k, v) ∷ pairs)) ≡ length k + length v + length (print pairs) + 2
text_length k v pairs =
    omega (arith, length-append (k ++ b'=' ∷ v) (b'\n' ∷ print pairs), length-append k (b'=' ∷ v))

parse_lines-print :
    (pairs out : List (Bytes × Bytes)) (fuel : ℕ)
    → IsPrintable pairs
    → length (print pairs) ≤ fuel
    → parse_lines fuel (print pairs) out ≡ put_all out pairs
unfolding parse_lines
parse_lines-print [] out zero p h = refl
parse_lines-print [] out (suc fuel) p h = refl
parse_lines-print ((k, v) ∷ pairs) out zero p h = absurd (omega (arith, text_length k v pairs))
parse_lines-print ((k, v) ∷ pairs) out (suc fuel) (he, hk, hv, p) h =
    parse_pair fuel k v (print pairs) out he hk hv
    ∙ parse_lines-print pairs (put out k v) fuel p (omega (arith, text_length k v pairs))

-- `ParseEnvironment` reads a text of key=value lines back as the assignments it lists, in order, where keys hold
-- neither `=` nor a line end and values no line end.
pub parse_environment-print :
    (pairs : List (Bytes × Bytes))
    → IsPrintable pairs
    → parse_environment (print pairs) ≡ put_all [] pairs
unfolding parse_environment
parse_environment-print pairs p = parse_lines-print pairs [] (length (print pairs)) p (omega arith)
