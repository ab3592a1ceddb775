-- ===== src/Json/Links/Same.antt =====
-- src/json.cpp: strings and literals leave the node table alone.
use framewire.Prelude.{
  ℕ, zero, suc, ◌≡◌, inl, inr, Option-cases, Bool, true, false, not, List, [], ◌∷◌, ltb, ◌==◌,
  if◌then◌else◌, length, drop,
}
use framewire.Prelude.Chars.{Bytes}
use framewire.Prelude.Result.{Result, ok, err, ◌>>=◌}
use framewire.Json.{JsonNode, Reader, Failure, fail, advance, push_byte, starts_with, parse_literal}
use framewire.Json.Text.{
  hex_digits, utf8, unescape, append_utf8, join_surrogates, unicode_escape, escape, string_loop,
  string_round, parse_string, or_replacement,
}

-- What a call gives back where it succeeds.
abbrev pub On : {A : Type 0} → (A → Type 0) → Result Failure A → Type 0
On P (ok a) = P a
On P (err f) = Unit

module _ {A : Type 0} (P : A → Type 0) where
  pub On-bind :
      {B : Type 0} (Q : B → Type 0) (res : Result Failure B) (f : B → Result Failure A)
      → On Q res
      → ((b : B) → Q b → On P (f b))
      → On P (res >>= f)
  On-bind Q (ok b) f h k = k b h
  On-bind Q (err e) f h k = tt

  pub On-if : (b : Bool) (x y : Result Failure A) → On P x → On P y → On P (if b then x else y)
  On-if true x y hx hy = hx
  On-if false x y hx hy = hy

-- The table is left as it was.
module _ {N : Type 0} (nodes : List (JsonNode N)) where
  abbrev pub Same : Reader N → Type 0
  Same r = r.nodes ≡ nodes

  abbrev pub Same₂ : (ℕ × ℕ) × Reader N → Type 0
  Same₂ (key, r) = r.nodes ≡ nodes

  pub append_utf8-Same : (cp : ℕ) (r : Reader N) → Same r → On Same (append_utf8 cp r)
  unfolding append_utf8 fail
  append_utf8-Same cp r h = elim (Option-cases (utf8 cp)) [
    | inl e ↦ rw (append_utf8, e) tt
    | inr (bytes, e) ↦ rw (append_utf8, e) h
  ]

  pub unicode_escape-Same : (r : Reader N) → Same r → On Same (unicode_escape r)
  unfolding unicode_escape fail advance
  unicode_escape-Same r h = elim (Option-cases (hex_digits 4 0 r.rest)) [
    | inl bad ↦ On-if Same (ltb (length r.rest) 4) _ _ tt (rw bad tt)
    | inr (unit, good) ↦
        let (cp, more) = join_surrogates unit (drop 4 r.rest) in
        On-if Same (ltb (length r.rest) 4) _ _ tt
          (rw good (append_utf8-Same (or_replacement cp) (advance more (advance 4 r)) h))
  ]

  pub escape-Same : (r : Reader N) (text : Bytes) → Same r → On Same (escape r text)
  unfolding escape fail advance push_byte
  escape-Same r [] h = tt
  escape-Same r (e ∷ es) h =
      On-if Same (e == b'u') _ _ (unicode_escape-Same (advance 1 r) h)
        (elim (Option-cases (unescape e)) [ inl bad ↦ rw bad tt | inr (c, good) ↦ rw good h ])

  pub string_round-Same :
      (more : Reader N → Result Failure ((ℕ × ℕ) × Reader N)) (start : ℕ) (r : Reader N)
      (text : Bytes)
      → ((s : Reader N) → Same s → On Same₂ (more s))
      → Same r
      → On Same₂ (string_round more start r text)
  unfolding fail advance push_byte
  string_round-Same more start r [] k h = tt
  string_round-Same more start r (c ∷ cs) k h = On-if Same₂ (c == b'"') _ _ h (
      On-if Same₂ (not (c == b'\\')) _ _
        (On-if Same₂ (ltb c 0x20) _ _ tt (k (advance 1 (push_byte c r)) h))
        (On-bind Same₂ Same (escape (advance 1 r) cs) more (escape-Same (advance 1 r) cs h) k))

  pub string_loop-Same :
      (fuel start : ℕ) (r : Reader N) → Same r → On Same₂ (string_loop fuel start r)
  unfolding string_loop fail advance push_byte
  string_loop-Same zero start r h = tt
  string_loop-Same (suc fuel) start r h =
      string_round-Same (string_loop fuel start) start r r.rest (string_loop-Same fuel start) h

  pub parse_string-Same : (r : Reader N) → Same r → On Same₂ (parse_string r)
  unfolding parse_string advance
  parse_string-Same r h = let s = advance 1 r in string_loop-Same (suc (length s.rest)) _ s h

  pub parse_literal-Same : (word : Bytes) (r : Reader N) → Same r → On Same (parse_literal word r)
  unfolding parse_literal fail advance
  parse_literal-Same word r h = On-if Same (starts_with word r.rest) _ _ h tt
