-- ===== src/Json/Rounds.antt =====
-- src/json.cpp: what the steps of the reader leave of the input. Every loop takes a byte in each round, so the rounds
-- that the model allows are enough.
pub mod Number
pub mod Nesting
use native.Mathlib.Omega.{arith}
use framewire.Prelude.{
  ℕ, zero, suc, ◌+◌, ◌-◌, ◌*◌, ◌/◌, ◌%◌, ◌^◌, ◌≤◌, ◌<◌, ◌≡◌, ◌≢◌, refl, sym, ap, subst, ◌∙◌, inl,
  inr, Bool-cases, Option-cases, Bool, true, false, not, ◌&&◌, ◌||◌, List, [], ◌∷◌, ◌++◌, Option,
  none, some, ltb, leb, ◌==◌, if◌then◌else◌, length, length-append, length-drop, drop, take,
  append_assoc, append-nil, tests,
}
use framewire.Prelude.Chars.{Bytes, codes}
use framewire.Prelude.Result.{Result, ok, err, ◌>>=◌}
use framewire.Json.{
  Numbers, JsonType, json_null, json_bool, json_number, json_string, json_array, json_object,
  JsonNode, Reader, Failure, Message, fail, advance, push_byte, at_byte, out_of_rounds,
  whitespace_run, skip_whitespace, starts_with, parse_literal, new_node,
}
use framewire.Json.Text.{
  is_digit, hex_digits, utf8, unescape, append_utf8, join_surrogates, unicode_escape, escape,
  string_loop, string_round, parse_string, or_replacement,
}
use framewire.Json.Parse.{
  skip_digits, skip_fraction, skip_exponent, at_digit, skip_byte, change, link, Parser,
  parse_number, next_or_close, member_value, object_loop, parse_object, array_loop, parse_array,
  parse_text, parse_bool, with_node, parse_cases, parse_value, parse,
}

abbrev pub is_cut : Message → Bool
is_cut out_of_rounds = true
is_cut _ = false

-- A call that leaves fewer than `n` bytes, or fails by a message of the source.
abbrev pub Leaves : {N A : Type 0} → (A → Reader N) → ℕ → Result Failure A → Type 0
Leaves left n (ok a) = length (left a).rest < n
Leaves left n (err f) = is_cut f.message ≡ false

module _ {N A : Type 0} (left : A → Reader N) where
  pub Leaves-mono :
      {n m : ℕ} (res : Result Failure A) → n ≤ m → Leaves left n res → Leaves left m res
  Leaves-mono (ok a) le h = omega arith
  Leaves-mono (err f) le h = h

  pub Leaves-bind :
      {B : Type 0} (of : B → Reader N) (n m : ℕ) (res : Result Failure B) (f : B → Result Failure A)
      → Leaves of n res
      → ((b : B) → length (of b).rest < n → Leaves left m (f b))
      → Leaves left m (res >>= f)
  Leaves-bind of n m (ok b) f h k = k b h
  Leaves-bind of n m (err e) f h k = h

  pub Leaves-if :
      (b : Bool) (n : ℕ) (x y : Result Failure A)
      → Leaves left n x
      → Leaves left n y
      → Leaves left n (if b then x else y)
  Leaves-if true n x y hx hy = hx
  Leaves-if false n x y hx hy = hy

abbrev pub itself : {N : Type 0} → Reader N → Reader N
itself r = r

abbrev pub second : {N A : Type 0} → A × Reader N → Reader N
second (a, r) = r

starts_with-length :
    (literal text : Bytes) → starts_with literal text ≡ true → length literal ≤ length text
unfolding starts_with
starts_with-length [] text h = omega arith
starts_with-length (c ∷ cs) [] h = absurd (cc h)
starts_with-length (c ∷ cs) (b ∷ bs) h = elim (Bool-cases (b == c)) [
  | inl e ↦
      let h' : starts_with cs bs ≡ true = rw e at h in omega (arith, starts_with-length cs bs h')
  | inr e ↦ let h' : false ≡ true = rw e at h in absurd (cc h')
]

module _ {N : Type 0} where
  pub length-advance : (n : ℕ) (r : Reader N) → length (advance n r).rest ≡ length r.rest - n
  unfolding advance
  length-advance n r = length-drop n r.rest

  append_utf8-Leaves :
      (cp : ℕ) (r : Reader N) → Leaves itself (suc (length r.rest)) (append_utf8 cp r)
  unfolding append_utf8 fail
  append_utf8-Leaves cp r = elim (Option-cases (utf8 cp)) [
    | inl e ↦ rw (append_utf8, e) refl
    | inr (bytes, e) ↦ rw (append_utf8, e) (omega arith)
  ]

  unicode_escape-Leaves : (r : Reader N) → Leaves itself (suc (length r.rest)) (unicode_escape r)
  unfolding unicode_escape fail
  unicode_escape-Leaves r = elim (Bool-cases (ltb (length r.rest) 4)) [
    | inl e ↦ rw (unicode_escape, e) refl
    | inr e ↦ elim (Option-cases (hex_digits 4 0 r.rest)) [
      | inl bad ↦ rw (unicode_escape, e, bad) refl
      | inr (unit, good) ↦
          let (cp, more) = join_surrogates unit (drop 4 r.rest) in
          rw (unicode_escape, e, good)
            (Leaves-mono itself _
              (omega (arith, length-advance more (advance 4 r), length-advance 4 r))
              (append_utf8-Leaves (or_replacement cp) (advance more (advance 4 r))))
    ]
  ]

  escape-Leaves :
      (r : Reader N) (text : Bytes) → r.rest ≡ text → Leaves itself (length text) (escape r text)
  unfolding escape fail push_byte
  escape-Leaves r [] h = refl
  escape-Leaves r (e ∷ es) h =
      let shorter : length (advance 1 r).rest ≡ length es =
        omega (arith, length-advance 1 r, ap length h) in
      elim (Bool-cases (e == b'u')) [
        | inl u ↦ rw u (Leaves-mono itself _ (omega arith) (unicode_escape-Leaves (advance 1 r)))
        | inr u ↦ elim (Option-cases (unescape e)) [
          | inl bad ↦ rw (u, bad) refl
          | inr (c, good) ↦ rw (u, good) (omega arith)
        ]
      ]

  string_round-Leaves :
      (more : Reader N → Result Failure ((ℕ × ℕ) × Reader N)) (start : ℕ) (r : Reader N)
      (text : Bytes)
      → r.rest ≡ text
      → ((s : Reader N) → length s.rest < length text → Leaves second (length text) (more s))
      → Leaves second (length text) (string_round more start r text)
  unfolding fail advance push_byte
  string_round-Leaves more start r [] h k = refl
  string_round-Leaves more start r (c ∷ cs) h k =
      let shorter : length (advance 1 r).rest ≡ length cs =
        omega (arith, length-advance 1 r, ap length h) in
      elim (Bool-cases (c == b'"')) [
        | inl e ↦ rw e (omega arith)
        | inr e ↦ elim (Bool-cases (c == b'\\')) [
          | inl back ↦
              rw (e, back)
                (Leaves-bind second itself _ _ (escape (advance 1 r) cs) more
                  (escape-Leaves (advance 1 r) cs (ap (drop 1) h)) (λ s hs. k s (omega arith)))
          | inr back ↦ elim (Bool-cases (ltb c 0x20)) [
            | inl raw ↦ rw (e, back, raw) refl
            | inr plain ↦
                rw (e, back, plain)
                  (k _ (omega (arith, length-advance 1 (push_byte c r), ap length h)))
          ]
        ]
      ]

  string_loop-Leaves :
      (fuel start : ℕ) (r : Reader N)
      → length r.rest < fuel
      → Leaves second (length r.rest) (string_loop fuel start r)
  unfolding string_loop
  string_loop-Leaves zero start r h = absurd (omega arith)
  string_loop-Leaves (suc fuel) start r h =
      string_round-Leaves (string_loop fuel start) start r r.rest refl
        (λ s hs. Leaves-mono second _ (omega arith) (string_loop-Leaves fuel start s (omega arith)))

  pub parse_string-Leaves : (r : Reader N) → Leaves second (length r.rest) (parse_string r)
  unfolding parse_string
  parse_string-Leaves r =
      let s = advance 1 r in
      Leaves-mono second _ (omega (arith, length-advance 1 r))
        (string_loop-Leaves (suc (length s.rest)) (length s.text_pool % 2 ^ 32) s (omega arith))

  pub skip_whitespace-le : (r : Reader N) → length (skip_whitespace r).rest ≤ length r.rest
  unfolding skip_whitespace
  skip_whitespace-le r = omega (arith, length-advance (whitespace_run r.rest) r)

  pub parse_literal-Leaves :
      (c : ℕ) (literal : Bytes) (r : Reader N)
      → Leaves itself (length r.rest) (parse_literal (c ∷ literal) r)
  unfolding parse_literal fail
  parse_literal-Leaves c literal r = elim (Bool-cases (starts_with (c ∷ literal) r.rest)) [
    | inl e ↦ rw e (
        omega (
          arith,
          starts_with-length (c ∷ literal) r.rest e,
          length-advance (length (c ∷ literal)) r,
        ))
    | inr e ↦ rw e refl
  ]
