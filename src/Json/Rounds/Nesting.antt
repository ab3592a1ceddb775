-- ===== src/Json/Rounds/Nesting.antt =====
-- src/json.cpp: values, objects and arrays take at least one byte each, so `Parse` comes to an end.
use native.Mathlib.Omega.{arith}
use framewire.Prelude.{
  ℕ, zero, suc, ◌-◌, ◌<◌, ◌≡◌, ◌≢◌, refl, ap, subst, inl, inr, Bool-cases, Option-cases, Bool, true,
  false, not, ◌&&◌, ◌||◌, [], ◌∷◌, Option, none, some, ◌==◌, length, length-drop, drop, take,
}
use framewire.Prelude.Chars.{Bytes, codes}
use framewire.Prelude.Result.{err}
use framewire.Json.{
  Numbers, JsonType, json_null, json_bool, json_number, json_string, json_array, json_object,
  Reader, Failure, Message, fail, advance, at_byte, out_of_rounds, skip_whitespace, parse_literal,
  new_node,
}
use framewire.Json.Text.{is_digit, parse_string}
use framewire.Json.Parse.{
  skip_digits, skip_fraction, skip_exponent, at_digit, skip_byte, Parser, parse_number,
  next_or_close, member_value, object_loop, parse_object, array_loop, parse_array, parse_text,
  parse_bool, with_node, parse_cases, parse_value, parse,
}
use framewire.Json.Rounds.{
  is_cut, Leaves, Leaves-mono, Leaves-bind, Leaves-if, itself, second, length-advance,
  parse_string-Leaves, skip_whitespace-le, parse_literal-Leaves,
}
use framewire.Json.Rounds.Number.{skip_byte-le, number_end-lt}

module _ (F : Numbers) where
  parse_number-Leaves :
      (index : ℕ) (r : Reader F.Number) → Leaves itself (length r.rest) (parse_number F index r)
  unfolding parse_number fail advance
  parse_number-Leaves index r =
      let unsigned = skip_byte b'-' r.rest in
      let stop = skip_exponent (skip_fraction (skip_digits (skip_byte b'0' unsigned))) in
      let used = length r.rest - length stop in
      elim (Bool-cases (at_digit unsigned)) [
        | inr e ↦ rw e refl
        | inl e ↦ rw e (
            Leaves-if itself (at_byte b'0' unsigned && at_digit (drop 1 unsigned)) _ _ _ refl
              (elim (Option-cases (F.from_chars (take used r.rest))) [
                | inl bad ↦ rw bad refl
                | inr (value, good) ↦ rw good (
                    omega (
                      arith,
                      number_end-lt unsigned e,
                      skip_byte-le b'-' r.rest,
                      length-drop used r.rest,
                    ))
              ]))
      ]

  -- A parser that always takes a byte where it succeeds.
  abbrev Takes : {A : Type 0} → (A → Reader F.Number) → Parser F A → Type 0
  Takes left parser = (r : Reader F.Number) → Leaves left (length r.rest) (parser r)

  module _ (n : ℕ) where
    next_or_close-Leaves :
        (closing : ℕ) (u e : Message) (more : Parser F (Reader F.Number)) (r : Reader F.Number)
        → is_cut u ≡ false
        → is_cut e ≡ false
        → length r.rest < n
        → ((s : Reader F.Number) → length s.rest < n → Leaves itself n (more s))
        → Leaves itself n (next_or_close F closing u e more r)
    unfolding next_or_close fail
    next_or_close-Leaves closing u e more r hu he h k =
        let s = skip_whitespace r in
        let short : length (advance 1 s).rest < n =
          omega (arith, length-advance 1 s, skip_whitespace-le r) in
        Leaves-if itself (at_byte b',' s.rest) _ _ _ (k (advance 1 s) short) (
          Leaves-if itself (at_byte closing s.rest) _ _ _ (omega (arith, short))
            (elim (Bool-cases (length s.rest == 0)) [ inl end ↦ rw end hu | inr end ↦ rw end he ]))

    member_value-Leaves :
        (child : Parser F (ℕ × Reader F.Number)) (more : Option ℕ → Parser F (Reader F.Number))
        (index : ℕ) (last : Option ℕ) (key : ℕ × ℕ) (r : Reader F.Number)
        → Takes second child
        → length r.rest < n
        → ((last : Option ℕ) (s : Reader F.Number)
            → length s.rest < n
            → Leaves itself n (more last s))
        → Leaves itself n (member_value F child more index last key r)
    unfolding member_value fail
    member_value-Leaves child more index last (off, len) r hc h k =
        let s = skip_whitespace r in
        Leaves-if itself (not (at_byte b':' s.rest)) _ _ _ refl (
          Leaves-bind itself second _ _ (child (advance 1 s)) _ (hc (advance 1 s)) λ (c, t) ht.
            let short : length t.rest < n =
              omega (arith, ht, length-advance 1 s, skip_whitespace-le r) in
            next_or_close-Leaves _ _ _ (more (some c)) _ refl refl short (k (some c)))

  object_loop-Leaves :
      (child : Parser F (ℕ × Reader F.Number)) (fuel index : ℕ) (last : Option ℕ)
      (r : Reader F.Number)
      → Takes second child
      → length r.rest < fuel
      → Leaves itself (suc (length r.rest)) (object_loop F child fuel index last r)
  unfolding object_loop fail
  object_loop-Leaves child zero index last r hc h = absurd (omega arith)
  object_loop-Leaves child (suc fuel) index last r hc h =
      let s = skip_whitespace r in
      Leaves-if itself (not (at_byte b'"' s.rest)) _ _ _ refl (
        Leaves-bind itself second _ _ (parse_string s) _ (parse_string-Leaves s) λ (key, t) ht.
          let short : length t.rest < length r.rest = omega (arith, ht, skip_whitespace-le r) in
          Leaves-mono itself _ (omega (arith, short)) (
            member_value-Leaves (length r.rest) child (object_loop F child fuel index) index last
              key t hc short
              λ last u hu.
                Leaves-mono itself _ (omega arith)
                  (object_loop-Leaves child fuel index last u hc (omega arith))))

  array_loop-Leaves :
      (child : Parser F (ℕ × Reader F.Number)) (fuel index : ℕ) (last : Option ℕ)
      (r : Reader F.Number)
      → Takes second child
      → length r.rest < fuel
      → Leaves itself (suc (length r.rest)) (array_loop F child fuel index last r)
  unfolding array_loop fail
  array_loop-Leaves child zero index last r hc h = absurd (omega arith)
  array_loop-Leaves child (suc fuel) index last r hc h =
      Leaves-bind itself second _ _ (child r) _ (hc r) λ (c, t) ht.
        Leaves-mono itself _ (omega arith) (
          next_or_close-Leaves (length r.rest) _ _ _ (array_loop F child fuel index (some c)) _ refl
            refl ht
            λ u hu.
              Leaves-mono itself _ (omega arith)
                (array_loop-Leaves child fuel index (some c) u hc (omega arith)))

  -- What reads a value, from its first byte on.
  abbrev TakesOne : Parser F (Reader F.Number) → Type 0
  TakesOne body = (r : Reader F.Number) → 0 < length r.rest → Leaves itself (length r.rest) (body r)

  parse_object-Leaves :
      (child : Parser F (ℕ × Reader F.Number)) (index : ℕ)
      → Takes second child
      → TakesOne (parse_object F child index)
  unfolding parse_object
  parse_object-Leaves child index hc r h =
      let s = skip_whitespace (advance 1 r) in
      let short : length s.rest < length r.rest =
        omega (arith, length-advance 1 r, skip_whitespace-le (advance 1 r)) in
      Leaves-if itself (at_byte b'}' s.rest) _ _ _ (omega (arith, short, length-advance 1 s)) (
        Leaves-mono itself _ short
          (object_loop-Leaves child (suc (length s.rest)) index none s hc (omega arith)))

  parse_array-Leaves :
      (child : Parser F (ℕ × Reader F.Number)) (index : ℕ)
      → Takes second child
      → TakesOne (parse_array F child index)
  unfolding parse_array
  parse_array-Leaves child index hc r h =
      let s = skip_whitespace (advance 1 r) in
      let short : length s.rest < length r.rest =
        omega (arith, length-advance 1 r, skip_whitespace-le (advance 1 r)) in
      Leaves-if itself (at_byte b']' s.rest) _ _ _ (omega (arith, short, length-advance 1 s)) (
        Leaves-mono itself _ short
          (array_loop-Leaves child (suc (length s.rest)) index none s hc (omega arith)))

  parse_text-Leaves : (index : ℕ) → TakesOne (parse_text F index)
  unfolding parse_text
  parse_text-Leaves index r h =
      Leaves-bind itself second _ _ (parse_string r) _ (parse_string-Leaves r) λ (_, s) hs. hs

  parse_bool-Leaves :
      (c : ℕ) (word : Bytes) (value : Bool) (index : ℕ)
      → TakesOne (parse_bool F (c ∷ word) value index)
  unfolding parse_bool
  parse_bool-Leaves c word value index r h =
      Leaves-bind itself itself _ _ (parse_literal (c ∷ word) r) _ (parse_literal-Leaves c word r)
        λ s hs. hs

  with_node-Leaves :
      (kind : JsonType) (body : ℕ → Parser F (Reader F.Number)) (r : Reader F.Number)
      → 0 < length r.rest
      → ((index : ℕ) → TakesOne (body index))
      → Leaves second (length r.rest) (with_node F kind body r)
  unfolding new_node
  with_node-Leaves kind body r h k = Leaves-bind second itself _ _ (body _ _) _ (k _ _ h) λ s hs. hs

  parse_cases-Leaves :
      (child : Parser F (ℕ × Reader F.Number)) (text : Bytes) (r : Reader F.Number)
      → Takes second child
      → r.rest ≡ text
      → Leaves second (length r.rest) (parse_cases F child text r)
  unfolding parse_cases fail
  parse_cases-Leaves child [] r hc e = refl
  parse_cases-Leaves child (c ∷ cs) r hc e =
      let some_left : 0 < length r.rest = omega (arith, ap length e) in
      let of_object =
        with_node-Leaves json_object (parse_object F child) r some_left
          (λ i. parse_object-Leaves child i hc) in
      let of_array =
        with_node-Leaves json_array (parse_array F child) r some_left
          (λ i. parse_array-Leaves child i hc) in
      let of_text = with_node-Leaves json_string (parse_text F) r some_left parse_text-Leaves in
      let of_true =
        with_node-Leaves json_bool (parse_bool F (codes "true") true) r some_left
          (parse_bool-Leaves b't' (codes "rue") true) in
      let of_false =
        with_node-Leaves json_bool (parse_bool F (codes "false") false) r some_left
          (parse_bool-Leaves b'f' (codes "alse") false) in
      let of_null =
        with_node-Leaves json_null (λ _. parse_literal (codes "null")) r some_left
          (λ _ s _. parse_literal-Leaves b'n' (codes "ull") s) in
      let of_number =
        with_node-Leaves json_number (parse_number F) r some_left
          (λ i s _. parse_number-Leaves i s) in
      elim (Bool-cases (c == b'{')) [
        | inl e ↦ rw e of_object
        | inr e1 ↦ elim (Bool-cases (c == b'[')) [
          | inl e ↦ rw (e1, e) of_array
          | inr e2 ↦ elim (Bool-cases (c == b'"')) [
            | inl e ↦ rw (e1, e2, e) of_text
            | inr e3 ↦ elim (Bool-cases (c == b't')) [
              | inl e ↦ rw (e1, e2, e3, e) of_true
              | inr e4 ↦ elim (Bool-cases (c == b'f')) [
                | inl e ↦ rw (e1, e2, e3, e4, e) of_false
                | inr e5 ↦ elim (Bool-cases (c == b'n')) [
                  | inl e ↦ rw (e1, e2, e3, e4, e5, e) of_null
                  | inr e6 ↦ elim (Bool-cases (c == b'-' || is_digit c)) [
                    | inl e ↦ rw (e1, e2, e3, e4, e5, e6, e) of_number
                    | inr e ↦ rw (e1, e2, e3, e4, e5, e6, e) refl
                  ]
                ]
              ]
            ]
          ]
        ]
      ]

  parse_value-Leaves : (levels : ℕ) → Takes second (parse_value F levels)
  unfolding parse_value fail
  parse_value-Leaves zero r = refl
  parse_value-Leaves (suc levels) r =
      let s = skip_whitespace r in
      Leaves-mono second _ (skip_whitespace-le r)
        (parse_cases-Leaves (parse_value F levels) s.rest s (parse_value-Leaves levels) refl)

  parse-Leaves : (text : Bytes) → Leaves itself (length text) (parse F text)
  unfolding parse fail
  parse-Leaves text =
      let start : Reader F.Number = record { nodes = []; text_pool = []; rest = text; pos = 0 } in
      Leaves-bind itself second (length text) (length text) (parse_value F 33 start) _
        (parse_value-Leaves 33 start)
        λ (root, r) hr.
          let short : length (skip_whitespace r).rest < length text =
            omega (arith, hr, skip_whitespace-le r) in
          Leaves-if itself (length (skip_whitespace r).rest == 0) _ _ _ short refl

  -- `Parse` always ends: no text makes the model run out of the rounds that it allows the loops, so what it returns is a
  -- document or one of the messages of the source.
  pub parse-ends : (text : Bytes) (f : Failure) → parse F text ≡ err f → f.message ≢ out_of_rounds
  parse-ends text f e cut =
      let source : is_cut f.message ≡ false =
        subst (Leaves itself (length text)) e (parse-Leaves text) in
      let absurd_source : true ≡ false = rw cut at source in absurd (cc absurd_source)
