-- ===== src/Json/Parse.antt =====
-- src/json.cpp: `JsonDoc::Parse`, the recursive descent over values, objects, arrays and numbers.
use framewire.Prelude.{
  ℕ, zero, suc, ◌+◌, ◌-◌, Bool, true, false, not, ◌&&◌, ◌||◌, List, [], ◌∷◌, Option, none, some,
  ◌==◌, if◌then◌else◌, length, take, drop,
}
use framewire.Prelude.Chars.{Bytes, codes}
use framewire.Prelude.Result.{Result, ok, ◌>>=◌}
use framewire.Json.{
  Numbers, JsonType, json_null, json_bool, json_number, json_string, json_array, json_object,
  JsonNode, Reader, Failure, Message, fail, advance, new_node, at_byte, skip_whitespace,
  parse_literal, trailing_bytes, nests_too_deeply, unexpected_end, unexpected_character,
  expected_name, expected_colon, unterminated_object, expected_brace, unterminated_array,
  expected_bracket, needs_digit, leading_zero, malformed_number, out_of_rounds,
}
use framewire.Json.Text.{is_digit, parse_string}

abbrev pub at_digit : Bytes → Bool
at_digit [] = false
at_digit (c ∷ cs) = is_digit c

abbrev pub skip_byte : ℕ → Bytes → Bytes
skip_byte c text = if at_byte c text then drop 1 text else text

unfoldable pub skip_digits : Bytes → Bytes
unfolding is_digit
skip_digits [] = []
skip_digits (c ∷ cs) = let more = skip_digits cs in if is_digit c then more else c ∷ cs

unfoldable pub skip_fraction : Bytes → Bytes
unfolding skip_digits
skip_fraction text = if at_byte b'.' text then skip_digits (drop 1 text) else text

unfoldable pub skip_exponent : Bytes → Bytes
unfolding skip_digits
skip_exponent text =
    let signed = drop 1 text in
    if at_byte b'e' text || at_byte b'E' text
    then skip_digits (if at_byte b'+' signed || at_byte b'-' signed then drop 1 signed else signed)
    else text

-- `nodes_[index]`, changed.
unfoldable pub change {ℓ} : {A : Type ℓ} → List A → ℕ → (A → A) → List A
change [] i f = []
change (x ∷ xs) zero f = f x ∷ xs
change (x ∷ xs) (suc i) f = x ∷ change xs i f

-- The last child gets the new one as its sibling; without one, the parent gets it as its first child.
unfoldable pub link : {N : Type 0} → ℕ → Option ℕ → ℕ → List (JsonNode N) → List (JsonNode N)
unfolding change
link index none child nodes =
    change nodes index (λ n. record n { first_child = some child; child_count = n.child_count + 1 })
link index (some last) child nodes =
    change (change nodes last (λ n. record n { next_sibling = some child })) index
      (λ n. record n { child_count = n.child_count + 1 })

module _ (F : Numbers) where
  abbrev pub Parser : Type 0 → Type 0
  Parser A = Reader F.Number → Result Failure A

  -- `pos_` is set back to the start before `Fail`, so the failures are those of `r`.
  unfoldable pub parse_number : ℕ → Parser (Reader F.Number)
  unfolding fail advance is_digit skip_digits skip_fraction skip_exponent change
  parse_number index r =
      let unsigned = skip_byte b'-' r.rest in
      let stop = skip_exponent (skip_fraction (skip_digits (skip_byte b'0' unsigned))) in
      let used = length r.rest - length stop in
      if not (at_digit unsigned)
      then fail needs_digit r
      else if at_byte b'0' unsigned && at_digit (drop 1 unsigned)
      then fail leading_zero r
      else elim (F.from_chars (take used r.rest)) [
        | none ↦ fail malformed_number r
        | some value ↦ ok (
            advance used
              (record r { nodes = change r.nodes index (λ n. record n { number = value }) }))
      ]

  -- Behind a child: a comma, and the loop goes on by `more`, or what closes the container.
  unfoldable pub next_or_close :
      ℕ → Message → Message → Parser (Reader F.Number) → Parser (Reader F.Number)
  unfolding fail advance skip_whitespace
  next_or_close closing unterminated unexpected more r =
      let r = skip_whitespace r in
      if at_byte b',' r.rest
      then more (advance 1 r)
      else if at_byte closing r.rest
      then ok (advance 1 r)
      else fail (if length r.rest == 0 then unterminated else unexpected) r

  -- From behind the name of a member on. `parse_child` reads a value one level deeper, `more` are the rounds to come.
  unfoldable pub member_value :
      Parser (ℕ × Reader F.Number)
      → (Option ℕ → Parser (Reader F.Number))
      → ℕ
      → Option ℕ
      → ℕ × ℕ
      → Parser (Reader F.Number)
  unfolding fail advance skip_whitespace change link next_or_close
  member_value parse_child more index last (key_off, key_len) r =
      let r = skip_whitespace r in
      if not (at_byte b':' r.rest)
      then fail expected_colon r
      else parse_child (advance 1 r) >>= λ (child, r).
          let named =
            change r.nodes child (λ n. record n { key_off = key_off; key_len = key_len }) in
          next_or_close b'}' unterminated_object expected_brace (more (some child))
            (record r { nodes = link index last child named })

  -- The loop of `ParseObject`.
  unfoldable pub object_loop :
      Parser (ℕ × Reader F.Number) → ℕ → ℕ → Option ℕ → Parser (Reader F.Number)
  unfolding fail skip_whitespace parse_string member_value
  object_loop parse_child zero index last r = fail out_of_rounds r
  object_loop parse_child (suc fuel) index last r =
      let more = object_loop parse_child fuel index in
      let r = skip_whitespace r in
      if not (at_byte b'"' r.rest)
      then fail expected_name r
      else parse_string r >>= λ (key, r). member_value parse_child more index last key r

  unfoldable pub parse_object : Parser (ℕ × Reader F.Number) → ℕ → Parser (Reader F.Number)
  unfolding advance skip_whitespace object_loop
  parse_object parse_child index r =
      let r = skip_whitespace (advance 1 r) in
      if at_byte b'}' r.rest
      then ok (advance 1 r)
      else object_loop parse_child (suc (length r.rest)) index none r

  unfoldable pub array_loop :
      Parser (ℕ × Reader F.Number) → ℕ → ℕ → Option ℕ → Parser (Reader F.Number)
  unfolding fail link next_or_close
  array_loop parse_child zero index last r = fail out_of_rounds r
  array_loop parse_child (suc fuel) index last r =
      let more = array_loop parse_child fuel index in
      parse_child r >>= λ (child, r).
      next_or_close b']' unterminated_array expected_bracket (more (some child))
        (record r { nodes = link index last child r.nodes })

  unfoldable pub parse_array : Parser (ℕ × Reader F.Number) → ℕ → Parser (Reader F.Number)
  unfolding advance skip_whitespace array_loop
  parse_array parse_child index r =
      let r = skip_whitespace (advance 1 r) in
      if at_byte b']' r.rest
      then ok (advance 1 r)
      else array_loop parse_child (suc (length r.rest)) index none r

  -- The cases of `ParseValue` behind its `NewNode`.
  unfoldable pub parse_text : ℕ → Parser (Reader F.Number)
  unfolding parse_string change
  parse_text index r = parse_string r >>= λ ((off, len), r).
      ok
        (record r { nodes = change r.nodes index (λ n. record n { str_off = off; str_len = len }) })

  unfoldable pub parse_bool : Bytes → Bool → ℕ → Parser (Reader F.Number)
  unfolding parse_literal change
  parse_bool word value index r = parse_literal word r >>= λ r.
      ok (record r { nodes = change r.nodes index (λ n. record n { boolean = value }) })

  -- `NewNode`, then the case that fills the node.
  abbrev pub with_node : JsonType → (ℕ → Parser (Reader F.Number)) → Parser (ℕ × Reader F.Number)
  with_node kind body r =
      let (index, r) = new_node F.number_zero kind r in body index r >>= λ r. ok (index, r)

  -- `text` is what is left to read.
  unfoldable pub parse_cases : Parser (ℕ × Reader F.Number) → Bytes → Parser (ℕ × Reader F.Number)
  unfolding fail new_node parse_object parse_array parse_text parse_bool parse_literal parse_number
  parse_cases parse_child [] r = fail unexpected_end r
  parse_cases parse_child (c ∷ cs) r =
      if c == b'{'
      then with_node json_object (parse_object parse_child) r
      else if c == b'['
      then with_node json_array (parse_array parse_child) r
      else if c == b'"'
      then with_node json_string parse_text r
      else if c == b't'
      then with_node json_bool (parse_bool (codes "true") true) r
      else if c == b'f'
      then with_node json_bool (parse_bool (codes "false") false) r
      else if c == b'n'
      then with_node json_null (λ _. parse_literal (codes "null")) r
      else if c == b'-' || is_digit c
      then with_node json_number parse_number r
      else fail unexpected_character r

  -- `levels` is kMaxDepth + 1 - depth.
  unfoldable pub parse_value : ℕ → Parser (ℕ × Reader F.Number)
  unfolding fail skip_whitespace parse_cases
  parse_value zero r = fail nests_too_deeply r
  parse_value (suc levels) r =
      let r = skip_whitespace r in parse_cases (parse_value levels) r.rest r

  abbrev pub max_depth : ℕ
  max_depth = 32

  -- The nodes of the document and the pool of its texts; the root is node 0.
  unfoldable pub parse : Bytes → Result Failure (Reader F.Number)
  unfolding fail skip_whitespace parse_value
  parse text =
      parse_value (max_depth + 1) (record { nodes = []; text_pool = []; rest = text; pos = 0 })
      >>= λ (root, r).
          let r = skip_whitespace r in if length r.rest == 0 then ok r else fail trailing_bytes r
