-- ===== src/Json/Links/Built.antt =====
-- src/json.cpp: every step of the reader keeps the node table linked.
use native.Mathlib.Omega.{arith}
use framewire.Prelude.{
  ℕ, zero, suc, ◌+◌, ◌-◌, ◌≤◌, ◌<◌, ◌≡◌, refl, subst, inl, inr, Option-cases, Bool, true, false,
  not, ◌&&◌, ◌||◌, List, [], ◌∷◌, Option, none, some, ◌==◌, length, length-append, take, drop,
}
use framewire.Prelude.Chars.{Bytes, codes}
use framewire.Prelude.Result.{ok}
use framewire.Json.{
  unexpected_character, unterminated_object, expected_brace, unterminated_array, expected_bracket,
  Numbers, JsonType, json_null, json_bool, json_number, json_string, json_array, json_object,
  JsonNode, Reader, Message, fail, advance, at_byte, skip_whitespace, starts_with, parse_literal,
  new_node,
}
use framewire.Json.Text.{is_digit, parse_string}
use framewire.Json.Parse.{
  skip_byte, skip_digits, skip_fraction, skip_exponent, at_digit, change, link, Parser,
  parse_number, next_or_close, member_value, object_loop, parse_object, array_loop, parse_array,
  parse_text, parse_bool, with_node, parse_cases, parse_value, parse,
}
use framewire.Json.Links.{
  Linked, LinkedFrom-mono, LinkedFrom-append, length-change, Linked-change, length-link,
  link-Linked, Before,
}
use framewire.Json.Links.Same.{
  On, On-bind, On-if, Same, Same₂, parse_string-Same, parse_literal-Same,
}

module _ (F : Numbers) where
  -- A table that is linked and at least as long as before.
  abbrev Grown : ℕ → Reader F.Number → Type 0
  Grown n r = (n ≤ length r.nodes) × Linked r.nodes

  -- The same, with a new node in it.
  abbrev Child : ℕ → ℕ × Reader F.Number → Type 0
  Child n (c, r) = (n ≤ c) × (c < length r.nodes) × Linked r.nodes

  abbrev Builds : Parser F (ℕ × Reader F.Number) → Type 0
  Builds parser = (r : Reader F.Number) → Linked r.nodes → On (Child (length r.nodes)) (parser r)

  Before-mono : {n m : ℕ} (last : Option ℕ) → n ≤ m → Before last n → Before last m
  Before-mono none h b = tt
  Before-mono (some last) h b = omega arith

  next_or_close-Grown :
      (n closing : ℕ) (u e : Message) (more : Parser F (Reader F.Number)) (r : Reader F.Number)
      → Grown n r
      → ((s : Reader F.Number) → s.nodes ≡ r.nodes → On (Grown n) (more s))
      → On (Grown n) (next_or_close F closing u e more r)
  unfolding next_or_close fail advance skip_whitespace
  next_or_close-Grown n closing u e more r h k =
      let s = skip_whitespace r in
      On-if (Grown n) (at_byte b',' s.rest) _ _ (k (advance 1 s) refl)
        (On-if (Grown n) (at_byte closing s.rest) _ _ h tt)

  -- The parent gets the new child.
  attach_child :
      (n index c : ℕ) (last : Option ℕ) (m : ℕ) (nodes : List (JsonNode F.Number))
      → index < n
      → n ≤ m
      → m ≤ c
      → Before last m
      → c < length nodes
      → Linked nodes
      → (n ≤ length (link index last c nodes))
        × (c < length (link index last c nodes))
        × Linked (link index last c nodes)
  attach_child n index c last m nodes hi hn hm hl hc l =
      let e = length-link index last c nodes in
      (
        omega (arith, e),
        omega (arith, e),
        link-Linked index last c nodes (omega arith) (Before-mono last hm hl) hc l,
      )

  -- The loops, for a parent `index` below `n`, where the table has `n` nodes at least.
  array_loop-Grown :
      (n : ℕ) (child : Parser F (ℕ × Reader F.Number)) (fuel index : ℕ) (last : Option ℕ)
      (r : Reader F.Number)
      → Builds child
      → index < n
      → n ≤ length r.nodes
      → Before last (length r.nodes)
      → Linked r.nodes
      → On (Grown n) (array_loop F child fuel index last r)
  unfolding array_loop fail
  array_loop-Grown n child zero index last r hc hi hn hl l = tt
  array_loop-Grown n child (suc fuel) index last r hc hi hn hl l =
      On-bind (Grown n) (Child (length r.nodes)) (child r) _ (hc r l) λ (c, t) (le, lt, lk).
        let (grown, inside, linked) =
          attach_child n index c last (length r.nodes) t.nodes hi hn le hl lt lk in
        next_or_close-Grown n b']' unterminated_array expected_bracket
          (array_loop F child fuel index (some c)) (record t { nodes = link index last c t.nodes })
          (grown, linked)
          λ s e.
            array_loop-Grown n child fuel index (some c) s hc hi (rw e grown) (rw e inside)
              (rw e linked)

  member_value-Grown :
      (n : ℕ) (child : Parser F (ℕ × Reader F.Number))
      (more : Option ℕ → Parser F (Reader F.Number)) (index : ℕ) (last : Option ℕ) (name : ℕ × ℕ)
      (r : Reader F.Number)
      → Builds child
      → index < n
      → n ≤ length r.nodes
      → Before last (length r.nodes)
      → Linked r.nodes
      → ((c : ℕ) (s : Reader F.Number)
          → n ≤ length s.nodes
          → c < length s.nodes
          → Linked s.nodes
          → On (Grown n) (more (some c) s))
      → On (Grown n) (member_value F child more index last name r)
  unfolding member_value fail advance skip_whitespace
  member_value-Grown n child more index last (off, len) r hc hi hn hl l k =
      let s = skip_whitespace r in
      On-if (Grown n) (not (at_byte b':' s.rest)) _ _ tt (
        On-bind (Grown n) (Child (length r.nodes)) (child (advance 1 s)) _ (hc (advance 1 s) l)
          λ (c, t) (le, lt, lk).
            let named = change t.nodes c (λ x. record x { key_off = off; key_len = len }) in
            let same : length named ≡ length t.nodes = length-change t.nodes c _ in
            let (grown, inside, linked) =
              attach_child n index c last (length r.nodes) named hi hn le hl (omega (arith, same))
                (Linked-change c t.nodes _ (λ x h. h) (λ x h. h) lk) in
            next_or_close-Grown n b'}' unterminated_object expected_brace (more (some c))
              (record t { nodes = link index last c named }) (grown, linked)
              λ u e. k c u (rw e grown) (rw e inside) (rw e linked))

  object_loop-Grown :
      (n : ℕ) (child : Parser F (ℕ × Reader F.Number)) (fuel index : ℕ) (last : Option ℕ)
      (r : Reader F.Number)
      → Builds child
      → index < n
      → n ≤ length r.nodes
      → Before last (length r.nodes)
      → Linked r.nodes
      → On (Grown n) (object_loop F child fuel index last r)
  unfolding object_loop fail skip_whitespace advance
  object_loop-Grown n child zero index last r hc hi hn hl l = tt
  object_loop-Grown n child (suc fuel) index last r hc hi hn hl l =
      let s = skip_whitespace r in
      On-if (Grown n) (not (at_byte b'"' s.rest)) _ _ tt (
        On-bind (Grown n) (Same₂ r.nodes) (parse_string s) _ (parse_string-Same r.nodes s refl)
          λ (name, t) same.
            member_value-Grown n child (object_loop F child fuel index) index last name t hc hi
              (rw same hn) (rw same hl) (rw same l)
              λ c u grown inside linked.
                object_loop-Grown n child fuel index (some c) u hc hi grown inside linked)

  -- What fills the node `index` of a table of `n` nodes at least.
  abbrev Fills : (ℕ → Parser F (Reader F.Number)) → Type 0
  Fills body =
      (n index : ℕ) (r : Reader F.Number)
      → index < n
      → n ≤ length r.nodes
      → Linked r.nodes
      → On (Grown n) (body index r)

  parse_object-Fills :
      (child : Parser F (ℕ × Reader F.Number)) → Builds child → Fills (parse_object F child)
  unfolding parse_object advance skip_whitespace
  parse_object-Fills child hc n index r hi hn l =
      let s = skip_whitespace (advance 1 r) in
      On-if (Grown n) (at_byte b'}' s.rest) _ _ (hn, l)
        (object_loop-Grown n child (suc (length s.rest)) index none s hc hi hn tt l)

  parse_array-Fills :
      (child : Parser F (ℕ × Reader F.Number)) → Builds child → Fills (parse_array F child)
  unfolding parse_array advance skip_whitespace
  parse_array-Fills child hc n index r hi hn l =
      let s = skip_whitespace (advance 1 r) in
      On-if (Grown n) (at_byte b']' s.rest) _ _ (hn, l)
        (array_loop-Grown n child (suc (length s.rest)) index none s hc hi hn tt l)

  -- A change that leaves the links alone.
  changed-Grown :
      (n index : ℕ) (nodes : List (JsonNode F.Number)) (g : JsonNode F.Number → JsonNode F.Number)
      → ((x : JsonNode F.Number) → (g x).first_child ≡ x.first_child)
      → ((x : JsonNode F.Number) → (g x).next_sibling ≡ x.next_sibling)
      → n ≤ length nodes
      → Linked nodes
      → (n ≤ length (change nodes index g)) × Linked (change nodes index g)
  changed-Grown n index nodes g hf hs hn l = (
    omega (arith, length-change nodes index g),
    Linked-change index nodes g (λ x h. rw (hf x) h) (λ x h. rw (hs x) h) l,
  )

  parse_text-Fills : Fills (parse_text F)
  unfolding parse_text
  parse_text-Fills n index r hi hn l =
      On-bind (Grown n) (Same₂ r.nodes) (parse_string r) _ (parse_string-Same r.nodes r refl)
        λ ((off, len), s) same.
          changed-Grown n index s.nodes _ (λ x. refl) (λ x. refl) (rw same hn) (rw same l)

  parse_bool-Fills : (word : Bytes) (value : Bool) → Fills (parse_bool F word value)
  unfolding parse_bool
  parse_bool-Fills word value n index r hi hn l =
      On-bind (Grown n) (Same r.nodes) (parse_literal word r) _
        (parse_literal-Same r.nodes word r refl)
        λ s same. changed-Grown n index s.nodes _ (λ x. refl) (λ x. refl) (rw same hn) (rw same l)

  parse_null-Fills : (word : Bytes) → Fills (λ _. parse_literal word)
  unfolding parse_literal fail advance
  parse_null-Fills word n index r hi hn l = On-if (Grown n) (starts_with word r.rest) _ _ (hn, l) tt

  parse_number-Fills : Fills (parse_number F)
  unfolding parse_number fail advance
  parse_number-Fills n index r hi hn l =
      let unsigned = skip_byte b'-' r.rest in
      let stop = skip_exponent (skip_fraction (skip_digits (skip_byte b'0' unsigned))) in
      let used = length r.rest - length stop in
      On-if (Grown n) (not (at_digit unsigned)) _ _ tt (
        On-if (Grown n) (at_byte b'0' unsigned && at_digit (drop 1 unsigned)) _ _ tt
          (elim (Option-cases (F.from_chars (take used r.rest))) [
            | inl bad ↦ rw bad tt
            | inr (value, good) ↦ rw good (
                changed-Grown n index r.nodes (λ x. record x { number = value }) (λ x. refl)
                  (λ x. refl) hn l)
          ]))

  with_node-Builds :
      (kind : JsonType) (body : ℕ → Parser F (Reader F.Number))
      → Fills body
      → Builds (with_node F kind body)
  unfolding new_node
  with_node-Builds kind body hb r l =
      let (index, s) = new_node F.number_zero kind r in
      let longer : length s.nodes ≡ length r.nodes + 1 = length-append r.nodes _ in
      let before = LinkedFrom-mono 0 (length r.nodes) (length s.nodes) r.nodes (omega arith) l in
      let linked : Linked s.nodes =
        LinkedFrom-append 0 (length s.nodes) r.nodes _ before (tt, tt, tt) in
      On-bind (Child (length r.nodes)) (Grown (length r.nodes + 1)) (body index s) _
        (hb (length r.nodes + 1) index s (omega arith) (omega arith) linked)
        λ t (grown, lk). (omega arith, omega arith, lk)

  parse_cases-Builds :
      (child : Parser F (ℕ × Reader F.Number)) (text : Bytes)
      → Builds child
      → Builds (parse_cases F child text)
  unfolding parse_cases fail
  parse_cases-Builds child [] hc r l = tt
  parse_cases-Builds child (c ∷ cs) hc r l =
      let P = Child (length r.nodes) in
      On-if P (c == b'{') _ _
        (with_node-Builds json_object (parse_object F child) (parse_object-Fills child hc) r l)
        (On-if P (c == b'[') _ _
          (with_node-Builds json_array (parse_array F child) (parse_array-Fills child hc) r l)
          (On-if P (c == b'"') _ _
            (with_node-Builds json_string (parse_text F) parse_text-Fills r l)
            (On-if P (c == b't') _ _
              (with_node-Builds json_bool (parse_bool F (codes "true") true)
                (parse_bool-Fills (codes "true") true) r l)
              (On-if P (c == b'f') _ _
                (with_node-Builds json_bool (parse_bool F (codes "false") false)
                  (parse_bool-Fills (codes "false") false) r l)
                (On-if P (c == b'n') _ _
                  (with_node-Builds json_null (λ _. parse_literal (codes "null"))
                    (parse_null-Fills (codes "null")) r l)
                  (On-if P (c == b'-' || is_digit c) _ (fail unexpected_character r)
                    (with_node-Builds json_number (parse_number F) parse_number-Fills r l) tt))))))

  parse_value-Builds : (levels : ℕ) → Builds (parse_value F levels)
  unfolding parse_value fail skip_whitespace advance
  parse_value-Builds zero r l = tt
  parse_value-Builds (suc levels) r l =
      let s = skip_whitespace r in
      parse_cases-Builds (parse_value F levels) s.rest (parse_value-Builds levels) s l

  abbrev Whole : Reader F.Number → Type 0
  Whole doc = (0 < length doc.nodes) × Linked doc.nodes

  parse-Whole : (text : Bytes) → On Whole (parse F text)
  unfolding parse fail skip_whitespace advance
  parse-Whole text =
      let start : Reader F.Number = record { nodes = []; text_pool = []; rest = text; pos = 0 } in
      On-bind Whole (Child 0) (parse_value F 33 start) _ (parse_value-Builds 33 start tt)
        λ (c, r) (le, lt, lk).
          On-if Whole (length (skip_whitespace r).rest == 0) _ _ (omega arith, lk) tt

  -- The nodes of a document that `Parse` accepts are well linked: there is one at least, and each first child and each next
  -- sibling is a node of the table, further on than the node that names it. So walks along the links stay inside the
  -- table and end.
  pub parse-Linked :
      (text : Bytes) (doc : Reader F.Number)
      → parse F text ≡ ok doc
      → (0 < length doc.nodes) × Linked doc.nodes
  parse-Linked text doc e = subst (On Whole) e (parse-Whole text)
