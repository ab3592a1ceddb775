-- ===== src/Json/Escaping.antt =====
-- src/json.cpp: what `JsonEscapeTo` writes, `ParseString` reads back.
use native.Mathlib.Omega.{arith}
use framewire.Prelude.{
  ℕ, zero, suc, ◌+◌, ◌-◌, ◌*◌, ◌/◌, ◌%◌, ◌^◌, ◌≤◌, ◌<◌, ◌≡◌, refl, ap, subst, ◌∙◌, inl, inr,
  Bool-cases, true, false, List, [], ◌∷◌, ◌++◌, some, ltb, leb, ◌==◌, length, le→leb, ge→ltb,
  gt→leb, length-append, drop, append_assoc, append-nil, tests,
}
use framewire.Prelude.Chars.{Bytes, codes}
use framewire.Prelude.Result.{Result, ok, ◌>>=◌}
use framewire.Json.{JsonNode, Reader, Failure, advance}
use framewire.Json.Text.{
  hex_digit, hex_digits, utf8, append_utf8, join_surrogates, unicode_escape, escape, string_loop,
  parse_string, escaped, escape_bytes, json_escape_to, hex_char,
}

hex_digit-hex_char : (d : ℕ) → d < 16 → hex_digit (hex_char d) ≡ some d
unfolding hex_digit
hex_digit-hex_char d h = ground arith

hex_digits-suc :
    (n cp b d : ℕ) (bs : Bytes)
    → hex_digit b ≡ some d
    → hex_digits (suc n) cp (b ∷ bs) ≡ hex_digits n (cp * 16 + d) bs
unfolding hex_digits
hex_digits-suc n cp b d bs e = rw (hex_digits, e) refl

hex_digits-control :
    (c : ℕ) (k : Bytes)
    → c < 32
    → hex_digits 4 0 (b'0' ∷ b'0' ∷ hex_char (c / 16 % 16) ∷ hex_char (c % 16) ∷ k) ≡ some c
unfolding hex_digits
hex_digits-control c k h =
    let zero_digit : hex_digit b'0' ≡ some 0 = hex_digit-hex_char 0 (omega arith) in
    let high = hex_digit-hex_char (c / 16 % 16) (omega arith) in
    let low = hex_digit-hex_char (c % 16) (omega arith) in
    hex_digits-suc 3 0 b'0' 0 (b'0' ∷ hex_char (c / 16 % 16) ∷ hex_char (c % 16) ∷ k) zero_digit
    ∙ hex_digits-suc 2 (0 * 16 + 0) b'0' 0 (hex_char (c / 16 % 16) ∷ hex_char (c % 16) ∷ k)
        zero_digit
    ∙ hex_digits-suc 1 ((0 * 16 + 0) * 16 + 0) (hex_char (c / 16 % 16)) (c / 16 % 16)
        (hex_char (c % 16) ∷ k) high
    ∙ hex_digits-suc 0 (((0 * 16 + 0) * 16 + 0) * 16 + c / 16 % 16) (hex_char (c % 16)) (c % 16) k
        low
    ∙ ap some (omega arith)

-- A property of one byte from the case of the byte `x`, and that of the others.
case_byte : (P : ℕ → Type 0) (x c : ℕ) → P x → ((c == x) ≡ false → P c) → P c
case_byte P x c same other = elim (Bool-cases (c == x)) [
  | inl e ↦ let eq : x ≡ c = ground arith in subst P eq same
  | inr e ↦ other e
]

utf8-ascii : (c : ℕ) → c < 128 → utf8 c ≡ some (c ∷ [])
unfolding utf8
utf8-ascii c h = let one : leb c 0x7F ≡ true = le→leb c 0x7F (omega arith) in rw one refl

join_surrogates-ascii : (c : ℕ) (text : Bytes) → c < 128 → join_surrogates c text ≡ (c, 0)
unfolding join_surrogates
join_surrogates-ascii c text h =
    let low : leb 0xD800 c ≡ false = gt→leb 0xD800 c (omega arith) in rw low refl

escaped-length : (c : ℕ) → 1 ≤ length (escaped c)
unfolding escaped
escaped-length c = ground arith

length-escape_bytes : (value : Bytes) → length value ≤ length (escape_bytes value)
unfolding escape_bytes
length-escape_bytes [] = omega arith
length-escape_bytes (c ∷ cs) =
    omega
      (arith, escaped-length c, length-escape_bytes cs, length-append (escaped c) (escape_bytes cs))

module _ {N : Type 0} (nodes : List (JsonNode N)) where
  abbrev pub reader : Bytes → Bytes → ℕ → Reader N
  reader pool rest pos = record { nodes = nodes; text_pool = pool; rest = rest; pos = pos }

  -- The loop goes on behind `text`, which stands for the byte `c`.
  abbrev Reads : ℕ → Bytes → Type 0
  Reads c text =
      (fuel start : ℕ) (pool k : Bytes) (p : ℕ)
      → (q : ℕ) × (string_loop (suc fuel) start (reader pool (text ++ k) p)
          ≡ string_loop fuel start (reader (pool ++ c ∷ []) k q))

  unicode_escape-ascii :
      (c : ℕ) (pool text : Bytes) (p : ℕ)
      → 4 ≤ length text
      → c < 128
      → hex_digits 4 0 text ≡ some c
      → unicode_escape (reader pool text p) ≡ ok (reader (pool ++ c ∷ []) (drop 4 text) (p + 4 + 0))
  unfolding unicode_escape append_utf8 advance utf8
  unicode_escape-ascii c pool text p long ascii e =
      let enough : ltb (length text) 4 ≡ false = ge→ltb (length text) 4 long in
      let low : leb 0xD800 c ≡ false = gt→leb 0xD800 c (omega arith) in
      rw
        (
          unicode_escape,
          enough,
          e,
          join_surrogates-ascii c (drop 4 text) ascii,
          low,
          append_utf8,
          utf8-ascii c ascii,
          join_surrogates-ascii c (drop 4 text) ascii,
        )
        refl

  escaped-control :
      (c : ℕ)
      → c < 32
      → Reads c (codes "\\u" ++ b'0' ∷ b'0' ∷ hex_char (c / 16 % 16) ∷ hex_char (c % 16) ∷ [])
  unfolding string_loop escape advance
  escaped-control c h fuel start pool k p =
      let text = b'0' ∷ b'0' ∷ hex_char (c / 16 % 16) ∷ hex_char (c % 16) ∷ k in
      let e =
        unicode_escape-ascii c pool text (p + 1 + 1) (omega arith) (omega arith)
          (hex_digits-control c k h) in
      (_, ap (λ r. r >>= string_loop fuel start) e)

  -- One round of the loop reads what stands for one byte.
  escaped-Reads : (c : ℕ) → Reads c (escaped c)
  unfolding string_loop escaped
  escaped-Reads c =
      case_byte (λ c. Reads c (escaped c)) b'"' c (λ fuel start pool k p. (_, refl))
        λ quote.
          case_byte (λ c. Reads c (escaped c)) b'\\' c (λ fuel start pool k p. (_, refl))
            λ back.
              case_byte (λ c. Reads c (escaped c)) 8 c (λ fuel start pool k p. (_, refl))
                λ bs.
                  case_byte (λ c. Reads c (escaped c)) 12 c (λ fuel start pool k p. (_, refl))
                    λ ff.
                      case_byte (λ c. Reads c (escaped c)) b'\n' c
                        (λ fuel start pool k p. (_, refl))
                        λ nl.
                          case_byte (λ c. Reads c (escaped c)) b'\r' c
                            (λ fuel start pool k p. (_, refl))
                            λ cr.
                              case_byte (λ c. Reads c (escaped c)) b'\t' c
                                (λ fuel start pool k p. (_, refl))
                                λ tab. elim (Bool-cases (ltb c 0x20)) [
                                  | inl low ↦
                                      rw (escaped, quote, back, bs, ff, nl, cr, tab, low)
                                        (escaped-control c (omega tests))
                                  | inr high ↦
                                      rw (escaped, quote, back, bs, ff, nl, cr, tab, high)
                                        (λ fuel start pool k p.
                                          (p + 1, rw (quote, back, high) refl))
                                ]

  string_loop-escape_bytes :
      (value : Bytes) (fuel start : ℕ) (pool k : Bytes) (p : ℕ)
      → length value < fuel
      → (q : ℕ) × (string_loop fuel start (reader pool (escape_bytes value ++ b'"' ∷ k) p)
          ≡ ok (
            (start, (length (pool ++ value) % 2 ^ 32 + 2 ^ 32 - start) % 2 ^ 32),
            reader (pool ++ value) k q,
          ))
  unfolding string_loop escape_bytes advance
  string_loop-escape_bytes value zero start pool k p h = absurd (omega arith)
  string_loop-escape_bytes [] (suc fuel) start pool k p h = (p + 1, rw (append-nil pool) refl)
  string_loop-escape_bytes (c ∷ cs) (suc fuel) start pool k p h =
      let behind = escape_bytes cs ++ b'"' ∷ k in
      let (q, read) = escaped-Reads c fuel start pool behind p in
      let (q', rest) = string_loop-escape_bytes cs fuel start (pool ++ c ∷ []) k q (omega arith) in
      let e : (escaped c ++ escape_bytes cs) ++ b'"' ∷ k ≡ escaped c ++ behind =
        append_assoc (escaped c) (escape_bytes cs) (b'"' ∷ k) in
      let e' : (pool ++ c ∷ []) ++ cs ≡ pool ++ c ∷ cs = append_assoc pool (c ∷ []) cs in
      (q', rw (e, ← e') (read ∙ rest))

  -- Behind what `JsonEscapeTo` writes for any bytes, `ParseString` has read just these bytes back: they stand at the end
  -- of the pool, in the range that it returns, and nothing but its quoted text is taken from the input. Where the pool
  -- stays below 2^32 bytes.
  pub parse_string-json_escape_to :
      (pool value k : Bytes) (p : ℕ)
      → length pool + length value < 2 ^ 32
      → (q : ℕ) × (parse_string (reader pool (json_escape_to [] value ++ k) p)
          ≡ ok ((length pool, length value), reader (pool ++ value) k q))
  unfolding parse_string json_escape_to advance
  parse_string-json_escape_to pool value k p small =
      let (q, e) =
        string_loop-escape_bytes value (suc (length (escape_bytes value ++ b'"' ∷ k))) (length pool)
          pool k (p + 1)
          (omega
            (arith, length-escape_bytes value, length-append (escape_bytes value) (b'"' ∷ k))) in
      let flat : (escape_bytes value ++ b'"' ∷ []) ++ k ≡ escape_bytes value ++ b'"' ∷ k =
        append_assoc (escape_bytes value) (b'"' ∷ []) k in
      let start : length pool % 2 ^ 32 ≡ length pool = omega arith in
      let len : (length (pool ++ value) % 2 ^ 32 + 2 ^ 32 - length pool) % 2 ^ 32 ≡ length value =
        omega (arith, length-append pool value) in
      (
        q,
        ap
              (λ rest.
                string_loop (suc (length rest)) (length pool % 2 ^ 32) (reader pool rest (p + 1)))
              flat
            ∙ ap
                (λ at.
                  string_loop (suc (length (escape_bytes value ++ b'"' ∷ k))) at
                    (reader pool (escape_bytes value ++ b'"' ∷ k) (p + 1)))
                start
            ∙ e
            ∙ ap {B = Result Failure ((ℕ × ℕ) × Reader N)}
                (λ n. ok ((length pool, n), reader (pool ++ value) k q)) len,
      )
