-- ===== src/Json/Text.antt =====
-- src/json.cpp: strings. What `ParseString` decodes, and what `JsonEscapeTo` and the command builders write.
use Prim.Native.Nat.{bit_and, bit_or}
use framewire.Prelude.{
  ℕ, zero, suc, ◌+◌, ◌-◌, ◌*◌, ◌/◌, ◌%◌, ◌^◌, Bool, true, false, not, ◌&&◌, List, [], ◌∷◌, ◌++◌,
  Option, none, some, ltb, leb, ◌==◌, if◌then◌else◌, length, drop,
}
use framewire.Prelude.Chars.{Bytes, codes}
use framewire.Prelude.Int.{ℤ, pos, negsuc}
use framewire.Prelude.Result.{Result, ok, ◌>>=◌}
use framewire.Json.{
  Reader, Failure, fail, advance, push_byte, at_byte, raw_control, escape_at_end, truncated_unicode,
  bad_hex, out_of_range, unknown_escape, unterminated_string, out_of_rounds,
}

unfoldable pub is_digit : ℕ → Bool
is_digit c = leb b'0' c && leb c b'9'

unfoldable pub hex_digit : ℕ → Option ℕ
hex_digit c =
    if leb b'0' c && leb c b'9'
    then some (c - b'0')
    else if leb b'a' c && leb c b'f'
    then some (c - b'a' + 10)
    else if leb b'A' c && leb c b'F'
    then some (c - b'A' + 10)
    else none

-- The loops that read `n` hex digits; `cp << 4 | d` is `cp * 16 + d` for a digit below 16.
unfoldable pub hex_digits : ℕ → ℕ → Bytes → Option ℕ
unfolding hex_digit
hex_digits zero cp bs = some cp
hex_digits (suc n) cp [] = none
hex_digits (suc n) cp (b ∷ bs) = elim (hex_digit b) [
  | none ↦ none
  | some d ↦ hex_digits n (cp * 16 + d) bs
]

unfoldable pub utf8 : ℕ → Option Bytes
utf8 cp =
    if leb cp 0x7F
    then some (cp ∷ [])
    else if leb cp 0x7FF
    then some (bit_or 0xC0 (cp / 2 ^ 6) ∷ bit_or 0x80 (bit_and cp 0x3F) ∷ [])
    else if leb cp 0xFFFF
    then some (
        bit_or 0xE0 (cp / 2 ^ 12)
        ∷ bit_or 0x80 (bit_and (cp / 2 ^ 6) 0x3F)
        ∷ bit_or 0x80 (bit_and cp 0x3F)
        ∷ [])
    else if leb cp 0x10FFFF
    then some (
        bit_or 0xF0 (cp / 2 ^ 18)
        ∷ bit_or 0x80 (bit_and (cp / 2 ^ 12) 0x3F)
        ∷ bit_or 0x80 (bit_and (cp / 2 ^ 6) 0x3F)
        ∷ bit_or 0x80 (bit_and cp 0x3F)
        ∷ [])
    else none

-- What one escape appends, by the byte behind the backslash; `u` is not among them.
unfoldable pub unescape : ℕ → Option ℕ
unescape e =
    if e == b'"'
    then some b'"'
    else if e == b'\\'
    then some b'\\'
    else if e == b'/'
    then some b'/'
    else if e == b'b'
    then some 8
    else if e == b'f'
    then some 12
    else if e == b'n'
    then some b'\n'
    else if e == b'r'
    then some b'\r'
    else if e == b't'
    then some b'\t'
    else none

-- The low surrogate that `\uXXXX` in front of the text gives, if it is one.
unfoldable pub low_surrogate : Bytes → Option ℕ
unfolding hex_digits
low_surrogate text =
    let low = hex_digits 4 0 (drop 2 text) in
    if leb 6 (length text) && at_byte b'\\' text && at_byte b'u' (drop 1 text)
    then elim low [ none ↦ none | some l ↦ if leb 0xDC00 l && leb l 0xDFFF then some l else none ]
    else none

-- The code point of an escape whose first unit is `cp`, and how many bytes of the text behind it belong to it.
unfoldable pub join_surrogates : ℕ → Bytes → ℕ × ℕ
unfolding low_surrogate
join_surrogates cp text =
    if leb 0xD800 cp && leb cp 0xDBFF
    then elim (low_surrogate text) [
      | none ↦ (cp, 0)
      | some low ↦ (0x10000 + (cp - 0xD800) * 2 ^ 10 + (low - 0xDC00), 6)
    ]
    else (cp, 0)

abbrev pub or_replacement : ℕ → ℕ
or_replacement cp = if leb 0xD800 cp && leb cp 0xDFFF then 0xFFFD else cp

module _ {N : Type 0} where
  unfoldable pub append_utf8 : ℕ → Reader N → Result Failure (Reader N)
  unfolding fail utf8
  append_utf8 cp r = elim (utf8 cp) [
    | none ↦ fail out_of_range r
    | some bytes ↦ ok (record r { text_pool = r.text_pool ++ bytes })
  ]

  -- The case `u` of `ParseString`, from behind the `u` on.
  unfoldable pub unicode_escape : Reader N → Result Failure (Reader N)
  unfolding fail advance hex_digits join_surrogates append_utf8
  unicode_escape r =
      if ltb (length r.rest) 4 then fail truncated_unicode r else elim (hex_digits 4 0 r.rest) [
        | none ↦ fail bad_hex r
        | some unit ↦
            let (cp, more) = join_surrogates unit (drop 4 r.rest) in
            append_utf8 (or_replacement cp) (advance more (advance 4 r))
      ]

  -- From behind a backslash on; `text` is what is left to read.
  unfoldable pub escape : Reader N → Bytes → Result Failure (Reader N)
  unfolding fail advance push_byte unescape unicode_escape
  escape r [] = fail escape_at_end r
  escape r (e ∷ es) = if e == b'u' then unicode_escape (advance 1 r) else elim (unescape e) [
    | none ↦ fail unknown_escape (advance 1 r)
    | some c ↦ ok (push_byte c (advance 1 r))
  ]

  -- One round of the loop of `ParseString`, where `text` is what is left to read and `more` the rounds to come.
  abbrev pub string_round :
      (Reader N → Result Failure ((ℕ × ℕ) × Reader N))
      → ℕ
      → Reader N
      → Bytes
      → Result Failure ((ℕ × ℕ) × Reader N)
  string_round more start r [] = fail unterminated_string r
  string_round more start r (c ∷ cs) =
      if c == b'"'
      then ok ((start, (length r.text_pool % 2 ^ 32 + 2 ^ 32 - start) % 2 ^ 32), advance 1 r)
      else if not (c == b'\\')
      then if ltb c 0x20 then fail raw_control r else more (advance 1 (push_byte c r))
      else escape (advance 1 r) cs >>= more

  unfoldable pub string_loop : ℕ → ℕ → Reader N → Result Failure ((ℕ × ℕ) × Reader N)
  unfolding fail advance push_byte escape
  string_loop zero start r = fail out_of_rounds r
  string_loop (suc fuel) start r = string_round (string_loop fuel start) start r r.rest

  -- The offset and the length of the decoded text in the pool. Each round takes at least one byte of the text, so one round more than there are
  -- bytes is enough.
  unfoldable pub parse_string : Reader N → Result Failure ((ℕ × ℕ) × Reader N)
  unfolding advance string_loop
  parse_string r =
      let s = advance 1 r in string_loop (suc (length s.rest)) (length s.text_pool % 2 ^ 32) s

-- `%04x` of a byte.
abbrev pub hex_char : ℕ → ℕ
hex_char d = if ltb d 10 then b'0' + d else b'a' + (d - 10)

unfoldable pub escaped : ℕ → Bytes
escaped c =
    if c == b'"'
    then codes "\\\""
    else if c == b'\\'
    then codes "\\\\"
    else if c == 8
    then codes "\\b"
    else if c == 12
    then codes "\\f"
    else if c == b'\n'
    then codes "\\n"
    else if c == b'\r'
    then codes "\\r"
    else if c == b'\t'
    then codes "\\t"
    else if ltb c 0x20
    then codes "\\u" ++ b'0' ∷ b'0' ∷ hex_char (c / 16 % 16) ∷ hex_char (c % 16) ∷ []
    else c ∷ []

unfoldable pub escape_bytes : Bytes → Bytes
unfolding escaped
escape_bytes [] = []
escape_bytes (c ∷ cs) = escaped c ++ escape_bytes cs

unfoldable pub json_escape_to : Bytes → Bytes → Bytes
unfolding escape_bytes
json_escape_to out value = out ++ b'"' ∷ escape_bytes value ++ b'"' ∷ []

-- `std::to_string`: an `int64_t` has at most 19 digits.
unfoldable pub digits : ℕ → ℕ → Bytes
digits zero n = []
digits (suc fuel) n =
    let high = digits fuel (n / 10) in (if ltb n 10 then [] else high) ++ (b'0' + n % 10) ∷ []

unfoldable pub to_string : ℤ → Bytes
unfolding digits
to_string (pos n) = digits 19 n
to_string (negsuc n) = b'-' ∷ digits 19 (suc n)

unfoldable pub build_mpv_observe_command : ℤ → Bytes → ℤ → Bytes
unfolding json_escape_to to_string
build_mpv_observe_command observe_id property request_id =
    json_escape_to
      (codes "{\"command\":[\"observe_property\"," ++ to_string observe_id ++ b',' ∷ []) property
    ++ codes "],\"request_id\":"
    ++ to_string request_id
    ++ codes "}\n"

-- The loop of `BuildMpvCommand` over the arguments, `first` in its first round.
unfoldable pub write_args : Bool → Bytes → List Bytes → Bytes
unfolding json_escape_to
write_args first out [] = out
write_args first out (a ∷ args) =
    write_args false (json_escape_to (if first then out else out ++ b',' ∷ []) a) args

unfoldable pub build_mpv_command : List Bytes → ℤ → Bytes
unfolding write_args to_string
build_mpv_command args request_id =
    write_args true (codes "{\"command\":[") args
    ++ codes "],\"request_id\":"
    ++ to_string request_id
    ++ codes "}\n"
