-- ===== src/Json.antt =====
-- src/json.cpp and include/framewire/json.h: the node table of a parsed document, and the reader's state with its single steps.
pub mod Text
pub mod Parse
pub mod Values
pub mod Naturals
pub mod Escaping
pub mod Rounds
pub mod Links
mod Tests
use framewire.Prelude.{
  ℕ, zero, suc, ◌+◌, Bool, true, false, not, ◌&&◌, ◌||◌, List, [], ◌∷◌, ◌++◌, Option, none, some,
  ltb, leb, ◌==◌, if◌then◌else◌, length, drop,
}
use framewire.Prelude.Chars.{Bytes}
use framewire.Prelude.Int.{ℤ}
use framewire.Prelude.Result.{Result, ok, err}

-- `double`, as far as the reader needs it: `from_chars text` is the value where `std::from_chars` reads the whole of
-- `text` as one number in range.
pub record Numbers : Type 1 where
  pub Number : Type 0
  pub number_zero : Number
  pub number_one : Number
  pub from_chars : Bytes → Option Number
  -- `static_cast<int64_t>`
  pub to_int : Number → ℤ
  -- `number != 0.0`
  pub is_nonzero : Number → Bool
  -- what the producer does to a playback position: `-1.0`, `position >= 0.0` and `static_cast<int64_t>(position * 1e9)`
  pub minus_one : Number
  pub at_least_zero : Number → Bool
  pub seconds_to_nanos : Number → ℤ

pub data JsonType : Type 0 where
  json_null : JsonType
  json_bool : JsonType
  json_number : JsonType
  json_string : JsonType
  json_array : JsonType
  json_object : JsonType

-- An index below 0 is `none`.
pub record JsonNode (N : Type 0) : Type 0 where
  pub json_type : JsonType
  pub boolean : Bool
  pub number : N
  pub str_off : ℕ
  pub str_len : ℕ
  pub key_off : ℕ
  pub key_len : ℕ
  pub first_child : Option ℕ
  pub next_sibling : Option ℕ
  pub child_count : ℕ

-- A node of a type, with the initial values of the struct.
abbrev pub default_node : {N : Type 0} → N → JsonType → JsonNode N
default_node nought kind = record {
  json_type = kind;
  boolean = false;
  number = nought;
  str_off = 0;
  str_len = 0;
  key_off = 0;
  key_len = 0;
  first_child = none;
  next_sibling = none;
  child_count = 0;
}

-- The messages of `Fail`; `out_of_rounds` is none of the source's, it says that a loop of the model was cut short.
pub data Message : Type 0 where
  trailing_bytes : Message
  nests_too_deeply : Message
  unexpected_end : Message
  unexpected_character : Message
  expected_name : Message
  expected_colon : Message
  unterminated_object : Message
  expected_brace : Message
  unterminated_array : Message
  expected_bracket : Message
  raw_control : Message
  escape_at_end : Message
  truncated_unicode : Message
  bad_hex : Message
  out_of_range : Message
  unknown_escape : Message
  unterminated_string : Message
  needs_digit : Message
  leading_zero : Message
  malformed_number : Message
  unknown_literal : Message
  out_of_rounds : Message

pub record Failure : Type 0 where
  pub message : Message
  pub at : ℕ

-- The state of a parse: `rest` is the part of `src_` from `pos_` on.
pub record Reader (N : Type 0) : Type 0 where
  pub nodes : List (JsonNode N)
  pub text_pool : Bytes
  pub rest : Bytes
  pub pos : ℕ

module _ {N : Type 0} where
  -- `Fail`: the position stands in the message, and nothing of the document is left.
  unfoldable pub fail {ℓ} : {A : Type ℓ} → Message → Reader N → Result Failure A
  fail message r = err (record { message = message; at = r.pos })

  unfoldable pub advance : ℕ → Reader N → Reader N
  advance n r = record r { rest = drop n r.rest; pos = r.pos + n }

  unfoldable pub push_byte : ℕ → Reader N → Reader N
  push_byte c r = record r { text_pool = r.text_pool ++ c ∷ [] }

  unfoldable pub new_node : N → JsonType → Reader N → ℕ × Reader N
  new_node nought kind r =
      (length r.nodes, record r { nodes = r.nodes ++ default_node nought kind ∷ [] })

-- `Peek() == c`, where `AtEnd()` is none of the bytes.
abbrev pub at_byte : ℕ → Bytes → Bool
at_byte c [] = false
at_byte c (b ∷ bs) = b == c

abbrev pub is_whitespace : ℕ → Bool
is_whitespace c = c == b' ' || c == b'\t' || c == b'\n' || c == b'\r'

-- How many bytes of white space stand in front.
unfoldable pub whitespace_run : Bytes → ℕ
whitespace_run [] = 0
whitespace_run (c ∷ cs) = let more = whitespace_run cs in if is_whitespace c then suc more else 0

unfoldable pub skip_whitespace : {N : Type 0} → Reader N → Reader N
unfolding advance whitespace_run
skip_whitespace r = advance (whitespace_run r.rest) r

unfoldable pub starts_with : Bytes → Bytes → Bool
starts_with [] text = true
starts_with (c ∷ cs) [] = false
starts_with (c ∷ cs) (b ∷ bs) = b == c && starts_with cs bs

unfoldable pub parse_literal : {N : Type 0} → Bytes → Reader N → Result Failure (Reader N)
unfolding fail advance starts_with
parse_literal literal r =
    if starts_with literal r.rest then ok (advance (length literal) r) else fail unknown_literal r
