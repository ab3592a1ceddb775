-- ===== src/Json/Values.antt =====
-- src/json.cpp and include/framewire/json.h: `JsonValue`, a handle to a node of a parsed document.
use framewire.Prelude.{
  ℕ, zero, suc, Bool, true, false, ◌&&◌, [], Option, none, some, ltb, ◌==◌, if◌then◌else◌, length,
  get_or, take, drop,
}
use framewire.Prelude.Chars.{Bytes}
use framewire.Prelude.Int.{ℤ, pos}
use framewire.Report.{same_bytes}
use framewire.Json.{
  Numbers, JsonType, json_null, json_bool, json_number, json_string, json_array, json_object,
  JsonNode, default_node, Reader,
}

-- A handle is the index of its node; an invalid one is `none`.
abbrev pub JsonValue : Type 0
JsonValue = Option ℕ

abbrev pub is_container : JsonType → Bool
is_container json_array = true
is_container json_object = true
is_container _ = false

module _ (F : Numbers) (doc : Reader F.Number) where
  unfoldable pub root : JsonValue
  root = if length doc.nodes == 0 then none else some 0

  -- Every index that is read names a node.
  unfoldable pub node : ℕ → JsonNode F.Number
  node i = get_or doc.nodes i (default_node F.number_zero json_null)

  unfoldable pub text : ℕ → ℕ → Bytes
  text off len = take len (drop off doc.text_pool)

  unfoldable pub type_of : JsonValue → JsonType
  unfolding node
  type_of none = json_null
  type_of (some i) = (node i).json_type

  unfoldable pub size : JsonValue → ℕ
  unfolding node
  size none = 0
  size (some i) = if is_container (node i).json_type then (node i).child_count else 0

  -- The scan over the members from one on. Siblings stand further on in the table, so as many rounds as there are nodes
  -- are enough.
  unfoldable pub find_member : ℕ → Option ℕ → Bytes → JsonValue
  unfolding node text
  find_member fuel none key = none
  find_member zero (some c) key = none
  find_member (suc fuel) (some c) key =
      let later = find_member fuel (node c).next_sibling key in
      if same_bytes (text (node c).key_off (node c).key_len) key then some c else later

  -- `operator[]` of a member name.
  unfoldable pub member : JsonValue → Bytes → JsonValue
  unfolding node find_member
  member none key = none
  member (some i) key = elim (node i).json_type [
    | json_object ↦ find_member (length doc.nodes) (node i).first_child key
    | _ ↦ none
  ]

  unfoldable pub nth_sibling : ℕ → Option ℕ → JsonValue
  unfolding node
  nth_sibling n none = none
  nth_sibling zero (some c) = some c
  nth_sibling (suc n) (some c) = nth_sibling n (node c).next_sibling

  -- `operator[]` of a position.
  unfoldable pub element : JsonValue → ℕ → JsonValue
  unfolding node nth_sibling
  element none index = none
  element (some i) index =
      if is_container (node i).json_type && ltb index (node i).child_count
      then nth_sibling index (node i).first_child
      else none

  unfoldable pub as_double : F.Number → JsonValue → F.Number
  unfolding node
  as_double fallback none = fallback
  as_double fallback (some i) = elim (node i).json_type [
    | json_number ↦ (node i).number
    | json_bool ↦ if (node i).boolean then F.number_one else F.number_zero
    | _ ↦ fallback
  ]

  unfoldable pub as_int : ℤ → JsonValue → ℤ
  unfolding node
  as_int fallback none = fallback
  as_int fallback (some i) = elim (node i).json_type [
    | json_number ↦ F.to_int (node i).number
    | json_bool ↦ if (node i).boolean then pos 1 else pos 0
    | _ ↦ fallback
  ]

  unfoldable pub as_bool : Bool → JsonValue → Bool
  unfolding node
  as_bool fallback none = fallback
  as_bool fallback (some i) = elim (node i).json_type [
    | json_bool ↦ (node i).boolean
    | json_number ↦ F.is_nonzero (node i).number
    | _ ↦ fallback
  ]

  unfoldable pub as_string : Bytes → JsonValue → Bytes
  unfolding node text
  as_string fallback none = fallback
  as_string fallback (some i) = elim (node i).json_type [
    | json_string ↦ text (node i).str_off (node i).str_len
    | _ ↦ fallback
  ]

  unfoldable pub key : JsonValue → Bytes
  unfolding node text
  key none = []
  key (some i) = text (node i).key_off (node i).key_len

  unfoldable pub get_first_child : JsonValue → JsonValue
  unfolding node
  get_first_child none = none
  get_first_child (some i) = (node i).first_child

  unfoldable pub get_next_sibling : JsonValue → JsonValue
  unfolding node
  get_next_sibling none = none
  get_next_sibling (some i) = (node i).next_sibling
