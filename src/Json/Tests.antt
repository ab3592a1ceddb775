-- ===== src/Json/Tests.antt =====
-- src/json.cpp, run on concrete documents.
use native.Mathlib.Omega.{arith}
use framewire.Prelude.{ℕ, ◌+◌, ◌<◌, ◌^◌, ◌≡◌, ◌≢◌, refl, [], ◌∷◌, ◌++◌, length}
use framewire.Prelude.Chars.{Bytes, codes}
use framewire.Prelude.Int.{pos, negsuc}
use framewire.Prelude.Result.{Result, ok, err}
use framewire.Json.{Reader, Failure, out_of_rounds, unterminated_array}
use framewire.Json.Naturals.{naturals}
use framewire.Json.Text.{build_mpv_command, parse_string, json_escape_to}
use framewire.Json.Escaping.{reader, parse_string-json_escape_to}
use framewire.Json.Parse.{parse}
use framewire.Json.Rounds.Nesting.{parse-ends}
use framewire.Json.Links.{Linked}
use framewire.Json.Links.Built.{parse-Linked}
use framewire.Json.Links.Walks.{find_member-ends}
use framewire.Json.Values.{node, find_member, root, member, element, as_int, as_string}

abbrev args : framewire.Prelude.List Bytes
args = codes "get_property" ∷ codes "a\"\\b" ∷ []

abbrev empty_reader : Reader ℕ
empty_reader = record { nodes = []; text_pool = []; rest = []; pos = 0 }

abbrev document : Result Failure (Reader ℕ) → Reader ℕ
document (ok doc) = doc
document (err f) = empty_reader

-- mpv reads a command as it was meant.
command_id :
    as_int naturals (document (parse naturals (build_mpv_command args (pos 12)))) (negsuc 0) (
      member naturals
        (document (parse naturals (build_mpv_command args (pos 12))))
        (root naturals (document (parse naturals (build_mpv_command args (pos 12)))))
        (codes "request_id"))
    ≡ pos 12
unfolding parse build_mpv_command root member as_int
command_id = refl

command_arg :
    let doc = document (parse naturals (build_mpv_command args (pos 12))) in
    as_string naturals doc []
      (element naturals doc (member naturals doc (root naturals doc) (codes "command")) 1)
    ≡ codes "a\"\\b"
unfolding parse build_mpv_command root member element as_string
command_arg = refl

abbrev unclosed : Bytes
unclosed = codes "[1"

parse-ends_example : unterminated_array ≢ out_of_rounds
unfolding parse
parse-ends_example =
    parse-ends naturals unclosed (record { message = unterminated_array; at = 2 }) refl

abbrev value : Bytes
value = b'a' ∷ b'"' ∷ 1 ∷ 200 ∷ []

parse_string-json_escape_to_example :
    (q : ℕ) × (parse_string (reader {N = ℕ} [] (codes "x") (json_escape_to [] value ++ codes "]") 5)
      ≡ ok ((1, 4), reader [] (codes "x" ++ value) (codes "]") q))
parse_string-json_escape_to_example =
    parse_string-json_escape_to {N = ℕ} [] (codes "x") value (codes "]") 5 (omega arith)

abbrev two_members : Bytes
two_members = codes "{\"a\":1,\"b\":[2,3]}"

abbrev two_members_document : Reader ℕ
unfolding parse
two_members_document = document (parse naturals two_members)

two_members-parse : parse naturals two_members ≡ ok two_members_document
unfolding two_members_document
two_members-parse = refl

parse-Linked_example : (0 < length two_members_document.nodes) × Linked two_members_document.nodes
parse-Linked_example = parse-Linked naturals two_members two_members_document two_members-parse

find_member-ends_example :
    find_member naturals two_members_document
      (length two_members_document.nodes + 7)
      (node naturals two_members_document 0).first_child
      (codes "c")
    ≡ find_member naturals two_members_document
        (length two_members_document.nodes)
        (node naturals two_members_document 0).first_child
        (codes "c")
find_member-ends_example =
    find_member-ends naturals two_members two_members_document 0 7 (codes "c") two_members-parse
