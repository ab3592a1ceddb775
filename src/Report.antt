-- ===== src/Report.antt =====
-- src/stats.cpp: the environment that a producer publishes, read back and compared between two streams.
pub mod Environment
pub mod Mismatch
mod Tests
use framewire.Prelude.{
  ℕ, zero, suc, ◌+◌, Bool, true, false, ◌&&◌, List, [], ◌∷◌, ◌++◌, Option, none, some, ◌==◌,
  if◌then◌else◌, length,
}
use framewire.Prelude.Chars.{Bytes}

abbrev pub same_bytes : Bytes → Bytes → Bool
same_bytes [] [] = true
same_bytes [] (c ∷ cs) = false
same_bytes (b ∷ bs) [] = false
same_bytes (b ∷ bs) (c ∷ cs) = b == c && same_bytes bs cs

-- `std::map<std::string, std::string>`: assignment to a key, and `find`.
unfoldable pub put : List (Bytes × Bytes) → Bytes → Bytes → List (Bytes × Bytes)
put [] key value = (key, value) ∷ []
put ((k, v) ∷ pairs) key value =
    let rest = put pairs key value in
    if same_bytes k key then (key, value) ∷ pairs else (k, v) ∷ rest

unfoldable pub find : List (Bytes × Bytes) → Bytes → Option Bytes
find [] key = none
find ((k, v) ∷ pairs) key = let rest = find pairs key in if same_bytes k key then some v else rest

-- What stands before the first byte `stop` of a text, all of it where there is none; and what stands behind.
unfoldable pub before_byte : ℕ → Bytes → Bytes
before_byte stop [] = []
before_byte stop (b ∷ bs) = let rest = before_byte stop bs in if b == stop then [] else b ∷ rest

unfoldable pub after_byte : ℕ → Bytes → Bytes
after_byte stop [] = []
after_byte stop (b ∷ bs) = let rest = after_byte stop bs in if b == stop then bs else rest

unfoldable pub has_byte : ℕ → Bytes → Bool
has_byte stop [] = false
has_byte stop (b ∷ bs) = let rest = has_byte stop bs in if b == stop then true else rest

-- The loop of `ParseEnvironment` on the text from `start` on. Each round takes at least one byte, so as many rounds as
-- there are bytes are enough.
unfoldable pub parse_lines : ℕ → Bytes → List (Bytes × Bytes) → List (Bytes × Bytes)
unfolding put before_byte after_byte has_byte
parse_lines zero text out = out
parse_lines (suc fuel) [] out = out
parse_lines (suc fuel) (b ∷ bs) out =
    let line = before_byte b'\n' (b ∷ bs) in
    parse_lines fuel (after_byte b'\n' (b ∷ bs))
      (if has_byte b'=' line then put out (before_byte b'=' line) (after_byte b'=' line) else out)

unfoldable pub parse_environment : Bytes → List (Bytes × Bytes)
unfolding parse_lines
parse_environment text = parse_lines (length text) text []

-- kCritical
abbrev pub critical_keys : List Bytes
critical_keys =
    (b'v' ∷ b'o' ∷ [])
    ∷ (b'g' ∷ b'p' ∷ b'u' ∷ b'_' ∷ b'c' ∷ b'o' ∷ b'n' ∷ b't' ∷ b'e' ∷ b'x' ∷ b't' ∷ [])
    ∷ (b'h' ∷ b'w' ∷ b'd' ∷ b'e' ∷ b'c' ∷ [])
    ∷ (b'r' ∷ b'e' ∷ b'n' ∷ b'd' ∷ b'e' ∷ b'r' ∷ [])
    ∷ (b'v' ∷ b'i' ∷ b'd' ∷ b'e' ∷ b'o' ∷ [])
    ∷ []

-- The message `key: a has 'x', b has 'y'`.
abbrev pub mismatch : Bytes → Bytes → Bytes → Bytes
mismatch key x y =
    key
    ++ (b':' ∷ b' ' ∷ b'a' ∷ b' ' ∷ b'h' ∷ b'a' ∷ b's' ∷ b' ' ∷ 39 ∷ [])
    ++ x
    ++ (39 ∷ b',' ∷ b' ' ∷ b'b' ∷ b' ' ∷ b'h' ∷ b'a' ∷ b's' ∷ b' ' ∷ 39 ∷ [])
    ++ y
    ++ (39 ∷ [])

-- What the loop of `EnvironmentMismatches` appends for one key.
unfoldable pub compare_key : Option Bytes → Option Bytes → Bytes → List Bytes
compare_key none y key = []
compare_key (some x) none key = []
compare_key (some x) (some y) key = if same_bytes x y then [] else mismatch key x y ∷ []

unfoldable pub compare_keys : List (Bytes × Bytes) → List (Bytes × Bytes) → List Bytes → List Bytes
unfolding compare_key find
compare_keys ea eb [] = []
compare_keys ea eb (key ∷ keys) =
    compare_key (find ea key) (find eb key) key ++ compare_keys ea eb keys

unfoldable pub environment_mismatches : Bytes → Bytes → List Bytes
unfolding compare_keys parse_environment
environment_mismatches [] b = []
environment_mismatches (x ∷ a) [] = []
environment_mismatches (x ∷ a) (y ∷ b) =
    compare_keys (parse_environment (x ∷ a)) (parse_environment (y ∷ b)) critical_keys
