-- ===== src/Report/Tests.antt =====
-- The environment functions of src/stats.cpp on short texts, and the theorems applied to them.
use framewire.Prelude.{ℕ, ◌≡◌, refl, ◌↔◌, List, [], ◌∷◌}
use framewire.Prelude.Chars.{Bytes}
use framewire.Report.{
  put, find, before_byte, after_byte, has_byte, parse_lines, parse_environment, critical_keys,
  compare_key, compare_keys, environment_mismatches,
}
use framewire.Report.Environment.{print, IsPrintable, put_all, parse_environment-print}
use framewire.Report.Mismatch.{AllAgree, environment_mismatches-AllAgree}

-- vo=gpu, hwdec=no and vo=x
abbrev pairs : List (Bytes × Bytes)
pairs =
    (b'v' ∷ b'o' ∷ [], b'g' ∷ b'p' ∷ b'u' ∷ [])
    ∷ (b'h' ∷ b'w' ∷ b'd' ∷ b'e' ∷ b'c' ∷ [], b'n' ∷ b'o' ∷ [])
    ∷ (b'v' ∷ b'o' ∷ [], b'x' ∷ [])
    ∷ []

pairs-IsPrintable : IsPrintable pairs
unfolding has_byte
pairs-IsPrintable = (refl, refl, refl, (refl, refl, refl, (refl, refl, refl, tt)))

parse_environment-print_example : parse_environment (print pairs) ≡ put_all [] pairs
parse_environment-print_example = parse_environment-print pairs pairs-IsPrintable

abbrev vo_of : ℕ → Bytes
vo_of c = b'v' ∷ b'o' ∷ b'=' ∷ c ∷ []

same_vo : environment_mismatches (vo_of b'x') (vo_of b'x') ≡ []
unfolding environment_mismatches compare_keys compare_key find parse_environment parse_lines put
    before_byte after_byte has_byte
same_vo = refl

environment_mismatches-AllAgree_example :
    (environment_mismatches (vo_of b'x') (vo_of b'y') ≡ [])
    ↔ AllAgree (parse_environment (vo_of b'x')) (parse_environment (vo_of b'y')) critical_keys
environment_mismatches-AllAgree_example =
    environment_mismatches-AllAgree b'v' b'v' (b'o' ∷ b'=' ∷ b'x' ∷ []) (b'o' ∷ b'=' ∷ b'y' ∷ [])
