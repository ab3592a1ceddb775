-- ===== src/Prelude/Chars.antt =====
-- C character buffers as lists of bytes of a fixed length, and C strings inside them.
use framewire.Prelude.Tests.{◌==◌, if◌then◌else◌}
use framewire.Prelude.Lists.{length, take, drop}
use Prim.Native.Char.{code}
use Prim.Native.String.{String}
use Prim.Native.Nat.{ℕ, zero, suc}
use mathlib.Core.List.{List, [], ◌∷◌, ◌++◌}

abbrev pub Bytes : Type 0
Bytes = List ℕ

-- The code points of a literal, which are its bytes where the text is ASCII.
abbrev pub codes : String → Bytes
codes String.[] = []
codes (String.◌∷◌ c s) = code c ∷ codes s

-- The bytes before the first NUL: what a `const char*` to them denotes.
unfoldable pub c_str : Bytes → Bytes
c_str [] = []
c_str (c ∷ cs) = if c == 0 then [] else c ∷ c_str cs

-- `snprintf(buf, size, "%s", text)`: at most `size - 1` bytes of the text, then a NUL; the bytes of
-- the buffer behind that NUL keep their values.
unfoldable pub snprintf : Bytes → ℕ → Bytes → Bytes
unfolding c_str
snprintf buf zero text = buf
snprintf buf (suc n) text =
    let kept = take n (c_str text) in kept ++ 0 ∷ drop (suc (length kept)) buf
