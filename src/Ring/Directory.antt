-- ===== src/Ring/Directory.antt =====
-- src/spsc_ring.cpp: the pass names and the environment, from publication to reading.
use framewire.Prelude.{
  ℕ, zero, suc, ◌+◌, ◌-◌, ◌%◌, ◌^◌, ◌≤◌, ◌<◌, ◌≡◌, refl, ap, ap₂, ◌∙◌, inl, inr, min, Bool-cases,
  true, false, List, [], ◌∷◌, ◌++◌, map, Option, arith, ◌==◌, length, length-take, take, set,
}
use framewire.Prelude.Chars.{Bytes, c_str, snprintf}
use framewire.Prelude.Bits.{bit_and-low_mask}
use framewire.Telemetry.{max_passes, pass_name_len}
use framewire.Ring.{RingHeader, environment_len, add32}
use framewire.Ring.Publish.{
  name_or_empty, write_names, publish_layout, read_names, read_layout, publish_environment,
  read_environment,
}

nul_written : (rest : Bytes) (j : ℕ) → c_str (set (0 ∷ rest) j 0) ≡ []
unfolding c_str
nul_written rest zero = refl
nul_written rest (suc j) = refl

c_str_nul : (c : ℕ) (cs : Bytes) → (c == 0) ≡ true → c_str (c ∷ cs) ≡ []
unfolding c_str
c_str_nul c cs h = rw h

c_str_byte : (c : ℕ) (cs : Bytes) → (c == 0) ≡ false → c_str (c ∷ cs) ≡ c ∷ c_str cs
unfolding c_str
c_str_byte c cs h = rw h

c_str_nil : c_str [] ≡ []
unfolding c_str
c_str_nil = refl

-- Behind a C string of a buffer, one more NUL changes nothing.
c_str-set :
    (n : ℕ) (text rest : Bytes) (j : ℕ)
    → length (take n (c_str text)) ≤ j
    → c_str (set (take n (c_str text) ++ 0 ∷ rest) j 0) ≡ take n (c_str text)
c_str-set zero text rest j h = nul_written rest j
c_str-set (suc n) [] rest j h = rw c_str_nil (nul_written rest j)
c_str-set (suc n) (c ∷ cs) rest zero h = elim (Bool-cases (c == 0)) [
  | inl nul ↦ rw (c_str_nul c cs nul) (nul_written rest 0)
  | inr other ↦ absurd (omega (arith, ap (λ s. length (take (suc n) s)) (c_str_byte c cs other)))
]
c_str-set (suc n) (c ∷ cs) rest (suc j) h = elim (Bool-cases (c == 0)) [
  | inl nul ↦ rw (c_str_nul c cs nul) (nul_written rest (suc j))
  | inr other ↦ rw (c_str_byte c cs other) (
      c_str_byte c (set (take n (c_str cs) ++ 0 ∷ rest) j 0) other
      ∙ ap (◌∷◌ c) (
          c_str-set n cs rest j
            (omega (arith, ap (λ s. length (take (suc n) s)) (c_str_byte c cs other)))))
]

length-take_le {ℓ} : {A : Type ℓ} (n : ℕ) (xs : List A) → length (take n xs) ≤ n
length-take_le n xs = omega (arith, length-take n xs)

-- A text printed into a buffer and read back with a NUL forced into the last place.
printed :
    (buf : Bytes) (n : ℕ) (text : Bytes)
    → c_str (set (snprintf buf (suc n) text) n 0) ≡ take n (c_str text)
unfolding snprintf
printed buf n text = c_str-set n text _ n (length-take_le n (c_str text))

-- The environment arrives as it was published, up to its first NUL and cut to 511 bytes.
pub read-publish_environment :
    (h : RingHeader) (text : Bytes)
    → read_environment (publish_environment h text) ≡ take (environment_len - 1) (c_str text)
unfolding read_environment publish_environment
read-publish_environment h text = printed h.environment (environment_len - 1) text

-- The name that the consumer sees at each place: the published one while there is one, else none.
abbrev pub shown : ℕ → List (Option Bytes) → ℕ → List Bytes
shown n names zero = []
shown zero names (suc m) = [] ∷ shown zero names m
shown (suc n) [] (suc m) = [] ∷ shown n [] m
shown (suc n) (s ∷ names) (suc m) =
    take (pass_name_len - 1) (c_str (name_or_empty s)) ∷ shown n names m

-- Every buffer of the caller has room for its first byte.
abbrev pub AllNonEmpty : List Bytes → Type 0
AllNonEmpty [] = Unit {0}
AllNonEmpty (b ∷ bs) = (0 < length b) × AllNonEmpty bs

emptied : (b : Bytes) → 0 < length b → c_str (set b 0 0) ≡ []
unfolding c_str
emptied [] h = absurd (omega arith)
emptied (c ∷ cs) h = refl

rest_emptied :
    (names : List (Option Bytes)) (src out : List Bytes)
    → AllNonEmpty out
    → map c_str (read_names 0 src out) ≡ shown 0 names (length out)
unfolding read_names
rest_emptied names src [] full = refl
rest_emptied names src (o ∷ out) full =
    ap₂ ◌∷◌ (emptied o full.0) (rest_emptied names src out full.1)

names_shown :
    (n : ℕ) (names : List (Option Bytes)) (bufs out : List Bytes)
    → n ≤ length names
    → length bufs ≡ length out
    → AllNonEmpty out
    → map c_str (read_names n (write_names n names bufs) out) ≡ shown n names (length out)
unfolding read_names write_names
names_shown zero names bufs out hn e full = rest_emptied names (write_names 0 names bufs) out full
names_shown (suc n) names [] [] hn e full = refl
names_shown (suc n) names [] (o ∷ out) hn e full = absurd (omega arith)
names_shown (suc n) names (b ∷ bufs) [] hn e full = absurd (omega arith)
names_shown (suc n) [] (b ∷ bufs) (o ∷ out) hn e full = absurd (omega arith)
names_shown (suc n) (s ∷ names) (b ∷ bufs) (o ∷ out) hn e full =
    ap₂ ◌∷◌ (printed b 47 (name_or_empty s))
      (names_shown n names bufs out (omega arith) (omega arith) full.1)

-- After `PublishLayout` the consumer reads the number of names, at most 32, as many of the names, as C strings cut
-- to 47 bytes, and a version whose low byte is the one that records carry from then on.
pub read-publish_layout :
    (h : RingHeader) (names : List (Option Bytes)) (count : ℕ) (out : List Bytes)
    → count ≤ length names
    → length h.pass_names ≡ max_passes
    → length out ≡ max_passes
    → AllNonEmpty out
    → let (h', carried) = publish_layout h names count in
      let (n, read, version) = read_layout h' out in
      (n ≡ min count max_passes)
      × (map c_str read ≡ shown (min count max_passes) names max_passes)
      × (version ≡ (h.layout_version + 1) % 2 ^ 32)
      × (carried ≡ version % 256)
unfolding publish_layout read_layout
read-publish_layout h names count out hn hb ho full =
    let kept : min (min count max_passes) max_passes ≡ min count max_passes = omega arith in
    (
      kept,
      rw (kept, ← ho) (names_shown _ names h.pass_names out (omega arith) (omega arith) full),
      refl,
      bit_and-low_mask 8 (add32 h.layout_version 1),
    )
