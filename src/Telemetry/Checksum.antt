-- ===== src/Telemetry/Checksum.antt =====
-- include/framewire/telemetry.h: what the checksum of a record detects.
use Prim.Native.Nat.{bit_xor, bit_xor-bitwise, differ}
use native.Mathlib.Nat.{mod-add-div, pow-suc}
use framewire.Prelude.{
  ℕ, zero, suc, ◌+◌, ◌*◌, ◌/◌, ◌%◌, ◌^◌, ◌<◌, ◌≡◌, ◌≢◌, refl, sym, ap, subst, ◌∙◌, arith, true,
  false, Bool-cases, inl, inr, List, [], ◌∷◌, ◌++◌, ◌==◌, ==_iff,
}
use framewire.Prelude.Bits.{rounds}
use framewire.Prelude.Chars.{Bytes}
use framewire.Telemetry.{
  TelemetryRecord, le_bytes, pass_bytes, covered_bytes, fnv_round, fnv_from, fnv1a, stamp_checksum,
  verify_checksum,
}

-- A stamped record verifies.
pub verify_checksum-stamp_checksum :
    (r : TelemetryRecord) → verify_checksum (stamp_checksum r) ≡ true
unfolding verify_checksum stamp_checksum covered_bytes
verify_checksum-stamp_checksum r = ground arith

xor_step : (a b : ℕ) → bit_xor a b ≡ bit_xor (a / 2) (b / 2) * 2 + differ (a % 2) (b % 2)
xor_step zero b = omega (arith, bit_xor-bitwise 0 b, bit_xor-bitwise 0 (b / 2))
xor_step (suc a) b = omega (
  arith,
  bit_xor-bitwise (suc a) b,
  bit_xor-bitwise (suc a / 2) (b / 2),
  rounds differ (λ b. b) a (suc a / 2) (suc a / 2) (b / 2) (omega arith) (omega arith),
)

differ_bits :
    (x y : ℕ)
    → x < 2
    → y < 2
    → (differ x y < 2) × (differ (differ x y) y ≡ x) × (differ x (differ x y) ≡ y)
differ_bits zero zero h g = (omega arith, refl, refl)
differ_bits zero (suc zero) h g = (omega arith, refl, refl)
differ_bits zero (suc (suc y)) h g = absurd (omega arith)
differ_bits (suc zero) zero h g = (omega arith, refl, refl)
differ_bits (suc zero) (suc zero) h g = (omega arith, refl, refl)
differ_bits (suc zero) (suc (suc y)) h g = absurd (omega arith)
differ_bits (suc (suc x)) y h g = absurd (omega arith)

-- `^` twice with the same word, on words of `k` bits.
xor_word :
    (k a b : ℕ)
    → a < 2 ^ k
    → b < 2 ^ k
    → (bit_xor a b < 2 ^ k) × (bit_xor (bit_xor a b) b ≡ a) × (bit_xor a (bit_xor a b) ≡ b)
xor_word zero zero zero h g = (omega arith, refl, refl)
xor_word zero zero (suc b) h g = absurd (omega arith)
xor_word zero (suc a) b h g = absurd (omega arith)
xor_word (suc k) a b h g =
    let h' : a < 2 ^ k * 2 = rw pow-suc at h in
    let g' : b < 2 ^ k * 2 = rw pow-suc at g in
    let (small, right, left) = xor_word k (a / 2) (b / 2) (omega arith) (omega arith) in
    let (bit, bit_right, bit_left) = differ_bits (a % 2) (b % 2) (omega arith) (omega arith) in
    let half : bit_xor a b / 2 ≡ bit_xor (a / 2) (b / 2) = omega (arith, xor_step a b) in
    let low : bit_xor a b % 2 ≡ differ (a % 2) (b % 2) = omega (arith, xor_step a b) in
    (
      omega (arith, xor_step a b, pow-suc 2 k),
      xor_step (bit_xor a b) b ∙ rw (half, low) (omega (arith, right, bit_right)),
      xor_step a (bit_xor a b) ∙ rw (half, low) (omega (arith, left, bit_left)),
    )

-- 16777619 is odd, so a round can be undone.
round_undone : (x : ℕ) → x < 2 ^ 32 → x * 16777619 % 2 ^ 32 * 899433627 % 2 ^ 32 ≡ x
round_undone x h = omega (arith, mod-add-div (x * 16777619) (2 ^ 32))

fnv_round_small : (h b : ℕ) → fnv_round h b < 2 ^ 32
unfolding fnv_round
fnv_round_small h b = omega arith

fnv_round-injective_state :
    (g h b : ℕ) → g < 2 ^ 32 → h < 2 ^ 32 → b < 256 → fnv_round g b ≡ fnv_round h b → g ≡ h
unfolding fnv_round
fnv_round-injective_state g h b p q r e =
    let (gs, gx, _) = xor_word 32 g b p (omega arith) in
    let (hs, hx, _) = xor_word 32 h b q (omega arith) in
    let same : bit_xor g b ≡ bit_xor h b =
      sym (round_undone (bit_xor g b) gs)
      ∙ ap (λ (t : ℕ). t * 899433627 % 2 ^ 32) e
      ∙ round_undone (bit_xor h b) hs in
    sym gx ∙ ap (λ t. bit_xor t b) same ∙ hx

fnv_round-injective_byte :
    (h b c : ℕ) → h < 2 ^ 32 → b < 256 → c < 256 → fnv_round h b ≡ fnv_round h c → b ≡ c
unfolding fnv_round
fnv_round-injective_byte h b c p q r e =
    let (bs, _, bx) = xor_word 32 h b p (omega arith) in
    let (cs, _, cx) = xor_word 32 h c p (omega arith) in
    let same : bit_xor h b ≡ bit_xor h c =
      sym (round_undone (bit_xor h b) bs)
      ∙ ap (λ (t : ℕ). t * 899433627 % 2 ^ 32) e
      ∙ round_undone (bit_xor h c) cs in
    sym bx ∙ ap (bit_xor h) same ∙ cx

abbrev pub AllBytes : Bytes → Type 0
AllBytes [] = Unit
AllBytes (b ∷ bs) = (b < 256) × AllBytes bs

AllBytes-append : (xs ys : Bytes) → AllBytes xs → AllBytes ys → AllBytes (xs ++ ys)
AllBytes-append [] ys a b = b
AllBytes-append (x ∷ xs) ys (h, a) b = (h, AllBytes-append xs ys a b)

AllBytes-split : (xs ys : Bytes) → AllBytes (xs ++ ys) → AllBytes xs × AllBytes ys
AllBytes-split [] ys a = (tt, a)
AllBytes-split (x ∷ xs) ys (h, a) = let (l, r) = AllBytes-split xs ys a in ((h, l), r)

le_bytes-AllBytes : (n v : ℕ) → AllBytes (le_bytes n v)
le_bytes-AllBytes zero v = tt
le_bytes-AllBytes (suc n) v = (omega arith, le_bytes-AllBytes n (v / 256))

pass_bytes-AllBytes : (ps : List ℕ) → AllBytes (pass_bytes ps)
unfolding pass_bytes
pass_bytes-AllBytes [] = tt
pass_bytes-AllBytes (p ∷ ps) =
    AllBytes-append (le_bytes 4 p) (pass_bytes ps) (le_bytes-AllBytes 4 p) (pass_bytes-AllBytes ps)

covered_bytes-AllBytes : (r : TelemetryRecord) → AllBytes (covered_bytes r)
unfolding covered_bytes
covered_bytes-AllBytes r = whole
  where
    delayed_bytes : Bytes
    delayed_bytes = le_bytes 4 r.delayed_total

    delayed : AllBytes delayed_bytes
    delayed = le_bytes-AllBytes 4 r.delayed_total

    dropped_bytes : Bytes
    dropped_bytes = le_bytes 4 r.dropped_total ++ delayed_bytes

    dropped : AllBytes dropped_bytes
    dropped =
        AllBytes-append (le_bytes 4 r.dropped_total) delayed_bytes
          (le_bytes-AllBytes 4 r.dropped_total) delayed

    flags_bytes : Bytes
    flags_bytes = le_bytes 2 r.flags ++ dropped_bytes

    flags : AllBytes flags_bytes
    flags = AllBytes-append (le_bytes 2 r.flags) dropped_bytes (le_bytes-AllBytes 2 r.flags) dropped

    layout_bytes : Bytes
    layout_bytes = le_bytes 1 r.layout_version ++ flags_bytes

    layout : AllBytes layout_bytes
    layout =
        AllBytes-append (le_bytes 1 r.layout_version) flags_bytes
          (le_bytes-AllBytes 1 r.layout_version) flags

    passes_bytes : Bytes
    passes_bytes = le_bytes 1 r.pass_count ++ layout_bytes

    passes : AllBytes passes_bytes
    passes =
        AllBytes-append (le_bytes 1 r.pass_count) layout_bytes (le_bytes-AllBytes 1 r.pass_count)
          layout

    times_bytes : Bytes
    times_bytes = pass_bytes r.pass_ns ++ passes_bytes

    times : AllBytes times_bytes
    times =
        AllBytes-append (pass_bytes r.pass_ns) passes_bytes (pass_bytes-AllBytes r.pass_ns) passes

    reserved_bytes : Bytes
    reserved_bytes = le_bytes 8 r.reserved ++ times_bytes

    reserved : AllBytes reserved_bytes
    reserved =
        AllBytes-append (le_bytes 8 r.reserved) times_bytes (le_bytes-AllBytes 8 r.reserved) times

    media_bytes : Bytes
    media_bytes = le_bytes 8 r.media_time_ns ++ reserved_bytes

    media : AllBytes media_bytes
    media =
        AllBytes-append (le_bytes 8 r.media_time_ns) reserved_bytes
          (le_bytes-AllBytes 8 r.media_time_ns) reserved

    gpu_bytes : Bytes
    gpu_bytes = le_bytes 8 r.gpu_total_ns ++ media_bytes

    gpu : AllBytes gpu_bytes
    gpu =
        AllBytes-append (le_bytes 8 r.gpu_total_ns) media_bytes (le_bytes-AllBytes 8 r.gpu_total_ns)
          media

    frame_bytes : Bytes
    frame_bytes = le_bytes 8 r.frame_time_ns ++ gpu_bytes

    frame : AllBytes frame_bytes
    frame =
        AllBytes-append (le_bytes 8 r.frame_time_ns) gpu_bytes (le_bytes-AllBytes 8 r.frame_time_ns)
          gpu

    mono_bytes : Bytes
    mono_bytes = le_bytes 8 r.t_mono_ns ++ frame_bytes

    mono : AllBytes mono_bytes
    mono =
        AllBytes-append (le_bytes 8 r.t_mono_ns) frame_bytes (le_bytes-AllBytes 8 r.t_mono_ns) frame

    whole_bytes : Bytes
    whole_bytes = le_bytes 8 r.seq ++ mono_bytes

    whole : AllBytes whole_bytes
    whole = AllBytes-append (le_bytes 8 r.seq) mono_bytes (le_bytes-AllBytes 8 r.seq) mono

-- Different states stay different over the same bytes.
fnv_from-injective :
    (g h : ℕ) (bs : Bytes)
    → g < 2 ^ 32
    → h < 2 ^ 32
    → AllBytes bs
    → fnv_from g bs ≡ fnv_from h bs
    → g ≡ h
unfolding fnv_from
fnv_from-injective g h [] p q a e = e
fnv_from-injective g h (b ∷ bs) p q (small, a) e = fnv_round-injective_state g h b p q small (
    fnv_from-injective (fnv_round g b) (fnv_round h b) bs (fnv_round_small g b)
      (fnv_round_small h b) a e)

fnv_from-one_byte :
    (h : ℕ) (before after : Bytes) (b c : ℕ)
    → h < 2 ^ 32
    → AllBytes (before ++ b ∷ after)
    → c < 256
    → fnv_from h (before ++ b ∷ after) ≡ fnv_from h (before ++ c ∷ after)
    → b ≡ c
unfolding fnv_from
fnv_from-one_byte h [] after b c p (small, a) q e = fnv_round-injective_byte h b c p small q (
    fnv_from-injective (fnv_round h b) (fnv_round h c) after (fnv_round_small h b)
      (fnv_round_small h c) a e)
fnv_from-one_byte h (x ∷ before) after b c p (_, a) q e =
    fnv_from-one_byte (fnv_round h x) before after b c (fnv_round_small h x) a q e

-- A corrupted byte is detected: where a record verifies, one with the same checksum whose covered bytes differ from
-- its in exactly one place does not.
pub verify_checksum-one_byte :
    (r s : TelemetryRecord) (before after : Bytes) (b c : ℕ)
    → verify_checksum r ≡ true
    → s.checksum ≡ r.checksum
    → covered_bytes r ≡ before ++ b ∷ after
    → covered_bytes s ≡ before ++ c ∷ after
    → b ≢ c
    → verify_checksum s ≡ false
unfolding verify_checksum fnv1a
verify_checksum-one_byte r s before after b c good same rs ss ne =
    elim (Bool-cases (s.checksum == fnv1a (covered_bytes s))) [
      | inr e ↦ e
      | inl e ↦
          let equal : fnv1a (covered_bytes r) ≡ fnv1a (covered_bytes s) =
            sym ((==_iff _ _).0 good) ∙ sym same ∙ (==_iff _ _).0 e in
          let all_r : AllBytes (before ++ b ∷ after) =
            subst AllBytes rs (covered_bytes-AllBytes r) in
          let all_s : AllBytes (before ++ c ∷ after) =
            subst AllBytes ss (covered_bytes-AllBytes s) in
          absurd (
            ne (
              fnv_from-one_byte 2166136261 before after b c (omega arith) all_r
                (AllBytes-split before (c ∷ after) all_s).1.0
                (sym (ap fnv1a rs) ∙ equal ∙ ap fnv1a ss)))
    ]
