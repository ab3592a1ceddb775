-- ===== src/Telemetry.antt =====
-- include/framewire/telemetry.h: the record that crosses the shared memory ring, its byte image,
-- the FNV-1a checksum over that image, and the millisecond conversion.
pub mod Checksum
mod Tests
use Prim.Native.Nat.{bit_xor}
use framewire.Prelude.{
  ℕ, zero, suc, ◌-◌, ◌*◌, ◌/◌, ◌%◌, ◌^◌, Bool, List, [], ◌∷◌, ◌++◌, ◌==◌, ltb, if◌then◌else◌,
}
use framewire.Prelude.Chars.{Bytes}
use framewire.Prelude.Int.{ℤ, pos, negsuc}

-- kMaxPasses
abbrev pub max_passes : ℕ
max_passes = 32

-- kPassNameLen
abbrev pub pass_name_len : ℕ
pass_name_len = 48

-- The bits of `RecordFlags`, by their positions.
abbrev pub flag_dropped_frame : ℕ
flag_dropped_frame = 1

abbrev pub flag_delayed_frame : ℕ
flag_delayed_frame = 2

-- `media_time_ns` is an `int64_t`: its bit pattern, read by `signed64`.
pub record TelemetryRecord : Type 0 where
  pub seq : ℕ
  pub t_mono_ns : ℕ
  pub frame_time_ns : ℕ
  pub gpu_total_ns : ℕ
  pub media_time_ns : ℕ
  pub reserved : ℕ
  pub pass_ns : List ℕ
  pub pass_count : ℕ
  pub layout_version : ℕ
  pub flags : ℕ
  pub dropped_total : ℕ
  pub delayed_total : ℕ
  pub checksum : ℕ

-- A `uint64_t` read as an `int64_t`.
abbrev pub signed64 : ℕ → ℤ
signed64 w = if ltb w (2 ^ 63) then pos w else negsuc (2 ^ 64 - w - 1)

-- The `n` bytes of a little endian integer.
abbrev pub le_bytes : ℕ → ℕ → Bytes
le_bytes zero v = []
le_bytes (suc n) v = v % 256 ∷ le_bytes n (v / 256)

unfoldable pub pass_bytes : List ℕ → Bytes
pass_bytes [] = []
pass_bytes (p ∷ ps) = le_bytes 4 p ++ pass_bytes ps

-- The first `kChecksumCoverage` bytes of a record: every field before `checksum`, with no padding.
unfoldable pub covered_bytes : TelemetryRecord → Bytes
unfolding pass_bytes
covered_bytes r =
    le_bytes 8 r.seq
    ++ (le_bytes 8 r.t_mono_ns
        ++ (le_bytes 8 r.frame_time_ns
            ++ (le_bytes 8 r.gpu_total_ns
                ++ (le_bytes 8 r.media_time_ns
                    ++ (le_bytes 8 r.reserved
                        ++ (pass_bytes r.pass_ns
                            ++ (le_bytes 1 r.pass_count
                                ++ (le_bytes 1 r.layout_version
                                    ++ (le_bytes 2 r.flags
                                        ++ (le_bytes 4 r.dropped_total
                                            ++ le_bytes 4 r.delayed_total))))))))))

-- one round of the loop of `Fnv1a`
unfoldable pub fnv_round : ℕ → ℕ → ℕ
fnv_round h b = bit_xor h b * 16777619 % 2 ^ 32

unfoldable pub fnv_from : ℕ → Bytes → ℕ
fnv_from h [] = h
fnv_from h (b ∷ bs) = fnv_from (fnv_round h b) bs

unfoldable pub fnv1a : Bytes → ℕ
unfolding fnv_from fnv_round
fnv1a = fnv_from 2166136261

unfoldable pub stamp_checksum : TelemetryRecord → TelemetryRecord
stamp_checksum r = record r { checksum = fnv1a (covered_bytes r) }

unfoldable pub verify_checksum : TelemetryRecord → Bool
verify_checksum r = r.checksum == fnv1a (covered_bytes r)

-- `int ms`: negative values become zero.
unfoldable pub millis_to_nanos : ℤ → ℕ
millis_to_nanos (pos ms) = ms * 1000000 % 2 ^ 64
millis_to_nanos (negsuc _) = 0
