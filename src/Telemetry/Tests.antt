-- ===== src/Telemetry/Tests.antt =====
-- The checksum of include/framewire/telemetry.h on one record, and the theorems applied to it.
use framewire.Prelude.{◌≡◌, refl, arith, false, [], ◌∷◌, replicate, drop}
use framewire.Prelude.Chars.{Bytes}
use framewire.Telemetry.{
  TelemetryRecord, covered_bytes, pass_bytes, stamp_checksum, verify_checksum, max_passes,
}
use framewire.Telemetry.Checksum.{verify_checksum-stamp_checksum, verify_checksum-one_byte}

abbrev plain : TelemetryRecord
plain = record {
  seq = 7;
  t_mono_ns = 1000;
  frame_time_ns = 0;
  gpu_total_ns = 300;
  media_time_ns = 0;
  reserved = 0;
  pass_ns = replicate max_passes 0;
  pass_count = 0;
  layout_version = 1;
  flags = 0;
  dropped_total = 0;
  delayed_total = 0;
  checksum = 0;
}

abbrev stamped : TelemetryRecord
stamped = stamp_checksum plain

-- The low byte of `seq` has changed.
abbrev corrupted : TelemetryRecord
corrupted = record stamped { seq = 9 }

abbrev rest : Bytes
rest = drop 1 (covered_bytes plain)

stamped_bytes : covered_bytes stamped ≡ 7 ∷ rest
unfolding covered_bytes pass_bytes stamp_checksum
stamped_bytes = refl

corrupted_bytes : covered_bytes corrupted ≡ 9 ∷ rest
unfolding covered_bytes pass_bytes stamp_checksum
corrupted_bytes = refl

verify_checksum-one_byte_example : verify_checksum corrupted ≡ false
verify_checksum-one_byte_example =
    verify_checksum-one_byte stamped corrupted [] rest 7 9 (verify_checksum-stamp_checksum plain)
      refl stamped_bytes corrupted_bytes (omega arith)
