-- ===== src/Ring/Publish.antt =====
-- src/spsc_ring.cpp, what the producer publishes beside the records, and how the consumer reads it:
-- the pass name directory, the environment, resizes, the heartbeat and the end of the stream.
use Prim.Native.Nat.{bit_and}
use framewire.Prelude.{
  ℕ, zero, suc, ◌-◌, min, Bool, true, not, ◌&&◌, List, [], ◌∷◌, Option, none, some, ◌==◌, ltb,
  if◌then◌else◌, set,
}
use framewire.Prelude.Chars.{Bytes, c_str, snprintf}
use framewire.Telemetry.{max_passes, pass_name_len}
use framewire.Ring.{RingHeader, environment_len, add32}

-- `names[i] != nullptr ? names[i] : ""`
pub name_or_empty : Option Bytes → Bytes
name_or_empty none = []
name_or_empty (some s) = s

-- The two loops of `PublishLayout` over the directory: the first `count` buffers take a name, the
-- others become empty strings. The caller gives at least `count` names.
unfoldable pub write_names : ℕ → List (Option Bytes) → List Bytes → List Bytes
unfolding name_or_empty
write_names n names [] = []
write_names zero names (b ∷ bs) = set b 0 0 ∷ write_names zero names bs
write_names (suc n) [] (b ∷ bs) = b ∷ write_names n [] bs
write_names (suc n) (s ∷ names) (b ∷ bs) =
    snprintf b pass_name_len (name_or_empty s) ∷ write_names n names bs

-- The result is the version that records carry from now on.
unfoldable pub publish_layout : RingHeader → List (Option Bytes) → ℕ → RingHeader × ℕ
unfolding write_names
publish_layout h names count =
    let kept = min count max_passes in
    let next = add32 h.layout_version 1 in
    (
      record h {
        pass_names = write_names kept names h.pass_names;
        pass_count = kept;
        layout_version = next;
      },
      bit_and next 0xFF,
    )

-- The two loops of `ReadLayout` over the caller's buffers.
unfoldable pub read_names : ℕ → List Bytes → List Bytes → List Bytes
read_names n src [] = []
read_names zero src (o ∷ out) = set o 0 0 ∷ read_names zero src out
read_names (suc n) [] (o ∷ out) = o ∷ read_names n [] out
read_names (suc n) (b ∷ src) (o ∷ out) = set b (pass_name_len - 1) 0 ∷ read_names n src out

-- the count, the caller's buffers and the version
unfoldable pub read_layout : RingHeader → List Bytes → ℕ × List Bytes × ℕ
unfolding read_names
read_layout h out =
    let count = min h.pass_count max_passes in
    (count, read_names count h.pass_names out, h.layout_version)

unfoldable pub publish_environment : RingHeader → Bytes → RingHeader
publish_environment h text = record h {
  environment = snprintf h.environment environment_len text;
  environment_version = 1;
}

unfoldable pub read_environment : RingHeader → Bytes
read_environment h =
    if h.environment_version == 0 then [] else c_str (set h.environment (environment_len - 1) 0)

unfoldable pub note_geometry_change : RingHeader → RingHeader
note_geometry_change h = record h { geometry_changes = add32 h.geometry_changes 1 }

unfoldable pub heartbeat : RingHeader → ℕ → RingHeader
heartbeat h now = record h { producer_heartbeat_ns = now }

unfoldable pub mark_done : RingHeader → ℕ → RingHeader
mark_done h now = record h { producer_heartbeat_ns = now; producer_done = 1 }

unfoldable pub producer_gone : RingHeader → ℕ → ℕ → Bool
producer_gone h stale_after now =
    if not (h.producer_done == 0)
    then true
    else ltb h.producer_heartbeat_ns now && ltb stale_after (now - h.producer_heartbeat_ns)
