-- ===== src/Producer/Passes.antt =====
-- src/producer_main.cpp: `ReadPasses`, from a list of passes in a document to the fields of a record.
use Prim.Native.Nat.{bit_or}
use framewire.Prelude.{
  ℕ, zero, suc, ◌+◌, ◌-◌, ◌*◌, ◌%◌, ◌^◌, min, List, [], ◌∷◌, ◌++◌, Option, none, some, ltb,
  if◌then◌else◌, length, set, take, replicate,
}
use framewire.Prelude.Chars.{Bytes, codes}
use framewire.Prelude.Int.{pos, pos_part}
use framewire.Telemetry.{TelemetryRecord, max_passes, fnv1a}
use framewire.Json.{Numbers, Reader}
use framewire.Json.Values.{JsonValue, member, as_int, as_string, get_first_child, get_next_sibling}

-- The locals of `ReadPasses`, with what it has written to the record and to `names`.
pub record PassList : Type 0 where
  pub count : ℕ
  pub total : ℕ
  pub seen : ℕ
  pub pass_ns : List ℕ
  pub names : List Bytes

abbrev pub flag_pass_overflow : ℕ
flag_pass_overflow = 16

-- One round of the loop, for a pass with this time and this name.
unfoldable pub add_pass : PassList → ℕ × Bytes → PassList
add_pass l (value, name) =
    let counted = record l { total = (l.total + value) % 2 ^ 64; seen = (l.seen + 1) % 2 ^ 32 } in
    if ltb l.count max_passes
    then record counted {
      pass_ns = set l.pass_ns l.count (min value (2 ^ 32 - 1));
      names = l.names ++ name ∷ [];
      count = l.count + 1;
    }
    else counted

module _ (F : Numbers) (doc : Reader F.Number) where
  -- What the loop reads of a pass: `last > 0 ? static_cast<uint64_t>(last) : 0`, and its name.
  unfoldable pub pass_fields : ℕ → ℕ × Bytes
  unfolding member as_int as_string
  pass_fields p = (
    pos_part (as_int F doc (pos 0) (member F doc (some p) (codes "last"))),
    as_string F doc [] (member F doc (some p) (codes "desc")),
  )

  -- The loop over the children. Siblings stand further on in the table, so as many rounds as there are nodes are enough.
  unfoldable pub pass_loop : ℕ → Option ℕ → PassList → PassList
  unfolding add_pass pass_fields get_next_sibling
  pass_loop fuel none l = l
  pass_loop zero (some p) l = l
  pass_loop (suc fuel) (some p) l =
      pass_loop fuel (get_next_sibling F doc (some p)) (add_pass l (pass_fields p))

  -- The record is the one passed in, with what is written; the names and the number of passes seen come with it.
  unfoldable pub read_passes : JsonValue → TelemetryRecord → TelemetryRecord × List Bytes × ℕ
  unfolding pass_loop get_first_child
  read_passes passes rec =
      let start : PassList = record {
        count = 0;
        total = 0;
        seen = 0;
        pass_ns = rec.pass_ns;
        names = [];
      } in
      let l = pass_loop (length doc.nodes) (get_first_child F doc passes) start in
      (
        record rec {
          pass_ns = take l.count l.pass_ns ++ replicate (max_passes - l.count) 0;
          pass_count = l.count % 2 ^ 8;
          gpu_total_ns = l.total;
          flags = if ltb l.count l.seen then bit_or rec.flags flag_pass_overflow else rec.flags;
        },
        l.names,
        l.seen,
      )

-- `name_hash` over the names of the passes.
unfoldable pub hash_names : ℕ → List Bytes → ℕ
unfolding fnv1a
hash_names h [] = h
hash_names h (n ∷ names) = hash_names ((h * 31 + fnv1a n) % 2 ^ 32) names
