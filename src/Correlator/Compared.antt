-- ===== src/Correlator/Compared.antt =====
-- src/stats.cpp, class `Correlator`: the windows of all streams hold the costs of the same groups of frames.
pub mod Lanes
pub mod Same
pub mod Rounds
pub mod Report
mod Tests
use framewire.Prelude.{
  ℕ, zero, suc, ◌%◌, ◌^◌, ◌≡◌, refl, sym, ap, subst, ◌∙◌, arith, inl, inr, Bool, Bool-cases, true,
  false, List, [], ◌∷◌, ◌++◌, map, ltb, length, length-set, append_assoc, leb,
}
use framewire.Prelude.Int.{ℤ, pos, ltb_ℤ, leb_ℤ, ◌-ℤ◌}
use framewire.Telemetry.{TelemetryRecord, signed64}
use framewire.Window.{Window, SampleWindow, record_sample, record_signed, count_negative}
use framewire.Window.Held.{Keeps, slide-Keeps}
use framewire.Correlator.{
  Stream, Correlator, push_records, push_at, push, front, emit_others, emit_group,
}
use framewire.Correlator.Process.{
  any_empty, scan_fronts, retire_at, decide, process_loop, total_queued, flush_stream, cap_queue,
  cap_stream, process, max_queued,
}

-- What each group cost one stream more than the baseline, from the costs of both.
abbrev pub differences : List ℕ → List ℕ → List ℤ
differences [] bs = []
differences (x ∷ xs) [] = []
differences (x ∷ xs) (b ∷ bs) = (signed64 x -ℤ signed64 b) ∷ differences xs bs

-- The window has the 4096 places that the constructor gives it, and keeps the newest of `xs`.
abbrev pub KeepsCosts {ℓ} : {A : Type ℓ} → A → Window A → List A → Type ℓ
KeepsCosts blank w xs = Keeps blank w xs × (length w.values ≡ 4096)

-- The stream's costs in all groups are `xs`, those of the baseline `bs`, newest first: the windows keep the
-- newest of them and of their differences, and the groups in which the stream was cheaper are counted.
pub record IsHistory (bs xs : List ℕ) (s : Stream) : Type 0 where
  pub same_groups : length xs ≡ length bs
  pub costs : KeepsCosts 0 s.gpu_grouped xs
  pub deltas : KeepsCosts (pos 0) s.gpu_delta (differences xs bs)
  pub cheaper : s.cheaper_than_baseline ≡ count_negative (differences xs bs) % 2 ^ 64

abbrev pub Histories : List ℕ → List Stream → List (List ℕ) → Type 0
Histories bs [] [] = Unit
Histories bs [] (xs ∷ xss) = ⊥
Histories bs (s ∷ ss) [] = ⊥
Histories bs (s ∷ ss) (xs ∷ xss) = IsHistory bs xs s × Histories bs ss xss

-- `bs` are the costs of the first stream and `xss` those of the others, one for each of the `g` groups.
abbrev pub AreCompared : ℕ → List Stream → List ℕ → List (List ℕ) → Type 0
AreCompared g [] bs xss = ⊥
AreCompared g (s ∷ ss) bs xss =
    KeepsCosts 0 s.gpu_grouped bs × (g ≡ length bs % 2 ^ 64) × Histories bs ss xss

abbrev pub IsComparison : Correlator → List ℕ → List (List ℕ) → Type 0
IsComparison c bs xss = AreCompared c.grouped c.streams bs xss
