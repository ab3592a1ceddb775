-- ===== src/Correlator/Compared/Rounds.antt =====
-- src/stats.cpp: the comparison of the streams through `Push` and the rounds of `Correlator::Process`.
use framewire.Prelude.{
  ℕ, zero, suc, ◌≡◌, refl, ap, ◌∙◌, arith, inl, inr, Bool, Bool-cases, true, false, List, [], ◌∷◌,
  map, length, length-set, leb,
}
use framewire.Prelude.Int.{ℤ, pos, ltb_ℤ, leb_ℤ, ◌-ℤ◌}
use framewire.Telemetry.{TelemetryRecord, signed64}
use framewire.Window.{SampleWindow, SignedWindow, record_sample, record_signed}
use framewire.Window.Held.{slide-Keeps}
use framewire.Correlator.{Stream, Correlator, push, front, emit_others, emit_group}
use framewire.Correlator.Process.{
  any_empty, scan_fronts, decide, process_loop, total_queued, flush_stream, cap_stream, process,
}
use framewire.Correlator.Compared.{differences, KeepsCosts, Histories, AreCompared, IsComparison}
use framewire.Correlator.Account.{any_empty-parts}
use framewire.Correlator.Compared.Lanes.{
  Lane, lanes, Shortened, Steps, still, group, retire, Steps-trans, add_fronts, take_front,
  emit_others-Grouped, retire_at-Retired, map-Retired, flush_stream-Shortened, cap_queue-Shortened,
}
use framewire.Correlator.Compared.Same.{
  IsSame, IsSame-refl, IsSame-but_queue, map-AreSame, retire_at-AreSame, push_at-AreSame,
  cap_queue-IsSame, AreSame-AreCompared,
}

pub record_sample-KeepsCosts :
    (w : SampleWindow) (xs : List ℕ) (v : ℕ)
    → KeepsCosts 0 w xs
    → KeepsCosts 0 (record_sample w v) (v ∷ xs)
unfolding record_sample
record_sample-KeepsCosts w xs v (k, full) =
    (slide-Keeps 0 w xs v k, length-set w.values w.next v ∙ full)

pub record_signed-KeepsCosts :
    (w : SignedWindow) (ds : List ℤ) (v : ℤ)
    → KeepsCosts (pos 0) w ds
    → KeepsCosts (pos 0) (record_signed w v) (v ∷ ds)
unfolding record_signed
record_signed-KeepsCosts w ds v (k, full) =
    (slide-Keeps (pos 0) w ds v k, length-set w.values w.next v ∙ full)

emit_others-Histories :
    (base : TelemetryRecord) (bs : List ℕ) (ss : List Stream) (xss : List (List ℕ))
    → Histories bs ss xss
    → Histories (base.gpu_total_ns ∷ bs) (emit_others base ss) (add_fronts ss xss)
unfolding emit_others
emit_others-Histories base bs [] [] h = tt
emit_others-Histories base bs [] (xs ∷ xss) h = absurd h
emit_others-Histories base bs (s ∷ ss) [] h = absurd h
emit_others-Histories base bs (s ∷ ss) (xs ∷ xss) (h, rest) =
    let x = (front s.queue).gpu_total_ns in
    let delta = signed64 x -ℤ signed64 base.gpu_total_ns in
    (
      record {
        same_groups = ap suc h.same_groups;
        costs = record_sample-KeepsCosts s.gpu_grouped xs x h.costs;
        deltas = record_signed-KeepsCosts s.gpu_delta (differences xs bs) delta h.deltas;
        cheaper = elim (Bool-cases (ltb_ℤ delta (pos 0))) [
          | inl e ↦ rw e (omega (arith, h.cheaper))
          | inr e ↦ rw e (omega (arith, h.cheaper))
        ];
      },
      emit_others-Histories base bs ss xss rest,
    )

-- The correlator compares costs that steps lead to from the lanes `ls`.
abbrev pub Continues : List Lane → Correlator → Type 0
Continues ls c =
    (bs : List ℕ) × (xss : List (List ℕ)) × IsComparison c bs xss
    × Steps ls (lanes c.streams (bs ∷ xss))

emit_group-Continues :
    (c : Correlator) (bs : List ℕ) (xss : List (List ℕ))
    → any_empty c.streams ≡ false
    → IsComparison c bs xss
    → Continues (lanes c.streams (bs ∷ xss)) (emit_group c)
unfolding emit_group
emit_group-Continues c bs xss full a = go c.streams refl full a
  where
    go :
        (ss : List Stream)
        → c.streams ≡ ss
        → any_empty ss ≡ false
        → AreCompared c.grouped ss bs xss
        → Continues (lanes ss (bs ∷ xss)) (emit_group c)
    go [] e full h = absurd h
    go (s ∷ ss) e full (k, n, h) =
        let b = (front s.queue).gpu_total_ns in
        let (own, others) = any_empty-parts s ss full in
        let taken_all =
          take_front s.queue bs own (emit_others-Grouped (front s.queue) ss xss others) in
        rw e (
          b ∷ bs,
          add_fronts ss xss,
          (
            record_sample-KeepsCosts s.gpu_grouped bs b k,
            omega (arith, n),
            emit_others-Histories (front s.queue) bs ss xss h,
          ),
          group taken_all still,
        )

decide-Continues :
    (c : Correlator) (bs : List ℕ) (xss : List (List ℕ))
    → any_empty c.streams ≡ false
    → IsComparison c bs xss
    → Continues (lanes c.streams (bs ∷ xss)) (decide c)
unfolding decide
decide-Continues c bs xss full a =
    elim (Bool-cases (
      leb_ℤ
        ((scan_fronts c.use_media_time c.streams).max_key
          -ℤ (scan_fronts c.use_media_time c.streams).min_key)
        (signed64 c.tolerance_ns))) [
          | inl e ↦ rw e (emit_group-Continues c bs xss full a)
          | inr e ↦ rw e (
            bs,
            xss,
            AreSame-AreCompared c.grouped c.streams _ bs xss (retire_at-AreSame c.streams _) a,
            retire (retire_at-Retired c.streams (bs ∷ xss) _) still,
          )
        ]

process_loop-Continues :
    (fuel : ℕ) (c : Correlator) (bs : List ℕ) (xss : List (List ℕ))
    → IsComparison c bs xss
    → Continues (lanes c.streams (bs ∷ xss)) (process_loop fuel c)
unfolding process_loop
process_loop-Continues zero c bs xss a = (bs, xss, a, still)
process_loop-Continues (suc fuel) c bs xss a = elim (Bool-cases (any_empty c.streams)) [
  | inl e ↦ rw e (bs, xss, a, still)
  | inr e ↦
      let (cs, yss, b, first) = decide-Continues c bs xss e a in
      let (ds, zss, d, rest) = process_loop-Continues fuel (decide c) cs yss b in
      rw e (ds, zss, d, Steps-trans first rest)
]

drain-Continues :
    (f : Stream → Stream) (ls : List Lane) (c : Correlator)
    → ((s : Stream) → IsSame s (f s))
    → ((s : Stream) → Shortened s.queue (f s).queue)
    → Continues ls c
    → Continues ls (record c { streams = map f c.streams })
drain-Continues f ls c same shorter (bs, xss, a, steps) = (
  bs,
  xss,
  AreSame-AreCompared c.grouped c.streams _ bs xss (map-AreSame f same c.streams) a,
  Steps-trans steps (retire (map-Retired f shorter c.streams (bs ∷ xss)) still),
)

-- `Process` compares the streams on the same groups of frames, on a flush or without one. Let there be, before it,
-- costs of the baseline and of each other stream, one for each group, such that each window of grouped costs keeps
-- the newest of its stream's, each window of differences the newest of the differences from the baseline's costs,
-- `cheaper_than_baseline` is the number of differences below 0 and `grouped` the number of groups (both modulo
-- 2^64). Then there are such costs after it. They and the queues come from those before by steps that group the
-- oldest record of every queue, whose GPU time goes to its own stream's costs, or retire oldest records, which
-- changes no costs.
pub process-IsComparison :
    (flush : Bool) (c : Correlator) (bs : List ℕ) (xss : List (List ℕ))
    → IsComparison c bs xss
    → (cs : List ℕ) × (yss : List (List ℕ)) × IsComparison (process flush c) cs yss
      × Steps (lanes c.streams (bs ∷ xss)) (lanes (process flush c).streams (cs ∷ yss))
unfolding process cap_stream
process-IsComparison true c bs xss a =
    let fuel : ℕ = suc (total_queued c.streams) in
    drain-Continues flush_stream _ (process_loop fuel c)
      (λ s. IsSame-but_queue s s [] _ (IsSame-refl s)) flush_stream-Shortened
      (process_loop-Continues fuel c bs xss a)
process-IsComparison false c bs xss a =
    let fuel : ℕ = suc (total_queued c.streams) in
    drain-Continues cap_stream _ (process_loop fuel c)
      (λ s. cap_queue-IsSame s.queue s s (IsSame-refl s)) (λ s. cap_queue-Shortened s.queue s)
      (process_loop-Continues fuel c bs xss a)

-- `Push` leaves the comparison as it is.
pub push-IsComparison :
    (c : Correlator) (bs : List ℕ) (xss : List (List ℕ)) (i : ℕ) (rs : List TelemetryRecord)
    → IsComparison c bs xss
    → IsComparison (push c i rs) bs xss
unfolding push
push-IsComparison c bs xss i rs a = elim (Bool-cases (leb (length c.streams) i)) [
  | inl e ↦ rw e a
  | inr e ↦
      rw e (AreSame-AreCompared c.grouped c.streams _ bs xss (push_at-AreSame c.streams i rs) a)
]
