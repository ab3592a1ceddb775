-- ===== src/Correlator/Compared/Same.antt =====
-- src/stats.cpp: what `Push` and the retirement of records in `Correlator::Process` leave as it is.
use framewire.Prelude.{
  ℕ, zero, suc, ◌≡◌, refl, sym, subst, ◌∙◌, inl, inr, Bool-cases, List, [], ◌∷◌, map, ltb, length,
}
use framewire.Prelude.Int.{pos}
use framewire.Telemetry.{TelemetryRecord}
use framewire.Correlator.{Stream, push_records, push_at}
use framewire.Correlator.Process.{retire_at, cap_queue, max_queued}
use framewire.Correlator.Compared.{differences, KeepsCosts, IsHistory, Histories, AreCompared}

-- The two streams hold the same statistics.
pub record IsSame (s t : Stream) : Type 0 where
  pub same_grouped : s.gpu_grouped ≡ t.gpu_grouped
  pub same_delta : s.gpu_delta ≡ t.gpu_delta
  pub same_cheaper : s.cheaper_than_baseline ≡ t.cheaper_than_baseline

abbrev pub AreSame : List Stream → List Stream → Type 0
AreSame [] [] = Unit
AreSame [] (t ∷ ts) = ⊥
AreSame (s ∷ ss) [] = ⊥
AreSame (s ∷ ss) (t ∷ ts) = IsSame s t × AreSame ss ts

pub IsSame-refl : (s : Stream) → IsSame s s
IsSame-refl s = record { same_grouped = refl; same_delta = refl; same_cheaper = refl }

AreSame-refl : (ss : List Stream) → AreSame ss ss
AreSame-refl [] = tt
AreSame-refl (s ∷ ss) = (IsSame-refl s, AreSame-refl ss)

IsSame-IsHistory :
    (bs xs : List ℕ) (s t : Stream) → IsSame s t → IsHistory bs xs s → IsHistory bs xs t
IsSame-IsHistory bs xs s t e h = record {
  same_groups = h.same_groups;
  costs = subst (λ w. KeepsCosts 0 w xs) e.same_grouped h.costs;
  deltas = subst (λ w. KeepsCosts (pos 0) w (differences xs bs)) e.same_delta h.deltas;
  cheaper = sym e.same_cheaper ∙ h.cheaper;
}

AreSame-Histories :
    (bs : List ℕ) (ss ts : List Stream) (xss : List (List ℕ))
    → AreSame ss ts
    → Histories bs ss xss
    → Histories bs ts xss
AreSame-Histories bs [] [] xss e h = h
AreSame-Histories bs [] (t ∷ ts) xss e h = absurd e
AreSame-Histories bs (s ∷ ss) [] xss e h = absurd e
AreSame-Histories bs (s ∷ ss) (t ∷ ts) [] e h = absurd h
AreSame-Histories bs (s ∷ ss) (t ∷ ts) (xs ∷ xss) (e, es) (h, hs) =
    (IsSame-IsHistory bs xs s t e h, AreSame-Histories bs ss ts xss es hs)

pub AreSame-AreCompared :
    (g : ℕ) (ss ts : List Stream) (bs : List ℕ) (xss : List (List ℕ))
    → AreSame ss ts
    → AreCompared g ss bs xss
    → AreCompared g ts bs xss
AreSame-AreCompared g [] ts bs xss e a = absurd a
AreSame-AreCompared g (s ∷ ss) [] bs xss e a = absurd e
AreSame-AreCompared g (s ∷ ss) (t ∷ ts) bs xss (e, es) (k, n, h) =
    (subst (λ w. KeepsCosts 0 w bs) e.same_grouped k, n, AreSame-Histories bs ss ts xss es h)

-- What a stream queues, and how much it retired, is no part of the statistics.
pub IsSame-but_queue :
    (s t : Stream) (q : List TelemetryRecord) (n : ℕ)
    → IsSame s t
    → IsSame s (record t { queue = q; unmatched = n })
IsSame-but_queue s t q n e = record {
  same_grouped = e.same_grouped;
  same_delta = e.same_delta;
  same_cheaper = e.same_cheaper;
}

pub map-AreSame :
    (f : Stream → Stream)
    → ((s : Stream) → IsSame s (f s))
    → (ss : List Stream) → AreSame ss (map f ss)
map-AreSame f each [] = tt
map-AreSame f each (s ∷ ss) = (each s, map-AreSame f each ss)

pub retire_at-AreSame : (ss : List Stream) (i : ℕ) → AreSame ss (retire_at ss i)
unfolding retire_at
retire_at-AreSame [] i = tt
retire_at-AreSame (s ∷ ss) zero = (IsSame-but_queue s s _ _ (IsSame-refl s), AreSame-refl ss)
retire_at-AreSame (s ∷ ss) (suc i) = (IsSame-refl s, retire_at-AreSame ss i)

push_records-IsSame :
    (rs : List TelemetryRecord) (s t : Stream) → IsSame s t → IsSame s (push_records t rs)
unfolding push_records
push_records-IsSame [] s t e = e
push_records-IsSame (r ∷ rs) s t e = push_records-IsSame rs s _ (record {
  same_grouped = e.same_grouped;
  same_delta = e.same_delta;
  same_cheaper = e.same_cheaper;
})

pub push_at-AreSame :
    (ss : List Stream) (i : ℕ) (rs : List TelemetryRecord) → AreSame ss (push_at ss i rs)
unfolding push_at
push_at-AreSame [] i rs = tt
push_at-AreSame (s ∷ ss) zero rs = (push_records-IsSame rs s s (IsSame-refl s), AreSame-refl ss)
push_at-AreSame (s ∷ ss) (suc i) rs = (IsSame-refl s, push_at-AreSame ss i rs)

pub cap_queue-IsSame :
    (q : List TelemetryRecord) (s t : Stream) → IsSame s t → IsSame s (cap_queue t q)
unfolding cap_queue
cap_queue-IsSame [] s t e = IsSame-but_queue s t [] t.unmatched e
cap_queue-IsSame (r ∷ rs) s t e = elim (Bool-cases (ltb max_queued (length (r ∷ rs)))) [
  | inl test ↦ rw test (cap_queue-IsSame rs s _ (IsSame-but_queue s t t.queue _ e))
  | inr test ↦ rw test (IsSame-but_queue s t (r ∷ rs) t.unmatched e)
]
