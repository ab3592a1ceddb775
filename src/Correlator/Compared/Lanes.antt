-- ===== src/Correlator/Compared/Lanes.antt =====
-- src/stats.cpp: what the rounds of `Correlator::Process` do to the queue and the costs of every stream.
use framewire.Prelude.{
  ℕ, zero, suc, ◌≡◌, Bool-cases, inl, inr, false, List, [], ◌∷◌, map, ltb, length,
}
use framewire.Telemetry.{TelemetryRecord}
use framewire.Correlator.{Stream, front, pop_front, emit_others}
use framewire.Correlator.Process.{
  is_empty, any_empty, retire_at, flush_stream, cap_queue, max_queued,
}
use framewire.Correlator.Account.{any_empty-parts}

-- A stream's queue, oldest record first, and the costs of its records grouped so far, newest first.
pub record Lane : Type 0 where
  pub queue : List TelemetryRecord
  pub costs : List ℕ

abbrev pub lane : List TelemetryRecord → List ℕ → Lane
lane q xs = record { queue = q; costs = xs }

-- The second queue is the first without some of its oldest records.
pub data Shortened : List TelemetryRecord → List TelemetryRecord → Type 0 where
  same : {q : List TelemetryRecord} → Shortened q q
  shorter :
      {r : TelemetryRecord} {q q' : List TelemetryRecord} → Shortened q q' → Shortened (r ∷ q) q'

-- The oldest record of every queue is grouped: its cost goes to the costs of its own stream.
pub data Grouped : List Lane → List Lane → Type 0 where
  no_lane : Grouped [] []
  taken :
      {r : TelemetryRecord} {q : List TelemetryRecord} {xs : List ℕ} {ls ms : List Lane}
      → Grouped ls ms
      → Grouped (lane (r ∷ q) xs ∷ ls) (lane q (r.gpu_total_ns ∷ xs) ∷ ms)

-- Oldest records are retired from some of the queues, and no costs change.
pub data Retired : List Lane → List Lane → Type 0 where
  no_lane : Retired [] []
  dropped :
      {q q' : List TelemetryRecord} {xs : List ℕ} {ls ms : List Lane}
      → Shortened q q'
      → Retired ls ms
      → Retired (lane q xs ∷ ls) (lane q' xs ∷ ms)

-- Any number of groups and retirements, in any order.
pub data Steps : List Lane → List Lane → Type 0 where
  still : {ls : List Lane} → Steps ls ls
  group : {ls ms ns : List Lane} → Grouped ls ms → Steps ms ns → Steps ls ns
  retire : {ls ms ns : List Lane} → Retired ls ms → Steps ms ns → Steps ls ns

-- Each stream's queue, with the costs that are said to be its own.
abbrev pub lanes : List Stream → List (List ℕ) → List Lane
lanes [] xss = []
lanes (s ∷ ss) [] = []
lanes (s ∷ ss) (xs ∷ xss) = lane s.queue xs ∷ lanes ss xss

pub Steps-trans : {ls ms ns : List Lane} → Steps ls ms → Steps ms ns → Steps ls ns
Steps-trans still t = t
Steps-trans (group g s) t = group g (Steps-trans s t)
Steps-trans (retire r s) t = retire r (Steps-trans s t)

Retired-refl : (ls : List Lane) → Retired ls ls
Retired-refl [] = no_lane
Retired-refl (l ∷ ls) = dropped same (Retired-refl ls)

-- The costs with the fronts of all queues added.
abbrev pub add_fronts : List Stream → List (List ℕ) → List (List ℕ)
add_fronts [] xss = []
add_fronts (s ∷ ss) [] = []
add_fronts (s ∷ ss) (xs ∷ xss) = ((front s.queue).gpu_total_ns ∷ xs) ∷ add_fronts ss xss

-- A lane with a record gives its front.
pub take_front :
    (q : List TelemetryRecord) (xs : List ℕ) {ls ms : List Lane}
    → is_empty q ≡ false
    → Grouped ls ms
    → Grouped (lane q xs ∷ ls) (lane (pop_front q) ((front q).gpu_total_ns ∷ xs) ∷ ms)
take_front [] xs h g = absurd (cc h)
take_front (r ∷ q) xs h g = taken g

pub emit_others-Grouped :
    (base : TelemetryRecord) (ss : List Stream) (xss : List (List ℕ))
    → any_empty ss ≡ false
    → Grouped (lanes ss xss) (lanes (emit_others base ss) (add_fronts ss xss))
unfolding emit_others
emit_others-Grouped base [] xss h = no_lane
emit_others-Grouped base (s ∷ ss) [] h = no_lane
emit_others-Grouped base (s ∷ ss) (xs ∷ xss) h =
    let (full, others) = any_empty-parts s ss h in
    take_front s.queue xs full (emit_others-Grouped base ss xss others)

pop_front-Shortened : (q : List TelemetryRecord) → Shortened q (pop_front q)
pop_front-Shortened [] = same
pop_front-Shortened (r ∷ q) = shorter same

pub retire_at-Retired :
    (ss : List Stream) (xss : List (List ℕ)) (i : ℕ)
    → Retired (lanes ss xss) (lanes (retire_at ss i) xss)
unfolding retire_at
retire_at-Retired [] xss i = no_lane
retire_at-Retired (s ∷ ss) [] zero = no_lane
retire_at-Retired (s ∷ ss) [] (suc i) = no_lane
retire_at-Retired (s ∷ ss) (xs ∷ xss) zero =
    dropped (pop_front-Shortened s.queue) (Retired-refl (lanes ss xss))
retire_at-Retired (s ∷ ss) (xs ∷ xss) (suc i) = dropped same (retire_at-Retired ss xss i)

pub map-Retired :
    (f : Stream → Stream)
    → ((s : Stream) → Shortened s.queue (f s).queue)
    → (ss : List Stream) (xss : List (List ℕ)) → Retired (lanes ss xss) (lanes (map f ss) xss)
map-Retired f each [] xss = no_lane
map-Retired f each (s ∷ ss) [] = no_lane
map-Retired f each (s ∷ ss) (xs ∷ xss) = dropped (each s) (map-Retired f each ss xss)

Shortened-nil : (q : List TelemetryRecord) → Shortened q []
Shortened-nil [] = same
Shortened-nil (r ∷ q) = shorter (Shortened-nil q)

pub flush_stream-Shortened : (s : Stream) → Shortened s.queue (flush_stream s).queue
flush_stream-Shortened s = Shortened-nil s.queue

pub cap_queue-Shortened :
    (q : List TelemetryRecord) (s : Stream) → Shortened q (cap_queue s q).queue
unfolding cap_queue
cap_queue-Shortened [] s = same
cap_queue-Shortened (r ∷ q) s = elim (Bool-cases (ltb max_queued (length (r ∷ q)))) [
  | inl e ↦ rw e (shorter (cap_queue-Shortened q _))
  | inr e ↦ rw e same
]
