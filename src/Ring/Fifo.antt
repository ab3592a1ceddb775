-- ===== src/Ring/Fifo.antt =====
-- src/spsc_ring.cpp: the ring against a bounded queue of the records that it holds.
use Prim.Native.Nat.{bit_and, ◌∣◌}
use native.Mathlib.Nat.{pow-suc, dvd_trans, dvd-mul_right, dvd_refl, mod-mod_of_dvd}
use framewire.Prelude.Bits.{bit_and-low_mask}
use framewire.Prelude.{
  ℕ, zero, suc, ◌+◌, ◌-◌, ◌%◌, ◌^◌, ◌≤◌, ◌<◌, ◌≡◌, ap, subst, ◌∙◌, Bool, dec_lt, true, false, List,
  [], ◌∷◌, ◌++◌, Option, none, some, arith, length, get_or, set, ltb, if◌then◌else◌,
}
use framewire.Telemetry.{TelemetryRecord}
use framewire.Ring.{sub64, add64, blank, store, count_drop, advance_tail, try_push, try_pop}
use framewire.Ring.Window.{window, length-window, window-set_last, window-mod}
use framewire.Ring.Inv.{Ring, IsValid, held, push, pop}

-- 2^k divides 2^(j + k).
pow_dvd : (k j : ℕ) → 2 ^ k ∣ 2 ^ (j + k)
pow_dvd k zero = let e : 0 + k ≡ k = omega arith in rw e (dvd_refl _)
pow_dvd k (suc j) =
    let e : suc j + k ≡ suc (j + k) = omega arith in
    rw (e, pow-suc) (dvd_trans (2 ^ k) (pow_dvd k j) (dvd-mul_right (2 ^ (j + k)) 2))

pub capacity_dvd : (k : ℕ) → k ≤ 31 → 2 ^ k ∣ 2 ^ 64
capacity_dvd k h =
    let e : 64 - k + k ≡ 64 = omega arith in subst (λ n. 2 ^ k ∣ 2 ^ n) e (pow_dvd k (64 - k))

-- The records in the ring, oldest first.
abbrev pub contents : (k : ℕ) → Ring → List TelemetryRecord
contents k r = window blank r.shm.slots (2 ^ k) r.shm.header.tail (held r)

-- The slot that a push writes lies just behind the records held, and a pop reads the first of them.
slot_of_head :
    {k : ℕ} {r : Ring}
    → IsValid k r
    → bit_and r.shm.header.head r.producer.mask ≡ (r.shm.header.tail + held r) % 2 ^ k
slot_of_head {k} {r} v =
    ap (bit_and r.shm.header.head) v.masks.0
    ∙ bit_and-low_mask k r.shm.header.head
    ∙ ap (λ i. i % 2 ^ k) position
    ∙ mod-mod_of_dvd (2 ^ k) (r.shm.header.tail + held r) (capacity_dvd k v.small.0)
  where
    position : r.shm.header.head ≡ (r.shm.header.tail + held r) % 2 ^ 64
    position = omega arith

pub slot_at :
    {k : ℕ} {r : Ring} (i : ℕ)
    → IsValid k r
    → bit_and (add64 r.shm.header.tail i) r.consumer.mask ≡ (r.shm.header.tail + i) % 2 ^ k
slot_at {k} {r} i v =
    ap (bit_and (add64 r.shm.header.tail i)) v.masks.1
    ∙ bit_and-low_mask k (add64 r.shm.header.tail i)
    ∙ mod-mod_of_dvd (2 ^ k) (r.shm.header.tail + i) (capacity_dvd k v.small.0)

slot_of_tail :
    {k : ℕ} {r : Ring}
    → IsValid k r
    → bit_and r.shm.header.tail r.consumer.mask ≡ r.shm.header.tail % 2 ^ k
slot_of_tail {k} {r} v =
    ap (bit_and r.shm.header.tail) v.masks.1 ∙ bit_and-low_mask k r.shm.header.tail

-- What a bounded queue of `cap` records does on a push, and on a pop.
abbrev pub enqueue : ℕ → List TelemetryRecord → TelemetryRecord → List TelemetryRecord × Bool
enqueue cap q rec = if ltb (length q) cap then (q ++ rec ∷ [], true) else (q, false)

abbrev pub dequeue : List TelemetryRecord → List TelemetryRecord × Option TelemetryRecord
dequeue [] = ([], none)
dequeue (x ∷ q) = (q, some x)

-- After a store the window has one more record at its end.
stored :
    {k : ℕ} {r : Ring} (rec : TelemetryRecord)
    → IsValid k r
    → held r < 2 ^ k
    → window blank
        (set r.shm.slots (bit_and r.shm.header.head r.producer.mask) rec)
        (2 ^ k)
        r.shm.header.tail
        (suc (held r))
      ≡ contents k r ++ rec ∷ []
stored {k} {r} rec v room =
    window-set_last blank r.shm.slots (2 ^ k) r.shm.header.tail (held r) _ rec (omega arith) room
      (slot_of_head v)

-- With room `TryPush` stores, whichever tail it looked at; without, it counts a drop.
push_room :
    {k : ℕ} {r : Ring} (rec : TelemetryRecord)
    → IsValid k r
    → held r < 2 ^ k
    → ((push r rec).0.shm ≡ store r.shm r.producer.mask rec) × ((push r rec).1 ≡ true)
unfolding push try_push
push_room rec v h = ground arith

push_full :
    {k : ℕ} {r : Ring} (rec : TelemetryRecord)
    → IsValid k r
    → ¬ (held r < 2 ^ k)
    → ((push r rec).0.shm ≡ count_drop r.shm) × ((push r rec).1 ≡ false)
unfolding push try_push
push_full rec v h = ground arith

-- `TryPush` into a valid ring is the bounded queue's push: it succeeds exactly when there is room, by the cached tail
-- or after a refresh, and a refusal changes nothing of the queue.
pub push_refines :
    {k : ℕ} {r : Ring} (rec : TelemetryRecord)
    → IsValid k r
    → let (r', done) = push r rec in (contents k r', done) ≡ enqueue (2 ^ k) (contents k r) rec
push_refines {k} {r} rec v = elim (dec_lt (held r) (2 ^ k)) [
  | yes h ↦
      let grown : sub64 (add64 r.shm.header.head 1) r.shm.header.tail ≡ suc (held r) =
        omega arith in
      let (e, done) = push_room rec v h in
      rw (e, done)
        (rw grown (
          rw (stored rec v h)
            (ground (arith, length-window blank r.shm.slots (2 ^ k) r.shm.header.tail (held r)))))
  | no h ↦
      let (e, done) = push_full rec v h in
      rw (e, done)
        (ground (arith, length-window blank r.shm.slots (2 ^ k) r.shm.header.tail (held r)))
]

window_uncons :
    (buf : List TelemetryRecord) (c t n : ℕ)
    → 0 < n
    → window blank buf c t n ≡ get_or buf (t % c) blank ∷ window blank buf c (t + 1) (n - 1)
window_uncons buf c t zero h = absurd (omega arith)
window_uncons buf c t (suc n) h = let e : suc n - 1 ≡ n = omega arith in rw e

pop_stored :
    {k : ℕ} {r : Ring}
    → IsValid k r
    → 0 < held r
    → ((pop r).0.shm ≡ advance_tail r.shm 1)
      × ((pop r).1 ≡ some (get_or r.shm.slots (bit_and r.shm.header.tail r.consumer.mask) blank))
unfolding pop try_pop
pop_stored v h = ground arith

pop_empty :
    {k : ℕ} {r : Ring} → IsValid k r → held r ≡ 0 → ((pop r).0.shm ≡ r.shm) × ((pop r).1 ≡ none)
unfolding pop try_pop
pop_empty v h = ground arith

-- Moving the tail on by `n` leaves the window that starts `n` places later.
pub moved :
    {k : ℕ} {r : Ring} (n : ℕ)
    → IsValid k r
    → n ≤ held r
    → window blank r.shm.slots
        (2 ^ k)
        (add64 r.shm.header.tail n)
        (sub64 r.shm.header.head (add64 r.shm.header.tail n))
      ≡ window blank r.shm.slots (2 ^ k) (r.shm.header.tail + n) (held r - n)
moved {k} {r} n v h =
    let left : sub64 r.shm.header.head (add64 r.shm.header.tail n) ≡ held r - n = omega arith in
    rw left (window-mod blank r.shm.slots (2 ^ k) (2 ^ 64) _ _ (capacity_dvd k v.small.0))

-- `TryPop` from a valid ring is the bounded queue's pop: the front record, or nothing of an empty queue.
pub pop_refines :
    {k : ℕ} {r : Ring}
    → IsValid k r
    → let (r', out) = pop r in (contents k r', out) ≡ dequeue (contents k r)
pop_refines {k} {r} v = elim (dec_lt 0 (held r)) [
  | yes h ↦
      let (e, out) = pop_stored v h in
      rw (e, out)
        (rw (
          moved 1 v h,
          slot_of_tail v,
          window_uncons r.shm.slots (2 ^ k) r.shm.header.tail (held r) h,
        ))
  | no h ↦
      let none_held : held r ≡ 0 = omega arith in
      let (e, out) = pop_empty v none_held in rw (e, out) (rw none_held)
]
