-- ===== src/Ring/Threads/Inv.antt =====
-- src/spsc_ring.cpp: an invariant of the program points of the two sides.
use Prim.Native.Nat.{bit_and}
use framewire.Prelude.Bits.{bit_and-low_mask}
use native.Mathlib.Nat.{mod-mod_of_dvd}
use framewire.Prelude.{
  ℕ, suc, ◌+◌, ◌-◌, ◌%◌, ◌^◌, ◌≤◌, ◌<◌, ◌≡◌, refl, sym, ap, ◌∙◌, inl, inr, Bool-cases, List, [],
  ◌∷◌, ◌++◌, append_assoc, arith, ◌==◌, ltb, get_or, set, get_or-set_self, length, length-set,
}
use framewire.Telemetry.{TelemetryRecord}
use framewire.Ring.{looks_full, sub64, add64, blank}
use framewire.Ring.Window.{window, window-set_behind, window-last, window-split}
use framewire.Ring.Inv.{Ring, IsValid, held}
use framewire.Ring.Fifo.{contents, capacity_dvd, slot_at, moved}
use framewire.Ring.Threads.{
  PushPoint, loaded, refreshed, storing, publishing, dropping, PopPoint, looking, copying, System,
  push_turn, begin_copy, pop_turn, Turn, producer_turn, consumer_turn, turn, schedule,
}

abbrev pub ring_of : System → Ring
ring_of s = record { shm = s.shm; producer = s.producer; consumer = s.consumer }

module _ (k : ℕ) (slots : List TelemetryRecord) where
  -- The producer's locals, against the head, its mask and its cached tail.
  abbrev pub PushOk : ℕ → ℕ → ℕ → PushPoint → Type 0
  PushOk mask head cached (loaded rec h) = h ≡ head
  PushOk mask head cached (refreshed rec h) = h ≡ head
  PushOk mask head cached (storing rec h) = (h ≡ head) × (sub64 head cached < 2 ^ k)
  PushOk mask head cached (publishing rec h) =
      (h ≡ head) × (sub64 head cached < 2 ^ k) × (get_or slots (bit_and h mask) blank ≡ rec)
  PushOk mask head cached _ = Unit {0}

  -- The consumer's locals, against the tail and its cached head.
  abbrev pub PopOk : ℕ → ℕ → PopPoint → Type 0
  PopOk tail cached PopPoint.idle = Unit {0}
  PopOk tail cached (looking t bound) = (t ≡ tail) × (0 < bound)
  PopOk tail cached (copying t i n out) =
      (t ≡ tail) × (i ≤ n) × (n ≤ sub64 cached tail) × (out ≡ window blank slots (2 ^ k) tail i)

pub record Inv (k : ℕ) (s : System) : Type 0 where
  pub valid : IsValid k (ring_of s)
  pub pushing :
      PushOk k s.shm.slots s.producer.mask s.shm.header.head s.producer.cached_tail s.push_point
  pub popping : PopOk k s.shm.slots s.shm.header.tail s.consumer.cached_head s.pop_point
  pub history : s.accepted ≡ s.received ++ contents k (ring_of s)

-- The slot behind the records held, as the producer computes it.
pub slot_of_head :
    {k : ℕ} {r : Ring} (h : ℕ)
    → IsValid k r
    → h ≡ r.shm.header.head
    → bit_and h r.producer.mask ≡ (r.shm.header.tail + held r) % 2 ^ k
slot_of_head {k} {r} h v e =
    ap (bit_and h) v.masks.0
    ∙ bit_and-low_mask k h
    ∙ ap (λ i. i % 2 ^ k) position
    ∙ mod-mod_of_dvd (2 ^ k) (r.shm.header.tail + held r) (capacity_dvd k v.small.0)
  where
    position : h ≡ (r.shm.header.tail + held r) % 2 ^ 64
    position = omega arith

-- A store behind the records held leaves the consumer's copy true.
PopOk-set :
    (k : ℕ) (slots : List TelemetryRecord) (tail cached m i : ℕ) (rec : TelemetryRecord)
    (p : PopPoint)
    → sub64 cached tail ≤ m
    → m < 2 ^ k
    → i ≡ (tail + m) % 2 ^ k
    → PopOk k slots tail cached p
    → PopOk k (set slots i rec) tail cached p
PopOk-set k slots tail cached m i rec PopPoint.idle h room e ok = tt
PopOk-set k slots tail cached m i rec (looking t bound) h room e ok = ok
PopOk-set k slots tail cached m i rec (copying t j n out) h room e (a, b, c, d) =
    (a, b, c, d ∙ sym (window-set_behind blank slots (2 ^ k) tail j m i rec (omega arith) room e))

module _ {k : ℕ} {s : System} (v : Inv k s) where
  open v use {valid, popping, history}

  -- Behind a store the window of the records held is the same.
  stored-contents :
      (h : ℕ) (rec : TelemetryRecord)
      → h ≡ s.shm.header.head
      → held (ring_of s) < 2 ^ k
      → window blank
          (set s.shm.slots (bit_and h s.producer.mask) rec)
          (2 ^ k)
          s.shm.header.tail
          (held (ring_of s))
        ≡ contents k (ring_of s)
  stored-contents h rec e room =
      window-set_behind blank s.shm.slots (2 ^ k) s.shm.header.tail (held (ring_of s))
        (held (ring_of s)) _ rec (omega arith) room (slot_of_head h valid e)

  push_turn-Inv :
      (p : PushPoint) (next : TelemetryRecord)
      → PushOk k s.shm.slots s.producer.mask s.shm.header.head s.producer.cached_tail p
      → Inv k (push_turn p s next)
  unfolding push_turn
  push_turn-Inv PushPoint.idle next ok = record {
    valid = omega arith;
    pushing = refl;
    popping = popping;
    history = history;
  }
  push_turn-Inv (loaded rec h) next ok =
      elim (Bool-cases (looks_full s.producer.mask h s.producer.cached_tail)) [
        | inl full ↦
            rw full
              (record { valid = ground arith; pushing = ok; popping = popping; history = history })
        | inr room ↦ rw room (record {
          valid = omega arith;
          pushing = (ok, ground arith);
          popping = popping;
          history = history;
        })
      ]
  push_turn-Inv (refreshed rec h) next ok =
      elim (Bool-cases (looks_full s.producer.mask h s.producer.cached_tail)) [
        | inl full ↦
            rw full
              (record { valid = omega arith; pushing = tt; popping = popping; history = history })
        | inr room ↦ rw room (record {
          valid = omega arith;
          pushing = (ok, ground arith);
          popping = popping;
          history = history;
        })
      ]
  push_turn-Inv (storing rec h) next ok =
      let slots_len = length-set s.shm.slots (bit_and h s.producer.mask) rec in
      let room : held (ring_of s) < 2 ^ k = omega arith in
      let inside : bit_and h s.producer.mask < length s.shm.slots =
        omega (arith, slot_of_head h valid ok.0) in
      record {
        valid = omega (arith, slots_len);
        pushing = (ok.0, ok.1, get_or-set_self s.shm.slots _ rec blank inside);
        popping =
            PopOk-set k s.shm.slots s.shm.header.tail s.consumer.cached_head (held (ring_of s)) _
              rec s.pop_point valid.head_in room (slot_of_head h valid ok.0) popping;
        history = rw (stored-contents h rec ok.0 room) history;
      }
  push_turn-Inv (publishing rec h) next ok =
      let grown : sub64 (add64 h 1) s.shm.header.tail ≡ suc (held (ring_of s)) = omega arith in
      let last : get_or s.shm.slots ((s.shm.header.tail + held (ring_of s)) % 2 ^ k) blank ≡ rec =
        ap (λ i. get_or s.shm.slots i blank) (sym (slot_of_head h valid ok.0)) ∙ ok.2 in
      record {
        valid = omega arith;
        pushing = tt;
        popping = popping;
        history =
            rw
              (
                grown,
                window-last blank s.shm.slots (2 ^ k) s.shm.header.tail (held (ring_of s)),
                last,
              )
              (ap (λ l. l ++ rec ∷ []) history
                ∙ append_assoc s.received (contents k (ring_of s)) (rec ∷ []));
      }
  push_turn-Inv dropping next ok = record {
    valid = omega arith;
    pushing = tt;
    popping = popping;
    history = history;
  }

  begin_copy-Inv :
      (t bound cached : ℕ)
      → t ≡ s.shm.header.tail
      → let fresh = record (s.consumer) { cached_head = cached } in
        IsValid k (record { shm = s.shm; producer = s.producer; consumer = fresh })
        → Inv k (begin_copy (record s { consumer = fresh }) t bound)
  begin_copy-Inv t bound cached e w = record {
    valid = w;
    pushing = v.pushing;
    popping = (e, omega arith, omega arith, refl);
    history = history;
  }

  -- Moving the tail past the copied records hands them over.
  copied-history :
      (t n : ℕ) (out : List TelemetryRecord)
      → t ≡ s.shm.header.tail
      → n ≤ sub64 s.consumer.cached_head s.shm.header.tail
      → out ≡ window blank s.shm.slots (2 ^ k) s.shm.header.tail n
      → s.accepted
        ≡ (s.received ++ out)
          ++ window blank s.shm.slots (2 ^ k) (add64 t n) (sub64 s.shm.header.head (add64 t n))
  copied-history t n out e le o =
      let fits : n ≤ held (ring_of s) = omega arith in
      let whole : held (ring_of s) ≡ n + (held (ring_of s) - n) = omega arith in
      let rest = moved n valid fits in
      let split =
        ap (window blank s.shm.slots (2 ^ k) s.shm.header.tail) whole
        ∙ window-split blank s.shm.slots (2 ^ k) s.shm.header.tail n (held (ring_of s) - n) in
      rw (e, o)
        (rw rest (
          history
          ∙ ap (◌++◌ s.received) split
          ∙ sym (
              append_assoc s.received (window blank s.shm.slots (2 ^ k) s.shm.header.tail n)
                (window blank s.shm.slots (2 ^ k) (s.shm.header.tail + n) (held (ring_of s) - n)))))

  pop_turn-Inv :
      (p : PopPoint) (most : ℕ)
      → PopOk k s.shm.slots s.shm.header.tail s.consumer.cached_head p
      → Inv k (pop_turn p s most)
  unfolding pop_turn
  pop_turn-Inv PopPoint.idle most ok = elim (Bool-cases (most == 0)) [
    | inl none_asked ↦ rw none_asked v
    | inr some_asked ↦ rw some_asked (record {
      valid = valid;
      pushing = v.pushing;
      popping = (refl, ground arith);
      history = history;
    })
  ]
  pop_turn-Inv (looking t bound) most ok = elim (Bool-cases (t == s.consumer.cached_head)) [
    | inr seen ↦ rw seen (begin_copy-Inv t bound s.consumer.cached_head ok.0 valid)
    | inl unseen ↦ elim (Bool-cases (t == s.shm.header.head)) [
      | inl empty ↦
          rw (unseen, empty)
            (record { valid = omega arith; pushing = v.pushing; popping = tt; history = history })
      | inr some_held ↦
          rw (unseen, some_held) (begin_copy-Inv t bound s.shm.header.head ok.0 (omega arith))
    ]
  ]
  pop_turn-Inv (copying t i n out) most (e, le, cached, o) = elim (Bool-cases (ltb i n)) [
    | inl more ↦
        let next : i + 1 ≡ suc i = omega arith in
        let slot : bit_and (add64 t i) s.consumer.mask ≡ (s.shm.header.tail + i) % 2 ^ k =
          ap (λ j. bit_and (add64 j i) s.consumer.mask) e ∙ slot_at i valid in
        rw more (record {
          valid = valid;
          pushing = v.pushing;
          popping = (
            e,
            ground arith,
            cached,
            rw (slot, o, next) (sym (window-last blank s.shm.slots (2 ^ k) s.shm.header.tail i)),
          );
          history = history;
        })
    | inr done ↦
        let all : i ≡ n = ground arith in
        rw done (record {
          valid = omega arith;
          pushing = v.pushing;
          popping = tt;
          history =
              copied-history t n out e cached
                (o ∙ ap (window blank s.shm.slots (2 ^ k) s.shm.header.tail) all);
        })
  ]

-- Every turn of either side keeps the invariant.
pub turn-Inv : {k : ℕ} {s : System} (t : Turn) → Inv k s → Inv k (turn t s)
unfolding turn
turn-Inv {s} (producer_turn next) v = push_turn-Inv v s.push_point next v.pushing
turn-Inv {s} (consumer_turn most) v = pop_turn-Inv v s.pop_point most v.popping

pub schedule-Inv : {k : ℕ} {s : System} (ts : List Turn) → Inv k s → Inv k (schedule ts s)
unfolding schedule
schedule-Inv [] v = v
schedule-Inv {s} (t ∷ ts) v = schedule-Inv {s = turn t s} ts (turn-Inv t v)
