-- ===== src/Ring/Batch.antt =====
-- src/spsc_ring.cpp: `PopBatch` against the queue of the records that the ring holds.
use framewire.Prelude.{
  ℕ, zero, suc, ◌+◌, ◌-◌, ◌^◌, ◌≤◌, ◌<◌, ◌≡◌, refl, sym, ap, ap₂, ◌∙◌, min, ◌∷◌, ◌++◌, arith,
  length, get_or, ◌==◌, if◌then◌else◌,
}
use framewire.Ring.{sub64, add64, blank, copy_batch, take_batch, pop_batch}
use framewire.Ring.Window.{window, length-window, window-split}
use framewire.Ring.Inv.{Ring, IsValid, held, pop_many}
use framewire.Ring.Fifo.{contents, slot_at, moved}

-- The loop copies the window that starts `i` places behind the tail.
copy_batch-window :
    {k : ℕ} {r : Ring} (i n : ℕ)
    → IsValid k r
    → copy_batch r.shm.slots r.consumer.mask r.shm.header.tail i n
      ≡ window blank r.shm.slots (2 ^ k) (r.shm.header.tail + i) n
unfolding copy_batch
copy_batch-window i zero v = refl
copy_batch-window {k} {r} i (suc n) v =
    let next : r.shm.header.tail + (i + 1) ≡ r.shm.header.tail + i + 1 = omega arith in
    ap₂ ◌∷◌ (ap (λ j. get_or r.shm.slots j blank) (slot_at i v))
      (copy_batch-window (i + 1) n v ∙ ap (λ t. window blank r.shm.slots (2 ^ k) t n) next)

-- How many records a call takes: none, or as many as it asks for of those that the cached head shows.
batch_size : Ring → ℕ → ℕ
batch_size r n =
    if n == 0
    then 0
    else if r.shm.header.tail == r.consumer.cached_head
    then min (held r) n
    else min (sub64 r.consumer.cached_head r.shm.header.tail) n

batch_size_bounds :
    {k : ℕ} {r : Ring} (n : ℕ)
    → IsValid k r
    → (batch_size r n ≤ held r) × (batch_size r n ≤ n) × (0 < held r → 0 < n → 0 < batch_size r n)
unfolding batch_size
batch_size_bounds n v = (ground arith, ground arith, λ h g. ground arith)

pop_many_out :
    {k : ℕ} {r : Ring} (n : ℕ)
    → IsValid k r
    → ((pop_many r n).1
        ≡ copy_batch r.shm.slots r.consumer.mask r.shm.header.tail 0 (batch_size r n))
      × ((pop_many r n).0.shm.slots ≡ r.shm.slots)
      × ((pop_many r n).0.shm.header.head ≡ r.shm.header.head)
      × ((pop_many r n).0.shm.header.tail ≡ add64 r.shm.header.tail (batch_size r n))
unfolding pop_many pop_batch take_batch batch_size copy_batch
pop_many_out n v = (ground arith, ground arith, ground arith, ground arith)

-- From a valid ring `PopBatch` returns a prefix of the queue, at most `n` long, and leaves the rest; it returns nothing
-- only if nothing was asked for or the queue is empty.
pub pop_many_takes :
    {k : ℕ} {r : Ring} (n : ℕ)
    → IsValid k r
    → let (r', out) = pop_many r n in
      (contents k r ≡ out ++ contents k r')
      × (length out ≤ n)
      × (0 < n → 0 < length (contents k r) → 0 < length out)
pop_many_takes {k} {r} n v =
    let (out_eq, slots_eq, head_eq, tail_eq) = pop_many_out n v in
    let (fits, asked, some_taken) = batch_size_bounds n v in
    let start : r.shm.header.tail + 0 ≡ r.shm.header.tail = omega arith in
    let taken =
      out_eq
      ∙ copy_batch-window 0 (batch_size r n) v
      ∙ ap (λ t. window blank r.shm.slots (2 ^ k) t (batch_size r n)) start in
    let size : length (pop_many r n).1 ≡ batch_size r n =
      ap length taken
      ∙ length-window blank r.shm.slots (2 ^ k) r.shm.header.tail (batch_size r n) in
    let whole : held r ≡ batch_size r n + (held r - batch_size r n) = omega arith in
    (
      ap (window blank r.shm.slots (2 ^ k) r.shm.header.tail) whole
          ∙ window-split blank r.shm.slots (2 ^ k) r.shm.header.tail (batch_size r n)
              (held r - batch_size r n)
          ∙ ap₂ ◌++◌ (sym taken)
              (sym (rw (slots_eq, head_eq, tail_eq) (moved (batch_size r n) v fits))),
      omega (arith, size),
      λ h g. omega (
        arith,
        size,
        some_taken
            (omega (arith, length-window blank r.shm.slots (2 ^ k) r.shm.header.tail (held r))) h,
      ),
    )
