-- ===== src/Histogram.antt =====
-- src/histogram.cpp and include/framewire/histogram.h, class `Histogram`: a latency histogram with a
-- fixed number of linear slots in each power of two.
pub mod Slots
mod Tests
pub mod Bounds
pub mod Counts
pub mod Samples
pub mod Range
use Prim.Native.Nat.{bit_and, bit_or}
use framewire.Prelude.{
  ℕ, zero, suc, ◌+◌, ◌-◌, ◌*◌, ◌/◌, ◌%◌, ◌^◌, ◌<◌, min, max, Bool, true, false, not, ◌||◌, List, [],
  ◌∷◌, map, Option, none, some, ◌==◌, ltb, leb, if◌then◌else◌, get_or, set, length, replicate,
}
use framewire.Prelude.Result.{Result, ok, err, throw_if, ◌>>=◌, ◌>>◌}
use framewire.Double.{Double}

-- `std::countl_zero` of a `uint64_t`: 64 less the number of its binary digits, counted in `fuel` rounds.
unfoldable pub digit_count : ℕ → ℕ → ℕ
digit_count zero v = 0
digit_count (suc fuel) v = let rest = suc (digit_count fuel (v / 2)) in if v == 0 then 0 else rest

abbrev pub countl_zero : ℕ → ℕ
countl_zero v = 64 - digit_count 64 v

-- the two loops of `MagnitudeForDigits`
unfoldable pub power_of_ten : ℕ → ℕ → ℕ
power_of_ten zero target = target
power_of_ten (suc n) target = power_of_ten n (target * 10)

unfoldable pub magnitude_from : ℕ → ℕ → ℕ → ℕ
magnitude_from zero target magnitude = magnitude
magnitude_from (suc fuel) target magnitude =
    let more = magnitude_from fuel target (magnitude + 1) in
    if ltb (2 ^ magnitude) target then more else magnitude

unfoldable pub magnitude_for_digits : ℕ → ℕ
unfolding power_of_ten magnitude_from
magnitude_for_digits digits = magnitude_from 64 (power_of_ten digits 1) 0

-- What the constructor fixes.
pub record Layout : Type 0 where
  pub sub_bucket_count_magnitude : ℕ
  pub sub_bucket_count : ℕ
  pub sub_bucket_half_count : ℕ
  pub sub_bucket_half_count_magnitude : ℕ
  pub sub_bucket_mask : ℕ
  pub leading_zero_count_base : ℕ
  pub bucket_count : ℕ

-- The loop that doubles the range until it covers `max_trackable`. Each round doubles
-- `smallest_untrackable`, so 64 rounds are enough.
unfoldable pub count_buckets : ℕ → ℕ → ℕ → ℕ → ℕ
count_buckets zero max_trackable smallest buckets = buckets
count_buckets (suc fuel) max_trackable smallest buckets =
    let more = count_buckets fuel max_trackable (smallest * 2) (buckets + 1) in
    if leb smallest max_trackable
    then if ltb ((2 ^ 64 - 1) / 2) smallest then buckets + 1 else more
    else buckets

unfoldable pub layout : ℕ → ℕ → Layout
layout magnitude max_trackable = record {
  sub_bucket_count_magnitude = magnitude;
  sub_bucket_count = 2 ^ magnitude;
  sub_bucket_half_count = 2 ^ magnitude / 2;
  sub_bucket_half_count_magnitude = magnitude - 1;
  sub_bucket_mask = 2 ^ magnitude - 1;
  leading_zero_count_base = 64 - magnitude;
  bucket_count = count_buckets 64 max_trackable (2 ^ magnitude) 1;
}

-- `bucket_index`, in `uint32_t`
unfoldable pub bucket_index : Layout → ℕ → ℕ
bucket_index l value =
    (l.leading_zero_count_base + 2 ^ 32 - countl_zero (bit_or value l.sub_bucket_mask)) % 2 ^ 32

-- `CountsIndex`. The signed sum goes to `size_t`, so it is written modulo 2^64.
unfoldable pub counts_index : Layout → ℕ → ℕ
counts_index l value =
    let bucket = bucket_index l value in
    let sub_bucket = value / 2 ^ bucket % 2 ^ 32 in
    let bucket_base = (bucket + 1) % 2 ^ 32 * 2 ^ l.sub_bucket_half_count_magnitude in
    (bucket_base + sub_bucket + 2 ^ 64 - l.sub_bucket_half_count) % 2 ^ 64

-- `ValueFromIndex`. Its `bucket_index` is negative exactly where the shifted index is 0.
unfoldable pub value_from_index : Layout → ℕ → ℕ
value_from_index l index =
    let shifted = index / 2 ^ l.sub_bucket_half_count_magnitude in
    let sub_bucket = bit_and index (l.sub_bucket_half_count - 1) + l.sub_bucket_half_count in
    if shifted == 0
    then sub_bucket - l.sub_bucket_half_count
    else sub_bucket * 2 ^ (shifted - 1) % 2 ^ 64

-- `HighestEquivalent`; `~(slot_width - 1)` is 2^64 - slot_width.
unfoldable pub highest_equivalent : Layout → ℕ → ℕ
highest_equivalent l value =
    let slot_width = 2 ^ bucket_index l value in
    (bit_and value (2 ^ 64 - slot_width) + slot_width - 1) % 2 ^ 64

abbrev pub sum : List ℕ → ℕ
sum [] = 0
sum (c ∷ cs) = c + sum cs

pub data Error : Type 0 where
  bad_digits layouts_differ : Error

-- The loop of `ValueAtQuantile` over the slots from `i` on, with the count so far; `none` where it runs
-- off the end.
unfoldable pub find_slot : List ℕ → ℕ → ℕ → ℕ → Option ℕ
find_slot [] i seen wanted = none
find_slot (c ∷ cs) i seen wanted =
    let rest = find_slot cs (i + 1) ((seen + c) % 2 ^ 64) wanted in
    if leb wanted ((seen + c) % 2 ^ 64) then some i else rest

-- the loop of `Merge`
unfoldable pub add_counts : List ℕ → List ℕ → List ℕ
add_counts [] ds = []
add_counts (c ∷ cs) [] = c ∷ cs
add_counts (c ∷ cs) (d ∷ ds) = (c + d) % 2 ^ 64 ∷ add_counts cs ds

module _ (D : Double) where
  open D use {Carrier, of_nat, plus, times, over, less, ceil, to_nat}

  pub record Histogram : Type 0 where
    pub layout_of : Layout
    pub counts : List ℕ
    pub total_count : ℕ
    pub min_seen : ℕ
    pub max_seen : ℕ
    pub total : Carrier

  abbrev pub empty_histogram : Layout → Histogram
  empty_histogram l = record {
    layout_of = l;
    counts = replicate ((l.bucket_count + 1) * l.sub_bucket_half_count) 0;
    total_count = 0;
    min_seen = 2 ^ 64 - 1;
    max_seen = 0;
    total = of_nat 0;
  }

  unfoldable pub new_histogram : ℕ → ℕ → Result Error Histogram
  new_histogram max_trackable digits = do
    throw_if (ltb digits 1 || ltb 5 digits) bad_digits
    ok (empty_histogram (layout (magnitude_for_digits digits) (max max_trackable 2)))

  -- the slot that `Record` counts in: past the end, the last one
  abbrev pub slot_for : Histogram → ℕ → ℕ
  slot_for h value = min (counts_index h.layout_of value) (length h.counts - 1)

  unfoldable pub observe : Histogram → ℕ → Histogram
  observe h sample =
      let value = if sample == 0 then 1 else sample in
      let index = slot_for h value in
      record h {
        counts = set h.counts index ((get_or h.counts index 0 + 1) % 2 ^ 64);
        total_count = (h.total_count + 1) % 2 ^ 64;
        total = plus h.total (of_nat value);
        min_seen = if ltb value h.min_seen then value else h.min_seen;
        max_seen = if ltb h.max_seen value then value else h.max_seen;
      }

  -- The rank that a quantile asks for, between 1 and `n`.
  abbrev pub clamp_unit : Carrier → Carrier
  clamp_unit q =
      let low = if less q (of_nat 0) then of_nat 0 else q in
      if less (of_nat 1) low then of_nat 1 else low

  unfoldable pub rank_of : Carrier → ℕ → ℕ
  rank_of quantile n =
      let wanted = to_nat (ceil (times (clamp_unit quantile) (of_nat n))) in
      let at_least_one = if wanted == 0 then 1 else wanted in
      if ltb n at_least_one then n else at_least_one

  unfoldable pub value_at_quantile : Histogram → Carrier → ℕ
  unfolding find_slot rank_of
  value_at_quantile h quantile =
      if h.total_count == 0
      then 0
      else elim (find_slot h.counts 0 0 (rank_of quantile h.total_count)) [
        | none ↦ h.max_seen
        | some i ↦ highest_equivalent h.layout_of (value_from_index h.layout_of i)
      ]

  unfoldable pub merge : Histogram → Histogram → Result Error Histogram
  unfolding add_counts
  merge h other = do
    throw_if (not (length other.counts == length h.counts)) layouts_differ
    ok (record h {
      counts = add_counts h.counts other.counts;
      total_count = (h.total_count + other.total_count) % 2 ^ 64;
      total = plus h.total other.total;
      min_seen = if ltb 0 other.total_count then min h.min_seen other.min_seen else h.min_seen;
      max_seen = if ltb 0 other.total_count then max h.max_seen other.max_seen else h.max_seen;
    })

  unfoldable pub reset : Histogram → Histogram
  reset h = record h {
    counts = map (λ _. 0) h.counts;
    total_count = 0;
    total = of_nat 0;
    min_seen = 2 ^ 64 - 1;
    max_seen = 0;
  }

  unfoldable pub mean : Histogram → Carrier
  mean h = if h.total_count == 0 then of_nat 0 else over h.total (of_nat h.total_count)
