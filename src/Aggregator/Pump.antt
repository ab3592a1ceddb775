-- ===== src/Aggregator/Pump.antt =====
-- src/stats.cpp, `StreamAggregator::Pump`: what becomes of the records read from the ring.
use framewire.Prelude.{
  ℕ, ◌+◌, ◌%◌, ◌^◌, ◌<◌, ◌∙◌, ◌≡◌, refl, sym, ap, subst, arith, inl, inr, Bool-cases, true, List,
  [], ◌∷◌, ◌==◌, if◌then◌else◌, length,
}
use framewire.Prelude.Chars.{Bytes}
use framewire.Double.{Double}
use framewire.Telemetry.{TelemetryRecord, verify_checksum}
use framewire.Ring.{RingMapping, pop_batch}
use framewire.Aggregator.{StreamAggregator, refresh_layout, ingest, pump_records, pump}
use framewire.Aggregator.Described.{
  Describes, directory, layout_after, untouched, unread-ingest, ingest-Describes,
  refresh_layout-Describes, since_le,
}
use framewire.Aggregator.Passes.{since}

-- The records with a right checksum, in order.
abbrev pub verified : List TelemetryRecord → List TelemetryRecord
verified [] = []
verified (r ∷ rs) = let rest = verified rs in if verify_checksum r then r ∷ rest else rest

-- `rs`, newest first, with the records `xs` after them.
abbrev pub onto : List TelemetryRecord → List TelemetryRecord → List TelemetryRecord
onto [] rs = rs
onto (x ∷ xs) rs = onto xs (x ∷ rs)

length_zero : {A : Type 0} (xs : List A) → (length xs == 0) ≡ true → xs ≡ []
length_zero [] e = refl
length_zero (x ∷ xs) e = absurd (ground arith)

module _ (D : Double) where
  -- From `rs` and `ps` before, the records `recs` read leave `a'`, which describes those with a right checksum too;
  -- these are handed on, and the others are counted.
  abbrev pub Takes :
      List TelemetryRecord
      → StreamAggregator D
      → ℕ
      → List TelemetryRecord
      → List TelemetryRecord
      → StreamAggregator D
      → List TelemetryRecord
      → Type 0
  Takes recs a earlier rs ps a' matched =
      Describes D earlier a' (onto (verified recs) rs) (onto (verified recs) ps)
      × (matched ≡ verified recs)
      × (a'.checksum_errors + length (verified recs) ≡ a.checksum_errors + length recs)

  pump_records-Takes :
      (recs : List TelemetryRecord) (earlier : ℕ) (a : StreamAggregator D)
      (rs ps : List TelemetryRecord)
      → Describes D earlier a rs ps
      → length rs + length recs < 2 ^ 64
      → length ps + length recs < 2 ^ 64
      → a.checksum_errors + length recs < 2 ^ 64
      → Takes recs a earlier rs ps (pump_records D recs a).0 (pump_records D recs a).1
        × (directory D (pump_records D recs a).0 ≡ directory D a)
  unfolding pump_records
  pump_records-Takes [] earlier a rs ps d room few errors = ((d, refl, refl), refl)
  pump_records-Takes (rec ∷ recs) earlier a rs ps d room few errors =
      elim (Bool-cases (verify_checksum rec)) [
        | inl e ↦
            let same : (ingest D rec a).checksum_errors ≡ a.checksum_errors =
              ap (λ v. v.0) (unread-ingest D rec a) in
            let ((taken, handed_on, refused), known) =
              pump_records-Takes recs earlier (ingest D rec a) (rec ∷ rs) (rec ∷ ps)
                (ingest-Describes D rec earlier a rs ps d (omega arith) (omega arith)) (omega arith)
                (omega arith) (omega (arith, same)) in
            rw e (
              (taken, ap (◌∷◌ rec) handed_on, omega (arith, refused, same)),
              known ∙ ap (λ v. v.1) (unread-ingest D rec a),
            )
        | inr e ↦
            let ((taken, handed_on, refused), known) =
              pump_records-Takes recs earlier
                (record a { checksum_errors = (a.checksum_errors + 1) % 2 ^ 64 }) rs ps
                (untouched D earlier a rs ps a.consumer _ d) (omega arith) (omega arith)
                (omega arith) in
            rw e ((taken, handed_on, omega (arith, refused)), known)
      ]

  -- `Pump` hands on exactly the records that it reads from the ring with a right checksum, in order, and counts the
  -- others as checksum errors. Where the statistics described the records `rs` before, they describe `rs` and those
  -- handed on afterwards: the histograms and windows of frame and GPU times, the counts of records, of dropped and of
  -- delayed frames, the last sequence number and the gaps, the first and the last time. Where those of each pass
  -- described the times that the records `ps` give for it, they then describe those of `ps` and of the records handed
  -- on, or of the latter only if records were read and the ring's layout version is not the one known; then the new
  -- version, count and names of the passes are known. No counter may wrap.
  pub pump-Takes :
      (m : RingMapping) (a : StreamAggregator D) (max_records : ℕ) (names : List Bytes)
      (earlier : ℕ) (rs ps : List TelemetryRecord)
      → Describes D earlier a rs ps
      → length rs + length (pop_batch m a.consumer max_records).2 < 2 ^ 64
      → length ps + length (pop_batch m a.consumer max_records).2 < 2 ^ 64
      → a.checksum_errors + length (pop_batch m a.consumer max_records).2 < 2 ^ 64
      → let recs = (pop_batch m a.consumer max_records).2 in
        let (m', a', n, matched) = pump D m a max_records names in
        (m' ≡ (pop_batch m a.consumer max_records).0)
        × (n ≡ length recs)
        × Takes recs a earlier rs
            (if length recs == 0 then ps else since D m'.header names a ps)
            a'
            matched
        × (directory D a'
            ≡ (if length recs == 0 then directory D a else layout_after D m'.header names a))
  unfolding pump
  pump-Takes m a max_records names earlier rs ps d room few errors =
      elim (Bool-cases (length (pop_batch m a.consumer max_records).2 == 0)) [
        | inl e ↦
            let none_read = length_zero (pop_batch m a.consumer max_records).2 e in
            let kept =
              untouched D earlier a rs ps (pop_batch m a.consumer max_records).1 a.checksum_errors
                d in
            rw e (
              refl,
              sym (ap length none_read),
              subst
                  (λ recs.
                    Takes recs a earlier rs ps
                      (record a { consumer = (pop_batch m a.consumer max_records).1 }) [])
                  (sym none_read) (kept, refl, refl),
              refl,
            )
        | inr e ↦
            let b : StreamAggregator D = record a {
              consumer = (pop_batch m a.consumer max_records).1;
            } in
            let h = (pop_batch m a.consumer max_records).0.header in
            let (refreshed, same, known) = refresh_layout-Describes D h names earlier b rs ps (
              untouched D earlier a rs ps (pop_batch m a.consumer max_records).1 a.checksum_errors
                d) in
            let ((taken, handed_on, refused), still_known) =
              pump_records-Takes (pop_batch m a.consumer max_records).2 earlier
                (refresh_layout D h names b) rs (since D h names b ps) refreshed room
                (omega (arith, since_le D h names b ps)) (omega (arith, same)) in
            rw e (refl, refl, (taken, handed_on, omega (arith, refused, same)), still_known ∙ known)
      ]
