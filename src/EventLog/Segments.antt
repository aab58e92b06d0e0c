-- ===== src/EventLog/Segments.antt =====
-- The segments of libs/py/gb_core/src/gb_core/event_log.py.
use gooberberg_terminal.Prelude.{
  ℕ, zero, suc, ◌≤◌, String, ◌≡◌, refl, List, [], ◌∷◌, ◌++◌, arith, length, take, drop, length-take,
  length-drop, take-append-drop, All,
}
use gooberberg_terminal.EventLog.Record.{EventRecord}
use gooberberg_terminal.EventLog.Writer.{
  EventLogWriter, SegmentIntegrity, segments_from, integrity_segments,
}

module _ {F : Type 0} (digest : List (EventRecord F) → String) where
  -- The parts of a list of records, sealed in order under the numbers from `n` on.
  abbrev pub sealed : ℕ → List (List (EventRecord F)) → List SegmentIntegrity
  sealed n [] = []
  sealed n (part ∷ parts) =
      record { segment_id = n; event_count = length part; checksum = digest part }
      ∷ sealed (suc n) parts

module _ {F : Type 0} where
  abbrev pub concat : List (List (EventRecord F)) → List (EventRecord F)
  concat [] = []
  concat (part ∷ parts) = part ++ concat parts

  -- The parts are neither empty nor larger than a segment, and together they are the records.
  abbrev pub Partitions : ℕ → List (List (EventRecord F)) → List (EventRecord F) → Type 0
  Partitions size parts rs =
      (concat parts ≡ rs) × All (λ part. (1 ≤ length part) × (length part ≤ size)) parts

  length-take_pos :
      (n : ℕ) (r : EventRecord F) (rs : List (EventRecord F)) → 1 ≤ n → 1 ≤ length (take n (r ∷ rs))
  length-take_pos zero r rs h = absurd (omega arith)
  length-take_pos (suc n) r rs h = omega arith

  segments_from-parts :
      (digest : List (EventRecord F) → String) (size id rounds : ℕ) (rs : List (EventRecord F))
      → 1 ≤ size
      → length rs ≤ rounds
      → (parts : List (List (EventRecord F))) × Partitions size parts rs
        × (segments_from digest size id rounds rs ≡ sealed digest id parts)
  unfolding segments_from
  segments_from-parts digest size id zero [] pos h = ([], (refl, tt), refl)
  segments_from-parts digest size id zero (r ∷ rs) pos h = absurd (omega arith)
  segments_from-parts digest size id (suc rounds) [] pos h = ([], (refl, tt), refl)
  segments_from-parts digest size id (suc rounds) (r ∷ rs) pos h =
      let rest = drop size (r ∷ rs) in
      let (parts, (whole, sizes), same) =
        segments_from-parts digest size (suc id) rounds rest pos
          (omega (arith, length-drop size (r ∷ rs))) in
      (
        take size (r ∷ rs) ∷ parts,
        (
          rw whole (take-append-drop size (r ∷ rs)),
          ((length-take_pos size r rs pos, length-take size (r ∷ rs)), sizes),
        ),
        rw same refl,
      )

  -- The segments seal, in order, a partition of all the records into parts of 1 to `segment_size`
  -- records: the bound on the loop's rounds never cuts it short.
  integrity_segments_partition :
      (digest : List (EventRecord F) → String) (w : EventLogWriter F)
      → 1 ≤ w.segment_size
      → (parts : List (List (EventRecord F))) × Partitions w.segment_size parts w.records
        × (integrity_segments digest w ≡ sealed digest 0 parts)
  unfolding integrity_segments
  integrity_segments_partition digest w pos =
      segments_from-parts digest w.segment_size 0 (length w.records) w.records pos (omega arith)
