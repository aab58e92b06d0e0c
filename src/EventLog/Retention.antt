-- ===== src/EventLog/Retention.antt =====
-- Retention, queries and segments of libs/py/gb_core/src/gb_core/event_log.py.
use gooberberg_terminal.Prelude.{
  ℕ, ◌+◌, ◌≤◌, String, ◌≡◌, refl, ◌∙◌, sym, Bool, true, ◌&&◌, ◌⊎◌, Option, none, some, List, [],
  ◌∷◌, arith, string_eq, option_eq, Eq, ◌==◌, leb, contains, contains-append, contains-filter,
  length, filter, Bool-cases, inl, inr,
}
use gooberberg_terminal.Prelude.Dict.{lookup}
use gooberberg_terminal.Prelude.Float.{Float}
use gooberberg_terminal.Prelude.Value.{Fields, Builtins}
use gooberberg_terminal.EventLog.Record.{EventRecord, Clock}
use gooberberg_terminal.EventLog.Writer.{
  EventLogWriter, EventQuery, append, narrow, query, is_old, is_retained, archive_all,
  apply_retention_and_archive,
}
use gooberberg_terminal.EventLog.Append.{append-known, get_elem?-none}

module _ {F : Type 0} where
  -- The test on one field: no filter allows every record.
  abbrev pub allows : {A : Type 0} → Option A → (A → EventRecord F → Bool) → EventRecord F → Bool
  allows none test r = true
  allows (some a) test r = test a r

  -- A record is what the query asks for.
  abbrev pub satisfies : EventQuery → EventRecord F → Bool
  satisfies q r =
      allows q.event_type (λ a x. x.event_type == a) r
      && allows q.symbol (λ a x. x.symbol == some a) r
      && allows q.start_time (λ a x. leb a x.event_time) r
      && allows q.end_time (λ a x. leb x.event_time a) r
      && allows q.trace_id (λ a x. x.trace_id == some a) r
      && allows q.decision_id (λ a x. x.decision_id == some a) r
      && allows q.order_id (λ a x. x.order_id == some a) r
      && allows q.run_id (λ a x. x.run_id == some a) r
      && allows q.strategy_id (λ a x. x.strategy_id == some a) r

  filter-true : (rs : List (EventRecord F)) → filter (λ r. true) rs ≡ rs
  filter-true [] = refl
  filter-true (r ∷ rs) = rw (filter-true rs)

  narrow-eq-filter :
      {A : Type 0} (o : Option A) (test : A → EventRecord F → Bool) (rs : List (EventRecord F))
      → narrow o test rs ≡ filter (allows o test) rs
  narrow-eq-filter none test rs = sym (filter-true rs)
  narrow-eq-filter (some a) test rs = refl

  filter-filter :
      (p t : EventRecord F → Bool) (rs : List (EventRecord F))
      → filter p (filter t rs) ≡ filter (λ r. t r && p r) rs
  filter-filter p t [] = refl
  filter-filter p t (r ∷ rs) = ground (arith, filter-filter p t rs)

  narrow-filter :
      {A : Type 0} (o : Option A) (test : A → EventRecord F → Bool) (t : EventRecord F → Bool)
      (rs : List (EventRecord F))
      → narrow o test (filter t rs) ≡ filter (λ r. t r && allows o test r) rs
  narrow-filter o test t rs =
      narrow-eq-filter o test (filter t rs) ∙ filter-filter (allows o test) t rs

  -- The nine passes of a query select, in order, exactly the records that satisfy it.
  pub query-eq-filter :
      (q : EventQuery) (w : EventLogWriter F) → query q w ≡ filter (satisfies q) w.records
  unfolding query
  query-eq-filter q w = simp (narrow-eq-filter q.event_type, narrow-filter)

module _ {F : Type 0} ⦃e : Eq (EventRecord F)⦄ where
  archive_all-keeps :
      (a : EventRecord F) (rs archived : List (EventRecord F))
      → contains a archived ≡ true
      → contains a (archive_all rs archived) ≡ true
  unfolding archive_all
  archive_all-keeps a [] archived h = h
  archive_all-keeps a (r ∷ rs) archived h =
      archive_all-keeps a rs _ (ground (arith, contains-append a archived (r ∷ [])))

  archive_all-contains :
      (a : EventRecord F) (rs archived : List (EventRecord F))
      → contains a rs ≡ true
      → contains a (archive_all rs archived) ≡ true
  unfolding archive_all
  archive_all-contains a [] archived h = cc
  archive_all-contains a (r ∷ rs) archived h = elim (Bool-cases (a == r)) [
    | inl same ↦
        archive_all-keeps a rs _
          (ground (arith, contains-append a archived (r ∷ []), (e.beq_iff a r).0 same))
    | inr other ↦ archive_all-contains a rs _ (ground arith)
  ]

  -- What a retention run keeps is exactly the records younger than the retention period, and if
  -- archiving starts no later than that period, every record that it drops is in the archive.
  pub retention_loses_nothing :
      (now : ℕ) (w : EventLogWriter F) (r : EventRecord F)
      → w.policy.archive_after ≤ w.policy.retention_period
      → contains r w.records ≡ true
      → let w' = (apply_retention_and_archive now w).1 in
        (contains r w'.records ≡ leb now (r.event_time + w.policy.retention_period))
        × ((contains r w'.records ≡ true) ⊎ (contains r w'.archived ≡ true))
  unfolding apply_retention_and_archive
  retention_loses_nothing now w r policy h = (
    contains-filter (is_retained now w.policy.retention_period) r w.records ∙ rw h,
    elim (Bool-cases (is_retained now w.policy.retention_period r)) [
      | inl young ↦ inl (rw (contains-filter, h) young)
      | inr old ↦ inr (
          archive_all-contains r (filter (is_old now w.policy.archive_after) w.records) w.archived
            (contains-filter (is_old now w.policy.archive_after) r w.records ∙ rw h (ground arith)))
    ],
  )

  -- Where retention leaves fewer records than the offset under a known key, appending again under
  -- that key raises and changes nothing.
  append_after_retention :
      ⦃d : Float F⦄ ⦃b : Builtins F⦄ (clock : Clock) (now now' : ℕ) (key : String)
      (payload : Fields F) (w : EventLogWriter F) (o : ℕ)
      → lookup key w.idempotency_offsets ≡ some o
      → length (apply_retention_and_archive now w).1.records ≤ o
      → let w' = (apply_retention_and_archive now w).1 in
        append clock now' key payload w' ≡ (none, w')
  unfolding apply_retention_and_archive
  append_after_retention clock now now' key payload w o known short =
      append-known clock now' key payload (apply_retention_and_archive now w).1 o known
      ∙ rw (get_elem?-none _ o short) refl
