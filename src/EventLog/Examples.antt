-- ===== src/EventLog/Examples.antt =====
-- Tests of the event log, and its theorems at concrete inputs.
use gooberberg_terminal.Prelude.{
  ℕ, String, ◌≡◌, refl, true, false, none, some, [], ◌∷◌, arith, string_eq, Eq, nat_eq, leb,
  contains, filter, ◌⊎◌, inl, inr, Bool-cases, ◌==◌, Bool, ◌↔◌,
}
use native.Mathlib.Decide.{ℕ_discrete}
use gooberberg_terminal.Prelude.Int.{ℤ}
use gooberberg_terminal.Prelude.Value.{get, Fields, text, field, end}
use gooberberg_terminal.Prelude.Whole.{int_float, int_builtins}
use gooberberg_terminal.Prelude.Dict.{lookup}
use gooberberg_terminal.EventLog.Record.{
  EventRecord, Clock, make_record, event_type_of, to_optional_str, coerce_utc_datetime,
}
use gooberberg_terminal.EventLog.Writer.{
  EventLogPolicy, EventLogWriter, EventQuery, store, append, append_at, query,
  apply_retention_and_archive,
}
use gooberberg_terminal.EventLog.Append.{IsDense, append_idempotent}
use gooberberg_terminal.EventLog.Retention.{satisfies, query-eq-filter, retention_loses_nothing}

string-Discrete : Discrete String
string-Discrete s t = elim (Bool-cases (s == t)) [
  | inl same ↦ yes ((string_eq.beq_iff s t).0 same)
  | inr other ↦ no (λ e. ground (arith, (string_eq.beq_iff s t).1 e))
]

record-Discrete : Discrete (EventRecord ℤ)
record-Discrete = hlevel (ℕ_discrete, string-Discrete)

abbrev is_yes : {P : Type 0} → Dec P → Bool
is_yes (yes p) = true
is_yes (no n) = false

is_yes_iff : {P : Type 0} (d : Dec P) → (is_yes d ≡ true) ↔ P
is_yes_iff (yes p) = (λ e. p, λ q. refl)
is_yes_iff (no n) = (λ e. cc, λ q. absurd (n q))

abbrev record_eq : Eq (EventRecord ℤ)
record_eq = record {
  beq = λ a b. is_yes (record-Discrete a b);
  beq_iff = λ a b. is_yes_iff (record-Discrete a b);
}

abbrev clock : Clock
clock = record { from_iso = λ s. none }

abbrev policy : EventLogPolicy
policy = record { retention_period = 20; archive_after = 10 }

abbrev payload : Fields ℤ
payload = field "event_type" (text "FillEvent") (field "symbol" (text "SPY") end)

-- An event of the time at which it is appended.
abbrev event_at : ℕ → ℕ → EventRecord ℤ
event_at offset time = record {
  offset = offset;
  event_type = "FillEvent";
  symbol = some "SPY";
  event_time = time;
  trace_id = none;
  decision_id = none;
  order_id = none;
  run_id = none;
  strategy_id = none;
  payload = payload;
}

abbrev log : EventLogWriter ℤ
log = record {
  policy = policy;
  segment_size = 2;
  next_offset = 3;
  records = event_at 0 100 ∷ event_at 1 115 ∷ event_at 2 130 ∷ [];
  idempotency_offsets = ("a", 0) ∷ ("b", 1) ∷ ("c", 2) ∷ [];
  archived = [];
}

abbrev empty_log : EventLogWriter ℤ
empty_log = record {
  policy = policy;
  segment_size = 2;
  next_offset = 0;
  records = [];
  idempotency_offsets = [];
  archived = [];
}

empty_log-IsDense : IsDense empty_log
unfolding lookup
empty_log-IsDense = record { numbered = tt; next = refl; keys = λ key o e. cc }

append_first : (append clock 100 "a" payload empty_log).0 ≡ some (event_at 0 100)
unfolding append append_at store lookup make_record event_type_of to_optional_str
    coerce_utc_datetime get
append_first = refl

append_idempotent_example :
    append clock 115 "a" end (append clock 100 "a" payload empty_log).1
    ≡ (some (event_at 0 100), (append clock 100 "a" payload empty_log).1)
append_idempotent_example =
    append_idempotent clock 100 115 "a" payload end empty_log (event_at 0 100) empty_log-IsDense
      append_first

log-contains : contains ⦃e = record_eq⦄ (event_at 0 100) log.records ≡ true
log-contains = rw ((record_eq.beq_iff (event_at 0 100) (event_at 0 100)).1 refl) refl

known_c : lookup "c" log.idempotency_offsets ≡ some 2
unfolding lookup
known_c = refl

abbrev at_least : ℕ → EventQuery
at_least t = record {
  event_type = some "FillEvent";
  symbol = none;
  start_time = some t;
  end_time = none;
  trace_id = none;
  decision_id = none;
  order_id = none;
  run_id = none;
  strategy_id = none;
}

query-eq-filter_example : query (at_least 110) log ≡ filter (satisfies (at_least 110)) log.records
query-eq-filter_example = query-eq-filter (at_least 110) log

-- Two of the three records are younger than 110.
query_test : query (at_least 110) log ≡ event_at 1 115 ∷ event_at 2 130 ∷ []
unfolding query
query_test = refl

retention_loses_nothing_example :
    let w' = (apply_retention_and_archive ⦃e = record_eq⦄ 125 log).1 in
    (contains ⦃e = record_eq⦄ (event_at 0 100) w'.records ≡ leb 125 120)
    × ((contains ⦃e = record_eq⦄ (event_at 0 100) w'.records ≡ true)
        ⊎ (contains ⦃e = record_eq⦄ (event_at 0 100) w'.archived ≡ true))
retention_loses_nothing_example =
    retention_loses_nothing ⦃e = record_eq⦄ 125 log (event_at 0 100) (omega arith) log-contains

after_retention :
    (apply_retention_and_archive ⦃e = record_eq⦄ 125 log).1.records
    ≡ event_at 1 115 ∷ event_at 2 130 ∷ []
unfolding apply_retention_and_archive
after_retention = refl
