-- ===== src/EventLog/Writer.antt =====
-- `EventLogWriter` of libs/py/gb_core/src/gb_core/event_log.py. The duration of the policy and
-- instants are numbers, and a cutoff `now - d` is compared by `time + d` with `now`.
use gooberberg_terminal.Prelude.{
  ℕ, zero, suc, ◌+◌, ◌-◌, String, Bool, Option, none, some, List, [], ◌∷◌, ◌++◌, Eq, ◌==◌,
  string_eq, option_eq, leb, contains, filter, get_elem?, length, take, drop, if◌then◌else◌,
}
use Prim.Native.Nat.{max}
use gooberberg_terminal.Prelude.Dict.{Dict, lookup, insert}
use gooberberg_terminal.Prelude.Float.{Float}
use gooberberg_terminal.Prelude.Value.{Fields, Builtins}
use gooberberg_terminal.EventLog.Record.{EventRecord, Clock, make_record}

pub record EventLogPolicy : Type 0 where
  pub retention_period : ℕ
  pub archive_after : ℕ

pub record EventLogWriter (F : Type 0) : Type 0 where
  pub policy : EventLogPolicy
  pub segment_size : ℕ
  pub next_offset : ℕ
  pub records : List (EventRecord F)
  pub idempotency_offsets : Dict String ℕ
  pub archived : List (EventRecord F)

pub record EventQuery : Type 0 where
  pub event_type : Option String
  pub symbol : Option String
  pub start_time : Option ℕ
  pub end_time : Option ℕ
  pub trace_id : Option String
  pub decision_id : Option String
  pub order_id : Option String
  pub run_id : Option String
  pub strategy_id : Option String

pub record SegmentIntegrity : Type 0 where
  pub segment_id : ℕ
  pub event_count : ℕ
  pub checksum : String

module _ {F : Type 0} where
  -- `__init__`
  unfoldable pub writer_init : EventLogPolicy → ℕ → EventLogWriter F
  writer_init policy segment_size = record {
    policy = policy;
    segment_size = max segment_size 1;
    next_offset = 0;
    records = [];
    idempotency_offsets = [];
    archived = [];
  }

  -- The end of `append`, where the key is new and the record could be built.
  unfoldable pub store :
      String → Option (EventRecord F) → EventLogWriter F → Option (EventRecord F) × EventLogWriter F
  store key none w = (none, w)
  store key (some r) w = (
    some r,
    record w {
      records = w.records ++ r ∷ [];
      idempotency_offsets = insert key r.offset w.idempotency_offsets;
      next_offset = w.next_offset + 1;
    },
  )

module _ {F : Type 0} ⦃d : Float F⦄ ⦃b : Builtins F⦄ where
  unfoldable pub append_at :
      Clock
      → ℕ
      → String
      → Option ℕ
      → Fields F
      → EventLogWriter F
      → Option (EventRecord F) × EventLogWriter F
  unfolding store
  append_at clock now key (some offset) payload w = (get_elem? w.records offset, w)
  append_at clock now key none payload w = store key (make_record clock now w.next_offset payload) w

  -- `append`. `none` is an exception: an index out of range, or a time that cannot be read.
  unfoldable pub append :
      Clock → ℕ → String → Fields F → EventLogWriter F → Option (EventRecord F) × EventLogWriter F
  unfolding append_at
  append clock now key payload w =
      append_at clock now key (lookup key w.idempotency_offsets) payload w

module _ {F : Type 0} where
  -- `if q.f is not None: result = [r for r in result if r.f == q.f]`, for a field that is a text,
  -- one that is a text or `None`, and the two bounds on the time.
  abbrev pub narrow :
      {A : Type 0}
      → Option A
      → (A → EventRecord F → Bool)
      → List (EventRecord F)
      → List (EventRecord F)
  narrow none test rs = rs
  narrow (some a) test rs = filter (test a) rs

  -- `query`
  unfoldable pub query : EventQuery → EventLogWriter F → List (EventRecord F)
  query q w =
      narrow q.strategy_id (λ a r. r.strategy_id == some a)
        (narrow q.run_id (λ a r. r.run_id == some a)
          (narrow q.order_id (λ a r. r.order_id == some a)
            (narrow q.decision_id (λ a r. r.decision_id == some a)
              (narrow q.trace_id (λ a r. r.trace_id == some a)
                (narrow q.end_time (λ a r. leb r.event_time a)
                  (narrow q.start_time (λ a r. leb a r.event_time)
                    (narrow q.symbol (λ a r. r.symbol == some a)
                      (narrow q.event_type (λ a r. r.event_type == a) w.records))))))))

  abbrev pub is_old : ℕ → ℕ → EventRecord F → Bool
  is_old now age r = leb (r.event_time + age) now

  abbrev pub is_retained : ℕ → ℕ → EventRecord F → Bool
  is_retained now age r = leb now (r.event_time + age)

  -- The loop of `integrity_segments` over `range(0, len(records), segment_size)`, from a segment on.
  -- `rounds` bounds the segments that are left, and `digest` is the checksum of a part.
  unfoldable pub segments_from :
      (List (EventRecord F) → String) → ℕ → ℕ → ℕ → List (EventRecord F) → List SegmentIntegrity
  segments_from digest size segment_id zero rs = []
  segments_from digest size segment_id (suc rounds) [] = []
  segments_from digest size segment_id (suc rounds) (r ∷ rs) =
      let part = take size (r ∷ rs) in
      record { segment_id = segment_id; event_count = length part; checksum = digest part }
      ∷ segments_from digest size (suc segment_id) rounds (drop size (r ∷ rs))

  -- `integrity_segments`: there are no more segments than records.
  unfoldable pub integrity_segments :
      (List (EventRecord F) → String) → EventLogWriter F → List SegmentIntegrity
  unfolding segments_from
  integrity_segments digest w = segments_from digest w.segment_size 0 (length w.records) w.records

module _ {F : Type 0} ⦃e : Eq (EventRecord F)⦄ where
  -- `for r in to_archive: if r not in self._archived: self._archived.append(r)`
  unfoldable pub archive_all : List (EventRecord F) → List (EventRecord F) → List (EventRecord F)
  archive_all [] archived = archived
  archive_all (r ∷ rs) archived =
      archive_all rs (if contains r archived then archived else archived ++ r ∷ [])

  -- `apply_retention_and_archive`: the two counts, and the new state.
  unfoldable pub apply_retention_and_archive : ℕ → EventLogWriter F → (ℕ × ℕ) × EventLogWriter F
  unfolding archive_all
  apply_retention_and_archive now w =
      let to_archive = filter (is_old now w.policy.archive_after) w.records in
      let kept = filter (is_retained now w.policy.retention_period) w.records in
      (
        (length to_archive, length w.records - length kept),
        record w { archived = archive_all to_archive w.archived; records = kept },
      )
