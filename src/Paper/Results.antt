-- ===== src/Paper/Results.antt =====
-- The outcome of an intent and the results that the engine keeps, of
-- libs/py/gb_core/src/gb_core/paper_execution.py.
use gooberberg_terminal.Prelude.{
  ◌≤◌, String, ◌≡◌, refl, Bool, true, ◌||◌, Option, none, some, List, [], ◌∷◌, arith, string_eq,
  length, if◌then◌else◌, Bool-cases, inl, inr,
}
use gooberberg_terminal.Prelude.Float.{Float, nought, ◌<<◌}
use gooberberg_terminal.Prelude.Dict.{lookup, lookup-insert_self, insert_cases}
use gooberberg_terminal.Paper.Events.{
  PaperExecutionConfig, OrderIntentEvent, OrderStatus, OrderEvent, submitted, ack, rejected,
  canceled, order_event,
}
use gooberberg_terminal.Paper.Slices.{Call, slice_count}
use gooberberg_terminal.Paper.Engine.{
  PaperExecutionResult, PaperExecutionEngine, fill_result, rejection, is_rejected, is_blocked,
  ack_time, execute, process_known, process_intent,
}
use gooberberg_terminal.Paper.Fills.{filled_from, AreFills, run_slices-IsRun}

module _ {F : Type 0} ⦃d : Float F⦄ where
  abbrev pub statuses : List (OrderEvent F) → List OrderStatus
  statuses [] = []
  statuses (e ∷ es) = e.status ∷ statuses es

  statuses-if :
      (test : Bool) (xs ys : List (OrderEvent F))
      → statuses (if test then xs else ys) ≡ (if test then statuses xs else statuses ys)
  statuses-if test xs ys = ground arith

  -- The life of an order by what was filled of it.
  abbrev pub life : PaperExecutionConfig F → OrderIntentEvent F → F → List OrderStatus
  life config intent filled =
      if is_rejected config intent
      then submitted ∷ rejected ∷ []
      else if is_blocked config intent || filled << intent.quantity
      then submitted ∷ ack ∷ canceled ∷ []
      else submitted ∷ ack ∷ []

  -- What an intent must lead to.
  pub record IsResult (call : Call F) (config : PaperExecutionConfig F)
      (intent : OrderIntentEvent F) (key : String) (r : PaperExecutionResult F) : Type 0 where
    pub life : statuses r.order_events ≡ life config intent (filled_from nought r.fill_events)
    pub fills : AreFills call config intent key (ack_time call config key) 0 r.fill_events
    pub few : length r.fill_events ≤ slice_count config
    pub unfilled :
        (is_rejected config intent || is_blocked config intent) ≡ true → r.fill_events ≡ []

  pub execute-IsResult :
      (call : Call F) (config : PaperExecutionConfig F) (intent : OrderIntentEvent F) (key : String)
      → IsResult call config intent key (execute call config intent key).0
  unfolding execute rejection fill_result order_event
  execute-IsResult call config intent key = elim (Bool-cases (is_rejected config intent)) [
    | inl no_limit ↦
        rw no_limit
          (record { life = rw no_limit refl; fills = tt; few = omega arith; unfilled = λ e. refl })
    | inr accepted ↦ elim (Bool-cases (is_blocked config intent)) [
      | inl blocked ↦
          rw (accepted, blocked)
            (record {
              life = rw (accepted, blocked) refl;
              fills = tt;
              few = omega arith;
              unfilled = λ e. refl;
            })
      | inr free ↦
          let (run, few) = run_slices-IsRun call config intent key (ack_time call config key) in
          rw (accepted, free)
            (record {
              life = rw (accepted, free, run.total) (statuses-if _ _ _);
              fills = run.fills;
              few = few;
              unfilled = λ e. absurd (ground (arith, accepted, free, e));
            })
    ]
  ]

  -- Every result that the engine keeps is that of an intent under its key.
  pub record IsSound (e : PaperExecutionEngine F) : Type 0 where
    pub kept :
        (key : String) (r : PaperExecutionResult F)
        → lookup key e.intent_results ≡ some r
        → (call : Call F) × (intent : OrderIntentEvent F) × IsResult call e.config intent key r

  process_known-IsSound :
      (o : Option (PaperExecutionResult F)) (call : Call F) (intent : OrderIntentEvent F)
      (key : String) (e : PaperExecutionEngine F)
      → lookup key e.intent_results ≡ o
      → IsSound e
      → IsSound (process_known o call intent key e).1
  unfolding process_known
  process_known-IsSound (some r) call intent key e h sound = sound
  process_known-IsSound none call intent key e h sound = record {
    kept = λ k r found.
        insert_cases (λ k r. (c : Call F) × (i : OrderIntentEvent F) × IsResult c e.config i k r)
          key k _ r e.intent_results (call, intent, execute-IsResult call e.config intent key)
          (sound.kept k r) found;
  }

  process_known-kept :
      (o : Option (PaperExecutionResult F)) (call : Call F) (intent : OrderIntentEvent F)
      (key : String) (e : PaperExecutionEngine F)
      → lookup key e.intent_results ≡ o
      → let (r, e') = process_known o call intent key e in lookup key e'.intent_results ≡ some r
  unfolding process_known
  process_known-kept (some r) call intent key e h = h
  process_known-kept none call intent key e h = lookup-insert_self key _ e.intent_results

  known_idempotent :
      (o : Option (PaperExecutionResult F)) (call call' : Call F)
      (intent intent' : OrderIntentEvent F) (key : String) (e : PaperExecutionEngine F)
      → lookup key e.intent_results ≡ o
      → let (r, e') = process_known o call intent key e in
        process_intent call' intent' key e' ≡ (r, e')
  unfolding process_known process_intent
  known_idempotent (some r) call call' intent intent' key e h = rw h refl
  known_idempotent none call call' intent intent' key e h = rw lookup-insert_self refl

  -- An intent under a key that was used before, whatever it asks for, yields the result of the
  -- first one and changes nothing.
  process_intent_idempotent :
      (call call' : Call F) (intent intent' : OrderIntentEvent F) (key : String)
      (e : PaperExecutionEngine F)
      → let (r, e') = process_intent call intent key e in
        process_intent call' intent' key e' ≡ (r, e')
  unfolding process_intent
  process_intent_idempotent call call' intent intent' key e =
      known_idempotent (lookup key e.intent_results) call call' intent intent' key e refl

  -- After any call, every result that the engine keeps is still that of an intent under its key, and
  -- the call returned the result that is kept under its own key.
  process_intent-IsSound :
      (call : Call F) (intent : OrderIntentEvent F) (key : String) (e : PaperExecutionEngine F)
      → IsSound e
      → let (r, e') = process_intent call intent key e in
        IsSound e' × (lookup key e'.intent_results ≡ some r)
  unfolding process_intent
  process_intent-IsSound call intent key e sound = (
    process_known-IsSound (lookup key e.intent_results) call intent key e refl sound,
    process_known-kept (lookup key e.intent_results) call intent key e refl,
  )
