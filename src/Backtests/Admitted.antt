-- ===== src/Backtests/Admitted.antt =====
-- Which requests `create_backtest_run` accepts, apps/api-control-plane/app/api/routers/backtest_runs.py,
-- and the token of a preflight, apps/api-control-plane/app/domain/backtest_runs/service.py.
use gooberberg_terminal.Prelude.{
  List, ℕ, String, Bool, true, false, none, some, [], ◌∷◌, ◌++◌, ◌≡◌, ◌↔◌, ◌∙◌, refl, sym,
  true-false, inl, inr, Bool-cases, Option-cases, nat_eq,
}
use gooberberg_terminal.Prelude.Dict.{lookup, lookup-insert_self}
use gooberberg_terminal.Prelude.Float.{Float}
use gooberberg_terminal.Prelude.Value.{Builtins}
use gooberberg_terminal.Jobs.Store.{
  queued, JobEnvelope, JobLifecycleEvent, Run, ControlPlane, upsert, persist_event,
  broadcast_job_event,
}
use gooberberg_terminal.Backtests.Lineage.{LineageSpec, resolve_lineage_spec}
use gooberberg_terminal.Backtests.Checks.{
  LeakageSummary, run_leakage_checks, validate_confirmation_token,
}
use gooberberg_terminal.Backtests.Create.{
  backtest_columns, run_keys, BacktestRunCreateRequest, Services, Runtime, CreateReply, created,
  refused, row_rejected, check_model, accept, refusal_of, create_backtest_run,
}
use gooberberg_terminal.Datasets.Fields.{AreAvailable, contains-AreAvailable}
use gooberberg_terminal.Backtests.Leaks.{IsLeakFree, leakage_lem}
use gooberberg_terminal.Backtests.Conditions.{IsConfirmed, confirmed_lem, IsFit, model_lem}

none-some : {A : Type 0} {a : A} → none ≡ some a → ⊥
none-some e = cc

-- Every keyword that a mapped class takes is one of its columns.
abbrev pub IsStrict : (List String → List String → Bool) → Type 0
IsStrict constructs =
    (columns keys : List String) → constructs columns keys ≡ true → AreAvailable columns keys

abbrev pub is_created : CreateReply → Bool
is_created (created run) = true
is_created _ = false

-- Every check has passed, and the row of the run was to be made.
abbrev pub reaches_row : CreateReply → Bool
reaches_row (refused refusal) = false
reaches_row _ = true

module _ {F : Type 0} ⦃d : Float F⦄ ⦃b : Builtins F⦄ where
  -- The lineage is valid, no leakage shows, the size is confirmed, and a model configuration fits.
  pub record IsAdmissible (rt : Runtime F) (services : Services F)
      (request : BacktestRunCreateRequest F) : Type 0 where
    pub lineage :
        (spec : LineageSpec) × (resolve_lineage_spec rt.digest request.lineage request.lineage_ref
            request.basis.parameters
          ≡ some spec)
    pub leak_free : IsLeakFree request.basis.parameters
    pub confirmed : IsConfirmed rt.token_of request.basis request.confirmation_token
    pub fits :
        (id : ℕ)
        → request.basis.model_config_id ≡ some id
        → IsFit services request.basis.parameters id

  -- One job more is queued, for the run that is stored as queued, and its state is known.
  pub record IsQueued (rt : Runtime F) (s s' : ControlPlane F) : Type 0 where
    pub envelope : JobEnvelope F
    pub run : Run F
    pub event : JobLifecycleEvent F
    pub queue : s'.queue ≡ s.queue ++ (envelope ∷ [])
    pub envelope_run : envelope.run_id ≡ some rt.run_id
    pub envelope_job : envelope.job_id ≡ rt.job_id
    pub stored : lookup rt.run_id s'.runs.backtest ≡ some run
    pub run_status : run.status ≡ queued
    pub known : lookup rt.job_id s'.job_state_store ≡ some event
    pub event_run : event.run_id ≡ some rt.run_id
    pub event_status : event.status ≡ queued

  -- A created run is queued, and a refusal changes nothing.
  abbrev pub Leaves : Runtime F → ControlPlane F → ControlPlane F → CreateReply → Type 0
  Leaves rt s s' (created run) = IsQueued rt s s' × (run.id ≡ rt.run_id) × (run.job_id ≡ rt.job_id)
  Leaves rt s s' _ = s' ≡ s

  refused_lem :
      (rt : Runtime F) (s s' : ControlPlane F) (reply : CreateReply)
      → is_created reply ≡ false
      → Leaves rt s s' reply
      → s' ≡ s
  refused_lem rt s s' (created run) e h = cc
  refused_lem rt s s' (refused refusal) e h = h
  refused_lem rt s s' row_rejected e h = h

  accept-Leaves :
      (rt : Runtime F) (request : BacktestRunCreateRequest F) (lineage : LineageSpec)
      (summary : LeakageSummary) (s : ControlPlane F)
      → rt.constructs backtest_columns run_keys ≡ true
      → let (reply, s') = accept rt request lineage summary s in
        (is_created reply ≡ true) × (reaches_row reply ≡ true) × Leaves rt s s' reply
  unfolding accept upsert persist_event broadcast_job_event
  accept-Leaves rt request lineage summary s takes =
      rw (accept, takes)
        (
          refl,
          refl,
          (
            record {
              envelope = _;
              run = _;
              event = _;
              queue = refl;
              envelope_run = refl;
              envelope_job = refl;
              stored = lookup-insert_self rt.run_id _ _;
              run_status = refl;
              known = lookup-insert_self rt.job_id _ _;
              event_run = refl;
              event_status = refl;
            },
            refl,
            refl,
          ),
        )

  refusal_lem :
      (rt : Runtime F) (services : Services F) (request : BacktestRunCreateRequest F)
      → (refusal_of rt services request ≡ none) ↔ (
          ((run_leakage_checks request.basis.parameters).is_valid ≡ true)
          × ((validate_confirmation_token rt.token_of request.basis request.confirmation_token
                ≡ some true)
              × (check_model services request.basis ≡ none)))
  unfolding refusal_of
  refusal_lem rt services request =
      elim (Bool-cases (run_leakage_checks request.basis.parameters).is_valid) [
        | inr leaks ↦ rw (refusal_of, leaks) (λ e. cc, λ h. cc)
        | inl valid ↦
            elim (Option-cases
              (validate_confirmation_token rt.token_of request.basis request.confirmation_token)) [
                | inl raised ↦ rw (refusal_of, valid, raised) (λ e. cc, λ h. cc)
                | inr (true, confirmed) ↦
                    rw (refusal_of, valid, confirmed) (λ e. (refl, (refl, e)), λ h. h.1.1)
                | inr (false, missing) ↦ rw (refusal_of, valid, missing) (λ e. cc, λ h. cc)
              ]
      ]

  accept_lem :
      (rt : Runtime F) (request : BacktestRunCreateRequest F) (lineage : LineageSpec)
      (summary : LeakageSummary) (s : ControlPlane F)
      → rt.constructs backtest_columns run_keys ≡ false
      → accept rt request lineage summary s ≡ (row_rejected, s)
  unfolding accept
  accept_lem rt request lineage summary s strict = rw (accept, strict) refl

  -- A request for a backtest run passes every check, so that its row is to be made, exactly if its
  -- lineage is valid, its parameters show no leakage, its size is confirmed, and a model configuration it
  -- names fits its dataset; it is created exactly if moreover the constructor of the row takes the
  -- keywords. A created run is queued with one job and known; otherwise nothing changes.
  pub create_backtest_run_iff :
      (rt : Runtime F) (services : Services F) (request : BacktestRunCreateRequest F)
      (s : ControlPlane F)
      → let (reply, s') = create_backtest_run rt services request s in
        ((reaches_row reply ≡ true) ↔ IsAdmissible rt services request)
        × ((is_created reply ≡ true)
            ↔ (IsAdmissible rt services request × (rt.constructs backtest_columns run_keys ≡ true)))
        × Leaves rt s s' reply
  unfolding create_backtest_run
  create_backtest_run_iff rt services request s =
      let rest = refusal_lem rt services request in
      let leaks = leakage_lem request.basis.parameters in
      let confirmed = confirmed_lem rt.token_of request.basis request.confirmation_token in
      let fits = model_lem services request.basis in
      elim (Option-cases (
        resolve_lineage_spec rt.digest request.lineage request.lineage_ref
          request.basis.parameters)) [
            | inl invalid ↦
                rw (create_backtest_run, invalid)
                  (
                    (λ e. cc, λ h. absurd (none-some (sym invalid ∙ h.lineage.1))),
                    (λ e. cc, λ h. absurd (none-some (sym invalid ∙ h.0.lineage.1))),
                    refl,
                  )
            | inr (spec, valid) ↦ elim (Option-cases (refusal_of rt services request)) [
              | inr (refusal, refuses) ↦
                  let admits : IsAdmissible rt services request
                      → refusal_of rt services request ≡ none =
                    λ h. rest.1 (leaks.1 h.leak_free, (confirmed.1 h.confirmed, fits.1 h.fits)) in
                  rw (create_backtest_run, valid, refuses)
                    (
                      (λ e. cc, λ h. absurd (none-some (sym (admits h) ∙ refuses))),
                      (λ e. cc, λ h. absurd (none-some (sym (admits h.0) ∙ refuses))),
                      refl,
                    )
              | inl passes ↦
                  let parts = rest.0 passes in
                  let admissible : IsAdmissible rt services request = record {
                    lineage = (spec, valid);
                    leak_free = leaks.0 parts.0;
                    confirmed = confirmed.0 parts.1.0;
                    fits = fits.0 parts.1.1;
                  } in
                  let summary = run_leakage_checks request.basis.parameters in
                  elim (Bool-cases (rt.constructs backtest_columns run_keys)) [
                    | inl takes ↦
                        let a = accept-Leaves rt request spec summary s takes in
                        rw (create_backtest_run, valid, passes)
                          ((λ e. admissible, λ h. a.1), (λ e. (admissible, takes), λ h. a.0), a.2)
                    | inr strict ↦
                        rw
                          (
                            create_backtest_run,
                            valid,
                            passes,
                            accept_lem rt request spec summary s strict,
                          )
                          (
                            (λ e. admissible, λ h. refl),
                            (λ e. cc, λ h. absurd (true-false (sym h.1 ∙ strict))),
                            refl,
                          )
                  ]
            ]
          ]

  -- If the constructor of a mapped class takes only columns as keywords, then no request creates a run,
  -- and none changes anything: research_qa is no column.
  pub create_backtest_run-creates_nothing :
      (rt : Runtime F) (services : Services F) (request : BacktestRunCreateRequest F)
      (s : ControlPlane F)
      → IsStrict rt.constructs
      → let (reply, s') = create_backtest_run rt services request s in
        (is_created reply ≡ false) × (s' ≡ s)
  create_backtest_run-creates_nothing rt services request s strict =
      let (reaches, iff, leaves) = create_backtest_run_iff rt services request s in
      elim (Bool-cases (is_created (create_backtest_run rt services request s).0)) [
        | inr refuses ↦ (refuses, refused_lem rt s _ _ refuses leaves)
        | inl creates ↦
            let all_columns = strict backtest_columns run_keys (iff.0 creates).1 in
            absurd (
              true-false (
                sym
                  (contains-AreAvailable backtest_columns "research_qa" run_keys refl all_columns)))
      ]
