-- ===== src/Lib.antt =====
-- Verification of the Gooberberg Terminal, a trading and research platform: the risk path that a
-- strategy intent takes through the Python services, the simulated execution of orders and the
-- event log, the strategy that decides on market data, the state of the portfolio, the split of the
-- rows of a training, and of the control plane the jobs with the gate that a successful run must
-- pass, the authentication of requests, the qualification of datasets, the creation and the replay
-- of backtests and the delivery of events to web sockets.
--
-- Prelude holds the shared names: Boolean tests and equality by instances (Tests), lists (Lists,
-- Pairs), dictionaries in insertion order (Dict), Python's int (Int), float as an interface with
-- the IEEE 754 facts that some theorems assume (Float, FloatOrder), JSON values and their
-- conversions (Value), exceptions as `none` (Raising), the methods of texts (Texts, TextSplits),
-- `sorted` (Sorting), and whole numbers and decimal fractions as the floats of tests (Whole,
-- FixedPoint).
--
-- Risk is libs/py/gb_core/src/gb_core/risk.py: Schema has RiskConfig and the messages of
-- schemas.py, Rules the closure _record and the rules of consume_intent, Authority the state of
-- RiskExecutionAuthority with its other methods, Monitors evaluate_continuous_monitors. Log,
-- Approval, Decisions, Overrides, Stricter and Alerts hold the proofs, Examples the tests.
--
-- Guard is services/service-risk-exec/src/service_risk_exec/guards.py: Limits has its data and
-- from_config, Evaluate the method evaluate; Actions and Totals hold the proofs.
--
-- RiskService is _consume_intent_payload of
-- services/service-risk-exec/src/service_risk_exec/main.py: it calls the authority, then the guard,
-- overrules the decision in place and publishes it. Gate and Counters hold the proofs.
--
-- EventLog is libs/py/gb_core/src/gb_core/event_log.py: Record has the records and how a payload is
-- read, Writer the class EventLogWriter; Append, Retention and Segments hold the proofs.
--
-- Paper is libs/py/gb_core/src/gb_core/paper_execution.py: Events has the configuration and the
-- events, Slices the loop over the slices, Engine process_intent, its early returns gathered in
-- execute; Fills has the proofs on the loop over the slices, Results those on outcomes and on what
-- the engine keeps.
--
-- Execution is the execution engine of services/service-risk-exec/src/service_risk_exec/main.py:
-- Orders has its data, Models the models of fees, slippage, spread, latency, fills and routing,
-- Engine the method process_fill; Fills and Queue hold the proofs.
--
-- SuccessGate is apps/api-control-plane/app/domain/run_success_gate.py with the required metadata
-- of run_metadata_governance.py: Texts has the pattern of a checksum and blank texts, Checks the
-- checks, Gate their order and the loop over artifacts; Conditions and Passes hold the proofs.
--
-- WebSockets is apps/api-control-plane/app/ws/manager.py: Manager has the class ConnectionManager,
-- Window and Steps relate a manager to the history of what was published, Replay and Sockets the
-- proofs.
--
-- Jobs is apps/api-control-plane/app/api/routers/jobs.py with the stores of app/jobs and the
-- queries of app/persistence that it calls: Store has the jobs, runs and stores, Router the
-- handlers that create, read and cancel, Updates the handler of worker updates, which calls the
-- success gate, and Retries that of retries; Loading, Cancel, Retry and Publish hold the proofs.
--
-- Jobs also has the table of artifact summaries, RunArtifactSqlRepository of
-- apps/api-control-plane/app/persistence/repositories.py (Artifacts), as a list of rows. Which row
-- the database gives first where no order is asked for, a new identifier and sha256 are the record
-- Database; Reached has the calls as steps, and Stored, Added, Repeated and Completed hold more
-- proofs. Constraints is schemas/run_constraints.py and domain/training_runs/constraints.py of the
-- same application, with what pydantic reads and dumps as the record Schema, and Completion the end
-- of publish_job_event, which stores the summary and makes the response; the responses of the other
-- handlers are not validated.
--
-- Auth is apps/api-control-plane/app/core/auth.py: Credentials reads the configured credentials,
-- Dispatch is the middleware's dispatch; Authorized and Reading hold the proofs, Printing the
-- writing of credentials that Reading reads back.
--
-- Splits is services/worker-training/src/worker_training/data/splits.py: Rows has the rows with
-- their timestamps, WalkForward and Purged the two splitters, Timing the filter on features,
-- Grouped split_qualified_rows. Slices and Rearranged hold facts on lists; Windows, Returns and
-- Endless the proofs on walk-forward windows, Leakage, Separate and Tested those on purged folds,
-- Groups, Partition and Entities those on the split by entities. The loop of the walk-forward
-- splitter is on fuel: with a step of at least 1 one more than the number of rows is enough.
--
-- Portfolio is services/service-portfolio-state/src/service_portfolio_state/main.py: Snapshot has
-- its data and the reading of numbers, Legacy _build_snapshot, Prod _build_snapshot_prod; Counts
-- and Windows hold the proofs.
--
-- Replay is apps/api-control-plane/app/domain/backtest_runs/replay.py: State has the accounts and
-- the checks, Steps one turn of the loop of replay_backtest, Validate its result and
-- validate_replay, which reads the two replays by a function because it compares them key by key.
-- `round` and `sum` are arguments, since `sum` may correct rounding. Bookings is what the loop is
-- compared with; Accounts, Booked and Losses hold the proofs.
--
-- Datasets is apps/api-control-plane/app/domain/model_configs/compatibility.py (Metadata,
-- Compatibility) and apps/api-control-plane/app/domain/training_runs/dataset_qualification.py
-- (Qualification). Sets of names are lists without repetition; a message is a constructor with the
-- values it names. Fields, Compatible and Qualified hold the proofs.
--
-- Strategy is services/service-inference-live/src/service_inference_live/strategy_runner.py: Events
-- has its data, Runner the store and StrategyRunner.run, which raises where a text is empty or a
-- number is outside the bounds of libs/py/gb_core/src/gb_core/event_schemas.py; Recorded and Valid
-- hold the proofs.
--
-- Backtests is the creation of a backtest run: Lineage has resolve_lineage_spec of
-- libs/py/gb_core/src/gb_core/lineage.py, Checks the leakage checks and the estimate of
-- apps/api-control-plane/app/domain/backtest_runs/service.py, Create the handler
-- create_backtest_run of apps/api-control-plane/app/api/routers/backtest_runs.py on the state of
-- Jobs and the checks of Datasets, and Pages its _paginate. Hashing, dumping and the constructor of
-- the mapped class are fields of the record Runtime. Leaks, Conditions, Tokens, Admitted and Paging
-- hold the proofs.
--
-- Clock readings and fresh identifiers are arguments. A loop over a collection or a range is a
-- recursion on it; the segments of the event log take the number of records as their fuel, which is
-- enough since no segment is empty. Not modelled: Redis, HTTP and start-up code, log texts, and the
-- checks that pydantic derives from field bounds (those of the events in Strategy are). The
-- orchestrator and the workers, the providers and caches of market data, the other routes of the
-- control plane and the mappings of its tables are not modelled: most of them are input and output
-- around the parts above.
pub mod Prelude
pub mod Risk
pub mod Guard
pub mod RiskService
pub mod EventLog
pub mod Auth
pub mod Paper
pub mod Execution
pub mod SuccessGate
pub mod WebSockets
pub mod Jobs
pub mod Splits
pub mod Portfolio
pub mod Replay
pub mod Datasets
pub mod Strategy
pub mod Backtests
