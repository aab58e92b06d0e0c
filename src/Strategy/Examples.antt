-- ===== src/Strategy/Examples.antt =====
-- Runs and witnesses for services/service-inference-live/src/service_inference_live/strategy_runner.py.
use gooberberg_terminal.Prelude.{ℕ, true, some, none, [], ◌≡◌, refl, nat_eq, string_eq, is_some}
use gooberberg_terminal.Prelude.Int.{ℤ}
use gooberberg_terminal.Prelude.FixedPoint.{fixed_point, fixed, fixed-IsOrdered}
use gooberberg_terminal.Prelude.Texts.{join}
use gooberberg_terminal.Strategy.Events.{
  Runtime, Stamps, MarketDataEvent, SignalEvent, DecisionEvent, StrategyRunner,
}
use gooberberg_terminal.Strategy.Runner.{
  features_of, signal_of, build_signal_event, decide, decision_of, build_decision_event, run,
}
use gooberberg_terminal.Strategy.Recorded.{IsExplained, run-IsExplained}
use gooberberg_terminal.Strategy.Valid.{IsRounding, run_returns}

abbrev runtime : Runtime ℤ
runtime = record { round_5 = λ x. x; show_id = λ n. "7" }

abbrev stamps : Stamps
stamps = record { signal_id = 7; signal_time = 100; decision_id = 8; decision_time = 101 }

abbrev market_data : ℕ → ℕ → MarketDataEvent ℤ
market_data last volume = record {
  trace_id = 3;
  schema_version = "1.0";
  event_time = 90;
  ingest_time = 95;
  symbol = "AAPL";
  bid = fixed 99;
  ask = fixed 101;
  last = fixed last;
  volume = fixed volume;
}

abbrev runner : StrategyRunner ℤ
runner = record {
  producer = "inference";
  strategy_version = "v1";
  config_hash = "hash";
  run_id = "run";
  strategy_id = "momentum";
  records = [];
}

abbrev signal : SignalEvent ℤ
signal = signal_of runtime stamps (market_data 110 1000000) runner

abbrev decision : DecisionEvent ℤ
decision = decision_of runtime stamps signal runner

abbrev after : StrategyRunner ℤ
after = elim (run runtime stamps (market_data 110 1000000) runner) [ none ↦ runner | some r ↦ r.1 ]

run_test : run runtime stamps (market_data 110 1000000) runner ≡ some ((signal, decision), after)
unfolding run features_of signal_of build_signal_event decide decision_of build_decision_event join
run_test = refl

-- At its mid price a liquid symbol is bought, and one without volume is sold.
decision_test :
    (decision.decision ≡ "buy")
    × ((decision_of runtime stamps
          (signal_of runtime stamps (market_data 100 1000000) runner)
          runner).decision
        ≡ "buy")
    × ((decision_of runtime stamps
          (signal_of runtime stamps (market_data 100 0) runner)
          runner).decision
        ≡ "sell")
unfolding features_of signal_of decide decision_of
decision_test = (refl, refl, refl)

run-IsExplained_example : IsExplained runner ((signal, decision), after)
run-IsExplained_example =
    run-IsExplained runtime stamps (market_data 110 1000000) runner ((signal, decision), after)
      run_test

rounding : IsRounding ℤ runtime
rounding = record {
  mono = λ x y h. h;
  at_one = refl;
  at_nought = refl;
  at_neg = refl;
  neg_le = refl;
}

run_returns_example : is_some (run runtime stamps (market_data 110 1000000) runner) ≡ true
unfolding features_of
run_returns_example =
    run_returns fixed-IsOrdered rounding stamps (market_data 110 1000000) runner refl refl

-- Without a hash of its configuration the run raises.
unnamed_test :
    run runtime stamps (market_data 110 1000000) (record runner { config_hash = "" }) ≡ none
unfolding run features_of signal_of build_signal_event
unnamed_test = refl
