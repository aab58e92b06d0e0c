-- ===== src/SuccessGate/Examples.antt =====
-- Tests of the success gate, and its theorem at a concrete input.
use gooberberg_terminal.Prelude.{◌≡◌, ◌↔◌, refl, true, false, none, some, nat_eq, string_eq}
use gooberberg_terminal.Prelude.Int.{pos}
use gooberberg_terminal.Prelude.Dict.{lookup, insert, contains_key}
use gooberberg_terminal.Prelude.Value.{get}
use gooberberg_terminal.Prelude.Whole.{int_float, int_builtins}
use gooberberg_terminal.SuccessGate.Texts.{sha_match, hex_count, drop_chars, is_blank}
use gooberberg_terminal.SuccessGate.Checks.{
  lineage_failure, inconsistency, mismatches, runtime_failure, metadata_failure, role_entries,
  artifact_failure, artifact_size_invalid, seed_inconsistent,
}
use gooberberg_terminal.SuccessGate.Gate.{check_artifacts, check_seeds, evaluate_success_gate}
use gooberberg_terminal.SuccessGate.Sample.{language, row, update}
use gooberberg_terminal.SuccessGate.Passes.{IsComplete, evaluate_success_gate_passes}

sha_test : sha_match "sha256:0123456789abcdefABCDEF" ≡ true
unfolding sha_match hex_count drop_chars
sha_test = refl

short_test : sha_match "sha256:0123" ≡ false
unfolding sha_match hex_count drop_chars
short_test = refl

blank_test : (is_blank " \n" ≡ true) × (is_blank " x" ≡ false)
unfolding is_blank
blank_test = (refl, refl)

size_test :
    evaluate_success_gate language (λ roles. roles) "training" row (update (pos 7) (pos 0))
    ≡ some (some (artifact_size_invalid "trained_model"))
unfolding evaluate_success_gate lineage_failure inconsistency mismatches runtime_failure
    metadata_failure role_entries insert lookup contains_key get check_artifacts artifact_failure
    sha_match hex_count drop_chars check_seeds
size_test = refl

seed_test :
    evaluate_success_gate language (λ roles. roles) "training" row (update (pos 8) (pos 9))
    ≡ some (some seed_inconsistent)
unfolding evaluate_success_gate lineage_failure inconsistency mismatches runtime_failure
    metadata_failure role_entries insert lookup contains_key get check_artifacts artifact_failure
    sha_match hex_count drop_chars check_seeds
seed_test = refl

evaluate_success_gate_passes_example :
    (evaluate_success_gate language (λ roles. roles) "training" row (update (pos 7) (pos 9))
      ≡ some none)
    ↔ IsComplete language "training" row (update (pos 7) (pos 9))
evaluate_success_gate_passes_example =
    evaluate_success_gate_passes language (λ roles. roles) "training" row (update (pos 7) (pos 9))
      (λ roles role. refl)
