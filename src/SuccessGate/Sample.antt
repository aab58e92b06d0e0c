-- ===== src/SuccessGate/Sample.antt =====
-- A complete training run, as test data for the success gate and for what calls it.
use gooberberg_terminal.Prelude.{String, ◌≡◌, refl, true, none, some, [], ◌∷◌, nat_eq, string_eq}
use gooberberg_terminal.Prelude.Int.{ℤ, pos}
use gooberberg_terminal.Prelude.Dict.{lookup, insert, contains_key}
use gooberberg_terminal.Prelude.Value.{Fields, text, int, obj, field, end, get}
use gooberberg_terminal.Prelude.Whole.{int_float, int_builtins}
use gooberberg_terminal.SuccessGate.Texts.{sha_match, hex_count, drop_chars}
use gooberberg_terminal.SuccessGate.Checks.{
  RunRow, EventUpdate, Language, lineage_failure, inconsistency, mismatches, runtime_failure,
  metadata_failure, role_entries, artifact_failure,
}
use gooberberg_terminal.SuccessGate.Gate.{check_artifacts, check_seeds, evaluate_success_gate}

-- No text has capitals here, and no two values differ.
abbrev pub language : Language ℤ
language = record { lower = λ s. s; equal = λ v w. true }

abbrev pub lineage : ℤ → Fields ℤ
lineage seed = field "lineage_id" (text "l1") (
    field "dataset_fingerprint" (text "d1") (
      field "code_hash" (text "c1")
        (field "config_digest" (text "g1") (field "seed" (int seed) end))))

abbrev pub row : RunRow ℤ
row = record {
  dataset_fingerprint = some "d1";
  code_hash = none;
  config_digest = none;
  seed = some (pos 7);
  random_seed = none;
  parameters = obj (field "run_metadata" (obj (field "seed" (int (pos 7)) end)) end);
}

abbrev pub artifact : String → ℤ → Fields ℤ
artifact role size =
    field "role" (text role)
      (field "sha256" (text "0123456789abcdef") (field "size_bytes" (int size) end))

abbrev pub update : ℤ → ℤ → EventUpdate ℤ
update seed size = record {
  lineage = lineage seed;
  expected_runtime = end;
  runtime_observed = end;
  mismatch_policy = "strict";
  artifact_manifest =
      artifact "trained_model" size
      ∷ artifact "training_metrics" (pos 1)
      ∷ artifact "run_metadata" (pos 1)
      ∷ [];
}

pub sample_passes :
    evaluate_success_gate language (λ roles. roles) "training" row (update (pos 7) (pos 9))
    ≡ some none
unfolding evaluate_success_gate lineage_failure inconsistency mismatches runtime_failure
    metadata_failure role_entries insert lookup contains_key get check_artifacts artifact_failure
    sha_match hex_count drop_chars check_seeds
sample_passes = refl
