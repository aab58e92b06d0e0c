-- ===== src/Backtests/Lineage.antt =====
-- `resolve_lineage_spec`, libs/py/gb_core/src/gb_core/lineage.py.
use Prim.Native.Char.{Char, code}
use Prim.Native.String.{[] as empty, ◌∷◌ as ◌:>◌}
use gooberberg_terminal.Prelude.{
  ℕ, zero, suc, String, Bool, true, false, ◌&&◌, ◌||◌, Option, none, some, List, [], ◌∷◌,
  if◌then◌else◌,
}
use gooberberg_terminal.Prelude.Int.{ℤ}
use gooberberg_terminal.Prelude.Texts.{is_between}
use gooberberg_terminal.Prelude.Value.{Fields}

pub record ArtifactRecord : Type 0 where
  pub uri : String
  pub size_bytes : ℕ
  pub hash : String
  pub media_type : String
  pub role : String

-- A specification that was validated, without its constant version and algorithms, its source metadata
-- and its extensions.
pub record LineageSpec : Type 0 where
  pub dataset_fingerprint : String
  pub git_commit_sha : String
  pub dirty : Bool
  pub config_digest : String
  pub seed : ℤ
  pub artifact_manifest : List ArtifactRecord

pub record LineageReference : Type 0 where
  pub dataset_fingerprint_hash : String
  pub code_git_commit_sha : String
  pub code_dirty : Bool
  pub seed : ℤ

-- `[a-f0-9]`
abbrev pub is_lower_hex : Char → Bool
is_lower_hex c = let n = code c in is_between 48 57 n || is_between 97 102 n

-- `_HASH_RE.fullmatch` for 64 and `_GIT_SHA_RE.fullmatch` for 40 characters.
unfoldable pub full_match : ℕ → String → Bool
full_match zero empty = true
full_match zero (c :> s) = false
full_match (suc n) empty = false
full_match (suc n) (c :> s) = is_lower_hex c && full_match n s

-- `"0" * 64`
abbrev pub zeros : String
zeros = "0000000000000000000000000000000000000000000000000000000000000000"

abbrev pub placeholder : ArtifactRecord
placeholder = record {
  uri = "pending://artifacts";
  size_bytes = 0;
  hash = zeros;
  media_type = "application/json";
  role = "placeholder";
}

-- `sha256` of the canonical text of the configuration is an argument. `none` is a raised `ValueError`:
-- neither is given, or the reference has a malformed hash.
unfoldable pub resolve_lineage_spec :
    {F : Type 0}
    → (Fields F → String)
    → Option LineageSpec
    → Option LineageReference
    → Fields F
    → Option LineageSpec
unfolding full_match
resolve_lineage_spec digest (some lineage) lineage_ref config = some lineage
resolve_lineage_spec digest none none config = none
resolve_lineage_spec digest none (some r) config =
    if full_match 64 r.dataset_fingerprint_hash && full_match 40 r.code_git_commit_sha
    then some (record {
      dataset_fingerprint = r.dataset_fingerprint_hash;
      git_commit_sha = r.code_git_commit_sha;
      dirty = r.code_dirty;
      config_digest = digest config;
      seed = r.seed;
      artifact_manifest = placeholder ∷ [];
    })
    else none
