-- ===== src/Auth/Credentials.antt =====
-- The credentials that the settings configure, apps/api-control-plane/app/core/auth.py.
use gooberberg_terminal.Prelude.{
  ℕ, suc, String, Option, none, some, List, [], ◌∷◌, ◌++◌, map, string_eq, contains, or_else,
  if◌then◌else◌,
}
use gooberberg_terminal.Prelude.Dict.{Dict, lookup}
use gooberberg_terminal.Prelude.Texts.{
  is_empty_text, strip, split_on, split_max, replace_char, ◌<>◌,
}
use gooberberg_terminal.EventLog.Record.{Clock}

-- A `datetime` is its instant in UTC, as a number. A set of scopes has them in the order of `add`.
pub record AuthCredential : Type 0 where
  pub token_id : String
  pub token : String
  pub scopes : List String
  pub expires_at : Option ℕ

-- The fields of `Settings` that the middleware reads.
pub record AuthSettings : Type 0 where
  pub api_auth_token : Option String
  pub api_auth_scope : String
  pub api_auth_tokens : String
  pub api_auth_revoked_token_ids : String

-- What the language's library does to texts: `fromisoformat`, `str.upper`, and the decimal text of
-- a number.
pub record Runtime : Type 0 where
  pub clock : Clock
  pub upper : String → String
  pub decimal : ℕ → String

abbrev pub role_scope_aliases : Dict String String
role_scope_aliases =
    ("viewer", "control-plane:read")
    ∷ ("operator", "control-plane:write")
    ∷ ("admin", "control-plane:admin")
    ∷ []

-- `normalized.add(scope)`
unfoldable pub add_scope : String → List String → List String
add_scope scope scopes = if contains scope scopes then scopes else scopes ++ (scope ∷ [])

unfoldable pub normalize_tokens : List String → List String → List String
unfolding add_scope lookup strip
normalize_tokens [] normalized = normalized
normalize_tokens (token ∷ tokens) normalized =
    let cleaned = strip token in
    normalize_tokens tokens (
      if is_empty_text cleaned
      then normalized
      else add_scope (or_else (lookup cleaned role_scope_aliases) cleaned) normalized)

-- `_normalize_scopes`
unfoldable pub normalize_scopes : String → List String
unfolding normalize_tokens split_on
normalize_scopes scope_config =
    normalize_tokens (if is_empty_text scope_config then [] else split_on 44 scope_config) []

-- `_parse_expires_at`; the outer `none` is a `ValueError`.
unfoldable pub parse_expires_at : Runtime → String → Option (Option ℕ)
unfolding strip replace_char
parse_expires_at rt value =
    let normalized_value = strip value in
    if is_empty_text normalized_value
    then some none
    else elim (rt.clock.from_iso (replace_char 90 "+00:00" normalized_value)) [
      | none ↦ none
      | some t ↦ some (some t)
    ]

-- The four parts of a record; `none` where the code ignores the record.
unfoldable pub read_parts : Runtime → ℕ → List String → Option AuthCredential
unfolding parse_expires_at normalize_scopes
read_parts rt index (token_id ∷ token_secret ∷ scope_blob ∷ expires_blob ∷ []) =
    if is_empty_text token_secret then none else elim (parse_expires_at rt expires_blob) [
      | none ↦ none
      | some expires_at ↦ some (record {
        token_id = if is_empty_text token_id then "token-" <> rt.decimal index else token_id;
        token = token_secret;
        scopes = normalize_scopes scope_blob;
        expires_at = expires_at;
      })
    ]
read_parts rt index _ = none

-- One turn of the loop over `raw_value.split(";")`.
unfoldable pub parse_entry : Runtime → ℕ → String → Option AuthCredential
unfolding strip split_max read_parts
parse_entry rt index token_entry =
    let entry = strip token_entry in
    if is_empty_text entry then none else read_parts rt index (map strip (split_max 124 3 entry))

unfoldable pub parse_entries : Runtime → ℕ → List String → List AuthCredential
unfolding parse_entry
parse_entries rt index [] = []
parse_entries rt index (entry ∷ entries) =
    let rest = parse_entries rt (suc index) entries in
    elim (parse_entry rt index entry) [ none ↦ rest | some credential ↦ credential ∷ rest ]

-- `_parse_structured_credentials`
unfoldable pub parse_structured_credentials : Runtime → String → List AuthCredential
unfolding parse_entries split_on
parse_structured_credentials rt raw_value = parse_entries rt 1 (split_on 59 raw_value)

abbrev legacy_credential : AuthSettings → String → AuthCredential
unfolding normalize_scopes
legacy_credential settings token = record {
  token_id = "legacy-static";
  token = token;
  scopes = normalize_scopes settings.api_auth_scope;
  expires_at = none;
}

abbrev load_legacy : AuthSettings → Option String → List AuthCredential
load_legacy settings none = []
load_legacy settings (some token) =
    if is_empty_text token then [] else legacy_credential settings token ∷ []

abbrev load_first : AuthSettings → List AuthCredential → List AuthCredential
load_first settings [] = load_legacy settings settings.api_auth_token
load_first settings (credential ∷ rest) = credential ∷ rest

-- `_load_credentials`
unfoldable pub load_credentials : Runtime → AuthSettings → List AuthCredential
unfolding parse_structured_credentials
load_credentials rt settings =
    load_first settings (parse_structured_credentials rt settings.api_auth_tokens)
