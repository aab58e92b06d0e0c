-- ===== src/Auth/Examples.antt =====
-- Runs and witnesses for the middleware of apps/api-control-plane/app/core/auth.py.
use gooberberg_terminal.Prelude.{
  ℕ, String, true, none, some, List, [], ◌∷◌, ◌≡◌, refl, string_eq, ◌==◌, if◌then◌else◌, map, ◌↔◌,
  ◌⊎◌,
}
use gooberberg_terminal.Prelude.Dict.{lookup}
use gooberberg_terminal.Prelude.Texts.{
  lstrip, rstrip, strip, split_on, split_max, replace_char, join, drop_chars,
}
use gooberberg_terminal.Auth.Credentials.{
  AuthCredential, AuthSettings, Runtime, add_scope, normalize_tokens, normalize_scopes,
  parse_expires_at, read_parts, parse_entry, parse_entries, parse_structured_credentials,
  load_credentials,
}
use gooberberg_terminal.Auth.Dispatch.{
  AuthRequest, AuthReply, forwarded, auth_error, raised, find_credential,
  required_scope_for_request, requires_admin_scope, reject, check_credential, check_token, dispatch,
  is_skipped,
}
use gooberberg_terminal.Auth.Authorized.{is_forwarded, IsAuthorized, dispatch_iff}
use gooberberg_terminal.Auth.Printing.{show_credential}
use gooberberg_terminal.Auth.Reading.{parse_structured_credentials-show}

abbrev runtime : Runtime
runtime = record {
  clock = record { from_iso = λ s. if s == "2026-01-01" then some 2026 else none };
  upper = λ s. if s == "post" then "POST" else s;
  decimal = λ n. "1";
}

abbrev settings : AuthSettings
settings = record {
  api_auth_token = none;
  api_auth_scope = "control-plane:full";
  api_auth_tokens = "desk | s3cret | operator, viewer | 2026-01-01; ops|r00t|admin|";
  api_auth_revoked_token_ids = "old";
}

abbrev request : String → String → AuthRequest
request method token = record {
  path = "/api/v1/jobs";
  method = method;
  authorization = some token;
  client_host = none;
}

abbrev health_paths : List String
health_paths = "/api/v1/health" ∷ "/healthz" ∷ []

abbrev answer : String → String → ℕ → AuthReply
answer method token now = (dispatch runtime health_paths settings now (request method token)).reply

parse_test :
    load_credentials runtime settings
    ≡ record {
      token_id = "desk";
      token = "s3cret";
      scopes = "control-plane:write" ∷ "control-plane:read" ∷ [];
      expires_at = some 2026;
    }
      ∷ record {
        token_id = "ops";
        token = "r00t";
        scopes = "control-plane:admin" ∷ [];
        expires_at = none;
      }
      ∷ []
unfolding load_credentials parse_structured_credentials parse_entries parse_entry read_parts
    parse_expires_at normalize_scopes normalize_tokens add_scope lookup lstrip rstrip strip split_on
    split_max replace_char
parse_test = refl

-- A token that is not ASCII makes the comparison raise, where another wrong token gets 401.
answer_test :
    (answer "post" "Bearer s3cret" 2025 ≡ forwarded true)
    × (answer "post" "Bearer s3cret" 2026
        ≡ auth_error "Session expired. Please re-authenticate." 401 "expired_token")
    × (answer "GET" "Bearer x" 0 ≡ auth_error "Unauthorized" 401 "invalid_token")
    × (answer "GET" "Bearer é" 0 ≡ raised)
unfolding load_credentials parse_structured_credentials parse_entries parse_entry read_parts
    parse_expires_at normalize_scopes normalize_tokens add_scope lookup lstrip rstrip strip split_on
    split_max replace_char dispatch check_token check_credential find_credential drop_chars
    required_scope_for_request requires_admin_scope reject
answer_test = (refl, refl, refl, refl)

abbrev post : AuthRequest
post = request "post" "Bearer s3cret"

dispatch_iff_example :
    (is_forwarded (dispatch runtime health_paths settings 2025 post).reply ≡ true) ↔ (
      (is_skipped runtime health_paths (load_credentials runtime settings) post ≡ true)
      ⊎ IsAuthorized runtime settings 2025 post)
dispatch_iff_example = dispatch_iff runtime health_paths settings 2025 post

abbrev show_time : ℕ → String
show_time t = "2026-01-01"

abbrev written : List AuthCredential
written =
    record {
      token_id = "desk";
      token = "s3cret";
      scopes = "control-plane:write" ∷ "control-plane:read" ∷ [];
      expires_at = some 2026;
    }
    ∷ record { token_id = "ops"; token = "r00t"; scopes = []; expires_at = none }
    ∷ []

parse_structured_credentials-show_example :
    parse_structured_credentials runtime (join ";" (map (show_credential show_time) written))
    ≡ written
unfolding replace_char lookup
parse_structured_credentials-show_example =
    parse_structured_credentials-show runtime show_time written
      ((refl, refl, (refl, (refl, tt)), refl, (refl, refl)), ((refl, refl, tt, refl, tt), tt))
