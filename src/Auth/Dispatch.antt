-- ===== src/Auth/Dispatch.antt =====
-- `BearerTokenAuthMiddleware.dispatch` of apps/api-control-plane/app/core/auth.py.
use Prim.Native.Char.{code}
use Prim.Native.String.{[] as empty, ◌∷◌ as ◌:>◌}
use text.Mathlib.Text.{starts_with}
use gooberberg_terminal.Prelude.{
  ℕ, String, Bool, true, false, not, ◌&&◌, ◌||◌, Option, none, some, List, [], ◌∷◌, string_eq,
  contains, any, or_else, if◌then◌else◌, ltb, leb, ◌==◌, length, is_empty,
}
use gooberberg_terminal.Prelude.Sorting.{sort_by, insert_sorted, text_le}
use gooberberg_terminal.Prelude.Texts.{join, drop_chars}
use gooberberg_terminal.Auth.Credentials.{
  AuthCredential, AuthSettings, Runtime, load_credentials, normalize_scopes,
}

abbrev pub read_only_methods : List String
read_only_methods = "GET" ∷ "HEAD" ∷ "OPTIONS" ∷ []

abbrev pub read_scopes : List String
read_scopes =
    "control-plane:read" ∷ "control-plane:write" ∷ "control-plane:full" ∷ "control-plane:admin" ∷ []

abbrev pub mutating_scopes : List String
mutating_scopes = "control-plane:write" ∷ "control-plane:full" ∷ "control-plane:admin" ∷ []

abbrev pub admin_scopes : List String
admin_scopes = "control-plane:admin" ∷ "control-plane:full" ∷ []

abbrev pub admin_path_prefixes : List String
admin_path_prefixes = "/api/v1/model-configs" ∷ []

-- What the middleware reads of a request.
pub record AuthRequest : Type 0 where
  pub path : String
  pub method : String
  pub authorization : Option String
  pub client_host : Option String

-- `request.state`, as far as the middleware sets it.
pub record AuthState : Type 0 where
  pub auth_scope : String
  pub auth_token_id : Option String
  pub auth_result : Option String

pub record AuthFailure : Type 0 where
  pub path : String
  pub method : String
  pub auth_result : String
  pub client : String
  pub token_id : Option String
  pub required_scope : Option String
  pub granted_scopes : Option String

-- The route's response, with the header `X-Auth-Token-Mode` or not; one of the middleware's own; or
-- the `TypeError` of `compare_digest`.
pub data AuthReply : Type 0 where
  forwarded : Bool → AuthReply
  auth_error : String → ℕ → String → AuthReply
  forbidden : String → String → AuthReply
  raised : AuthReply

pub record AuthOutcome : Type 0 where
  pub state : AuthState
  pub log : List AuthFailure
  pub reply : AuthReply

-- `_requires_admin_scope`
unfoldable pub requires_admin_scope : Runtime → String → String → Bool
requires_admin_scope rt path method =
    not (contains (rt.upper method) read_only_methods)
    && any (λ prefix. starts_with path prefix) admin_path_prefixes

-- `_required_scope_for_request`
unfoldable pub required_scope_for_request : Runtime → AuthRequest → String × List String
unfolding requires_admin_scope
required_scope_for_request rt request =
    if requires_admin_scope rt request.path request.method
    then ("control-plane:admin", admin_scopes)
    else if contains (rt.upper request.method) read_only_methods
    then ("control-plane:read", read_scopes)
    else ("control-plane:write", mutating_scopes)

abbrev pub is_ascii : String → Bool
is_ascii empty = true
is_ascii (c :> s) = ltb (code c) 128 && is_ascii s

-- `hmac.compare_digest` of two texts, which must be ASCII.
abbrev pub compare_digest : String → String → Option Bool
compare_digest a b = if is_ascii a && is_ascii b then some (a == b) else none

-- `next((credential for ... if compare_digest(...)), None)`
unfoldable pub find_credential : String → List AuthCredential → Option (Option AuthCredential)
find_credential provided [] = some none
find_credential provided (c ∷ cs) =
    let rest = find_credential provided cs in
    elim (compare_digest provided c.token) [
      | none ↦ none
      | some true ↦ some (some c)
      | some false ↦ rest
    ]

-- `_log_auth_failure`
unfoldable pub log_auth_failure :
    Runtime → AuthRequest → String → Option String → Option String → Option String → AuthFailure
log_auth_failure rt request auth_result token_id required_scope granted_scopes = record {
  path = request.path;
  method = rt.upper request.method;
  auth_result = auth_result;
  client = or_else request.client_host "unknown";
  token_id = token_id;
  required_scope = required_scope;
  granted_scopes = granted_scopes;
}

-- Sets `auth_result`, logs the failure and answers `_auth_error_response` with status 401.
unfoldable pub reject :
    Runtime → AuthRequest → AuthState → String → String → Option String → AuthOutcome
unfolding log_auth_failure
reject rt request state detail auth_result token_id = record {
  state = record state { auth_result = some auth_result };
  log = log_auth_failure rt request auth_result token_id none none ∷ [];
  reply = auth_error detail 401 auth_result;
}

abbrev pub is_skipped : Runtime → List String → List AuthCredential → AuthRequest → Bool
is_skipped rt health_paths credentials request =
    is_empty credentials
    || contains request.path health_paths
    || rt.upper request.method == "OPTIONS"

-- `expires_at is not None and now >= expires_at`
abbrev pub is_expired : ℕ → AuthCredential → Bool
is_expired now credential = elim credential.expires_at [ none ↦ false | some t ↦ leb t now ]

-- `scopes.intersection(allowed)` is not empty.
abbrev pub intersects : List String → List String → Bool
intersects scopes allowed = any (λ scope. contains scope allowed) scopes

-- `",".join(sorted(scopes))`
unfoldable pub scope_text : List String → String
unfolding join sort_by insert_sorted
scope_text scopes = join "," (sort_by text_le scopes)

-- From the credential that matches on: revocation, expiry, scope, and the route.
unfoldable pub check_credential :
    Runtime → ℕ → List String → Bool → AuthRequest → AuthState → AuthCredential → AuthOutcome
unfolding reject log_auth_failure required_scope_for_request scope_text
check_credential rt now revoked_token_ids dual request state credential =
    let granted = scope_text credential.scopes in
    let state : AuthState = record state {
      auth_scope = granted;
      auth_token_id = some credential.token_id;
    } in
    let required : String × List String = required_scope_for_request rt request in
    if contains credential.token_id revoked_token_ids
    then reject rt request state "Unauthorized" "revoked_token" (some credential.token_id)
    else if is_expired now credential
    then reject rt request state "Session expired. Please re-authenticate." "expired_token"
        (some credential.token_id)
    else if not (intersects credential.scopes required.1)
    then record {
      state = record state { auth_result = some "forbidden_scope" };
      log =
          log_auth_failure rt request "forbidden_scope" (some credential.token_id) (some required.0)
            (some granted)
          ∷ [];
      reply = forbidden required.0 granted;
    }
    else record {
      state = record state { auth_result = some "authorized" };
      log = [];
      reply = forwarded dual;
    }

-- With the provided token.
unfoldable pub check_token :
    Runtime → ℕ → List String → List AuthCredential → AuthRequest → AuthState → String → AuthOutcome
unfolding find_credential reject check_credential
check_token rt now revoked_token_ids credentials request state provided =
    elim (find_credential provided credentials) [
      | none ↦ record { state = state; log = []; reply = raised }
      | some none ↦ reject rt request state "Unauthorized" "invalid_token" none
      | some (some credential) ↦
          check_credential rt now revoked_token_ids (ltb 1 (length credentials)) request state
            credential
    ]

-- `dispatch`, at the time `now`.
unfoldable pub dispatch : Runtime → List String → AuthSettings → ℕ → AuthRequest → AuthOutcome
unfolding load_credentials normalize_scopes reject check_token drop_chars
dispatch rt health_paths settings now request =
    let credentials = load_credentials rt settings in
    let state : AuthState = record {
      auth_scope = settings.api_auth_scope;
      auth_token_id = none;
      auth_result = none;
    } in
    let header = or_else request.authorization "" in
    if is_skipped rt health_paths credentials request
    then record {
      state = record state { auth_result = some "skipped" };
      log = [];
      reply = forwarded false;
    }
    else if not (starts_with header "Bearer ")
    then reject rt request state "Unauthorized" "missing_header" none
    else check_token rt now (normalize_scopes settings.api_auth_revoked_token_ids) credentials
        request state (drop_chars 7 header)
