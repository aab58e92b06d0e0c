-- ===== src/Auth/Authorized.antt =====
-- Which requests reach a route, for `dispatch` of apps/api-control-plane/app/core/auth.py.
use text.Mathlib.Text.{starts_with}
use text.Mathlib.TextEquality.{eq_iff}
use gooberberg_terminal.Prelude.{
  ℕ, String, Bool, true, false, ◌&&◌, none, some, List, [], ◌∷◌, ◌≡◌, ◌≢◌, ◌↔◌, ◌⊎◌, inl, inr,
  subst, string_eq, any, Option-cases, contains, or_else, if◌then◌else◌, Bool-cases, arith,
}
use gooberberg_terminal.Prelude.Texts.{drop_chars}
use gooberberg_terminal.Auth.Credentials.{
  AuthCredential, AuthSettings, Runtime, load_credentials, normalize_scopes,
}
use gooberberg_terminal.Auth.Dispatch.{
  AuthRequest, AuthState, admin_scopes, mutating_scopes, read_only_methods, admin_path_prefixes,
  requires_admin_scope, AuthReply, forwarded, is_ascii, find_credential, is_skipped, is_expired,
  intersects, required_scope_for_request, reject, check_credential, check_token, dispatch,
}

-- The credential is the first whose token is the provided one; the comparison is of ASCII texts.
abbrev pub IsFirstMatch : String → AuthCredential → List AuthCredential → Type 0
IsFirstMatch provided found [] = ⊥
IsFirstMatch provided found (c ∷ cs) =
    ((is_ascii provided && is_ascii c.token) ≡ true)
    × (((provided ≡ c.token) × (c ≡ found))
        ⊎ ((provided ≢ c.token) × IsFirstMatch provided found cs))

find_credential_iff :
    (provided : String) (found : AuthCredential) (cs : List AuthCredential)
    → (find_credential provided cs ≡ some (some found)) ↔ IsFirstMatch provided found cs
unfolding find_credential
find_credential_iff provided found [] = ground arith
find_credential_iff provided found (c ∷ cs) =
    ground (arith, find_credential_iff provided found cs, eq_iff provided c.token)

-- The matching credential may be used now, and one of its scopes is allowed for the request.
abbrev pub IsUsable : Runtime → List String → ℕ → AuthRequest → AuthCredential → Type 0
IsUsable rt revoked now request credential =
    (contains credential.token_id revoked ≡ false)
    × (is_expired now credential ≡ false)
    × (intersects credential.scopes (required_scope_for_request rt request).1 ≡ true)

abbrev pub is_forwarded : AuthReply → Bool
is_forwarded (forwarded _) = true
is_forwarded _ = false

-- The header carries the token of a usable credential.
abbrev pub IsAuthorized : Runtime → AuthSettings → ℕ → AuthRequest → Type 0
IsAuthorized rt settings now request =
    let header = or_else request.authorization "" in
    (starts_with header "Bearer " ≡ true)
    × ((credential : AuthCredential) × (IsFirstMatch (drop_chars 7 header) credential
            (load_credentials rt settings)
          × IsUsable rt (normalize_scopes settings.api_auth_revoked_token_ids) now request
              credential))

module _ (rt : Runtime) (revoked : List String) (now : ℕ) (cs : List AuthCredential)
    (request : AuthRequest) (state : AuthState) (provided : String) where
  check_token-IsUsable :
      (c : AuthCredential)
      → find_credential provided cs ≡ some (some c)
      → (is_forwarded (check_token rt now revoked cs request state provided).reply ≡ true)
        ↔ IsUsable rt revoked now request c
  unfolding check_token check_credential reject
  check_token-IsUsable c found = rw (found, check_token) (ground arith)

  check_token-match :
      is_forwarded (check_token rt now revoked cs request state provided).reply ≡ true
      → (c : AuthCredential) × (find_credential provided cs ≡ some (some c))
  unfolding check_token reject
  check_token-match h = elim (Option-cases (find_credential provided cs)) [
    | inl raises ↦ absurd (ground (arith, raises, h))
    | inr (none, missing) ↦ absurd (ground (arith, missing, h))
    | inr (some c, found) ↦ (c, found)
  ]

  check_token_iff :
      (is_forwarded (check_token rt now revoked cs request state provided).reply ≡ true) ↔ (
        (credential : AuthCredential) × (IsFirstMatch provided credential cs
          × IsUsable rt revoked now request credential))
  check_token_iff = (
    λ h.
        let match = check_token-match h in
        (
          match.0,
          (
            (find_credential_iff provided match.0 cs).0 match.1,
            (check_token-IsUsable match.0 match.1).0 h,
          ),
        ),
    λ x. (check_token-IsUsable x.0 ((find_credential_iff provided x.0 cs).1 x.1.0)).1 x.1.1,
  )

-- A request reaches its route exactly if authentication is skipped for it, or its header carries the
-- token of a credential that is neither revoked nor expired and has a scope the route allows.
pub dispatch_iff :
    (rt : Runtime) (health_paths : List String) (settings : AuthSettings) (now : ℕ)
    (request : AuthRequest)
    → (is_forwarded (dispatch rt health_paths settings now request).reply ≡ true) ↔ (
        (is_skipped rt health_paths (load_credentials rt settings) request ≡ true)
        ⊎ IsAuthorized rt settings now request)
unfolding dispatch reject
dispatch_iff rt health_paths settings now request =
    let credentials = load_credentials rt settings in
    let state : AuthState = record {
      auth_scope = settings.api_auth_scope;
      auth_token_id = none;
      auth_result = none;
    } in
    let header = or_else request.authorization "" in
    let tokens =
      check_token_iff rt (normalize_scopes settings.api_auth_revoked_token_ids) now credentials
        request state (drop_chars 7 header) in
    ground (arith, tokens)

admin-mutating :
    (scopes : List String)
    → intersects scopes admin_scopes ≡ true
    → intersects scopes mutating_scopes ≡ true
admin-mutating [] h = h
admin-mutating (s ∷ scopes) h = ground (arith, admin-mutating scopes)

required-scopes :
    (rt : Runtime) (request : AuthRequest)
    → contains (rt.upper request.method) read_only_methods ≡ false
    → (required_scope_for_request rt request).1 ≡ (
        if any (λ prefix. starts_with request.path prefix) admin_path_prefixes
        then admin_scopes
        else mutating_scopes)
unfolding required_scope_for_request requires_admin_scope
required-scopes rt request h = ground arith

required-mutating :
    (rt : Runtime) (request : AuthRequest) (scopes : List String)
    → contains (rt.upper request.method) read_only_methods ≡ false
    → intersects scopes (required_scope_for_request rt request).1 ≡ true
    → (intersects scopes mutating_scopes ≡ true)
      × (any (λ prefix. starts_with request.path prefix) admin_path_prefixes ≡ true
          → intersects scopes admin_scopes ≡ true)
required-mutating rt request scopes h allowed =
    let IsAllowed : List String → Type 0 = λ required. intersects scopes required ≡ true in
    let used = subst IsAllowed (required-scopes rt request h) allowed in
    elim (Bool-cases (any (λ prefix. starts_with request.path prefix) admin_path_prefixes)) [
      | inl admin ↦
          let stronger =
            subst (λ b. IsAllowed (if b then admin_scopes else mutating_scopes)) admin used in
          (admin-mutating scopes stronger, λ e. stronger)
      | inr other ↦ (
        subst (λ b. IsAllowed (if b then admin_scopes else mutating_scopes)) other used,
        λ e. absurd (ground (arith, e, other)),
      )
    ]

-- A request by a method that is not read-only, for which authentication is not skipped, reaches its
-- route only with the token of a credential that has a writing scope, and on a path under
-- `/api/v1/model-configs` an administrator's.
dispatch-mutation :
    (rt : Runtime) (health_paths : List String) (settings : AuthSettings) (now : ℕ)
    (request : AuthRequest)
    → is_skipped rt health_paths (load_credentials rt settings) request ≡ false
    → contains (rt.upper request.method) read_only_methods ≡ false
    → is_forwarded (dispatch rt health_paths settings now request).reply ≡ true
    → (c : AuthCredential) × (IsFirstMatch
          (drop_chars 7 (or_else request.authorization ""))
          c
          (load_credentials rt settings)
        × (intersects c.scopes mutating_scopes ≡ true)
        × (any (λ prefix. starts_with request.path prefix) admin_path_prefixes ≡ true
            → intersects c.scopes admin_scopes ≡ true))
dispatch-mutation rt health_paths settings now request checked writes h =
    elim ((dispatch_iff rt health_paths settings now request).0 h) [
      | inl skipped ↦ absurd (ground (arith, skipped, checked))
      | inr (bearer, (c, (first, (live, fresh, allowed)))) ↦
          let rights = required-mutating rt request c.scopes writes allowed in
          (c, (first, rights.0, rights.1))
    ]
