-- ===== src/Auth/Printing.antt =====
-- Reading back a written list of credentials, `_parse_structured_credentials` of
-- apps/api-control-plane/app/core/auth.py.
use Prim.Native.Char.{Char}
use Prim.Native.String.{[] as empty, ◌∷◌ as ◌:>◌}
use text.Mathlib.TextLemmas.{nil-append, cons-append}
use mathlib.Core.List.{append-nil, append_assoc}
use text.Mathlib.TextEquality.{eq_iff}
use gooberberg_terminal.Prelude.{
  contains-append, are_distinct, ℕ, String, Bool, true, false, not, ◌&&◌, ◌||◌, Option, none, some,
  List, [], ◌∷◌, ◌++◌, ◌≡◌, refl, ap, subst, sym, ◌∙◌, string_eq, nat_eq, contains, ◌==◌, All,
  All-imp, arith, any,
}
use gooberberg_terminal.Prelude.Dict.{lookup}
use gooberberg_terminal.Prelude.Texts.{◌<>◌, is_space, is_empty_text, split_on, replace_char, join}
use gooberberg_terminal.Prelude.TextSplits.{
  contains_char, begins_bare, ends_bare, is_trimmed, split_on-join, strip-trimmed, ends_bare-append,
}
use gooberberg_terminal.Auth.Credentials.{
  AuthCredential, Runtime, role_scope_aliases, add_scope, normalize_tokens, normalize_scopes,
}

abbrev pub show_expiry : (ℕ → String) → Option ℕ → String
show_expiry show_time none = empty
show_expiry show_time (some t) = show_time t

-- Four parts between bars.
abbrev pub bar_joined : String → String → String → String → String
bar_joined a b c d = a <> ("|" :> (b <> ("|" :> (c <> ("|" :> d)))))

-- The record of a credential.
abbrev pub show_credential : (ℕ → String) → AuthCredential → String
show_credential show_time c =
    bar_joined c.token_id c.token (join "," c.scopes) (show_expiry show_time c.expires_at)

-- A nonempty text without spaces at its ends and without the marks of the format.
abbrev pub is_plain : String → Bool
is_plain s =
    not (is_empty_text s) && is_trimmed s && not (contains_char 124 s) && not (contains_char 59 s)

-- A scope that is no role and has no comma.
abbrev pub is_scope : String → Bool
unfolding lookup
is_scope s =
    is_plain s
    && not (contains_char 44 s)
    && elim (lookup s role_scope_aliases) [ none ↦ true | some _ ↦ false ]

pub contains_char-append :
    (mark : ℕ) (s t : String)
    → contains_char mark (s <> t) ≡ (contains_char mark s || contains_char mark t)
contains_char-append mark empty t = rw (nil-append t) refl
contains_char-append mark (c :> s) t =
    rw (cons-append c s t) (ground (arith, contains_char-append mark s t))

pub begins_bare-append :
    (s t : String) → begins_bare s ≡ true → is_empty_text s ≡ false → begins_bare (s <> t) ≡ true
begins_bare-append empty t h e = ground arith
begins_bare-append (c :> s) t h e = rw (cons-append c s t) h

is_scope-trimmed : (s : String) → is_scope s ≡ true → is_trimmed s ≡ true
unfolding lookup
is_scope-trimmed s h = ground (arith, h)

is_scope-ends : (s : String) → is_scope s ≡ true → ends_bare s ≡ true
unfolding lookup
is_scope-ends s h = ground (arith, h)

is_scope-begins :
    (s : String) → is_scope s ≡ true → (begins_bare s ≡ true) × (is_empty_text s ≡ false)
unfolding lookup
is_scope-begins s h = ground (arith, h)

contains-fresh :
    (s : String) (done scopes : List String)
    → any (λ t. contains t done) scopes ≡ false
    → contains s scopes ≡ false
    → any (λ t. contains t (done ++ (s ∷ []))) scopes ≡ false
contains-fresh s done [] h e = refl
contains-fresh s done (t ∷ scopes) h e =
    ground
      (arith, contains-fresh s done scopes, contains-append t done (s ∷ []), eq_iff t s, eq_iff s t)

any-empty : (scopes : List String) → any (λ s. contains s []) scopes ≡ false
any-empty [] = refl
any-empty (s ∷ scopes) = any-empty scopes

normalize-step :
    (s : String) (scopes done : List String)
    → is_scope s ≡ true
    → contains s done ≡ false
    → normalize_tokens (s ∷ scopes) done ≡ normalize_tokens scopes (done ++ (s ∷ []))
unfolding normalize_tokens add_scope lookup
normalize-step s scopes done h fresh =
    ground (arith, strip-trimmed s (is_scope-trimmed s h), h, fresh)

normalize_tokens-plain :
    (scopes done : List String)
    → All (λ s. is_scope s ≡ true) scopes
    → are_distinct scopes ≡ true
    → any (λ s. contains s done) scopes ≡ false
    → normalize_tokens scopes done ≡ done ++ scopes
unfolding normalize_tokens
normalize_tokens-plain [] done h d fresh = sym (append-nil done)
normalize_tokens-plain (s ∷ scopes) done h d fresh =
    normalize-step s scopes done h.0 (ground (arith, fresh))
    ∙ normalize_tokens-plain scopes (done ++ (s ∷ [])) h.1 (ground (arith, d))
        (contains-fresh s done scopes (ground (arith, fresh)) (ground (arith, d)))
    ∙ append_assoc done (s ∷ []) scopes

join-cons :
    (s t : String) (rest : List String)
    → join "," (s ∷ t ∷ rest) ≡ s <> ("," :> join "," (t ∷ rest))
unfolding join
join-cons s t rest =
    ap (λ x. s <> x)
      (cons-append "," empty (join "," (t ∷ rest))
        ∙ ap (λ x. "," :> x) (nil-append (join "," (t ∷ rest))))

pub ends_bare-cons :
    (c : Char) (s : String) → is_space c ≡ false → ends_bare s ≡ true → ends_bare (c :> s) ≡ true
ends_bare-cons c empty h e = ground arith
ends_bare-cons c (d :> s) h e = e

pub contains_char-join :
    (mark : ℕ) (scopes : List String)
    → (44 == mark) ≡ false
    → All (λ s. contains_char mark s ≡ false) scopes
    → contains_char mark (join "," scopes) ≡ false
unfolding join
contains_char-join mark [] other h = refl
contains_char-join mark (s ∷ []) other h = h.0
contains_char-join mark (s ∷ t ∷ rest) other h =
    subst (λ text. contains_char mark text ≡ false) (sym (join-cons s t rest))
      (ground (
        arith,
        contains_char-append mark s ("," :> join "," (t ∷ rest)),
        contains_char-join mark (t ∷ rest) other h.1,
        h.0,
        other,
      ))

pub ends_bare-join :
    (scopes : List String)
    → All (λ s. is_scope s ≡ true) scopes
    → ends_bare (join "," scopes) ≡ true
unfolding join
ends_bare-join [] h = refl
ends_bare-join (s ∷ []) h = is_scope-ends s h.0
ends_bare-join (s ∷ t ∷ rest) h =
    subst (λ text. ends_bare text ≡ true) (sym (join-cons s t rest))
      (ends_bare-append s "," (join "," (t ∷ rest))
        (ends_bare-cons "," (join "," (t ∷ rest)) refl (ends_bare-join (t ∷ rest) h.1)))

pub begins_bare-join :
    (scopes : List String)
    → All (λ s. is_scope s ≡ true) scopes
    → begins_bare (join "," scopes) ≡ true
unfolding join
begins_bare-join [] h = refl
begins_bare-join (s ∷ []) h = (is_scope-begins s h.0).0
begins_bare-join (s ∷ t ∷ rest) h =
    let first = is_scope-begins s h.0 in
    subst (λ text. begins_bare text ≡ true) (sym (join-cons s t rest))
      (begins_bare-append s ("," :> join "," (t ∷ rest)) first.0 first.1)

pub is_empty_text-append : (s t : String) → is_empty_text s ≡ false → is_empty_text (s <> t) ≡ false
is_empty_text-append empty t h = ground (arith, h)
is_empty_text-append (c :> s) t h = rw (cons-append c s t) refl

is_empty_text-join :
    (s : String) (rest : List String)
    → is_scope s ≡ true
    → is_empty_text (join "," (s ∷ rest)) ≡ false
unfolding join
is_empty_text-join s [] h = (is_scope-begins s h).1
is_empty_text-join s (t ∷ rest) h =
    is_empty_text-append s ("," <> join "," (t ∷ rest)) (is_scope-begins s h).1

is_scope-comma : (s : String) → is_scope s ≡ true → contains_char 44 s ≡ false
unfolding lookup
is_scope-comma s h = ground (arith, h)

pub normalize_scopes-join :
    (scopes : List String)
    → All (λ s. is_scope s ≡ true) scopes
    → are_distinct scopes ≡ true
    → normalize_scopes (join "," scopes) ≡ scopes
unfolding normalize_scopes normalize_tokens join
normalize_scopes-join [] h d = refl
normalize_scopes-join (s ∷ rest) h d =
    let pieces : split_on 44 (join "," (s ∷ rest)) ≡ s ∷ rest =
      split_on-join "," s rest
        (All-imp (λ piece. is_scope piece ≡ true) (λ piece. contains_char 44 piece ≡ false)
          (s ∷ rest) is_scope-comma h)
        refl in
    rw (is_empty_text-join s rest h.0, pieces)
      (normalize_tokens-plain (s ∷ rest) [] h d (any-empty (s ∷ rest)))

-- The expiry of a credential is read back from its text.
abbrev pub IsShown : Runtime → (ℕ → String) → Option ℕ → Type 0
IsShown rt show_time none = Unit
IsShown rt show_time (some t) =
    (is_plain (show_time t) ≡ true)
    × (rt.clock.from_iso (replace_char 90 "+00:00" (show_time t)) ≡ some t)

-- A credential that the format can carry.
abbrev pub IsWritable : Runtime → (ℕ → String) → AuthCredential → Type 0
IsWritable rt show_time c =
    (is_plain c.token_id ≡ true)
    × (is_plain c.token ≡ true)
    × All (λ s. is_scope s ≡ true) c.scopes
    × (are_distinct c.scopes ≡ true)
    × IsShown rt show_time c.expires_at
