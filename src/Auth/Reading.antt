-- ===== src/Auth/Reading.antt =====
-- `_parse_structured_credentials` of apps/api-control-plane/app/core/auth.py reads back what
-- `show_credential` writes.
use Prim.Native.String.{◌∷◌ as ◌:>◌}
use gooberberg_terminal.Prelude.{
  ℕ, suc, String, true, false, Option, none, some, List, [], ◌∷◌, map, ◌≡◌, refl, ap, ◌∙◌,
  string_eq, nat_eq, All, All-imp, arith,
}
use gooberberg_terminal.Prelude.Dict.{lookup}
use gooberberg_terminal.Prelude.Texts.{◌<>◌, is_empty_text, strip, split_max, join}
use gooberberg_terminal.Prelude.TextSplits.{
  contains_char, ends_bare, is_trimmed, split_on-join, split_max-first, strip-trimmed,
  ends_bare-append,
}
use gooberberg_terminal.Auth.Credentials.{
  AuthCredential, Runtime, parse_expires_at, read_parts, parse_entry, parse_entries,
  parse_structured_credentials,
}
use gooberberg_terminal.Auth.Printing.{
  show_expiry, bar_joined, show_credential, is_plain, is_scope, IsShown, IsWritable,
  contains_char-append, begins_bare-append, ends_bare-cons, contains_char-join, ends_bare-join,
  begins_bare-join, is_empty_text-append, normalize_scopes-join,
}

split_max-bars :
    (a b c d : String)
    → contains_char 124 a ≡ false
    → contains_char 124 b ≡ false
    → contains_char 124 c ≡ false
    → split_max 124 3 (bar_joined a b c d) ≡ a ∷ b ∷ c ∷ d ∷ []
unfolding split_max
split_max-bars a b c d ha hb hc =
    split_max-first 124 2 a "|" (b <> ("|" :> (c <> ("|" :> d)))) ha refl
    ∙ ap (λ rest. a ∷ rest)
        (split_max-first 124 1 b "|" (c <> ("|" :> d)) hb refl
          ∙ ap (λ rest. b ∷ rest) (split_max-first 124 0 c "|" d hc refl))

bars-trimmed :
    (a b c d : String)
    → is_plain a ≡ true
    → ends_bare d ≡ true
    → is_trimmed (bar_joined a b c d) ≡ true
bars-trimmed a b c d ha hd =
    let tail_c = ends_bare-append c "|" d (ends_bare-cons "|" d refl hd) in
    let tail_b =
      ends_bare-append b "|" (c <> ("|" :> d)) (ends_bare-cons "|" (c <> ("|" :> d)) refl tail_c) in
    let end =
      ends_bare-append a "|" (b <> ("|" :> (c <> ("|" :> d))))
        (ends_bare-cons "|" (b <> ("|" :> (c <> ("|" :> d)))) refl tail_b) in
    let start =
      begins_bare-append a ("|" :> (b <> ("|" :> (c <> ("|" :> d))))) (ground (arith, ha))
        (ground (arith, ha)) in
    ground (arith, start, end)

bars-unmarked :
    (a b c d : String)
    → contains_char 59 a ≡ false
    → contains_char 59 b ≡ false
    → contains_char 59 c ≡ false
    → contains_char 59 d ≡ false
    → contains_char 59 (bar_joined a b c d) ≡ false
bars-unmarked a b c d ha hb hc hd = ground (
  arith,
  contains_char-append 59 a ("|" :> (b <> ("|" :> (c <> ("|" :> d))))),
  contains_char-append 59 b ("|" :> (c <> ("|" :> d))),
  contains_char-append 59 c ("|" :> d),
)

scope-unmarked :
    (s : String) → is_scope s ≡ true → (contains_char 59 s ≡ false) × (contains_char 124 s ≡ false)
unfolding lookup
scope-unmarked s h = ground (arith, h)

module _ (rt : Runtime) (show_time : ℕ → String) where
  parse_expires_at-shown :
      (o : Option ℕ)
      → IsShown rt show_time o
      → parse_expires_at rt (show_expiry show_time o) ≡ some o
  unfolding parse_expires_at strip
  parse_expires_at-shown none h = refl
  parse_expires_at-shown (some t) h =
      ground (arith, strip-trimmed (show_time t) (ground (arith, h.0)), h.0, h.1)

  expiry-plain :
      (o : Option ℕ)
      → IsShown rt show_time o
      → (is_trimmed (show_expiry show_time o) ≡ true)
        × (contains_char 59 (show_expiry show_time o) ≡ false)
  expiry-plain none h = (refl, refl)
  expiry-plain (some t) h = ground (arith, h.0)

  scopes-trimmed :
      (scopes : List String)
      → All (λ s. is_scope s ≡ true) scopes
      → is_trimmed (join "," scopes) ≡ true
  scopes-trimmed scopes h = ground (arith, begins_bare-join scopes h, ends_bare-join scopes h)

  -- The four texts of a record.
  abbrev parts : AuthCredential → List String
  parts c = c.token_id ∷ c.token ∷ join "," c.scopes ∷ show_expiry show_time c.expires_at ∷ []

  parts-trimmed : (c : AuthCredential) → IsWritable rt show_time c → map strip (parts c) ≡ parts c
  parts-trimmed c (id, secret, scopes, distinct, expiry) =
      let a = strip-trimmed c.token_id (ground (arith, id)) in
      let b = strip-trimmed c.token (ground (arith, secret)) in
      let s = strip-trimmed (join "," c.scopes) (scopes-trimmed c.scopes scopes) in
      let t =
        strip-trimmed (show_expiry show_time c.expires_at) (expiry-plain c.expires_at expiry).0 in
      rw (a, b, s, t)

  read_parts-shown :
      (index : ℕ) (c : AuthCredential)
      → IsWritable rt show_time c
      → read_parts rt index (parts c) ≡ some c
  unfolding read_parts
  read_parts-shown index c (id, secret, scopes, distinct, expiry) = ground (
    arith,
    id,
    secret,
    parse_expires_at-shown c.expires_at expiry,
    normalize_scopes-join c.scopes scopes distinct,
  )

  scopes-unmarked :
      (scopes : List String)
      → All (λ s. is_scope s ≡ true) scopes
      → (contains_char 59 (join "," scopes) ≡ false) × (contains_char 124 (join "," scopes) ≡ false)
  scopes-unmarked scopes h = (
    contains_char-join 59 scopes refl (
        All-imp (λ s. is_scope s ≡ true) (λ s. contains_char 59 s ≡ false) scopes
          (λ s e. (scope-unmarked s e).0) h),
    contains_char-join 124 scopes refl (
        All-imp (λ s. is_scope s ≡ true) (λ s. contains_char 124 s ≡ false) scopes
          (λ s e. (scope-unmarked s e).1) h),
  )

  entry-trimmed :
      (c : AuthCredential)
      → IsWritable rt show_time c
      → strip (show_credential show_time c) ≡ show_credential show_time c
  entry-trimmed c (id, secret, scopes, distinct, expiry) =
      strip-trimmed (show_credential show_time c) (
        bars-trimmed c.token_id c.token (join "," c.scopes) (show_expiry show_time c.expires_at) id
          (ground (arith, (expiry-plain c.expires_at expiry).0)))

  entry-parts :
      (c : AuthCredential)
      → IsWritable rt show_time c
      → split_max 124 3 (show_credential show_time c) ≡ parts c
  entry-parts c (id, secret, scopes, distinct, expiry) =
      split_max-bars c.token_id c.token (join "," c.scopes) (show_expiry show_time c.expires_at)
        (ground (arith, id)) (ground (arith, secret)) (scopes-unmarked c.scopes scopes).1

  entry-filled :
      (c : AuthCredential)
      → IsWritable rt show_time c
      → is_empty_text (show_credential show_time c) ≡ false
  entry-filled c (id, secret, scopes, distinct, expiry) =
      is_empty_text-append c.token_id
        ("|"
          :> (c.token
              <> ("|" :> (join "," c.scopes <> ("|" :> show_expiry show_time c.expires_at)))))
        (ground (arith, id))

  entry-unmarked :
      (c : AuthCredential)
      → IsWritable rt show_time c
      → contains_char 59 (show_credential show_time c) ≡ false
  entry-unmarked c (id, secret, scopes, distinct, expiry) =
      bars-unmarked c.token_id c.token (join "," c.scopes) (show_expiry show_time c.expires_at)
        (ground (arith, id)) (ground (arith, secret)) (scopes-unmarked c.scopes scopes).0
        (expiry-plain c.expires_at expiry).1

  parse_entry-shown :
      (index : ℕ) (c : AuthCredential)
      → IsWritable rt show_time c
      → parse_entry rt index (show_credential show_time c) ≡ some c
  unfolding parse_entry
  parse_entry-shown index c h = ground (
    arith,
    entry-trimmed c h,
    parts-trimmed c h,
    entry-parts c h,
    read_parts-shown index c h,
    entry-filled c h,
  )

  parse_entries-shown :
      (index : ℕ) (cs : List AuthCredential)
      → All (IsWritable rt show_time) cs
      → parse_entries rt index (map (show_credential show_time) cs) ≡ cs
  unfolding parse_entries
  parse_entries-shown index [] h = refl
  parse_entries-shown index (c ∷ cs) h =
      ground (arith, parse_entry-shown index c h.0, parse_entries-shown (suc index) cs h.1)

  entries-unmarked :
      (cs : List AuthCredential)
      → All (IsWritable rt show_time) cs
      → All (λ s. contains_char 59 s ≡ false) (map (show_credential show_time) cs)
  entries-unmarked [] h = tt
  entries-unmarked (c ∷ cs) h = (entry-unmarked c h.0, entries-unmarked cs h.1)

  -- Credentials that the format can carry are read back, in their order, from the text that lists
  -- them.
  pub parse_structured_credentials-show :
      (cs : List AuthCredential)
      → All (IsWritable rt show_time) cs
      → parse_structured_credentials rt (join ";" (map (show_credential show_time) cs)) ≡ cs
  unfolding parse_structured_credentials join
  parse_structured_credentials-show [] h = refl
  parse_structured_credentials-show (c ∷ cs) h =
      ap (parse_entries rt 1) (
        split_on-join ";" (show_credential show_time c) (map (show_credential show_time) cs)
          (entries-unmarked (c ∷ cs) h) refl)
      ∙ parse_entries-shown 1 (c ∷ cs) h
