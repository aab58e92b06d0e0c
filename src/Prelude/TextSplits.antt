-- ===== src/Prelude/TextSplits.antt =====
-- Splitting what was joined, and stripping what needs no stripping.
use Prim.Native.Char.{Char, code}
use Prim.Native.String.{String, [] as empty, ◌∷◌ as ◌:>◌, ◌++◌ as ◌<>◌}
use text.Mathlib.TextLemmas.{nil-append, cons-append}
use mathlib.Core.Path.{◌≡◌, refl, ap, subst, ◌∙◌}
use mathlib.Core.Bool.{Bool, true, false, not, ◌&&◌, ◌||◌}
use mathlib.Core.List.{List, [], ◌∷◌}
use native.Mathlib.Omega.{arith}
use gooberberg_terminal.Prelude.Tests.{nat_eq, ◌==◌}
use gooberberg_terminal.Prelude.Lists.{All}
use gooberberg_terminal.Prelude.Texts.{is_space, lstrip, rstrip, strip, split_on, split_max, join}
use Prim.Native.Nat.{ℕ, suc}

abbrev pub contains_char : ℕ → String → Bool
contains_char mark empty = false
contains_char mark (c :> s) = code c == mark || contains_char mark s

-- The text does not begin, or end, with a space.
abbrev pub begins_bare : String → Bool
begins_bare empty = true
begins_bare (c :> s) = not (is_space c)

abbrev pub ends_bare : String → Bool
ends_bare empty = true
ends_bare (c :> empty) = not (is_space c)
ends_bare (c :> d :> s) = ends_bare (d :> s)

abbrev pub is_trimmed : String → Bool
is_trimmed s = begins_bare s && ends_bare s

pub split_on-plain :
    (mark : ℕ) (s : String) → contains_char mark s ≡ false → split_on mark s ≡ s ∷ []
unfolding split_on
split_on-plain mark empty h = refl
split_on-plain mark (c :> s) h = ground (arith, split_on-plain mark s)

pub split_on-first :
    (mark : ℕ) (s : String) (c : Char) (t : String)
    → contains_char mark s ≡ false
    → (code c == mark) ≡ true
    → split_on mark (s <> (c :> t)) ≡ s ∷ split_on mark t
unfolding split_on
split_on-first mark empty c t h e = rw (nil-append (c :> t)) ground arith
split_on-first mark (a :> s) c t h e =
    rw (cons-append a s (c :> t)) ground (arith, split_on-first mark s c t)

pub split_max-first :
    (mark n : ℕ) (s : String) (c : Char) (t : String)
    → contains_char mark s ≡ false
    → (code c == mark) ≡ true
    → split_max mark (suc n) (s <> (c :> t)) ≡ s ∷ split_max mark n t
unfolding split_max
split_max-first mark n empty c t h e = rw (nil-append (c :> t)) ground arith
split_max-first mark n (a :> s) c t h e =
    rw (cons-append a s (c :> t)) ground (arith, split_max-first mark n s c t)

pub split_on-join :
    (c : Char) (s : String) (rest : List String)
    → All (λ piece. contains_char (code c) piece ≡ false) (s ∷ rest)
    → (code c == code c) ≡ true
    → split_on (code c) (join (c :> empty) (s ∷ rest)) ≡ s ∷ rest
unfolding join
split_on-join c s [] h e = split_on-plain (code c) s h.0
split_on-join c s (t ∷ rest) h e =
    rw
      (
        cons-append c empty (join (c :> empty) (t ∷ rest)),
        nil-append (join (c :> empty) (t ∷ rest)),
      )
      (split_on-first (code c) s c (join (c :> empty) (t ∷ rest)) h.0 e
        ∙ ap (λ pieces. s ∷ pieces) (split_on-join c t rest h.1 e))

pub lstrip-bare : (s : String) → begins_bare s ≡ true → lstrip s ≡ s
unfolding lstrip
lstrip-bare empty h = refl
lstrip-bare (c :> s) h = ground arith

pub rstrip-bare : (s : String) → ends_bare s ≡ true → rstrip s ≡ s
unfolding rstrip
rstrip-bare empty h = refl
rstrip-bare (c :> empty) h = ground arith
rstrip-bare (c :> d :> s) h =
    let rest : rstrip (d :> s) ≡ d :> s = rstrip-bare (d :> s) h in ground (arith, rest)

pub strip-trimmed : (s : String) → is_trimmed s ≡ true → strip s ≡ s
unfolding strip
strip-trimmed s h = rw (rstrip-bare s (ground arith)) (lstrip-bare s (ground arith))

pub ends_bare-append :
    (s : String) (c : Char) (t : String)
    → ends_bare (c :> t) ≡ true
    → ends_bare (s <> (c :> t)) ≡ true
ends_bare-append empty c t h = rw (nil-append (c :> t)) h
ends_bare-append (a :> empty) c t h = rw (cons-append a empty (c :> t), nil-append (c :> t)) h
ends_bare-append (a :> b :> s) c t h =
    let rest : ends_bare (b :> (s <> (c :> t))) ≡ true =
      subst (λ x. ends_bare x ≡ true) (cons-append b s (c :> t))
        (ends_bare-append (b :> s) c t h) in
    rw (cons-append a (b :> s) (c :> t), cons-append b s (c :> t)) rest
