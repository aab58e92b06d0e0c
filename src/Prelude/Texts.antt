-- ===== src/Prelude/Texts.antt =====
-- Python's methods on texts: `strip`, `split`, `join`, `startswith` and `replace` of one character.
use Prim.Native.Char.{Char, code}
pub use Prim.Native.String.{◌++◌ as ◌<>◌}
use Prim.Native.String.{String, [] as empty, ◌∷◌ as ◌:>◌}
use mathlib.Core.Bool.{Bool, true, false, ◌&&◌, ◌||◌}
use mathlib.Core.List.{List, [], ◌∷◌}
use gooberberg_terminal.Prelude.Tests.{nat_eq, ◌==◌, leb, if◌then◌else◌}
use Prim.Native.Nat.{ℕ, zero, suc}

abbrev pub is_between : ℕ → ℕ → ℕ → Bool
is_between low high n = leb low n && leb n high

-- The characters that `str.strip` removes.
abbrev pub is_space : Char → Bool
is_space c =
    let n = code c in
    is_between 9 13 n
    || is_between 28 32 n
    || n == 133
    || n == 160
    || n == 5760
    || is_between 8192 8202 n
    || n == 8232
    || n == 8233
    || n == 8239
    || n == 8287
    || n == 12288

-- `not s`
abbrev pub is_empty_text : String → Bool
is_empty_text empty = true
is_empty_text (c :> s) = false

-- `s[n:]`
unfoldable pub drop_chars : ℕ → String → String
drop_chars zero s = s
drop_chars (suc n) empty = empty
drop_chars (suc n) (c :> s) = drop_chars n s

unfoldable pub lstrip : String → String
lstrip empty = empty
lstrip (c :> s) = let rest = lstrip s in if is_space c then rest else c :> s

unfoldable pub rstrip : String → String
rstrip empty = empty
rstrip (c :> s) =
    let rest = rstrip s in if is_space c && is_empty_text rest then empty else c :> rest

-- `s.strip()`
unfoldable pub strip : String → String
unfolding lstrip rstrip
strip s = lstrip (rstrip s)

-- A character in front of the first piece.
abbrev cons_first : Char → List String → List String
cons_first c [] = (c :> empty) ∷ []
cons_first c (s ∷ rest) = (c :> s) ∷ rest

-- `s.split(mark)` of a one-character mark, given by its code.
unfoldable pub split_on : ℕ → String → List String
split_on mark empty = empty ∷ []
split_on mark (c :> s) =
    let rest = split_on mark s in if code c == mark then empty ∷ rest else cons_first c rest

-- `s.split(mark, maxsplit=n)`
unfoldable pub split_max : ℕ → ℕ → String → List String
split_max mark zero s = s ∷ []
split_max mark (suc n) empty = empty ∷ []
split_max mark (suc n) (c :> s) =
    let rest = split_max mark (suc n) s in
    if code c == mark then empty ∷ split_max mark n s else cons_first c rest

-- `s.replace(mark, by)` of a one-character mark.
unfoldable pub replace_char : ℕ → String → String → String
replace_char mark by empty = empty
replace_char mark by (c :> s) =
    let rest = replace_char mark by s in if code c == mark then by <> rest else c :> rest

-- `mark.join(pieces)`
unfoldable pub join : String → List String → String
join mark [] = empty
join mark (s ∷ []) = s
join mark (s ∷ t ∷ rest) = s <> (mark <> join mark (t ∷ rest))
