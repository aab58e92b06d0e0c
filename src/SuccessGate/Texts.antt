-- ===== src/SuccessGate/Texts.antt =====
-- The texts that apps/api-control-plane/app/domain/run_success_gate.py and run_metadata_governance.py
-- of the same folder inspect.
use Prim.Native.Char.{Char, code}
use Prim.Native.String.{[], ◌∷◌}
use text.Mathlib.Text.{starts_with}
use gooberberg_terminal.Prelude.{
  ℕ, zero, suc, String, Bool, true, false, ◌&&◌, ◌||◌, Option, none, some, nat_eq, ◌==◌, leb,
  if◌then◌else◌,
}

abbrev is_between : ℕ → ℕ → ℕ → Bool
is_between low high n = leb low n && leb n high

-- `[a-fA-F0-9]`
abbrev is_hex : Char → Bool
is_hex c = let n = code c in is_between 48 57 n || is_between 65 70 n || is_between 97 102 n

abbrev is_end : String → Bool
is_end [] = true
is_end (c ∷ s) = false

-- The number of hexadecimal digits up to the end or a last newline, where `$` matches; `none` if
-- there is anything else.
unfoldable pub hex_count : String → Option ℕ
hex_count [] = some 0
hex_count (c ∷ s) =
    let rest = hex_count s in
    if is_hex c
    then elim rest [ none ↦ none | some n ↦ some (suc n) ]
    else if code c == 10 && is_end s
    then some 0
    else none

unfoldable pub drop_chars : ℕ → String → String
drop_chars zero s = s
drop_chars (suc n) [] = []
drop_chars (suc n) (c ∷ s) = drop_chars n s

-- `_SHA_RE.match`
unfoldable pub sha_match : String → Bool
unfolding hex_count drop_chars
sha_match s = elim (hex_count (if starts_with s "sha256:" then drop_chars 7 s else s)) [
  | none ↦ false
  | some n ↦ is_between 16 128 n
]

-- The characters that `str.strip` removes.
abbrev is_space : Char → Bool
is_space c =
    let n = code c in
    is_between 9 13 n
    || is_between 28 32 n
    || n == 133
    || n == 160
    || n == 5760
    || is_between 8192 8202 n
    || n == 8232
    || n == 8233
    || n == 8239
    || n == 8287
    || n == 12288

-- `not value.strip()`
unfoldable pub is_blank : String → Bool
is_blank [] = true
is_blank (c ∷ s) = is_space c && is_blank s
