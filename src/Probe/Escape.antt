-- ===== src/Probe/Escape.antt =====
-- `cstring_unescape` of probe.cpp. A text has no byte 0, which ends it, and `none` is `false`.
use trinetra.Prelude.{
  ℕ, zero, suc, ◌+◌, ◌-◌, ◌*◌, ◌&&◌, List, [], ◌∷◌, Option, none, some, leb, ◌==◌, if◌then◌else◌,
  length, map_some,
}
use trinetra.Probe.Text.{isxdigit}

abbrev pub hex : ℕ → ℕ
hex c =
    if leb b'0' c && leb c b'9'
    then c - b'0'
    else if leb b'a' c && leb c b'f'
    then c - b'a' + 10
    else c - b'A' + 10

abbrev pub hex_escape : List ℕ → Option (ℕ × List ℕ)
hex_escape (hi ∷ lo ∷ s) =
    if isxdigit hi && isxdigit lo then some (hex hi * 16 + hex lo, s) else none
hex_escape _ = none

abbrev pub escaped_char : ℕ → ℕ
escaped_char e =
    if e == b'n'
    then 10
    else if e == b'r'
    then 13
    else if e == b't'
    then 9
    else if e == b'0'
    then 0
    else e

abbrev pub escape_at : List ℕ → Option (ℕ × List ℕ)
escape_at [] = none
escape_at (e ∷ s) = if e == b'x' then hex_escape s else some (escaped_char e, s)

-- A round of the loop: the byte that is written, and what is left to read.
abbrev pub next_char : ℕ → List ℕ → Option (ℕ × List ℕ)
next_char c s = if c == b'\\' then escape_at s else some (c, s)

abbrev pub emit : (List ℕ → Option (List ℕ)) → Option (ℕ × List ℕ) → Option (List ℕ)
emit again none = none
emit again (some (c, s)) = map_some (λ out. c ∷ out) (again s)

-- A round reads a byte at least.
unfoldable pub unescape_loop : ℕ → List ℕ → Option (List ℕ)
unescape_loop fuel [] = some []
unescape_loop zero (c ∷ s) = none
unescape_loop (suc fuel) (c ∷ s) = emit (unescape_loop fuel) (next_char c s)

unfoldable pub cstring_unescape : List ℕ → Option (List ℕ)
unfolding unescape_loop
cstring_unescape str = unescape_loop (length str) str
