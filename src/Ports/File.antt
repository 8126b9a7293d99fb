-- ===== src/Ports/File.antt =====
-- `read_ports_from_file` of utils.cpp, over the bytes of the mapped file.
use trinetra.Prelude.{
  ℕ, zero, suc, ◌+◌, ◌-◌, ◌*◌, Bool, ◌&&◌, ◌||◌, List, [], ◌∷◌, Option, none, some, ltb, leb, ◌==◌,
  if◌then◌else◌, length,
}

abbrev pub is_digit : ℕ → Bool
is_digit c = leb b'0' c && leb c b'9'

abbrev is_blank : ℕ → Bool
is_blank c = c == b' ' || (c == b'\t' || c == b'\r')

unfoldable pub skip_blanks : List ℕ → List ℕ
skip_blanks [] = []
skip_blanks (c ∷ s) = let rest = skip_blanks s in if is_blank c then rest else c ∷ s

-- The digits in front, and what follows them.
unfoldable pub take_digits : List ℕ → List ℕ × List ℕ
take_digits [] = ([], [])
take_digits (c ∷ s) =
    let rest = take_digits s in if is_digit c then (c ∷ rest.0, rest.1) else ([], c ∷ s)

-- The value of the digits; `none` is `valid = false`.
unfoldable pub port_value : ℕ → List ℕ → Option ℕ
port_value port [] = some port
port_value port (c ∷ s) =
    let next = port * 10 + (c - b'0') in
    let rest = port_value next s in
    if ltb 6553 port then none else if ltb 65535 next then none else rest

-- Behind the line's end.
unfoldable pub next_line : List ℕ → List ℕ
next_line [] = []
next_line (c ∷ s) = let rest = next_line s in if c == b'\n' then s else rest

abbrev pub push_valid : Option ℕ → List ℕ → List ℕ
push_valid none ports = ports
push_valid (some port) ports = if ltb 0 port then port ∷ ports else ports

-- What a line that begins with the digits adds.
unfoldable pub push_port : List ℕ → List ℕ → List ℕ
unfolding port_value
push_port [] ports = ports
push_port (c ∷ s) ports = push_valid (port_value 0 (c ∷ s)) ports

-- The outer loop: a round takes a byte at least, or is the last.
unfoldable pub lines_loop : ℕ → List ℕ → List ℕ
unfolding skip_blanks take_digits next_line push_port
lines_loop zero s = []
lines_loop (suc fuel) s =
    let start = skip_blanks s in
    let (digits, behind) = take_digits start in
    let ports = push_port digits (lines_loop fuel (next_line behind)) in
    if length start == 0 then [] else ports

-- `std::sort`.
unfoldable pub insert : ℕ → List ℕ → List ℕ
insert x [] = x ∷ []
insert x (y ∷ ys) = let rest = insert x ys in if leb x y then x ∷ y ∷ ys else y ∷ rest

unfoldable pub sort : List ℕ → List ℕ
unfolding insert
sort [] = []
sort (x ∷ xs) = insert x (sort xs)

-- `std::unique`, and the erasing of what is behind.
unfoldable pub unique : List ℕ → List ℕ
unique [] = []
unique (x ∷ []) = x ∷ []
unique (x ∷ (y ∷ ys)) = let rest = unique (y ∷ ys) in if x == y then rest else x ∷ rest

unfoldable pub read_ports : List ℕ → List ℕ
unfolding lines_loop sort unique
read_ports bytes = unique (sort (lines_loop (length bytes) bytes))
