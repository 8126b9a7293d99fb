-- ===== src/NetCapture/Duration.antt =====
-- `parse_duration_ms` of net_capture.cpp, over the characters of its text.
use trinetra.Prelude.{
  ℕ, ◌+◌, ◌-◌, ◌*◌, ◌^◌, Bool, true, false, not, ◌&&◌, ◌||◌, List, [], ◌∷◌, Option, none, some, ltb,
  leb, ◌==◌, if◌then◌else◌, length, take,
}

-- `overflow` is a signed multiplication out of range, which C++ leaves undefined.
pub data Duration : Type 0 where
  rejected : Duration
  millis : ℕ → Duration
  overflow : Duration

unfoldable pub is_digit : ℕ → Bool
is_digit c = leb b'0' c && leb c b'9'

unfoldable pub all_digits : List ℕ → Bool
all_digits [] = true
all_digits (c ∷ s) = is_digit c && all_digits s

-- `std::stol` of a text of digits, as a number of any size.
unfoldable pub decimal : ℕ → List ℕ → ℕ
decimal acc [] = acc
decimal acc (c ∷ s) = decimal (acc * 10 + (c - b'0')) s

unfoldable pub back : List ℕ → ℕ
back [] = 0
back (c ∷ []) = c
back (c ∷ d ∷ s) = back (d ∷ s)

-- The unit's length in milliseconds, and whether it stands as a letter.
unfoldable pub unit_of : ℕ → Option (ℕ × Bool)
unfolding is_digit
unit_of unit =
    if unit == b's' || unit == b'S'
    then some (1000, true)
    else if unit == b'm' || unit == b'M'
    then some (60 * 1000, true)
    else if unit == b'h' || unit == b'H'
    then some (60 * 60 * 1000, true)
    else if not (is_digit unit)
    then none
    else some (1000, false)

abbrev pub long_max : ℕ
long_max = 2 ^ 63 - 1

abbrev pub int_max : ℕ
int_max = 2 ^ 31 - 1

-- From the digits on. `std::stol` throws above `long_max`, and the handler returns false.
unfoldable pub scale : ℕ → List ℕ → Duration
scale multiplier digits =
    let value = decimal 0 digits in
    if leb (length digits) 0
    then rejected
    else if not (all_digits digits)
    then rejected
    else if ltb long_max value
    then rejected
    else if leb value 0
    then rejected
    else if ltb long_max (value * multiplier)
    then overflow
    else if ltb int_max (value * multiplier)
    then millis int_max
    else millis (value * multiplier)

unfoldable pub parse_duration_ms : List ℕ → Duration
parse_duration_ms text = if leb (length text) 0 then rejected else elim (unit_of (back text)) [
  | none ↦ rejected
  | some (multiplier, true) ↦ scale multiplier (take (length text - 1) text)
  | some (multiplier, false) ↦ scale multiplier text
]
