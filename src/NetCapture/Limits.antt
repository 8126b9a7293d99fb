-- ===== src/NetCapture/Limits.antt =====
-- What `parse_duration_ms` of net_capture.cpp accepts.
use Prim.Native.Nat.{min}
use trinetra.Prelude.{
  ℕ, ◌+◌, ◌-◌, ◌*◌, ◌≤◌, ◌<◌, ◌≡◌, refl, sym, ap, ◌∙◌, ◌⊎◌, inl, inr, Bool, true, false, List, [],
  ◌∷◌, ◌++◌, Option, none, some, arith, leb, length, take, length-append, Bool-cases,
}
use trinetra.NetCapture.Duration.{
  Duration, rejected, millis, overflow, is_digit, all_digits, decimal, back, unit_of, long_max,
  int_max, scale, parse_duration_ms,
}

-- The letters and their milliseconds.
pub data IsUnit (c ms : ℕ) : Type 0 where
  seconds : (c ≡ b's') ⊎ (c ≡ b'S') → ms ≡ 1000 → IsUnit c ms
  minutes : (c ≡ b'm') ⊎ (c ≡ b'M') → ms ≡ 60_000 → IsUnit c ms
  hours : (c ≡ b'h') ⊎ (c ≡ b'H') → ms ≡ 3_600_000 → IsUnit c ms

unit_of-IsUnit : (c ms : ℕ) → IsUnit c ms → unit_of c ≡ some (ms, true)
unfolding unit_of
unit_of-IsUnit c ms (seconds h e) = ground arith
unit_of-IsUnit c ms (minutes h e) = ground arith
unit_of-IsUnit c ms (hours h e) = ground arith

unit_of-digit : (c : ℕ) → is_digit c ≡ true → unit_of c ≡ some (1000, false)
unfolding unit_of is_digit
unit_of-digit c h = ground arith

back-append : (s : List ℕ) (c : ℕ) → back (s ++ c ∷ []) ≡ c
unfolding back
back-append [] c = refl
back-append (d ∷ []) c = refl
back-append (d ∷ e ∷ s) c = back-append (e ∷ s) c

take-append : (s : List ℕ) (c : ℕ) → take (length s) (s ++ c ∷ []) ≡ s
take-append [] c = refl
take-append (d ∷ s) c = ap (◌∷◌ d) (take-append s c)

parse_with_unit :
    (digits : List ℕ) (c ms : ℕ)
    → IsUnit c ms
    → parse_duration_ms (digits ++ c ∷ []) ≡ scale ms digits
unfolding parse_duration_ms
parse_with_unit digits c ms u =
    let n : length (digits ++ c ∷ []) ≡ length digits + 1 =
      omega (arith, length-append digits (c ∷ [])) in
    let some_left : leb (length (digits ++ c ∷ [])) 0 ≡ false = ground (arith, n) in
    let one_less : length (digits ++ c ∷ []) - 1 ≡ length digits = omega (arith, n) in
    rw (some_left, back-append digits c, unit_of-IsUnit c ms u, one_less, take-append digits c) refl

back-digit : (c : ℕ) (s : List ℕ) → all_digits (c ∷ s) ≡ true → is_digit (back (c ∷ s)) ≡ true
unfolding back all_digits
back-digit c [] h = ground arith
back-digit c (d ∷ s) h = back-digit d s (ground arith)

parse_bare :
    (c : ℕ) (s : List ℕ)
    → all_digits (c ∷ s) ≡ true
    → parse_duration_ms (c ∷ s) ≡ scale 1000 (c ∷ s)
unfolding parse_duration_ms
parse_bare c s h = rw (unit_of-digit _ (back-digit c s h)) (ground arith)

le-mul : (a b : ℕ) → 0 < b → a ≤ a * b
le-mul a b h = grind arith

unit_pos : {c ms : ℕ} → IsUnit c ms → 0 < ms
unit_pos (seconds _ e) = omega arith
unit_pos (minutes _ e) = omega arith
unit_pos (hours _ e) = omega arith

scale_value :
    (c : ℕ) (s : List ℕ) (ms : ℕ)
    → all_digits (c ∷ s) ≡ true
    → 0 < ms
    → 0 < decimal 0 (c ∷ s)
    → decimal 0 (c ∷ s) * ms ≤ long_max
    → scale ms (c ∷ s) ≡ millis (min (decimal 0 (c ∷ s) * ms) int_max)
unfolding scale
scale_value c s ms h pos p q = ground (arith, le-mul (decimal 0 (c ∷ s)) ms pos)

-- A text of digits and a unit letter gives the number of milliseconds that it stands for, up to
-- INT_MAX, and INT_MAX above it, as long as that number fits a `long long`.
pub parse_duration_ms-value :
    (d : ℕ) (s : List ℕ) (c ms : ℕ)
    → all_digits (d ∷ s) ≡ true
    → IsUnit c ms
    → 0 < decimal 0 (d ∷ s)
    → decimal 0 (d ∷ s) * ms ≤ long_max
    → parse_duration_ms ((d ∷ s) ++ c ∷ []) ≡ millis (min (decimal 0 (d ∷ s) * ms) int_max)
parse_duration_ms-value d s c ms h u p q =
    parse_with_unit (d ∷ s) c ms u ∙ scale_value d s ms h (unit_pos u) p q

-- Where the digits fit a `long` and the milliseconds do not fit a `long long`, the product is
-- undefined behaviour: it is formed before it is capped.
pub parse_duration_ms-overflow :
    (d : ℕ) (s : List ℕ) (c ms : ℕ)
    → all_digits (d ∷ s) ≡ true
    → IsUnit c ms
    → decimal 0 (d ∷ s) ≤ long_max
    → long_max < decimal 0 (d ∷ s) * ms
    → parse_duration_ms ((d ∷ s) ++ c ∷ []) ≡ overflow
unfolding scale
parse_duration_ms-overflow d s c ms h u p q =
    parse_with_unit (d ∷ s) c ms u ∙ ground (arith, zero_mul (decimal 0 (d ∷ s)) ms)
  where
    zero_mul : (a b : ℕ) → a ≡ 0 → a * b ≡ 0
    zero_mul a b e = rw e (omega arith)

-- Bare digits are seconds: they mean what they mean with an `s` behind them.
parse_duration_ms-bare :
    (d : ℕ) (s : List ℕ)
    → all_digits (d ∷ s) ≡ true
    → parse_duration_ms (d ∷ s) ≡ parse_duration_ms ((d ∷ s) ++ b's' ∷ [])
parse_duration_ms-bare d s h =
    parse_bare d s h ∙ sym (parse_with_unit (d ∷ s) b's' 1000 (seconds (inl refl) refl))

unit_of_bound : (c m : ℕ) (b : Bool) → unit_of c ≡ some (m, b) → 1000 ≤ m
unfolding unit_of
unit_of_bound c m b h = ground arith

scale_bounds :
    (m : ℕ) (digits : List ℕ) (ms : ℕ)
    → 1000 ≤ m
    → scale m digits ≡ millis ms
    → (1000 ≤ ms) × (ms ≤ int_max)
unfolding scale
scale_bounds m digits ms h e =
    let grows : 0 < decimal 0 digits → m ≤ decimal 0 digits * m = λ p. grind arith in
    ground (arith, grows)

-- A duration that is accepted is at least a second and fits an `int`.
pub parse_duration_ms_bounds :
    (text : List ℕ) (ms : ℕ) → parse_duration_ms text ≡ millis ms → (1000 ≤ ms) × (ms ≤ int_max)
unfolding parse_duration_ms
parse_duration_ms_bounds text ms e = elim (Bool-cases (leb (length text) 0)) [
  | inl z ↦ absurd (ground arith)
  | inr z ↦ parsed (unit_of (back text)) refl (rw z at e)
]
  where
    parsed :
        (o : Option (ℕ × Bool))
        → unit_of (back text) ≡ o
        → (elim o as (λ _. Duration) [
          | none ↦ rejected
          | some (m, true) ↦ scale m (take (length text - 1) text)
          | some (m, false) ↦ scale m text
        ])
          ≡ millis ms
        → (1000 ≤ ms) × (ms ≤ int_max)
    parsed none u k = absurd (ground arith)
    parsed (some (m, true)) u k =
        scale_bounds m (take (length text - 1) text) ms (unit_of_bound (back text) m true u) k
    parsed (some (m, false)) u k = scale_bounds m text ms (unit_of_bound (back text) m false u) k
