-- ===== src/Probe/Spec.antt =====
-- The lists of excluded ports that the comment of `ExcludedPorts::parse` gives the grammar of.
use Prim.Native.Nat.{min}
use trinetra.Prelude.{
  ℕ, ◌+◌, ◌-◌, ◌*◌, ◌^◌, ◌≤◌, ◌≡◌, refl, ap, ◌∙◌, Bool, true, false, ◌&&◌, ◌||◌, List, [], ◌∷◌,
  ◌++◌, Option, none, some, leb, ◌==◌, All, arith,
}
use trinetra.Probe.Text.{isdigit, isspace}
use trinetra.Probe.Match.{is_some}
use trinetra.Probe.Excluded.{
  saturated, read_digits, strtol, skip_separators, starts_with, forced_proto, applies, upper_end,
}

-- The number that decimal digits write.
abbrev pub decimal : ℕ → List ℕ → ℕ
decimal n [] = n
decimal n (c ∷ s) = decimal (n * 10 + (c - b'0')) s

read_digits-decimal :
    (n : ℕ) (s t : List ℕ)
    → All (λ c. isdigit c ≡ true) s
    → starts_with isdigit t ≡ false
    → read_digits n (s ++ t) ≡ (decimal n s, t)
unfolding read_digits
read_digits-decimal n [] [] h k = refl
read_digits-decimal n [] (c ∷ t) h k = rw k refl
read_digits-decimal n (c ∷ s) t h k = rw (h.0) (read_digits-decimal (n * 10 + (c - b'0')) s t h.1 k)

-- An item: the letter of a prefix, and a range whose ends are digits.
pub record Item : Type 0 where
  pub letter : Option ℕ
  pub lo_first : ℕ
  pub lo_rest : List ℕ
  pub hi : Option (ℕ × List ℕ)

abbrev pub lo_of : Item → ℕ
lo_of i = decimal 0 (i.lo_first ∷ i.lo_rest)

abbrev pub hi_value : ℕ → Option (ℕ × List ℕ) → ℕ
hi_value lo none = lo
hi_value lo (some (c, s)) = decimal 0 (c ∷ s)

abbrev pub hi_text : Option (ℕ × List ℕ) → List ℕ
hi_text none = []
hi_text (some (c, s)) = b'-' ∷ c ∷ s

abbrev pub letter_text : Option ℕ → List ℕ
letter_text none = []
letter_text (some c) = c ∷ b':' ∷ []

abbrev pub range_text : Item → List ℕ
range_text i = (i.lo_first ∷ i.lo_rest) ++ hi_text i.hi

-- Each item but the first has a comma in front.
abbrev pub text_behind : List Item → List ℕ
text_behind [] = []
text_behind (i ∷ items) = b',' ∷ letter_text i.letter ++ (range_text i ++ text_behind items)

abbrev pub spec_text : List Item → List ℕ
spec_text [] = []
spec_text (i ∷ items) = letter_text i.letter ++ (range_text i ++ text_behind items)

abbrev pub AreDigits : List ℕ → Type 0
AreDigits = All (λ c. isdigit c ≡ true)

abbrev pub IsUpper : Option (ℕ × List ℕ) → Type 0
IsUpper none = Unit
IsUpper (some (c, s)) = AreDigits (c ∷ s)

abbrev pub IsLetter : Option ℕ → Type 0
IsLetter none = Unit
IsLetter (some c) = is_some (forced_proto c) ≡ true

-- The range is in order, and of ports.
pub record IsItem (i : Item) : Type 0 where
  pub letter_known : IsLetter i.letter
  pub lo_digits : AreDigits (i.lo_first ∷ i.lo_rest)
  pub hi_digits : IsUpper i.hi
  pub in_order : lo_of i ≤ hi_value (lo_of i) i.hi
  pub is_port : hi_value (lo_of i) i.hi ≤ 65535

-- A prefix stays in force until the next one.
abbrev pub in_force : Option ℕ → Option ℕ → Option ℕ
in_force forced none = forced
in_force forced (some c) = forced_proto c

-- What a list of items excludes.
abbrev pub is_listed : ℕ → ℕ → Option ℕ → List Item → Bool
is_listed port proto forced [] = false
is_listed port proto forced (i ∷ items) =
    applies (in_force forced i.letter) proto
      && (leb (lo_of i) port && leb port (hi_value (lo_of i) i.hi))
    || is_listed port proto (in_force forced i.letter) items

starts_digit-behind : (items : List Item) → starts_with isdigit (text_behind items) ≡ false
starts_digit-behind [] = refl
starts_digit-behind (i ∷ items) = refl

strtol-decimal :
    (c : ℕ) (s t : List ℕ)
    → AreDigits (c ∷ s)
    → starts_with isdigit t ≡ false
    → decimal 0 (c ∷ s) ≤ 65535
    → strtol ((c ∷ s) ++ t) ≡ (decimal 0 (c ∷ s), t)
strtol-decimal c s t h k l =
    ap saturated (read_digits-decimal 0 (c ∷ s) t h k)
    ∙ ap (λ n. (n, t)) (below (decimal 0 (c ∷ s)) l)
  where
    below : (n : ℕ) → n ≤ 65535 → min n (2 ^ 63 - 1) ≡ n
    below n l = omega arith

-- The range of an item is read, and what is behind it is left.
pub upper_end-range :
    (c : ℕ) (s : List ℕ) (hi : Option (ℕ × List ℕ)) (items : List Item)
    → AreDigits (c ∷ s)
    → IsUpper hi
    → decimal 0 (c ∷ s) ≤ hi_value (decimal 0 (c ∷ s)) hi
    → hi_value (decimal 0 (c ∷ s)) hi ≤ 65535
    → upper_end (strtol ((c ∷ s) ++ (hi_text hi ++ text_behind items)))
      ≡ (decimal 0 (c ∷ s), (hi_value (decimal 0 (c ∷ s)) hi, text_behind items))
upper_end-range c s none items h u l m =
    ap upper_end (strtol-decimal c s (text_behind items) h (starts_digit-behind items) m)
    ∙ lone items
  where
    lone :
        (items : List Item)
        → upper_end (decimal 0 (c ∷ s), text_behind items)
          ≡ (decimal 0 (c ∷ s), (decimal 0 (c ∷ s), text_behind items))
    lone [] = refl
    lone (i ∷ items) = refl
upper_end-range c s (some (d, t)) items h u l m =
    let text = b'-' ∷ (d ∷ t) ++ text_behind items in
    let small : decimal 0 (c ∷ s) ≤ 65535 = omega (arith, l, m) in
    ap upper_end (strtol-decimal c s text h refl small) ∙ dashed
  where
    dashed :
        upper_end (decimal 0 (c ∷ s), b'-' ∷ (d ∷ t) ++ text_behind items)
        ≡ (decimal 0 (c ∷ s), (decimal 0 (d ∷ t), text_behind items))
    dashed = rw (u.0) (
        ap (λ r. (decimal 0 (c ∷ s), r))
          (strtol-decimal d t (text_behind items) u (starts_digit-behind items) m))

abbrev pub AreItems : List Item → Type 0
AreItems = All IsItem

pub skip_separators-keep :
    (c : ℕ) (s : List ℕ) → (isspace c || c == b',') ≡ false → skip_separators (c ∷ s) ≡ c ∷ s
unfolding skip_separators
skip_separators-keep c s h = rw h refl

pub digit_facts :
    (c : ℕ)
    → isdigit c ≡ true
    → ((isspace c || c == b',') ≡ false) × (is_some (forced_proto c) ≡ false)
digit_facts c h = (ground (arith, h), ground (arith, h))

pub letter_facts : (c : ℕ) → is_some (forced_proto c) ≡ true → (isspace c || c == b',') ≡ false
letter_facts c h = ground (arith, h)
