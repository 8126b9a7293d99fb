-- ===== src/Probe/Excluding.antt =====
-- What `ExcludedPorts::parse` of probe.cpp makes of a list of ports.
use trinetra.Prelude.{
  ℕ, zero, suc, ◌≤◌, ◌≡◌, refl, ap, ◌∙◌, Bool, true, false, ◌&&◌, ◌||◌, List, [], ◌∷◌, ◌++◌, Option,
  none, some, leb, ◌==◌, length, length-append, arith, append_assoc,
}
use trinetra.Probe.Text.{isdigit}
use trinetra.Probe.Types.{ExcludedPorts}
use trinetra.Probe.Match.{is_some}
use trinetra.Probe.Lookup.{contains}
use trinetra.Probe.Excluded.{
  strtol, skip_separators, starts_with, forced_proto, applies, add_range, upper_end, is_prefix,
  with_range, read_item, read_round, parse_loop, parse,
}
use trinetra.Probe.Added.{IsProto, contains-add_range}
use trinetra.Probe.Spec.{
  Item, lo_of, hi_value, hi_text, letter_text, range_text, text_behind, spec_text, IsLetter, IsItem,
  in_force, is_listed, upper_end-range, AreItems, skip_separators-keep, digit_facts, letter_facts,
}

module _ (fuel : ℕ) (forced : Option ℕ) (e : ExcludedPorts) where
  abbrev again : ℕ → ℕ → List ℕ → Bool → Bool → ExcludedPorts
  again f c s prefixed digit = read_item (parse_loop f) prefixed digit forced c s e

  round_digit :
      (c : ℕ) (s : List ℕ)
      → isdigit c ≡ true
      → parse_loop (suc fuel) forced (c ∷ s) e
        ≡ with_range (parse_loop fuel) forced (upper_end (strtol (c ∷ s))) e
  unfolding parse_loop
  round_digit c s h =
      let (kept, lone) = digit_facts c h in
      let plain : is_prefix c s ≡ false = no_prefix (starts_with (λ d. d == b':') s) _ lone in
      ap (λ t. read_round (parse_loop fuel) forced t e) (skip_separators-keep c s kept)
      ∙ ap (λ b. again fuel c s b (isdigit c)) plain
      ∙ ap (again fuel c s false) h
    where
      no_prefix : (a b : Bool) → b ≡ false → (a && b) ≡ false
      no_prefix a b h = ground (arith, h)

  round_prefix :
      (c : ℕ) (s : List ℕ)
      → is_some (forced_proto c) ≡ true
      → parse_loop (suc fuel) forced (c ∷ b':' ∷ s) e ≡ parse_loop fuel (forced_proto c) s e
  unfolding parse_loop
  round_prefix c s h =
      ap (λ t. read_round (parse_loop fuel) forced t e)
        (skip_separators-keep c (b':' ∷ s) (letter_facts c h))
      ∙ ap (λ b. again fuel c (b':' ∷ s) b (isdigit c)) h

  round_comma :
      (s : List ℕ) → parse_loop (suc fuel) forced (b',' ∷ s) e ≡ parse_loop (suc fuel) forced s e
  unfolding parse_loop skip_separators
  round_comma s = refl

  -- A round at a range adds it.
  round_range :
      (i : Item) (items : List Item)
      → IsItem i
      → parse_loop (suc fuel) forced (range_text i ++ text_behind items) e
        ≡ parse_loop fuel forced
            (text_behind items)
            (add_range forced (lo_of i) (hi_value (lo_of i) i.hi) e)
  round_range i items h =
      let c = i.lo_first in
      let s = i.lo_rest in
      ap (λ t. parse_loop (suc fuel) forced t e)
        (append_assoc (c ∷ s) (hi_text i.hi) (text_behind items))
      ∙ round_digit c (s ++ (hi_text i.hi ++ text_behind items)) h.lo_digits.0
      ∙ ap (λ r. with_range (parse_loop fuel) forced r e)
          (upper_end-range c s i.hi items h.lo_digits h.hi_digits h.in_order h.is_port)

module _ (port proto : ℕ) (k : IsProto proto) where
  abbrev Excludes : Option ℕ → List Item → ExcludedPorts → ExcludedPorts → Type 0
  Excludes forced items e after =
      contains port proto after ≡ (contains port proto e || is_listed port proto forced items)

  abbrev IsRead : List Item → Type 0
  IsRead items =
      (fuel : ℕ) (forced : Option ℕ) (e : ExcludedPorts)
      → length (text_behind items) ≤ fuel
      → Excludes forced items e (parse_loop fuel forced (text_behind items) e)

  range-Excludes :
      (fuel : ℕ) (forced : Option ℕ) (i : Item) (items : List Item) (e : ExcludedPorts)
      → IsItem i
      → IsRead items
      → length (range_text i ++ text_behind items) ≤ suc fuel
      → contains port proto (parse_loop (suc fuel) forced (range_text i ++ text_behind items) e) ≡ (
          contains port proto e
          || (applies forced proto && (leb (lo_of i) port && leb port (hi_value (lo_of i) i.hi))
              || is_listed port proto forced items))
  range-Excludes fuel forced i items e h behind l =
      ap (contains port proto) (round_range fuel forced e i items h)
      ∙ behind fuel forced (add_range forced (lo_of i) (hi_value (lo_of i) i.hi) e)
          (omega (arith, l, length-append (range_text i) (text_behind items)))
      ∙ ap (λ b. b || is_listed port proto forced items)
          (contains-add_range port proto forced (lo_of i) (hi_value (lo_of i) i.hi) e k h.in_order
            h.is_port)
      ∙ or_assoc (contains port proto e) _ (is_listed port proto forced items)
    where
      or_assoc : (a b c : Bool) → ((a || b) || c) ≡ (a || (b || c))
      or_assoc true b c = refl
      or_assoc false b c = refl

  item-Excludes :
      (fuel : ℕ) (letter forced : Option ℕ) (i : Item) (items : List Item) (e : ExcludedPorts)
      → IsItem i
      → IsLetter letter
      → IsRead items
      → length (letter_text letter ++ (range_text i ++ text_behind items)) ≤ suc fuel
      → contains port proto (
          parse_loop
            (suc fuel)
            forced
            (letter_text letter ++ (range_text i ++ text_behind items))
            e)
        ≡ (contains port proto e
            || (applies (in_force forced letter) proto
                  && (leb (lo_of i) port && leb port (hi_value (lo_of i) i.hi))
                || is_listed port proto (in_force forced letter) items))
  item-Excludes fuel none forced i items e h known behind l =
      range-Excludes fuel forced i items e h behind l
  item-Excludes zero (some c) forced i items e h known behind l = absurd (omega (arith, l))
  item-Excludes (suc fuel) (some c) forced i items e h known behind l =
      ap (contains port proto)
        (round_prefix (suc fuel) forced e c (range_text i ++ text_behind items) known)
      ∙ range-Excludes fuel (forced_proto c) i items e h behind (omega (arith, l))

  or_false : (b : Bool) → b ≡ (b || false)
  or_false true = refl
  or_false false = refl

  text_behind-Excludes : (items : List Item) → AreItems items → IsRead items
  unfolding parse_loop
  text_behind-Excludes [] h zero forced e l = or_false (contains port proto e)
  text_behind-Excludes [] h (suc fuel) forced e l = or_false (contains port proto e)
  text_behind-Excludes (i ∷ items) h zero forced e l = absurd (omega (arith, l))
  text_behind-Excludes (i ∷ items) h (suc fuel) forced e l =
      ap (contains port proto)
        (round_comma fuel forced e (letter_text i.letter ++ (range_text i ++ text_behind items)))
      ∙ item-Excludes fuel i.letter forced i items e h.0 h.0.letter_known
          (text_behind-Excludes items h.1) (omega (arith, l))

  first-Excludes :
      (fuel : ℕ) (i : Item) (items : List Item) (e : ExcludedPorts)
      → IsItem i
      → AreItems items
      → length (spec_text (i ∷ items)) ≡ fuel
      → Excludes none (i ∷ items) e (parse_loop fuel none (spec_text (i ∷ items)) e)
  first-Excludes zero i items e h hs l = absurd (size l)
    where
      size : length (letter_text i.letter ++ (range_text i ++ text_behind items)) ≡ 0 → ⊥
      size l =
          omega (arith, l, length-append (letter_text i.letter) (range_text i ++ text_behind items))
  first-Excludes (suc fuel) i items e h hs l =
      item-Excludes fuel i.letter none i items e h h.letter_known (text_behind-Excludes items hs)
        (omega (arith, l))

-- A list of items as the comment at the code describes them, separated by commas, each with an
-- upper end that is at least the lower one and at most 65535: a port of TCP, UDP or SCTP is excluded
-- after the list is parsed exactly if it was before or an item lists it, where a prefix is in force
-- from its item until the next prefix.
pub parse-is_listed :
    (port proto : ℕ) (items : List Item) (e : ExcludedPorts)
    → IsProto proto
    → AreItems items
    → contains port proto (parse (spec_text items) e)
      ≡ (contains port proto e || is_listed port proto none items)
unfolding parse parse_loop
parse-is_listed port proto [] e k h = or_false port proto k (contains port proto e)
parse-is_listed port proto (i ∷ items) e k h =
    first-Excludes port proto k (length (spec_text (i ∷ items))) i items e h.0 h.1 refl
