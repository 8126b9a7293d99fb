-- ===== src/Probe/RoundTrip.antt =====
-- The fingerprint of probe.cpp against the reader of its escapes.
use trinetra.Prelude.{
  ℕ, zero, suc, ◌/◌, ◌%◌, ◌≤◌, ◌<◌, ◌≡◌, ◌≢◌, refl, sym, ap, ◌∙◌, Bool, true, false, List, [], ◌∷◌,
  ◌++◌, Option, none, some, arith, ◌==◌, if◌then◌else◌, length, All, All-append, length-append,
  append_assoc, map_some,
}
use trinetra.Probe.Text.{isalnum, ispunct, has_char, hex_digit}
use trinetra.Probe.Escape.{next_char, emit, unescape_loop}
use trinetra.Probe.Fingerprint.{
  digit_follows, special, hex_escape_of, zero_escape, escape_of, escapes,
}

abbrev first_char : List ℕ → Option (ℕ × List ℕ)
first_char [] = none
first_char (c ∷ s) = next_char c s

hex_read : (c : ℕ) (rest : List ℕ) → c < 256 → first_char (hex_escape_of c ++ rest) ≡ some (c, rest)
hex_read c rest h = ground arith

zero_read : (b : Bool) (rest : List ℕ) → first_char (zero_escape b ++ rest) ≡ some (0, rest)
zero_read true rest = refl
zero_read false rest = refl

plain_read : (c : ℕ) (rest : List ℕ) → c ≢ b'\\' → first_char (c ∷ rest) ≡ some (c, rest)
plain_read c rest h = ground (arith, h)

special_read :
    (c : ℕ) (rest : List ℕ)
    → has_char c special ≡ true
    → first_char (b'\\' ∷ c ∷ rest) ≡ some (c, rest)
unfolding has_char
special_read c rest h = ground (arith, h)

special_plain : (c : ℕ) → has_char c special ≡ true → c ≢ 10
unfolding has_char
special_plain c e same = ground (arith, e, same)

quote_escaped : (c : ℕ) → has_char c special ≡ false → c ≢ b'"'
unfolding has_char
quote_escaped c e same = ground (arith, e, same)

-- The text before the first quote that has no backslash in front, and what is behind that quote.
abbrev prepend : List ℕ → Option (List ℕ × List ℕ) → Option (List ℕ × List ℕ)
prepend t none = none
prepend t (some (body, rest)) = some (t ++ body, rest)

unfoldable pub quoted : List ℕ → Option (List ℕ × List ℕ)
quoted [] = none
quoted (c ∷ []) = if c == b'"' then some ([], []) else none
quoted (c ∷ d ∷ s) =
    let pair = prepend (c ∷ d ∷ []) (quoted s) in
    let rest = prepend (c ∷ []) (quoted (d ∷ s)) in
    if c == b'"' then some ([], d ∷ s) else if c == b'\\' then pair else rest

quoted_pair : (d : ℕ) (s : List ℕ) → quoted (b'\\' ∷ d ∷ s) ≡ prepend (b'\\' ∷ d ∷ []) (quoted s)
unfolding quoted
quoted_pair d s = refl

prepend-twice :
    (s t : List ℕ) (r : Option (List ℕ × List ℕ)) → prepend s (prepend t r) ≡ prepend (s ++ t) r
prepend-twice s t none = refl
prepend-twice s t (some (body, rest)) = ap (λ b. some (b, rest)) (sym (append_assoc s t body))

quoted_byte :
    (c : ℕ) (s : List ℕ) → c ≢ b'"' → c ≢ b'\\' → quoted (c ∷ s) ≡ prepend (c ∷ []) (quoted s)
unfolding quoted
quoted_byte c [] h k = let e : (c == b'"') ≡ false = ground (arith, h) in rw e refl
quoted_byte c (d ∷ s) h k =
    let e : (c == b'"') ≡ false = ground (arith, h) in
    let f : (c == b'\\') ≡ false = ground (arith, k) in rw (e, f) refl

special_else : (c : ℕ) → has_char c special ≡ false → c ≢ b'\\'
unfolding has_char
special_else c e same = ground (arith, e, same)

holds_if :
    (P : List ℕ → Type 0) (b : Bool) (x y : List ℕ)
    → (b ≡ true → P x)
    → (b ≡ false → P y)
    → P (if b then x else y)
holds_if P true x y h k = h refl
holds_if P false x y h k = k refl

-- A text that is read as the byte, whatever follows, and that has no line feed.
record Reads (c : ℕ) (t : List ℕ) : Type 0 where
  as_byte : (rest : List ℕ) → first_char (t ++ rest) ≡ some (c, rest)
  in_line : All (λ d. d ≢ 10) t
  in_quotes : (rest : List ℕ) → quoted (t ++ rest) ≡ prepend t (quoted rest)

one_byte : (c : ℕ) → c ≢ b'\\' → c ≢ 10 → c ≢ b'"' → Reads c (c ∷ [])
one_byte c h k q = record {
  as_byte = λ rest. plain_read c rest h;
  in_line = (k, tt);
  in_quotes = λ rest. quoted_byte c rest q h;
}

pub hex_digit-ne : (letter d : ℕ) → 11 ≤ letter → hex_digit letter d ≢ 10
hex_digit-ne letter d h e = ground (arith, h, e)

digits_quoted :
    (a b : ℕ) (rest : List ℕ)
    → (a ≢ b'"') × (a ≢ b'\\')
    → (b ≢ b'"') × (b ≢ b'\\')
    → quoted (a ∷ b ∷ rest) ≡ prepend (a ∷ b ∷ []) (quoted rest)
digits_quoted a b rest h k =
    quoted_byte a (b ∷ rest) h.0 h.1
    ∙ ap (prepend (a ∷ [])) (quoted_byte b rest k.0 k.1)
    ∙ prepend-twice (a ∷ []) (b ∷ []) (quoted rest)

digit_else : (d : ℕ) → (hex_digit b'a' d ≢ b'"') × (hex_digit b'a' d ≢ b'\\')
digit_else d = (λ e. ground (arith, e), λ e. ground (arith, e))

escape_of-Reads : (c : ℕ) (behind : List ℕ) → c < 256 → Reads c (escape_of c behind)
unfolding escape_of
escape_of-Reads c behind h =
    holds_if (Reads c) (isalnum c) _ _
      (λ e.
        one_byte c (λ same. ground (arith, e, same)) (λ same. ground (arith, e, same))
          (λ same. ground (arith, e, same)))
      λ _.
        holds_if (Reads c) (c == 0) _ _
          (λ e.
            let zero_byte : c ≡ 0 = ground (arith, e) in
            record {
              as_byte = λ rest.
                  zero_read (digit_follows behind) rest ∙ ap (λ n. some (n, rest)) (sym zero_byte);
              in_line = zero_escape_plain (digit_follows behind);
              in_quotes = zero_quotes (digit_follows behind);
            })
          λ _.
            holds_if (Reads c) (has_char c special) _ _
              (λ e. record {
                as_byte = λ rest. special_read c rest e;
                in_line = (omega arith, (special_plain c e, tt));
                in_quotes = quoted_pair c;
              })
              λ not_special.
                holds_if (Reads c) (ispunct c) _ _
                  (λ e.
                    one_byte c (λ same. special_else c not_special same)
                      (λ same. ground (arith, e, same)) (quote_escaped c not_special))
                  λ _.
                    holds_if (Reads c) (c == 13) _ _
                      (λ e. record {
                        as_byte = λ rest. ground (arith, e);
                        in_line = omega arith;
                        in_quotes = quoted_pair b'r';
                      })
                      λ _.
                        holds_if (Reads c) (c == 10) _ _
                          (λ e. record {
                            as_byte = λ rest. ground (arith, e);
                            in_line = omega arith;
                            in_quotes = quoted_pair b'n';
                          })
                          λ _.
                            holds_if (Reads c) (c == 9) _ _
                              (λ e. record {
                                as_byte = λ rest. ground (arith, e);
                                in_line = omega arith;
                                in_quotes = quoted_pair b't';
                              })
                              (λ _. record {
                                as_byte = λ rest. hex_read c rest h;
                                in_quotes = hex_quotes c;
                                in_line = (
                                  omega arith,
                                  (
                                    omega arith,
                                    (
                                      hex_digit-ne b'a' (c / 16) (omega arith),
                                      (hex_digit-ne b'a' (c % 16) (omega arith), tt),
                                    ),
                                  ),
                                );
                              })
  where
    zero_quotes :
        (b : Bool) (rest : List ℕ)
        → quoted (zero_escape b ++ rest) ≡ prepend (zero_escape b) (quoted rest)
    zero_quotes true rest =
        quoted_pair b'x' (b'0' ∷ b'0' ∷ rest)
        ∙ ap (prepend (b'\\' ∷ b'x' ∷ []))
            (digits_quoted b'0' b'0' rest (omega arith) (omega arith))
        ∙ prepend-twice (b'\\' ∷ b'x' ∷ []) (b'0' ∷ b'0' ∷ []) (quoted rest)
    zero_quotes false rest = quoted_pair b'0' rest

    hex_quotes :
        (c : ℕ) (rest : List ℕ)
        → quoted (hex_escape_of c ++ rest) ≡ prepend (hex_escape_of c) (quoted rest)
    hex_quotes c rest =
        let hi = hex_digit b'a' (c / 16) in
        let lo = hex_digit b'a' (c % 16) in
        quoted_pair b'x' (hi ∷ lo ∷ rest)
        ∙ ap (prepend (b'\\' ∷ b'x' ∷ []))
            (digits_quoted hi lo rest (digit_else (c / 16)) (digit_else (c % 16)))
        ∙ prepend-twice (b'\\' ∷ b'x' ∷ []) (hi ∷ lo ∷ []) (quoted rest)

    zero_escape_plain : (b : Bool) → All (λ d. d ≢ 10) (zero_escape b)
    zero_escape_plain true = omega arith
    zero_escape_plain false = omega arith

loop_step :
    (fuel c : ℕ) (t rest : List ℕ)
    → first_char t ≡ some (c, rest)
    → unescape_loop (suc fuel) t ≡ map_some (λ out. c ∷ out) (unescape_loop fuel rest)
unfolding unescape_loop
loop_step fuel c [] rest e = ground (arith, e)
loop_step fuel c (d ∷ t) rest e = ap (emit (unescape_loop fuel)) e

Reads-length : (c : ℕ) (t : List ℕ) → Reads c t → 1 ≤ length t
Reads-length c [] r = let e = r.as_byte [] in ground (arith, e)
Reads-length c (d ∷ t) r = omega arith

pub unescape_loop-escapes :
    (fuel : ℕ) (s : List ℕ)
    → All (λ c. c < 256) s
    → length (escapes s) ≤ fuel
    → unescape_loop fuel (escapes s) ≡ some s
unfolding unescape_loop escapes
unescape_loop-escapes fuel [] h enough = refl
unescape_loop-escapes zero (c ∷ s) h enough =
    let r = Reads-length c (escape_of c s) (escape_of-Reads c s h.0) in
    let size = length-append (escape_of c s) (escapes s) in absurd (omega (arith, r, size, enough))
unescape_loop-escapes (suc fuel) (c ∷ s) h enough =
    let reads = escape_of-Reads c s h.0 in
    let r = Reads-length c (escape_of c s) reads in
    let size = length-append (escape_of c s) (escapes s) in
    loop_step fuel c (escape_of c s ++ escapes s) (escapes s) (reads.as_byte (escapes s))
    ∙ ap (map_some (λ out. c ∷ out))
        (unescape_loop-escapes fuel s h.1 (omega (arith, r, size, enough)))

pub escapes_plain : (s : List ℕ) → All (λ c. c < 256) s → All (λ d. d ≢ 10) (escapes s)
unfolding escapes
escapes_plain [] h = tt
escapes_plain (c ∷ s) h =
    All-append (λ d. d ≢ 10) (escape_of c s) (escapes s) (escape_of-Reads c s h.0).in_line
      (escapes_plain s h.1)

-- The escaped text ends at the first quote that is not escaped.
pub quoted-escapes :
    (s rest : List ℕ)
    → All (λ c. c < 256) s
    → quoted (escapes s ++ b'"' ∷ rest) ≡ some (escapes s, rest)
unfolding escapes quoted
quoted-escapes [] [] h = refl
quoted-escapes [] (d ∷ rest) h = refl
quoted-escapes (c ∷ s) rest h =
    let t = escape_of c s in
    ap quoted (append_assoc t (escapes s) (b'"' ∷ rest))
    ∙ (escape_of-Reads c s h.0).in_quotes (escapes s ++ b'"' ∷ rest)
    ∙ ap (prepend t) (quoted-escapes s rest h.1)
