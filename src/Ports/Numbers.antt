-- ===== src/Ports/Numbers.antt =====
-- Which ports utils.cpp reads from a file.
use trinetra.Prelude.{
  Elem, ℕ, zero, suc, ◌+◌, ◌-◌, ◌*◌, ◌≤◌, ◌<◌, ◌≡◌, refl, sym, ap, ◌∙◌, subst, ◌⊎◌, inl, inr, ◌↔◌,
  true, false, List, [], ◌∷◌, none, some, arith, ltb, ◌==◌, if◌then◌else◌, length, Bool-cases,
}
use trinetra.Ports.File.{
  port_value, push_valid, push_port, lines_loop, take_digits, skip_blanks, next_line,
}

-- The number that decimal digits write.
abbrev pub decimal : ℕ → List ℕ → ℕ
decimal n [] = n
decimal n (c ∷ s) = decimal (n * 10 + (c - b'0')) s

decimal_grows : (n : ℕ) (s : List ℕ) → n ≤ decimal n s
decimal_grows n [] = omega arith
decimal_grows n (c ∷ s) = omega (arith, decimal_grows (n * 10 + (c - b'0')) s)

port_value_lem :
    (n : ℕ) (s : List ℕ)
    → n ≤ 65535
    → port_value n s ≡ (if ltb 65535 (decimal n s) then none else some (decimal n s))
unfolding port_value
port_value_lem n [] h = let e : ltb 65535 n ≡ false = ground (arith, h) in rw e refl
port_value_lem n (c ∷ s) h =
    let next = n * 10 + (c - b'0') in
    let more = decimal_grows next s in
    elim (Bool-cases (ltb 6553 n)) [
      | inl e ↦
          let big : ltb 65535 (decimal next s) ≡ true = ground (arith, e, more) in rw (e, big) refl
      | inr e ↦ elim (Bool-cases (ltb 65535 next)) [
        | inl f ↦
            let big : ltb 65535 (decimal next s) ≡ true = ground (arith, f, more) in
            rw (e, f, big) refl
        | inr f ↦
            let fits : next ≤ 65535 = ground (arith, f) in rw (e, f) (port_value_lem next s fits)
      ]
    ]

-- A port that the digits in front of a line write.
pub record Writes (n : ℕ) (digits : List ℕ) : Type 0 where
  pub digit : 0 < length digits
  pub value : decimal 0 digits ≡ n
  pub positive : 0 < n
  pub in_range : n ≤ 65535

-- The value, and that it is positive, are the test.
push_valid-Elem :
    (n v : ℕ) (digits ports : List ℕ)
    → 0 < length digits
    → decimal 0 digits ≡ v
    → Elem n (push_valid (if ltb 65535 v then none else some v) ports)
      ↔ Writes n digits ⊎ Elem n ports
push_valid-Elem n v digits ports some_digit e = elim (Bool-cases (ltb 65535 v)) [
  | inl f ↦
      let big : 65535 < v = ground (arith, f) in
      rw f (inr, elim [ inl w ↦ absurd (omega (arith, w.value, e, w.in_range, big)) | inr h ↦ h ])
  | inr f ↦
      let small : v ≤ 65535 = ground (arith, f) in
      rw f (elim (Bool-cases (ltb 0 v)) [
        | inr g ↦
            let nil : v ≡ 0 = ground (arith, g) in
            rw g (
              inr,
              elim [ inl w ↦ absurd (omega (arith, w.value, e, w.positive, nil)) | inr h ↦ h ],
            )
        | inl g ↦
            let pos : 0 < v = ground (arith, g) in
            rw g (
              elim [
                | inl h ↦ inl (record {
                  digit = some_digit;
                  value = e ∙ sym h;
                  positive = omega (arith, h, pos);
                  in_range = omega (arith, h, small);
                })
                | inr h ↦ inr h
              ],
              elim [ inl w ↦ inl (sym w.value ∙ e) | inr h ↦ inr h ],
            )
      ])
]

push_port_split :
    (c : ℕ) (s ports : List ℕ) → push_port (c ∷ s) ports ≡ push_valid (port_value 0 (c ∷ s)) ports
unfolding push_port
push_port_split c s ports = refl

push_port-nil : (ports : List ℕ) → push_port [] ports ≡ ports
unfolding push_port
push_port-nil ports = refl

push_port-Elem :
    (n : ℕ) (digits ports : List ℕ)
    → Elem n (push_port digits ports) ↔ Writes n digits ⊎ Elem n ports
push_port-Elem n [] ports =
    rw (push_port-nil ports) (inr, elim [ inl w ↦ elim w.digit [ ] | inr h ↦ h ])
push_port-Elem n (c ∷ s) ports =
    subst (λ q. Elem n q ↔ Writes n (c ∷ s) ⊎ Elem n ports)
      (sym (
        push_port_split c s ports
        ∙ ap (λ v. push_valid v ports) (port_value_lem 0 (c ∷ s) (omega arith))))
      (push_valid-Elem n (decimal 0 (c ∷ s)) (c ∷ s) ports (omega arith) refl)

-- The ports of a text: on each line, what the digits write that stand in front, behind blanks.
pub data Names (n : ℕ) : List ℕ → Type 0 where
  here : {text : List ℕ} → Writes n (take_digits (skip_blanks text)).0 → Names n text
  later : {text : List ℕ} → Names n (next_line text) → Names n text

-- Neither blanks nor digits end a line.
next_line-skip_blanks : (s : List ℕ) → next_line (skip_blanks s) ≡ next_line s
unfolding next_line skip_blanks
next_line-skip_blanks [] = refl
next_line-skip_blanks (c ∷ s) = let ih = next_line-skip_blanks s in ground (arith, ih)

next_line-take_digits : (s : List ℕ) → next_line (take_digits s).1 ≡ next_line s
unfolding next_line take_digits
next_line-take_digits [] = refl
next_line-take_digits (c ∷ s) = let ih = next_line-take_digits s in ground (arith, ih)

length-skip_blanks : (s : List ℕ) → length (skip_blanks s) ≤ length s
unfolding skip_blanks
length-skip_blanks [] = omega arith
length-skip_blanks (c ∷ s) = let ih = length-skip_blanks s in ground (arith, ih)

length-next_line : (c : ℕ) (s : List ℕ) → length (next_line (c ∷ s)) ≤ length s
unfolding next_line
length-next_line c [] = ground arith
length-next_line c (d ∷ s) = let ih = length-next_line d s in ground (arith, ih)

Names-nil : {n : ℕ} {s : List ℕ} → s ≡ [] → Names n s → ⊥
unfolding next_line skip_blanks take_digits
Names-nil e (Names.here w) = let none_there = rw e at w.digit in omega (arith, none_there)
Names-nil e (Names.later h) = Names-nil (ap next_line e) h

Names-cases :
    {n : ℕ} {s : List ℕ}
    → Names n s
    → Writes n (take_digits (skip_blanks s)).0 ⊎ Names n (next_line s)
Names-cases (Names.here w) = inl w
Names-cases (Names.later h) = inr h

take_digits-nil : (take_digits []).0 ≡ []
unfolding take_digits
take_digits-nil = refl

next_line-nil : next_line [] ≡ []
unfolding next_line
next_line-nil = refl

-- A text of blanks names no port.
Names-blank : {n : ℕ} {s : List ℕ} → skip_blanks s ≡ [] → Names n s → ⊥
Names-blank {s = s} e h = elim (Names-cases h) [
  | inl w ↦
      let none_there = ap (λ (r : List ℕ). length (take_digits r).0) e in
      let no_digit = ap (λ (r : List ℕ). length r) take_digits-nil in
      omega (arith, w.digit, none_there, no_digit)
  | inr k ↦ Names-nil (sym (next_line-skip_blanks s) ∙ ap next_line e ∙ next_line-nil) k
]

-- What is left of the text after a round.
abbrev behind_line : List ℕ → List ℕ
behind_line s = next_line (take_digits (skip_blanks s)).1

behind_line_lem : (s : List ℕ) → behind_line s ≡ next_line s
behind_line_lem s = next_line-take_digits (skip_blanks s) ∙ next_line-skip_blanks s

lines_loop_split :
    (fuel : ℕ) (s : List ℕ)
    → lines_loop (suc fuel) s ≡ (
        if length (skip_blanks s) == 0
        then []
        else push_port (take_digits (skip_blanks s)).0 (lines_loop fuel (behind_line s)))
unfolding lines_loop
lines_loop_split fuel s = refl

nil_of_length : (s : List ℕ) → length s ≡ 0 → s ≡ []
nil_of_length [] h = refl
nil_of_length (c ∷ s) h = absurd (omega (arith, h))

shorter :
    (s : List ℕ) (fuel : ℕ)
    → 0 < length (skip_blanks s)
    → length s ≤ suc fuel
    → length (next_line s) ≤ fuel
shorter [] fuel h enough = absurd (omega (arith, h, length-skip_blanks []))
shorter (c ∷ s) fuel h enough = omega (arith, length-next_line c s, enough)

lines_loop-zero : (s : List ℕ) → lines_loop zero s ≡ []
unfolding lines_loop
lines_loop-zero s = refl

pub lines_loop-Elem :
    (n fuel : ℕ) (s : List ℕ) → length s ≤ fuel → Elem n (lines_loop fuel s) ↔ Names n s
lines_loop-Elem n zero s enough =
    rw (lines_loop-zero s)
      (elim [ ], λ h. absurd (Names-nil (nil_of_length s (omega (arith, enough))) h))
lines_loop-Elem n (suc fuel) s enough = elim (Bool-cases (length (skip_blanks s) == 0)) [
  | inl e ↦
      let blank = nil_of_length (skip_blanks s) (ground (arith, e)) in
      rw (lines_loop_split fuel s, e) (elim [ ], λ h. absurd (Names-blank blank h))
  | inr e ↦
      let text : 0 < length (skip_blanks s) = ground (arith, e) in
      let ih = lines_loop-Elem n fuel (next_line s) (shorter s fuel text enough) in
      let pushed =
        push_port-Elem n (take_digits (skip_blanks s)).0 (lines_loop fuel (next_line s)) in
      rw (lines_loop_split fuel s, e, behind_line_lem s)
        (
          (λ h. elim (pushed.0 h) [ inl w ↦ Names.here w | inr k ↦ Names.later (ih.0 k) ]),
          (λ h. pushed.1 (elim (Names-cases h) [ inl w ↦ inl w | inr k ↦ inr (ih.1 k) ])),
        )
]
