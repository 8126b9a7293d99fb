-- ===== src/Dns/RoundTrip.antt =====
-- A host name that `dns_encode_name` of handler.cpp writes is read back by `dns_decode_name` and
-- passed over by `dns_skip_name`.
use trinetra.Prelude.{
  ℕ, zero, suc, ◌+◌, ◌-◌, ◌/◌, ◌≤◌, ◌<◌, ◌≡◌, refl, ◌∙◌, ap, sym, true, false, List, [], ◌∷◌, ◌++◌,
  Option, none, some, arith, ltb, ◌==◌, length, get_elem?, drop, All, length-append, length-drop,
  append_nil, append_assoc, take-append, drop-append, take-all, drop_nil, drop-drop,
}
use trinetra.Dns.Reader.{done, read_byte, read_bytes}
use trinetra.Dns.Encode.{split_label, encode_label, encode_labels, dns_encode_name}
use trinetra.Dns.Names.{
  is_pointer, skip_loop, dns_skip_name, Decoding, decode_loop, decode_fuel, with_dot,
  dns_decode_name,
}

-- Labels behind one, and a host name of labels.
abbrev dotted : List (List ℕ) → List ℕ
dotted [] = []
dotted (l ∷ ls) = b'.' ∷ (l ++ dotted ls)

abbrev pub host_of : List (List ℕ) → List ℕ
host_of [] = []
host_of (l ∷ ls) = l ++ dotted ls

-- From 1 to 63 bytes, none of them a dot.
pub record IsLabel (l : List ℕ) : Type 0 where
  pub nonempty : 1 ≤ length l
  pub short : length l ≤ 63
  pub no_dot : All (λ c. (c == b'.') ≡ false) l

-- The labels with their lengths.
abbrev wire : List (List ℕ) → List ℕ
wire [] = []
wire (l ∷ ls) = length l ∷ (l ++ wire ls)

split-last : (l : List ℕ) → All (λ c. (c == b'.') ≡ false) l → split_label l ≡ (l, none)
unfolding split_label
split-last [] h = refl
split-last (c ∷ l) h = simp (h.0, split-last l h.1)

split-dot :
    (l s : List ℕ) → All (λ c. (c == b'.') ≡ false) l → split_label (l ++ b'.' ∷ s) ≡ (l, some s)
unfolding split_label
split-dot [] s h = refl
split-dot (c ∷ l) s h = simp (h.0, split-dot l s h.1)

encode_label_lem : (l : List ℕ) → length l ≤ 63 → encode_label l ≡ length l ∷ l
unfolding encode_label
encode_label_lem l h = let e : ltb 63 (length l) ≡ false = ground arith in simp (e, take-all l)

abbrev encode_rest : ℕ → Option (List ℕ) → List ℕ
encode_rest fuel rest = elim rest [ none ↦ [] | some s ↦ encode_labels fuel s ]

encode_labels_split :
    (fuel c : ℕ) (s : List ℕ)
    → encode_labels (suc fuel) (c ∷ s)
      ≡ encode_label (split_label (c ∷ s)).0 ++ encode_rest fuel (split_label (c ∷ s)).1
unfolding encode_labels
encode_labels_split fuel c s = refl

encode_labels_step :
    (fuel c : ℕ) (s l : List ℕ) (rest : Option (List ℕ))
    → split_label (c ∷ s) ≡ (l, rest)
    → length l ≤ 63
    → encode_labels (suc fuel) (c ∷ s) ≡ length l ∷ (l ++ encode_rest fuel rest)
encode_labels_step fuel c s l rest e short =
    encode_labels_split fuel c s
    ∙ ap (λ r. encode_label r.0 ++ encode_rest fuel r.1) e
    ∙ ap (λ r. r ++ encode_rest fuel rest) (encode_label_lem l short)

encode_labels-nil : (fuel : ℕ) → encode_labels fuel [] ≡ []
unfolding encode_labels
encode_labels-nil zero = refl
encode_labels-nil (suc fuel) = refl

encode_labels-wire :
    (fuel : ℕ) (ls : List (List ℕ))
    → All IsLabel ls
    → length (host_of ls) ≤ fuel
    → encode_labels fuel (host_of ls) ≡ wire ls
encode_labels-wire fuel ([] ∷ ls) h fits = elim h.0.nonempty [ ]
encode_labels-wire zero ((c ∷ l) ∷ ls) h fits = elim fits [ ]
encode_labels-wire fuel [] h fits = encode_labels-nil fuel
encode_labels-wire (suc fuel) ((c ∷ l) ∷ []) h fits =
    encode_labels_step fuel c (l ++ []) (c ∷ l) none
      (ap (λ s. split_label (c ∷ s)) (append_nil l) ∙ split-last (c ∷ l) h.0.no_dot) h.0.short
encode_labels-wire (suc fuel) ((c ∷ l) ∷ (m ∷ ls)) h fits =
    encode_labels_step fuel c (l ++ dotted (m ∷ ls)) (c ∷ l) (some (host_of (m ∷ ls)))
      (split-dot (c ∷ l) (host_of (m ∷ ls)) h.0.no_dot) h.0.short
    ∙ ap (λ s. length (c ∷ l) ∷ ((c ∷ l) ++ s))
        (encode_labels-wire fuel (m ∷ ls) h.1
          (omega (arith, fits, length-append l (b'.' ∷ (m ++ dotted ls)))))

-- What a place in a buffer holds, from what lies behind it.
get_elem?-drop :
    (buf : List ℕ) (i x : ℕ) (xs : List ℕ) → drop i buf ≡ x ∷ xs → get_elem? buf i ≡ some x
get_elem?-drop [] i x xs e = absurd (cc (sym (drop_nil i) ∙ e))
get_elem?-drop (y ∷ buf) zero x xs e = cc e
get_elem?-drop (y ∷ buf) (suc i) x xs e = get_elem?-drop buf i x xs e

module _ (buf : List ℕ) (pos : ℕ) (label more : List ℕ)
    (here : drop pos buf ≡ length label ∷ (label ++ more)) where
  inside : pos + 1 + length label + length more ≡ length buf
  inside =
      omega
        (arith, length-drop pos buf, length-append label more, ap (λ (xs : List ℕ). length xs) here)

  behind : drop (pos + 1) buf ≡ label ++ more
  behind = drop-drop pos 1 buf ∙ ap (λ xs. drop 1 xs) here

  next : drop (pos + 1 + length label) buf ≡ more
  next =
      drop-drop (pos + 1) (length label) buf
      ∙ ap (λ xs. drop (length label) xs) behind
      ∙ drop-append label more

  length_byte : read_byte buf pos ≡ done (length label)
  length_byte = rw (get_elem?-drop buf pos (length label) (label ++ more) here) refl

  label_bytes : read_bytes buf (pos + 1) (length label) ≡ done label
  unfolding read_bytes
  label_bytes =
      let fits : ltb (length buf) (pos + 1 + length label) ≡ false = ground (arith, inside) in
      rw (fits, behind, take-append label more) refl

-- The name read so far, with the labels behind it.
abbrev extended : List ℕ → List (List ℕ) → List ℕ
extended [] ls = host_of ls
extended (c ∷ s) ls = (c ∷ s) ++ dotted ls

is_pointer-label : (n : ℕ) → n ≤ 63 → is_pointer n ≡ false
unfolding is_pointer
is_pointer-label n short = let e : n / 64 ≡ 0 = omega arith in rw e refl

-- The place of the next label, as the loops find it.
at_label :
    (buf : List ℕ) (pos : ℕ) (l : List ℕ) (ls : List (List ℕ)) (more : List ℕ)
    → drop pos buf ≡ wire (l ∷ ls) ++ 0 ∷ more
    → drop pos buf ≡ length l ∷ (l ++ (wire ls ++ 0 ∷ more))
at_label buf pos l ls more here =
    here ∙ ap (λ r. length l ∷ r) (append_assoc l (wire ls) (0 ∷ more))

skip_loop-wire :
    (fuel : ℕ) (ls : List (List ℕ)) (buf : List ℕ) (pos : ℕ) (more : List ℕ)
    → All IsLabel ls
    → drop pos buf ≡ wire ls ++ 0 ∷ more
    → length buf - pos < fuel
    → skip_loop fuel buf pos ≡ done (pos + length (wire ls) + 1)
unfolding skip_loop
skip_loop-wire zero ls buf pos more h here enough = elim enough [ ]
skip_loop-wire (suc fuel) [] buf pos more h here enough =
    let start : ltb pos (length buf) ≡ true = ground (arith, inside buf pos [] more here) in
    rw (start, length_byte buf pos [] more here) (ap done (omega arith))
skip_loop-wire (suc fuel) (l ∷ ls) buf pos more h here enough =
    let there = at_label buf pos l ls more here in
    let rest = wire ls ++ 0 ∷ more in
    let start : ltb pos (length buf) ≡ true = ground (arith, inside buf pos l rest there) in
    let long : (length l == 0) ≡ false = ground (arith, h.0.nonempty) in
    rw (start, length_byte buf pos l rest there, long, is_pointer-label (length l) h.0.short)
      (skip_loop-wire fuel ls buf (pos + 1 + length l) more h.1 (next buf pos l rest there)
          (omega (arith, enough, inside buf pos l rest there))
        ∙ ap done (omega (arith, length-append l (wire ls))))

extended-nil : (out : List ℕ) → out ≡ extended out []
extended-nil [] = refl
extended-nil (c ∷ s) = sym (append_nil (c ∷ s))

extended-with_dot :
    (out l : List ℕ) (ls : List (List ℕ))
    → 1 ≤ length l
    → extended (with_dot out ++ l) ls ≡ extended out (l ∷ ls)
extended-with_dot out [] ls h = elim h [ ]
extended-with_dot [] (c ∷ l) ls h = refl
extended-with_dot (b ∷ s) (c ∷ l) ls h =
    ap (λ r. r ++ dotted ls) (append_assoc (b ∷ s) (b'.' ∷ []) (c ∷ l))
    ∙ append_assoc (b ∷ s) (b'.' ∷ c ∷ l) (dotted ls)

decode_loop-wire :
    (fuel : ℕ) (ls : List (List ℕ)) (buf more : List ℕ) (d : Decoding)
    → d.jumped ≡ false
    → All IsLabel ls
    → drop d.pos buf ≡ wire ls ++ 0 ∷ more
    → length buf - d.pos < fuel
    → decode_loop fuel buf d ≡ done (d.pos + length (wire ls) + 1, extended d.out ls)
unfolding decode_loop
decode_loop-wire zero ls buf more d still h here enough = elim enough [ ]
decode_loop-wire (suc fuel) [] buf more d still h here enough =
    let start : ltb d.pos (length buf) ≡ true = ground (arith, inside buf d.pos [] more here) in
    rw (start, length_byte buf d.pos [] more here, still)
      (let e : d.pos + 1 ≡ d.pos + 0 + 1 = omega arith in cc (e, extended-nil d.out))
decode_loop-wire (suc fuel) (l ∷ ls) buf more d still h here enough =
    let there = at_label buf d.pos l ls more here in
    let rest = wire ls ++ 0 ∷ more in
    let start : ltb d.pos (length buf) ≡ true = ground (arith, inside buf d.pos l rest there) in
    let long : (length l == 0) ≡ false = ground (arith, h.0.nonempty) in
    let fits : ltb (length buf) (d.pos + 1 + length l) ≡ false =
      ground (arith, inside buf d.pos l rest there) in
    let e : d.pos + 1 + length l + length (wire ls) + 1 ≡ d.pos + length (wire (l ∷ ls)) + 1 =
      omega (arith, length-append l (wire ls)) in
    rw
      (
        start,
        length_byte buf d.pos l rest there,
        long,
        is_pointer-label (length l) h.0.short,
        fits,
        label_bytes buf d.pos l rest there,
      )
      (decode_loop-wire fuel ls buf more _ still h.1 (next buf d.pos l rest there)
          (omega (arith, enough, inside buf d.pos l rest there))
        ∙ cc (e, extended-with_dot d.out l ls h.0.nonempty))

dns_encode_name-wire :
    (labels : List (List ℕ))
    → All IsLabel labels
    → dns_encode_name (host_of labels) ≡ wire labels ++ 0 ∷ []
unfolding dns_encode_name
dns_encode_name-wire labels h =
    ap (λ r. r ++ 0 ∷ []) (encode_labels-wire (length (host_of labels)) labels h (omega arith))

-- For labels of 1 to 63 bytes without dots: wherever the encoded host name stands in a message, it
-- is decoded to the host name, it is skipped, and both lead to the place right behind it.
pub dns_encode_name-decode :
    (pre : List ℕ) (labels : List (List ℕ)) (more : List ℕ)
    → All IsLabel labels
    → (dns_decode_name (pre ++ (dns_encode_name (host_of labels) ++ more)) (length pre)
        ≡ done (length pre + length (dns_encode_name (host_of labels)), host_of labels))
      × (dns_skip_name (pre ++ (dns_encode_name (host_of labels) ++ more)) (length pre)
          ≡ done (length pre + length (dns_encode_name (host_of labels))))
unfolding dns_decode_name dns_skip_name
dns_encode_name-decode pre labels more h =
    let code = dns_encode_name-wire labels h in
    let buf = pre ++ (dns_encode_name (host_of labels) ++ more) in
    let here : drop (length pre) buf ≡ wire labels ++ 0 ∷ more =
      drop-append pre (dns_encode_name (host_of labels) ++ more)
      ∙ ap (λ r. r ++ more) code
      ∙ append_assoc (wire labels) (0 ∷ []) more in
    let behind : length pre + length (wire labels) + 1
        ≡ length pre + length (dns_encode_name (host_of labels)) =
      omega (arith, ap (λ (r : List ℕ). length r) code, length-append (wire labels) (0 ∷ [])) in
    (
      decode_loop-wire (decode_fuel buf) labels buf more _ refl h here (omega arith)
          ∙ ap (λ (n : ℕ). done (n, host_of labels)) behind,
      skip_loop-wire (length buf + 1) labels buf (length pre) more h here (omega arith)
          ∙ ap (λ (n : ℕ). done n) behind,
    )
