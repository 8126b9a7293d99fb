-- ===== src/Probe/Compilation.antt =====
-- The fallbacks that `compileFallbacks` of probe.cpp makes.
use trinetra.Prelude.{
  lt→ltb, ℕ, ◌≤◌, ◌<◌, true, not, ◌&&◌, List, [], ◌∷◌, ◌++◌, Option, none, some, ◌≡◌, inl, inr,
  refl, sym, ap, ◌∙◌, subst, All, All-append, Elem, length, length-append, ltb, ◌==◌, Bool-cases,
  Option-cases, arith,
}
use trinetra.Probe.Text.{has_char}
use trinetra.Probe.Types.{ipproto_tcp, max_fallbacks, ServiceProbe, AllProbes}
use trinetra.Probe.Lookup.{build_port_index}
use trinetra.Probe.Fallbacks.{
  tokens, listed_fallbacks, with_null, compile_probe, compile_probes, compile_null, set_first,
  is_loop_free, are_loop_free, compile_fallbacks,
}
use trinetra.Probe.Explained.{Known}
use trinetra.Probe.Compiled.{IsAddress, Distinct, IsCompiled, resolve-known, is_loop_free-Distinct}

with_null-few :
    (null : Option ServiceProbe) (proto : ℕ) (fallbacks : List ℕ)
    → length fallbacks ≤ max_fallbacks
    → length (with_null null proto fallbacks) ≤ max_fallbacks
with_null-few none proto fallbacks h = h
with_null-few (some n) proto fallbacks h = ground (arith, h, length-append fallbacks (n.self ∷ []))

has_char-append : (c : ℕ) (s : List ℕ) → has_char c (s ++ c ∷ []) ≡ true
unfolding has_char
has_char-append c [] = ground arith
has_char-append c (d ∷ s) = ground (arith, has_char-append c s)

-- Behind fewer than 20 fallbacks there is room for the NULL probe.
with_null-has_char :
    (n : ServiceProbe) (proto : ℕ) (fallbacks : List ℕ)
    → (proto == ipproto_tcp) ≡ true
    → length fallbacks < max_fallbacks
    → has_char n.self (with_null (some n) proto fallbacks) ≡ true
with_null-has_char n proto fallbacks t h = elim (Bool-cases (has_char n.self fallbacks)) [
  | inl e ↦ rw (t, e) e
  | inr e ↦ rw (t, e, lt→ltb (length fallbacks) max_fallbacks h) (has_char-append n.self fallbacks)
]

with_null-has_null :
    (null : Option ServiceProbe) (n : ServiceProbe) (proto : ℕ) (fallbacks : List ℕ)
    → null ≡ some n
    → (proto == ipproto_tcp) ≡ true
    → length fallbacks < max_fallbacks
    → has_char n.self (with_null null proto fallbacks) ≡ true
with_null-has_null null n proto fallbacks i t h =
    subst (λ o. has_char n.self (with_null o proto fallbacks) ≡ true) (sym i)
      (with_null-has_char n proto fallbacks t h)

with_null-known :
    (db : AllProbes) (null : Option ServiceProbe) (proto : ℕ) (fallbacks : List ℕ)
    → db.null_probe ≡ null
    → All (IsAddress db) fallbacks
    → All (IsAddress db) (with_null null proto fallbacks)
with_null-known db none proto fallbacks e h = h
with_null-known db (some n) proto fallbacks e h =
    elim (Bool-cases (
      proto == ipproto_tcp
      && not (has_char n.self fallbacks)
      && ltb (length fallbacks) max_fallbacks)) [
        | inl i ↦ rw i (All-append (IsAddress db) fallbacks (n.self ∷ []) h ((n, inl e, refl), tt))
        | inr i ↦ rw i h
      ]

-- The own address stays the first.
with_null-first :
    (null : Option ServiceProbe) (proto a : ℕ) (rest : List ℕ)
    → (others : List ℕ) × (with_null null proto (a ∷ rest) ≡ a ∷ others)
with_null-first none proto a rest = (rest, refl)
with_null-first (some n) proto a rest =
    elim (Bool-cases (
      proto == ipproto_tcp
      && not (has_char n.self (a ∷ rest))
      && ltb (length (a ∷ rest)) max_fallbacks)) [
        | inl i ↦ (rest ++ n.self ∷ [], rw i refl)
        | inr i ↦ (rest, rw i refl)
      ]

listed_fallbacks-known :
    (db : AllProbes) (p : ServiceProbe) (names : Option (List ℕ)) (rest : List ℕ)
    → listed_fallbacks db p names ≡ some rest
    → (length rest ≤ 18) × All (IsAddress db) rest
listed_fallbacks-known db p none rest h =
    let e : [] ≡ rest = ground (arith, h) in
    subst (λ f. (length f ≤ 18) × All (IsAddress db) f) e (omega arith, tt)
listed_fallbacks-known db p (some s) rest h =
    let (few, known) = resolve-known db p.protocol 1 (tokens [] s) rest (omega arith) h in
    (omega (arith, few), known)

abbrev compiled_as : AllProbes → ServiceProbe → List ℕ → ServiceProbe
compiled_as db p rest = record p {
  fallback_str = none;
  fallbacks = with_null db.null_probe p.protocol (p.self ∷ rest);
}

compiled_as-IsCompiled :
    (db : AllProbes) (p : ServiceProbe) (rest : List ℕ)
    → Elem p db.probes
    → listed_fallbacks db p p.fallback_str ≡ some rest
    → Distinct (compiled_as db p rest).fallbacks
    → IsCompiled db (compiled_as db p rest)
compiled_as-IsCompiled db p rest l h d =
    let (few, known) = listed_fallbacks-known db p p.fallback_str rest h in
    let (others, e) = with_null-first db.null_probe p.protocol p.self rest in
    record {
      others = others;
      own_first = e;
      few = with_null-few db.null_probe p.protocol (p.self ∷ rest) (omega (arith, few));
      known =
          with_null-known db db.null_probe p.protocol (p.self ∷ rest) refl
            ((p, inr l, refl), known);
      distinct = d;
      has_null = λ n i t.
          with_null-has_null db.null_probe n p.protocol (p.self ∷ rest) i t (omega (arith, few));
    }

compile_probe-IsCompiled :
    (db : AllProbes) (p q : ServiceProbe)
    → Elem p db.probes
    → compile_probe db p ≡ some q
    → Distinct q.fallbacks
    → IsCompiled db q
compile_probe-IsCompiled db p q l h d = elim (Option-cases (listed_fallbacks db p p.fallback_str)) [
  | inl n ↦ ground (arith, n, h)
  | inr (rest, m) ↦
      let e : compiled_as db p rest ≡ q = ground (arith, m, h) in
      subst (IsCompiled db) e
        (compiled_as-IsCompiled db p rest l m (subst (λ r. Distinct r.fallbacks) (sym e) d))
]

compile_probes-IsCompiled :
    (db : AllProbes) (probes compiled : List ServiceProbe)
    → All (λ p. Elem p db.probes) probes
    → compile_probes db probes ≡ some compiled
    → are_loop_free compiled ≡ true
    → All (IsCompiled db) compiled
unfolding compile_probes are_loop_free
compile_probes-IsCompiled db [] compiled l h free =
    let e : [] ≡ compiled = ground (arith, h) in subst (All (IsCompiled db)) e tt
compile_probes-IsCompiled db (p ∷ probes) compiled l h free =
    elim (Option-cases (compile_probe db p)) [
      | inl n ↦ ground (arith, n, h)
      | inr (q, s) ↦ elim (Option-cases (compile_probes db probes)) [
        | inl n ↦ ground (arith, s, n, h)
        | inr (rest, m) ↦
            let e : q ∷ rest ≡ compiled = ground (arith, s, m, h) in
            let both_free = ap are_loop_free e ∙ free in
            let loop_free : is_loop_free [] q.fallbacks ≡ true = ground (arith, both_free) in
            subst (All (IsCompiled db)) e (
              compile_probe-IsCompiled db p q l.0 s
                  (is_loop_free-Distinct [] q.fallbacks loop_free).1,
              compile_probes-IsCompiled db probes rest l.1 m (ground (arith, both_free)),
            )
      ]
    ]

abbrev pub compiled_db : AllProbes → List ServiceProbe → AllProbes
compiled_db db probes =
    build_port_index (record db { null_probe = compile_null db.null_probe; probes = probes })

every_Elem :
    {A : Type 0} (xs ys : List A) → ((x : A) → Elem x xs → Elem x ys) → All (λ x. Elem x ys) xs
every_Elem [] ys h = tt
every_Elem (x ∷ xs) ys h = (h x (inl refl), every_Elem xs ys (λ z e. h z (inr e)))

-- When the compilation comes to an end without an error: the fallbacks of every probe begin with
-- the probe itself, are at most 20, are all probes of the database, with none twice, and for TCP
-- the NULL probe, if there is one, is among them.
pub compile_fallbacks-IsCompiled :
    (db compiled : AllProbes)
    → compile_fallbacks db ≡ some compiled
    → All (IsCompiled db) compiled.probes
unfolding compile_fallbacks build_port_index
compile_fallbacks-IsCompiled db compiled h = elim (Option-cases (compile_probes db db.probes)) [
  | inl n ↦ ground (arith, n, h)
  | inr (probes, m) ↦ elim (Bool-cases (are_loop_free probes)) [
    | inl e ↦
        let at : compiled_db db probes ≡ compiled = ground (arith, m, e, h) in
        subst (All (IsCompiled db)) (ap (λ c. c.probes) at) (
          compile_probes-IsCompiled db db.probes probes (every_Elem db.probes db.probes (λ x l. l))
            m e)
    | inr e ↦ ground (arith, m, e, h)
  ]
]

pub compile_fallbacks-indexed :
    (db compiled : AllProbes)
    → compile_fallbacks db ≡ some compiled
    → (probes : List ServiceProbe) × (compiled_db db probes ≡ compiled)
unfolding compile_fallbacks
compile_fallbacks-indexed db compiled h = elim (Option-cases (compile_probes db db.probes)) [
  | inl n ↦ ground (arith, n, h)
  | inr (probes, m) ↦ elim (Bool-cases (are_loop_free probes)) [
    | inl e ↦ (probes, ground (arith, m, e, h))
    | inr e ↦ ground (arith, m, e, h)
  ]
]

abbrev BeginsWithItself : ServiceProbe → Type 0
BeginsWithItself p = (others : List ℕ) × (p.fallbacks ≡ p.self ∷ others)

abbrev with_first : ServiceProbe → ServiceProbe
with_first n = record n { fallbacks = set_first n.self n.fallbacks }

compile_null-first :
    (null : Option ServiceProbe) (n : ServiceProbe)
    → compile_null null ≡ some n
    → BeginsWithItself n
compile_null-first none n h = cc
compile_null-first (some m) n h =
    let e : with_first m ≡ n = ground (arith, h) in
    subst BeginsWithItself e (first m.self m.fallbacks)
  where
    first : (a : ℕ) (l : List ℕ) → (others : List ℕ) × (set_first a l ≡ a ∷ others)
    first a [] = ([], refl)
    first a (b ∷ l) = (l, refl)

compiled_first :
    (db : AllProbes) (p : ServiceProbe) (probes : List ServiceProbe)
    → All (IsCompiled db) probes
    → Elem p probes
    → BeginsWithItself p
compiled_first db p [] h l = absurd l
compiled_first db p (q ∷ probes) h (inl e) =
    subst BeginsWithItself (sym e) (h.0.others, h.0.own_first)
compiled_first db p (q ∷ probes) h (inr l) = compiled_first db p probes h.1 l

-- Also the NULL probe begins with itself.
pub compile_fallbacks-first :
    (db compiled : AllProbes) (p : ServiceProbe)
    → compile_fallbacks db ≡ some compiled
    → Known p compiled
    → (others : List ℕ) × (p.fallbacks ≡ p.self ∷ others)
unfolding build_port_index
compile_fallbacks-first db compiled p h (inr l) =
    compiled_first db p compiled.probes (compile_fallbacks-IsCompiled db compiled h) l
compile_fallbacks-first db compiled p h (inl e) =
    let (probes, at) = compile_fallbacks-indexed db compiled h in
    compile_null-first db.null_probe p (ap (λ (d : AllProbes). d.null_probe) at ∙ e)
