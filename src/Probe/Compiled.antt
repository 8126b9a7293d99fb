-- ===== src/Probe/Compiled.antt =====
-- What a probe's fallbacks are after `compileFallbacks` of probe.cpp.
use trinetra.Prelude.{
  ℕ, suc, ◌+◌, ◌≤◌, true, false, ◌&&◌, List, [], ◌∷◌, Option, none, some, ◌≡◌, ◌≢◌, inl, inr, refl,
  ◌∙◌, subst, All, length, ltb, ◌==◌, Bool-cases, Option-cases, arith,
}
use trinetra.Probe.Text.{has_char}
use trinetra.Probe.Types.{ipproto_tcp, max_fallbacks, ServiceProbe, AllProbes}
use trinetra.Probe.Match.{find_probe, or_else}
use trinetra.Probe.Lookup.{has_name, null_probe_named, get_probe_by_name}
use trinetra.Probe.Explained.{Known, or_else-some, find_probe-Elem}
use trinetra.Probe.Fallbacks.{resolve, is_loop_free}

-- The address of a probe of the database.
abbrev pub IsAddress : AllProbes → ℕ → Type 0
IsAddress db a = (q : ServiceProbe) × Known q db × (q.self ≡ a)

abbrev pub Distinct : List ℕ → Type 0
Distinct [] = Unit
Distinct (a ∷ fallbacks) = All (λ b. b ≢ a) fallbacks × Distinct fallbacks

pub record IsCompiled (db : AllProbes) (p : ServiceProbe) : Type 0 where
  pub others : List ℕ
  pub own_first : p.fallbacks ≡ p.self ∷ others
  pub few : length p.fallbacks ≤ max_fallbacks
  pub known : All (IsAddress db) p.fallbacks
  pub distinct : Distinct p.fallbacks
  pub has_null :
      (n : ServiceProbe)
      → db.null_probe ≡ some n
      → (p.protocol == ipproto_tcp) ≡ true
      → has_char n.self p.fallbacks ≡ true

null_probe_named-Known :
    (proto : ℕ) (name : List ℕ) (db : AllProbes) (null : Option ServiceProbe) (p : ServiceProbe)
    → db.null_probe ≡ null
    → null_probe_named proto name null ≡ some p
    → Known p db
null_probe_named-Known proto name db none p e h = cc
null_probe_named-Known proto name db (some n) p e h =
    elim (Bool-cases (proto == ipproto_tcp && has_name name n)) [
      | inl i ↦ inl (e ∙ ground (arith, i, h))
      | inr i ↦ ground (arith, i, h)
    ]

get_probe_by_name-Known :
    (name : List ℕ) (proto : ℕ) (db : AllProbes) (p : ServiceProbe)
    → get_probe_by_name name proto db ≡ some p
    → Known p db
unfolding get_probe_by_name
get_probe_by_name-Known name proto db p h =
    elim (or_else-some (null_probe_named proto name db.null_probe)
      (or_else (find_probe (λ q. q.protocol == proto && has_name name q) db.probes)
        (find_probe (has_name name) db.probes))
      p h) [
        | inl e ↦ null_probe_named-Known proto name db db.null_probe p refl e
        | inr k ↦
            elim (or_else-some (find_probe (λ q. q.protocol == proto && has_name name q) db.probes)
              (find_probe (has_name name) db.probes) p k) [
                | inl e ↦
                    inr
                      (find_probe-Elem (λ q. q.protocol == proto && has_name name q) db.probes p e)
                | inr e ↦ inr (find_probe-Elem (has_name name) db.probes p e)
              ]
      ]

pub resolve-known :
    (db : AllProbes) (proto i : ℕ) (names : List (List ℕ)) (fallbacks : List ℕ)
    → i ≤ 19
    → resolve db proto i names ≡ some fallbacks
    → (i + length fallbacks ≤ 19) × All (IsAddress db) fallbacks
unfolding resolve
resolve-known db proto i [] fallbacks l h =
    let e : [] ≡ fallbacks = ground (arith, h) in
    subst (λ f. (i + length f ≤ 19) × All (IsAddress db) f) e (omega arith, tt)
resolve-known db proto i (name ∷ names) fallbacks l h = elim (Bool-cases (ltb i 19)) [
  | inl e ↦ elim (Option-cases (get_probe_by_name name proto db)) [
    | inl n ↦ ground (arith, e, n, h)
    | inr (fb, s) ↦ elim (Option-cases (resolve db proto (suc i) names)) [
      | inl n ↦ ground (arith, e, s, n, h)
      | inr (rest, m) ↦
          let (few, known) = resolve-known db proto (suc i) names rest (ground (arith, e)) m in
          let at : fb.self ∷ rest ≡ fallbacks = ground (arith, e, s, m, h) in
          subst (λ f. (i + length f ≤ 19) × All (IsAddress db) f) at
            (omega (arith, few), ((fb, get_probe_by_name-Known name proto db fb s, refl), known))
    ]
  ]
  | inr e ↦ ground (arith, e, h)
]

unvisited :
    (visited : List ℕ) (fb : ℕ) (fallbacks : List ℕ)
    → All (λ x. has_char x (fb ∷ visited) ≡ false) fallbacks
    → All (λ x. has_char x visited ≡ false) fallbacks × All (λ b. b ≢ fb) fallbacks
unfolding has_char
unvisited visited fb [] h = (tt, tt)
unvisited visited fb (x ∷ fallbacks) h =
    let rest = unvisited visited fb fallbacks h.1 in
    ((ground (arith, h.0), rest.0), (λ e. ground (arith, h.0, e), rest.1))

pub is_loop_free-Distinct :
    (visited fallbacks : List ℕ)
    → is_loop_free visited fallbacks ≡ true
    → All (λ fb. has_char fb visited ≡ false) fallbacks × Distinct fallbacks
unfolding is_loop_free
is_loop_free-Distinct visited [] h = (tt, tt)
is_loop_free-Distinct visited (fb ∷ fallbacks) h = elim (Bool-cases (has_char fb visited)) [
  | inl e ↦ ground (arith, e, h)
  | inr e ↦
      let (fresh, apart) = is_loop_free-Distinct (fb ∷ visited) fallbacks (ground (arith, e, h)) in
      let (new, differ) = unvisited visited fb fallbacks fresh in ((e, new), (differ, apart))
]
