-- ===== src/Probe/Explained.antt =====
-- Which rule of the database a match comes from.
use trinetra.Prelude.{
  ℕ, List, [], ◌∷◌, Bool, true, Option, none, some, Elem, ◌≡◌, refl, subst, ◌⊎◌, inl, inr,
  Bool-cases, Option-cases, arith,
}
use trinetra.Probe.Types.{
  Version, MatchDetails, ServiceProbeMatch, ServiceProbe, AllProbes, Matched,
}
use trinetra.Probe.Match.{
  passes_filter, test_match, or_else, first_match, find_probe, has_address, is_at, probe_at,
  match_at, set_match, fields_of,
}

abbrev pub Known : ServiceProbe → AllProbes → Type 0
Known p db = (db.null_probe ≡ some p) ⊎ Elem p db.probes

-- A rule of a probe of the database matches a response, and gives a name and fields.
pub record IsExplained (db : AllProbes) (buf : List ℕ) (soft : Bool) (name : List ℕ)
    (fields : Matched) : Type 0 where
  pub probe : ServiceProbe
  pub rule : ServiceProbeMatch
  pub found : Version
  pub known : Known probe db
  pub listed : Elem rule probe.matches
  pub passes : passes_filter rule.flag_i rule.prefix_literal buf ≡ true
  pub matches : rule.regex buf ≡ some found
  pub kind : rule.is_soft ≡ soft
  pub named : rule.servicename ≡ name
  pub filled : fields_of found ≡ fields

pub or_else-some {ℓ} :
    {A : Type ℓ} (x y : Option A) (a : A) → or_else x y ≡ some a → (x ≡ some a) ⊎ (y ≡ some a)
or_else-some none y a h = inr h
or_else-some (some x) y a h = inl h

pub find_probe-Elem :
    (test : ServiceProbe → Bool) (probes : List ServiceProbe) (p : ServiceProbe)
    → find_probe test probes ≡ some p
    → Elem p probes
unfolding find_probe
find_probe-Elem test [] p h = cc
find_probe-Elem test (q ∷ probes) p h = elim (Bool-cases (test q)) [
  | inl e ↦ inl (ground (arith, e, h))
  | inr e ↦ inr (find_probe-Elem test probes p (ground (arith, e, h)))
]

pub probe_at-Known :
    (db : AllProbes) (address : ℕ) (p : ServiceProbe) → probe_at db address ≡ some p → Known p db
probe_at-Known db address p h = elim (Bool-cases (is_at address db.null_probe)) [
  | inl e ↦ inl (ground (arith, e, h))
  | inr e ↦ inr (find_probe-Elem (has_address address) db.probes p (ground (arith, e, h)))
]

first_match-rule :
    (rules : List ServiceProbeMatch) (buf : List ℕ) (md : MatchDetails)
    → first_match rules buf ≡ some md
    → (m : ServiceProbeMatch) × Elem m rules × (test_match m buf ≡ some md)
unfolding first_match
first_match-rule [] buf md h = cc
first_match-rule (m ∷ rules) buf md h =
    elim (or_else-some (test_match m buf) (first_match rules buf) md h) [
      | inl e ↦ (m, inl refl, e)
      | inr e ↦ let (n, l, k) = first_match-rule rules buf md e in (n, inr l, k)
    ]

abbrev details : ServiceProbeMatch → Version → MatchDetails
details m v = record { is_soft = m.is_soft; service_name = m.servicename; found = v }

test_match-some :
    (m : ServiceProbeMatch) (buf : List ℕ) (md : MatchDetails)
    → test_match m buf ≡ some md
    → (v : Version) × (passes_filter m.flag_i m.prefix_literal buf ≡ true)
      × (m.regex buf ≡ some v)
      × (details m v ≡ md)
unfolding test_match
test_match-some m buf md h = elim (Bool-cases (passes_filter m.flag_i m.prefix_literal buf)) [
  | inl e ↦ elim (Option-cases (m.regex buf)) [
    | inl n ↦ ground (arith, e, n, h)
    | inr (v, s) ↦ (v, e, s, ground (arith, e, s, h))
  ]
  | inr e ↦ ground (arith, e, h)
]

rule-IsExplained :
    (db : AllProbes) (buf : List ℕ) (p : ServiceProbe) (m : ServiceProbeMatch) (md : MatchDetails)
    → Known p db
    → Elem m p.matches
    → test_match m buf ≡ some md
    → IsExplained db buf md.is_soft md.service_name (fields_of md.found)
rule-IsExplained db buf p m md k l h =
    let (v, passes, matches, e) = test_match-some m buf md h in
    subst (λ d. IsExplained db buf d.is_soft d.service_name (fields_of d.found)) e
      (record {
        probe = p;
        rule = m;
        found = v;
        known = k;
        listed = l;
        passes = passes;
        matches = matches;
        kind = refl;
        named = refl;
        filled = refl;
      })

pub set_match-IsExplained :
    (db : AllProbes) (buf : List ℕ) (fallbacks : List ℕ) (md : MatchDetails)
    → set_match db buf fallbacks ≡ some md
    → IsExplained db buf md.is_soft md.service_name (fields_of md.found)
unfolding set_match
set_match-IsExplained db buf [] md h = cc
set_match-IsExplained db buf (fb ∷ fallbacks) md h =
    elim (or_else-some (match_at (probe_at db fb) buf) (set_match db buf fallbacks) md h) [
      | inl e ↦ elim (Option-cases (probe_at db fb)) [
        | inl n ↦ ground (arith, n, e)
        | inr (p, s) ↦
            let (m, l, k) = first_match-rule p.matches buf md (ground (arith, s, e)) in
            rule-IsExplained db buf p m md (probe_at-Known db fb p s) l k
      ]
      | inr e ↦ set_match-IsExplained db buf fallbacks md e
    ]
