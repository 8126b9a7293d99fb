-- ===== src/Probe/Fallbacks.antt =====
-- `AllProbes::compileFallbacks` of probe.cpp.
use trinetra.Prelude.{
  ℕ, suc, Bool, true, false, not, ◌&&◌, List, [], ◌∷◌, ◌++◌, Option, none, some, map_some, length,
  ltb, ◌==◌, if◌then◌else◌,
}
use trinetra.Probe.Text.{has_char}
use trinetra.Probe.Types.{ipproto_tcp, max_fallbacks, ServiceProbe, AllProbes}
use trinetra.Probe.Lookup.{get_probe_by_name, build_port_index}

-- `strtok_r`: the texts between the separators that are not empty.
abbrev pub separators : List ℕ
separators = b',' ∷ 13 ∷ 10 ∷ 9 ∷ 32 ∷ []

abbrev pub with_token : List ℕ → List (List ℕ) → List (List ℕ)
with_token [] rest = rest
with_token (c ∷ s) rest = (c ∷ s) ∷ rest

unfoldable pub tokens : List ℕ → List ℕ → List (List ℕ)
unfolding has_char
tokens current [] = with_token current []
tokens current (c ∷ s) =
    let ended = tokens [] s in
    let longer = tokens (current ++ c ∷ []) s in
    if has_char c separators then with_token current ended else longer

abbrev pub resolved : Option ServiceProbe → Option (List ℕ) → Option (List ℕ)
resolved none rest = none
resolved (some fb) rest = map_some (λ fallbacks. fb.self ∷ fallbacks) rest

-- The fallbacks from a place on; a name that is not known and one too many are fatal.
unfoldable pub resolve : AllProbes → ℕ → ℕ → List (List ℕ) → Option (List ℕ)
unfolding get_probe_by_name
resolve db proto i [] = some []
resolve db proto i (name ∷ names) =
    let rest = resolve db proto (suc i) names in
    if ltb i 19 then resolved (get_probe_by_name name proto db) rest else none

abbrev pub listed_fallbacks : AllProbes → ServiceProbe → Option (List ℕ) → Option (List ℕ)
listed_fallbacks db p none = some []
listed_fallbacks db p (some s) = resolve db p.protocol 1 (tokens [] s)

abbrev pub with_null : Option ServiceProbe → ℕ → List ℕ → List ℕ
with_null none proto fallbacks = fallbacks
with_null (some n) proto fallbacks =
    if proto == ipproto_tcp
      && not (has_char n.self fallbacks)
      && ltb (length fallbacks) max_fallbacks
    then fallbacks ++ n.self ∷ []
    else fallbacks

abbrev pub compile_probe : AllProbes → ServiceProbe → Option ServiceProbe
compile_probe db p =
    map_some
      (λ rest. record p {
        fallback_str = none;
        fallbacks = with_null db.null_probe p.protocol (p.self ∷ rest);
      })
      (listed_fallbacks db p p.fallback_str)

abbrev pub both {ℓ} : {A : Type ℓ} → Option A → Option (List A) → Option (List A)
both none ys = none
both (some x) ys = map_some (λ l. x ∷ l) ys

unfoldable pub compile_probes : AllProbes → List ServiceProbe → Option (List ServiceProbe)
unfolding resolve tokens has_char
compile_probes db [] = some []
compile_probes db (p ∷ probes) = both (compile_probe db p) (compile_probes db probes)

-- No address is visited twice.
unfoldable pub is_loop_free : List ℕ → List ℕ → Bool
unfolding has_char
is_loop_free visited [] = true
is_loop_free visited (fb ∷ fallbacks) =
    let rest = is_loop_free (fb ∷ visited) fallbacks in if has_char fb visited then false else rest

unfoldable pub are_loop_free : List ServiceProbe → Bool
unfolding is_loop_free
are_loop_free [] = true
are_loop_free (p ∷ probes) = is_loop_free [] p.fallbacks && are_loop_free probes

abbrev pub set_first : ℕ → List ℕ → List ℕ
set_first a [] = a ∷ []
set_first a (b ∷ fallbacks) = a ∷ fallbacks

abbrev pub compile_null : Option ServiceProbe → Option ServiceProbe
compile_null none = none
compile_null (some n) = some (record n { fallbacks = set_first n.self n.fallbacks })

abbrev pub checked : AllProbes → Option (List ServiceProbe) → Option AllProbes
checked db none = none
checked db (some probes) =
    if are_loop_free probes
    then some
        (build_port_index (record db { null_probe = compile_null db.null_probe; probes = probes }))
    else none

-- `none` is fatal.
unfoldable pub compile_fallbacks : AllProbes → Option AllProbes
unfolding compile_probes are_loop_free build_port_index
compile_fallbacks db = checked db (compile_probes db db.probes)
