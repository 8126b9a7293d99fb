-- ===== src/Probe/Tries.antt =====
-- Which rules do not match a response for which `matchResponse` of probe.cpp reports nothing.
use trinetra.Prelude.{
  ℕ, ◌<◌, ◌^◌, List, [], ◌∷◌, Bool, not, ◌&&◌, Option, none, some, ◌≡◌, refl, ap, sym, ◌∙◌, subst,
  All, false,
}
use trinetra.Probe.Types.{
  ServiceTunnel, ServiceProbe, AllProbes, ProbeState, ScanResult, MatchContext,
}
use trinetra.Probe.Match.{first_match, or_else, probe_at, match_at, set_match}
use trinetra.Probe.Lookup.{is_excluded}
use trinetra.Probe.Engine.{Clock, hint, match_response}
use trinetra.Probe.Index.{IsSized}
use trinetra.Probe.Explained.{probe_at-Known}
use trinetra.Probe.NoMatch.{engine_of, IsTried, IsSilent, indexed-IsSilent}
use trinetra.Probe.Fallbacks.{compile_null, compile_fallbacks}
use trinetra.Probe.Compilation.{compile_fallbacks-indexed, compile_fallbacks-first}

or_else-none : {A : Type 0} (x y : Option A) → or_else x y ≡ none → (x ≡ none) × (y ≡ none)
or_else-none none y h = (refl, h)
or_else-none (some a) y h = cc

set_match-none :
    (db : AllProbes) (buf fallbacks : List ℕ)
    → set_match db buf fallbacks ≡ none
    → All (λ a. match_at (probe_at db a) buf ≡ none) fallbacks
unfolding set_match
set_match-none db buf [] h = tt
set_match-none db buf (a ∷ fallbacks) h =
    let (own, others) =
      or_else-none (match_at (probe_at db a) buf) (set_match db buf fallbacks) h in
    (own, set_match-none db buf fallbacks others)

-- For a database whose fallbacks were compiled, whose numbers and the request's fit in their
-- widths, and a response of at least one byte to a port that is not excluded: if the result is that
-- nothing matched, in the tunnel of the request, then of every probe that is to be tried for the
-- request and that stands at its address, none of its own rules matches the response, and none of
-- the rules of the probes at the addresses of its fallbacks.
pub match_response-IsTried :
    (now : Clock) (file db : AllProbes) (intensity : ℕ) (ignore_exclude : Bool) (port proto : ℕ)
    (tunnel : ServiceTunnel) (c : ℕ) (buf : List ℕ) (ctx : MatchContext) (r : ScanResult)
    (p : ServiceProbe)
    → compile_fallbacks file ≡ some db
    → All IsSized db.probes
    → proto < 2 ^ 15
    → port < 2 ^ 16
    → (not ignore_exclude && is_excluded port proto db) ≡ false
    → match_response now (engine_of db intensity ignore_exclude) port proto tunnel (c ∷ buf) ctx
      ≡ some r
    → r.state ≡ ProbeState.finished_nomatch
    → r.tunnel ≡ tunnel
    → IsTried db (hint db proto ctx.probe_name) intensity proto tunnel port p
    → probe_at db p.self ≡ some p
    → (first_match p.matches (c ∷ buf) ≡ none)
      × All (λ a. match_at (probe_at db a) (c ∷ buf) ≡ none) p.fallbacks
match_response-IsTried now file db intensity ignore_exclude port proto tunnel c buf ctx r p compiled
      sized small port_small free h s t tried at =
    let (probes, built) = compile_fallbacks-indexed file db compiled in
    let bare = record file { null_probe = compile_null file.null_probe; probes = probes } in
    let silent =
      subst (IsSilent now intensity ignore_exclude port proto tunnel c buf ctx r p) built (
        indexed-IsSilent now bare intensity ignore_exclude port proto tunnel c buf ctx r p small
          port_small s t) in
    let each = set_match-none db (c ∷ buf) p.fallbacks (silent sized free h tried) in
    let (others, first) =
      compile_fallbacks-first file db p compiled (probe_at-Known db p.self p at) in
    let own = subst (All (λ a. match_at (probe_at db a) (c ∷ buf) ≡ none)) first each in
    (ap (λ o. match_at o (c ∷ buf)) (sym at) ∙ own.0, each)
