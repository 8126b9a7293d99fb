-- ===== src/Probe/NoMatch.antt =====
-- What `matchResponse` of probe.cpp has tried when it reports that nothing matched.
use trinetra.Prelude.{
  ℕ, ◌<◌, ◌^◌, List, [], ◌∷◌, Bool, true, false, not, ◌&&◌, Option, none, some, ◌≡◌, refl, ap, sym,
  ◌∙◌, subst, inl, inr, Bool-cases, Option-cases, All, Elem, arith, ◌==◌, ltb,
}
use trinetra.Probe.Fingerprint.{add_to_fingerprint}
use trinetra.Probe.Text.{bytes_of}
use trinetra.Probe.Types.{
  ipproto_tcp, ipproto_udp, ServiceTunnel, ServiceProbe, AllProbes, ProbeState, ServiceNfo,
  ScanResult, MatchContext, ProbeEngine,
}
use trinetra.Probe.Match.{set_match, is_plain, is_at, Progress}
use trinetra.Probe.Lookup.{
  is_excluded, port_is_probable, port_is_ssl, probes_for_port, build_port_index,
}
use trinetra.Probe.Engine.{
  Clock, is_other, match_all, build_result, info_of, finish, new_service, hint, with_state,
  match_response,
}
use trinetra.Probe.Progress.{Leads, Course}
use trinetra.Probe.Tried.{HasMoved}
use trinetra.Probe.Index.{IsSized, probes_for_port-listing, listing-Elem}
use trinetra.Probe.Complete.{Known, match_all-Course}

-- The probes that are tried for a request: the one that is named, the NULL probe, those that list
-- the port, those that are not rarer than the intensity, and for UDP those that list it for DTLS.
pub data IsTried (db : AllProbes) (hinted : Option ServiceProbe) (intensity proto : ℕ)
    (tunnel : ServiceTunnel) (port : ℕ) (p : ServiceProbe) : Type 0 where
  named : hinted ≡ some p → IsTried db hinted intensity proto tunnel port p
  null :
      db.null_probe ≡ some p
      → (proto == ipproto_tcp && not (is_at p.self hinted)) ≡ true
      → IsTried db hinted intensity proto tunnel port p
  of_port :
      Elem p db.probes
      → (p.protocol == proto) ≡ true
      → is_at p.self hinted ≡ false
      → port_is_probable tunnel port p ≡ true
      → IsTried db hinted intensity proto tunnel port p
  common :
      Elem p db.probes
      → (p.protocol == proto) ≡ true
      → is_at p.self hinted ≡ false
      → ltb intensity p.rarity ≡ false
      → IsTried db hinted intensity proto tunnel port p
  dtls :
      Elem p db.probes
      → (p.protocol == ipproto_udp && port_is_ssl port p) ≡ true
      → (proto == ipproto_udp && is_plain tunnel) ≡ true
      → IsTried db hinted intensity proto tunnel port p

All-Elem : {A : Type 0} (P : A → Type 0) (x : A) (xs : List A) → All P xs → Elem x xs → P x
All-Elem P x [] h l = absurd l
All-Elem P x (y ∷ xs) h (inl e) = subst P (sym e) h.0
All-Elem P x (y ∷ xs) h (inr l) = All-Elem P x xs h.1 l

finish-nothing :
    (now : Clock) (buf : List ℕ) (progress : Progress) (r : ScanResult)
    → finish now buf progress ≡ some r
    → r.state ≡ ProbeState.finished_nomatch
    → (svc : ServiceNfo) × (progress ≡ Progress.going svc)
      × (svc.soft_match_found ≡ false)
      × (svc.tunnel ≡ r.tunnel)
unfolding finish build_result
finish-nothing now buf Progress.fault r h s = cc
finish-nothing now buf (Progress.done_hard svc) r h s =
    let e : build_result (with_state ProbeState.finished_hardmatched svc) ≡ r = ground (arith, h) in
    let hard = ap (λ q. q.state) e ∙ s in cc
finish-nothing now buf (Progress.going svc) r h s = elim (Bool-cases svc.soft_match_found) [
  | inl b ↦
      let e : build_result (with_state ProbeState.finished_softmatched svc) ≡ r =
        ground (arith, b, h) in
      let soft = ap (λ q. q.state) e ∙ s in cc
  | inr b ↦
      elim (Option-cases
        (add_to_fingerprint (info_of now svc) (bytes_of "(all probes)") buf svc.fingerprint)) [
          | inl n ↦ ground (arith, b, n, h)
          | inr (f, m) ↦
              let e : build_result
                    (record svc { probe_state = ProbeState.finished_nomatch; fingerprint = f })
                  ≡ r =
                ground (arith, b, m, h) in
              (svc, refl, b, ap (λ q. q.tunnel) e)
        ]
]

module _ (db : AllProbes) (buf : List ℕ) (hinted : Option ServiceProbe) (intensity proto : ℕ)
    (tunnel : ServiceTunnel) (port : ℕ) where
  abbrev indexed : AllProbes
  indexed = build_port_index db

  abbrev start : ServiceNfo
  start = new_service port proto tunnel intensity

  of_port-unmatched :
      (p : ServiceProbe)
      → All IsSized db.probes
      → proto < 2 ^ 15
      → port < 2 ^ 16
      → Elem p db.probes
      → (p.protocol == proto) ≡ true
      → is_at p.self hinted ≡ false
      → port_is_probable tunnel port p ≡ true
      → Known indexed buf intensity hinted start
      → set_match indexed buf p.fallbacks ≡ none
  of_port-unmatched p sized small port_small l e n h k =
      All-Elem (λ q. is_at q.self hinted ≡ false → set_match indexed buf q.fallbacks ≡ none) p
        (probes_for_port proto tunnel port indexed) k.1.1.0
        (subst (Elem p) (sym (probes_for_port-listing proto tunnel port small port_small db sized))
          (listing-Elem proto tunnel port p db.probes l e h))
        n

  tried-unmatched :
      (p : ServiceProbe)
      → All IsSized db.probes
      → proto < 2 ^ 15
      → port < 2 ^ 16
      → IsTried indexed hinted intensity proto tunnel port p
      → Known indexed buf intensity hinted start
      → set_match indexed buf p.fallbacks ≡ none
  unfolding build_port_index
  tried-unmatched p sized small port_small (IsTried.named e) k = k.0 p e
  tried-unmatched p sized small port_small (IsTried.null e t) k = k.1.0 p e t
  tried-unmatched p sized small port_small (IsTried.of_port l e n h) k =
      of_port-unmatched p sized small port_small l e n h k
  tried-unmatched p sized small port_small (IsTried.common l e n h) k =
      elim (Bool-cases (port_is_probable tunnel port p)) [
        | inl i ↦ of_port-unmatched p sized small port_small l e n i k
        | inr i ↦
            All-Elem
              (λ q.
                is_other intensity hinted q start ≡ true → set_match indexed buf q.fallbacks ≡ none)
              p db.probes k.1.1.1.1.0 l (rw (e, n, i, h) refl)
      ]
  tried-unmatched p sized small port_small (IsTried.dtls l h t) k =
      All-Elem
        (λ q.
          (q.protocol == ipproto_udp && port_is_ssl port q) ≡ true
          → set_match indexed buf q.fallbacks ≡ none)
        p db.probes (k.1.1.1.1.1 t) l h

  -- Where matching went on without a match and in the tunnel that it began in.
  going-Known :
      (svc : ServiceNfo)
      → match_all intensity indexed buf hinted start ≡ Progress.going svc
      → svc.soft_match_found ≡ false
      → svc.tunnel ≡ tunnel
      → Known indexed buf intensity hinted start
  going-Known svc e soft t = known (
      subst
        (Leads
          (Course start (HasMoved indexed buf start) (Known indexed buf intensity hinted start)))
        e (match_all-Course indexed buf intensity hinted start refl refl))
    where
      known :
          Course start (HasMoved indexed buf start) (Known indexed buf intensity hinted start) svc
          → Known indexed buf intensity hinted start
      known (inl (same, k)) = k
      known (inr (inl m)) = let h = m.0 in cc
      known (inr (inr (outside, inside))) = cc

abbrev pub engine_of : AllProbes → ℕ → Bool → ProbeEngine
engine_of db intensity ignore_exclude = record {
  ap = db;
  version_intensity = intensity;
  ignore_exclude = ignore_exclude;
}

-- The fallbacks of a probe that is to be tried do not match a response that nothing matches.
abbrev pub IsSilent :
    Clock
    → ℕ
    → Bool
    → ℕ
    → ℕ
    → ServiceTunnel
    → ℕ
    → List ℕ
    → MatchContext
    → ScanResult
    → ServiceProbe
    → AllProbes
    → Type 0
IsSilent now intensity ignore_exclude port proto tunnel c buf ctx r p db =
    All IsSized db.probes
    → (not ignore_exclude && is_excluded port proto db) ≡ false
    → match_response now (engine_of db intensity ignore_exclude) port proto tunnel (c ∷ buf) ctx
      ≡ some r
    → IsTried db (hint db proto ctx.probe_name) intensity proto tunnel port p
    → set_match db (c ∷ buf) p.fallbacks ≡ none

pub indexed-IsSilent :
    (now : Clock) (db : AllProbes) (intensity : ℕ) (ignore_exclude : Bool) (port proto : ℕ)
    (tunnel : ServiceTunnel) (c : ℕ) (buf : List ℕ) (ctx : MatchContext) (r : ScanResult)
    (p : ServiceProbe)
    → proto < 2 ^ 15
    → port < 2 ^ 16
    → r.state ≡ ProbeState.finished_nomatch
    → r.tunnel ≡ tunnel
    → IsSilent now intensity ignore_exclude port proto tunnel c buf ctx r p (build_port_index db)
unfolding match_response build_port_index
indexed-IsSilent now db intensity ignore_exclude port proto tunnel c buf ctx r p small port_small s
      t sized free h tried =
    let hinted = hint (build_port_index db) proto ctx.probe_name in
    let (svc, e, soft, same) =
      finish-nothing now (c ∷ buf)
        (match_all intensity (build_port_index db) (c ∷ buf) hinted
          (new_service port proto tunnel intensity))
        r (ground (arith, free, h)) s in
    tried-unmatched db (c ∷ buf) hinted intensity proto tunnel port p sized small port_small tried
      (going-Known db (c ∷ buf) hinted intensity proto tunnel port svc e soft (same ∙ t))
