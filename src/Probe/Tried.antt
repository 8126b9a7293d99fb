-- ===== src/Probe/Tried.antt =====
-- What a probe's rules can change, and what is known while they change nothing.
use trinetra.Prelude.{
  ℕ, List, Bool, true, false, ◌&&◌, none, ◌≡◌, refl, ap, sym, ◌∙◌, ◌⊎◌, inl, inr, Bool-cases,
  Option-cases, arith, ◌==◌,
}
use trinetra.Probe.Text.{bytes_of}
use trinetra.Probe.Types.{
  ipproto_udp, ServiceTunnel, MatchDetails, ServiceProbe, AllProbes, ServiceNfo,
}
use trinetra.Probe.Match.{
  has_prefix, set_match, is_some, is_plain, is_tunnel, scan_through_tunnel, process_match, Progress,
  after_match, try_probe_set,
}
use trinetra.Probe.Lookup.{port_is_ssl}
use trinetra.Probe.Engine.{set_tunnel, try_dtls}
use trinetra.Probe.Progress.{Leads, and_then-Leads, Course, Leads-map, Leads-step, Course-step}

-- The ways in which matching goes on after a probe's rules.
data IsAfter (db : AllProbes) (buf : List ℕ) (p : ServiceProbe) (svc : ServiceNfo)
    : ServiceNfo → Type 0 where
  nothing : set_match db buf p.fallbacks ≡ none → IsAfter db buf p svc svc
  kept : is_some svc.probe_matched ≡ true → IsAfter db buf p svc svc
  soft :
      {after : ServiceNfo}
      → after.soft_match_found ≡ true
      → after.tunnel ≡ svc.tunnel
      → IsAfter db buf p svc after
  tunnel :
      {after : ServiceNfo}
      → svc.tunnel ≡ ServiceTunnel.plain
      → after.tunnel ≡ ServiceTunnel.ssl
      → IsAfter db buf p svc after

pub is_plain→plain : (t : ServiceTunnel) → is_plain t ≡ true → t ≡ ServiceTunnel.plain
is_plain→plain ServiceTunnel.plain h = refl
is_plain→plain ServiceTunnel.ssl h = cc

module _ (db : AllProbes) (buf : List ℕ) where
  process-IsAfter :
      (is_soft matched : Bool) (p : ServiceProbe) (md : MatchDetails) (svc : ServiceNfo)
      → md.is_soft ≡ is_soft
      → is_some svc.probe_matched ≡ matched
      → Leads (IsAfter db buf p svc) (after_match (process_match md svc))
  unfolding process_match scan_through_tunnel
  process-IsAfter true true p md svc e b = rw (e, b) (IsAfter.kept b)
  process-IsAfter true false p md svc e b = rw (e, b) (IsAfter.soft refl refl)
  process-IsAfter false matched p md svc e b =
      elim (Bool-cases (has_prefix false (bytes_of "ssl/") md.service_name)) [
        | inl s ↦ rw (e, s) tt
        | inr s ↦ elim (Bool-cases (is_plain svc.tunnel && is_tunnel md.service_name)) [
          | inl i ↦
              rw (e, s, i) (IsAfter.tunnel (is_plain→plain svc.tunnel (ground (arith, i))) refl)
          | inr i ↦ rw (e, s, i) tt
        ]
      ]

  try_probe_set-IsAfter :
      (p : ServiceProbe) (svc : ServiceNfo)
      → Leads (IsAfter db buf p svc) (try_probe_set db buf p svc)
  unfolding try_probe_set
  try_probe_set-IsAfter p svc = elim (Option-cases (set_match db buf p.fallbacks)) [
    | inl n ↦ rw n (IsAfter.nothing n)
    | inr (md, s) ↦ rw s (process-IsAfter md.is_soft (is_some svc.probe_matched) p md svc refl refl)
  ]

  module _ (start : ServiceNfo) where
    -- A soft match, or a tunnel that the request did not have.
    abbrev pub HasMoved : ServiceNfo → Type 0
    HasMoved svc =
        ((svc.soft_match_found ≡ true) × (svc.tunnel ≡ start.tunnel))
        ⊎ ((start.tunnel ≡ ServiceTunnel.plain) × (svc.tunnel ≡ ServiceTunnel.ssl))

    IsAfter-HasMoved :
        (p : ServiceProbe) (svc after : ServiceNfo)
        → HasMoved svc
        → IsAfter db buf p svc after
        → HasMoved after
    IsAfter-HasMoved p svc after m (IsAfter.nothing n) = m
    IsAfter-HasMoved p svc after m (IsAfter.kept k) = m
    IsAfter-HasMoved p svc after (inl (s, e)) (IsAfter.soft h t) = inl (h, t ∙ e)
    IsAfter-HasMoved p svc after (inr (s, e)) (IsAfter.soft h t) = inr (s, t ∙ e)
    IsAfter-HasMoved p svc after (inl (s, e)) (IsAfter.tunnel h t) = inr (sym e ∙ h, t)
    IsAfter-HasMoved p svc after (inr (s, e)) (IsAfter.tunnel h t) = inr (s, t)

    pub try_probe_set-HasMoved :
        (p : ServiceProbe) (svc : ServiceNfo)
        → HasMoved svc
        → Leads HasMoved (try_probe_set db buf p svc)
    try_probe_set-HasMoved p svc m =
        Leads-map (IsAfter db buf p svc) HasMoved (try_probe_set db buf p svc)
          (λ after. IsAfter-HasMoved p svc after m) (try_probe_set-IsAfter p svc)

    module _ (unmatched : start.probe_matched ≡ none) where
      IsAfter-Course :
          (p : ServiceProbe) (after : ServiceNfo)
          → IsAfter db buf p start after
          → Course start HasMoved (set_match db buf p.fallbacks ≡ none) after
      IsAfter-Course p after (IsAfter.nothing n) = inl (refl, n)
      IsAfter-Course p after (IsAfter.kept k) = let e = ap is_some unmatched in cc
      IsAfter-Course p after (IsAfter.soft h t) = inr (inl (h, t))
      IsAfter-Course p after (IsAfter.tunnel h t) = inr (inr (h, t))

      pub try_probe_set-Course :
          (p : ServiceProbe)
          → Leads
              (Course start HasMoved (set_match db buf p.fallbacks ≡ none))
              (try_probe_set db buf p start)
      try_probe_set-Course p =
          Leads-map (IsAfter db buf p start) _ (try_probe_set db buf p start) (IsAfter-Course p)
            (try_probe_set-IsAfter p start)

    -- A soft match that was found outside of a tunnel.
    abbrev pub IsSoft : ServiceNfo → Type 0
    IsSoft svc = (svc.soft_match_found ≡ true) × (svc.tunnel ≡ start.tunnel)

    module _ (outside : start.tunnel ≡ ServiceTunnel.plain) where
      abbrev back : ServiceNfo → ServiceNfo
      back = set_tunnel ServiceTunnel.plain

      IsAfter-IsSoft :
          (p : ServiceProbe) (svc after : ServiceNfo)
          → IsSoft svc
          → IsAfter db buf p (set_tunnel ServiceTunnel.ssl svc) after
          → IsSoft (back after)
      IsAfter-IsSoft p svc after m (IsAfter.nothing n) = (m.0, sym outside)
      IsAfter-IsSoft p svc after m (IsAfter.kept k) = (m.0, sym outside)
      IsAfter-IsSoft p svc after m (IsAfter.soft h t) = (h, sym outside)
      IsAfter-IsSoft p svc after m (IsAfter.tunnel h t) = cc

      pub try_dtls-IsSoft :
          (p : ServiceProbe) (svc : ServiceNfo) → IsSoft svc → Leads IsSoft (try_dtls db buf p svc)
      try_dtls-IsSoft p svc m =
          Leads-step IsSoft _ svc m
            (and_then-Leads (IsAfter db buf p (set_tunnel ServiceTunnel.ssl svc)) IsSoft
              (try_probe_set db buf p (set_tunnel ServiceTunnel.ssl svc))
              (λ after. Progress.going (back after))
              (try_probe_set-IsAfter p (set_tunnel ServiceTunnel.ssl svc))
              λ after. IsAfter-IsSoft p svc after m)
            (p.protocol == ipproto_udp && port_is_ssl svc.portno p)

      module _ (unmatched : start.probe_matched ≡ none) where
        IsAfter-Course_dtls :
            (p : ServiceProbe) (after : ServiceNfo)
            → IsAfter db buf p (set_tunnel ServiceTunnel.ssl start) after
            → Course start IsSoft (set_match db buf p.fallbacks ≡ none) (back after)
        IsAfter-Course_dtls p after (IsAfter.nothing n) =
            inl (ap (λ t. set_tunnel t start) (sym outside), n)
        IsAfter-Course_dtls p after (IsAfter.kept k) = let e = ap is_some unmatched in cc
        IsAfter-Course_dtls p after (IsAfter.soft h t) = inr (h, sym outside)
        IsAfter-Course_dtls p after (IsAfter.tunnel h t) = cc

        pub try_dtls-Course :
            (p : ServiceProbe)
            → Leads
                (Course start IsSoft (
                  (p.protocol == ipproto_udp && port_is_ssl start.portno p) ≡ true
                  → set_match db buf p.fallbacks ≡ none))
                (try_dtls db buf p start)
        try_dtls-Course p =
            Course-step start IsSoft (set_match db buf p.fallbacks ≡ none) _
              (and_then-Leads (IsAfter db buf p (set_tunnel ServiceTunnel.ssl start)) _
                (try_probe_set db buf p (set_tunnel ServiceTunnel.ssl start))
                (λ after. Progress.going (back after))
                (try_probe_set-IsAfter p (set_tunnel ServiceTunnel.ssl start))
                (IsAfter-Course_dtls p))
              (p.protocol == ipproto_udp && port_is_ssl start.portno p)
