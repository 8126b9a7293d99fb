-- ===== src/Probe/Complete.antt =====
-- Which probes `matchResponse` of probe.cpp tries before it reports that nothing matched.
use trinetra.Prelude.{ℕ, List, true, false, not, ◌&&◌, Option, none, some, ◌≡◌, All, ◌==◌}
use trinetra.Probe.Types.{ipproto_tcp, ipproto_udp, ServiceProbe, AllProbes, ServiceNfo}
use trinetra.Probe.Match.{is_plain, is_at, Progress}
use trinetra.Probe.Lookup.{port_is_ssl, probes_for_port}
use trinetra.Probe.Engine.{
  for_each, and_then, try_hinted, try_null, try_listed, after_listed, is_other, try_other,
  dtls_step, match_all,
}
use trinetra.Probe.Progress.{
  Leads, Course, and_then-Course, and_then-Leads, for_each-Leads, for_each-Course,
}
use trinetra.Probe.Tried.{HasMoved}
use trinetra.Probe.Steps.{
  Unmatched, null-HasMoved, listed-HasMoved, other-HasMoved, after_listed-HasMoved,
  dtls_step-HasMoved, hinted-Course, null-Course, listed-Course, after_listed-Course, other-Course,
  dtls_step-Course,
}

module _ (db : AllProbes) (buf : List ℕ) (intensity : ℕ) (hinted : Option ServiceProbe)
    (start : ServiceNfo) where
  -- What is known when no step found a rule.
  abbrev pub Known : Type 0
  Known =
      ((p : ServiceProbe) → hinted ≡ some p → Unmatched db buf start p)
      × (((p : ServiceProbe)
            → db.null_probe ≡ some p
            → (start.proto == ipproto_tcp && not (is_at p.self hinted)) ≡ true
            → Unmatched db buf start p)
          × (All (λ p. is_at p.self hinted ≡ false → Unmatched db buf start p)
                (probes_for_port start.proto start.tunnel start.portno db)
              × (Unit
                  × (All (λ p. is_other intensity hinted p start ≡ true → Unmatched db buf start p)
                        db.probes
                      × ((start.proto == ipproto_udp && is_plain start.tunnel) ≡ true
                          → All
                              (λ p.
                                (p.protocol == ipproto_udp && port_is_ssl start.portno p) ≡ true
                                → Unmatched db buf start p)
                              db.probes)))))

  abbrev Moved : ServiceNfo → Type 0
  Moved = HasMoved db buf start

  -- The steps from one on.
  abbrev from_other : ServiceNfo → Progress
  from_other svc =
      and_then (for_each (try_other intensity db buf hinted) db.probes svc) (dtls_step db buf)

  abbrev from_after : ServiceNfo → Progress
  from_after svc = and_then (after_listed svc) from_other

  abbrev from_listed : ServiceNfo → Progress
  from_listed svc =
      and_then
        (for_each (try_listed db buf hinted) (probes_for_port svc.proto svc.tunnel svc.portno db)
          svc)
        from_after

  abbrev from_null : ServiceNfo → Progress
  from_null svc = and_then (try_null db buf hinted db.null_probe svc) from_listed

  from_other-HasMoved : (svc : ServiceNfo) → Moved svc → Leads Moved (from_other svc)
  from_other-HasMoved svc m =
      and_then-Leads Moved Moved (for_each (try_other intensity db buf hinted) db.probes svc)
        (dtls_step db buf)
        (for_each-Leads Moved (try_other intensity db buf hinted)
          (other-HasMoved db buf start intensity hinted) db.probes svc m)
        (dtls_step-HasMoved db buf start)

  from_after-HasMoved : (svc : ServiceNfo) → Moved svc → Leads Moved (from_after svc)
  from_after-HasMoved svc m =
      and_then-Leads Moved Moved (after_listed svc) from_other
        (after_listed-HasMoved db buf start svc m) from_other-HasMoved

  from_listed-HasMoved : (svc : ServiceNfo) → Moved svc → Leads Moved (from_listed svc)
  from_listed-HasMoved svc m =
      and_then-Leads Moved Moved _ from_after
        (for_each-Leads Moved (try_listed db buf hinted) (listed-HasMoved db buf start hinted)
          (probes_for_port svc.proto svc.tunnel svc.portno db) svc m)
        from_after-HasMoved

  from_null-HasMoved : (svc : ServiceNfo) → Moved svc → Leads Moved (from_null svc)
  from_null-HasMoved svc m =
      and_then-Leads Moved Moved (try_null db buf hinted db.null_probe svc) from_listed
        (null-HasMoved db buf start hinted db.null_probe svc m) from_listed-HasMoved

  module _ (unmatched : start.probe_matched ≡ none) (hard : start.soft_match_found ≡ false) where
    pub match_all-Course :
        Leads (Course start Moved Known) (match_all intensity db buf hinted start)
    unfolding match_all
    match_all-Course =
        and_then-Course start Moved _ _ (try_hinted db buf hinted start) from_null
          (hinted-Course db buf start unmatched hard hinted)
          (and_then-Course start Moved _ _ (try_null db buf hinted db.null_probe start) from_listed
            (null-Course db buf start unmatched hard hinted db.null_probe)
            (and_then-Course start Moved _ _ _ from_after
              (for_each-Course start Moved _ (try_listed db buf hinted)
                (listed-Course db buf start unmatched hard hinted)
                (listed-HasMoved db buf start hinted)
                (probes_for_port start.proto start.tunnel start.portno db))
              (and_then-Course start Moved _ _ (after_listed start) from_other
                (after_listed-Course db buf start unmatched hard)
                (and_then-Course start Moved _ _ _ (dtls_step db buf)
                  (for_each-Course start Moved _ (try_other intensity db buf hinted)
                    (other-Course db buf start unmatched hard intensity hinted)
                    (other-HasMoved db buf start intensity hinted) db.probes)
                  (dtls_step-Course db buf start unmatched hard) (dtls_step-HasMoved db buf start))
                from_other-HasMoved)
              from_after-HasMoved)
            from_listed-HasMoved)
          from_null-HasMoved
