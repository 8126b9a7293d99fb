-- ===== src/Probe/Steps.antt =====
-- What each step of `matchResponse` tells where nothing was found in it.
use trinetra.Prelude.{
  ℕ, List, Bool, true, false, not, ◌&&◌, Option, none, some, ◌≡◌, refl, ap, sym, ◌∙◌, subst, inl,
  inr, Bool-cases, All, arith, if◌then◌else◌, ◌==◌, ltb,
}
use trinetra.Probe.Types.{
  ipproto_tcp, ipproto_udp, ServiceTunnel, ServiceProbe, AllProbes, ServiceNfo,
}
use trinetra.Probe.Match.{set_match, is_some, is_plain, is_at, Progress, try_probe_set}
use trinetra.Probe.Lookup.{port_is_ssl}
use trinetra.Probe.Engine.{
  if_possible, try_hinted, try_null, try_listed, after_listed, is_other, try_other, try_dtls,
  dtls_step,
}
use trinetra.Probe.Progress.{
  Leads, for_each-Leads, Course, for_each-Course, Leads-map, Leads-step, Leads-skip, Leads-possible,
  Course-step, Course-skip,
}
use trinetra.Probe.Tried.{
  is_plain→plain, HasMoved, IsSoft, try_probe_set-HasMoved, try_probe_set-Course, try_dtls-IsSoft,
  try_dtls-Course,
}

module _ (db : AllProbes) (buf : List ℕ) (start : ServiceNfo) where
  abbrev Moved : ServiceNfo → Type 0
  Moved = HasMoved db buf start

  abbrev pub Unmatched : ServiceProbe → Type 0
  Unmatched p = set_match db buf p.fallbacks ≡ none

  hinted-HasMoved :
      (hinted : Option ServiceProbe) (svc : ServiceNfo)
      → Moved svc
      → Leads Moved (try_hinted db buf hinted svc)
  hinted-HasMoved none svc m = m
  hinted-HasMoved (some p) svc m = try_probe_set-HasMoved db buf start p svc m

  pub null-HasMoved :
      (hinted null : Option ServiceProbe) (svc : ServiceNfo)
      → Moved svc
      → Leads Moved (try_null db buf hinted null svc)
  null-HasMoved hinted none svc m = m
  null-HasMoved hinted (some p) svc m =
      Leads-step Moved _ svc m (try_probe_set-HasMoved db buf start p svc m)
        (svc.proto == ipproto_tcp && not (is_at p.self hinted))

  possible-HasMoved :
      (p : ServiceProbe) (svc : ServiceNfo) (strict : Bool)
      → Moved svc
      → Leads Moved (
          if strict
          then if_possible p svc.probe_matched (try_probe_set db buf p svc) (Progress.going svc)
          else try_probe_set db buf p svc)
  possible-HasMoved p svc true m =
      Leads-possible Moved _ svc m (try_probe_set-HasMoved db buf start p svc m) p svc.probe_matched
  possible-HasMoved p svc false m = try_probe_set-HasMoved db buf start p svc m

  pub listed-HasMoved :
      (hinted : Option ServiceProbe) (p : ServiceProbe) (svc : ServiceNfo)
      → Moved svc
      → Leads Moved (try_listed db buf hinted p svc)
  listed-HasMoved hinted p svc m =
      Leads-skip Moved _ svc m (possible-HasMoved p svc svc.soft_match_found m)
        (is_at p.self hinted)

  pub other-HasMoved :
      (intensity : ℕ) (hinted : Option ServiceProbe) (p : ServiceProbe) (svc : ServiceNfo)
      → Moved svc
      → Leads Moved (try_other intensity db buf hinted p svc)
  other-HasMoved intensity hinted p svc m =
      Leads-step Moved _ svc m (possible-HasMoved p svc (svc.soft_match_found && ltb intensity 9) m)
        (is_other intensity hinted p svc)

  pub after_listed-HasMoved : (svc : ServiceNfo) → Moved svc → Leads Moved (after_listed svc)
  after_listed-HasMoved svc m = after (is_some svc.probe_matched && not svc.soft_match_found)
    where
      after :
          (over : Bool) → Leads Moved (if over then Progress.done_hard svc else Progress.going svc)
      after true = tt
      after false = m

  pub dtls_step-HasMoved : (svc : ServiceNfo) → Moved svc → Leads Moved (dtls_step db buf svc)
  dtls_step-HasMoved svc m = elim (Bool-cases (is_plain svc.tunnel)) [
    | inl e ↦ inside m (is_plain→plain svc.tunnel e)
    | inr e ↦
        let g : (svc.proto == ipproto_udp && is_plain svc.tunnel) ≡ false = ground (arith, e) in
        rw g m
  ]
    where
      inside : Moved svc → svc.tunnel ≡ ServiceTunnel.plain → Leads Moved (dtls_step db buf svc)
      inside (inr (p, e)) t = cc
      inside (inl m) t =
          Leads-step Moved _ svc (inl m)
            (Leads-map (IsSoft db buf start) Moved _ (λ after. inl)
              (for_each-Leads (IsSoft db buf start) (try_dtls db buf)
                (try_dtls-IsSoft db buf start (sym m.1 ∙ t)) db.probes svc m))
            (svc.proto == ipproto_udp && is_plain svc.tunnel)

  module _ (unmatched : start.probe_matched ≡ none) (hard : start.soft_match_found ≡ false) where
    abbrev Goes : Type 0 → Progress → Type 0
    Goes C = Leads (Course start Moved C)

    pub hinted-Course :
        (hinted : Option ServiceProbe)
        → Goes ((p : ServiceProbe) → hinted ≡ some p → Unmatched p) (try_hinted db buf hinted start)
    hinted-Course none = inl (refl, λ p e. cc)
    hinted-Course (some q) =
        Leads-map (Course start Moved (Unmatched q)) _ (try_probe_set db buf q start) known
          (try_probe_set-Course db buf start unmatched q)
      where
        known :
            (svc : ServiceNfo)
            → Course start Moved (Unmatched q) svc
            → Course start Moved ((p : ServiceProbe) → some q ≡ some p → Unmatched p) svc
        known svc (inl (e, n)) = inl (e, λ p i. ground (arith, n, i))
        known svc (inr m) = inr m

    pub null-Course :
        (hinted null : Option ServiceProbe)
        → Goes
            ((p : ServiceProbe)
              → null ≡ some p
              → (start.proto == ipproto_tcp && not (is_at p.self hinted)) ≡ true
              → Unmatched p)
            (try_null db buf hinted null start)
    null-Course hinted none = inl (refl, λ p e. cc)
    null-Course hinted (some q) =
        Leads-map (Course start Moved (tested q → Unmatched q)) _ _ known (
          Course-step start Moved (Unmatched q) (try_probe_set db buf q start)
            (try_probe_set-Course db buf start unmatched q)
            (start.proto == ipproto_tcp && not (is_at q.self hinted)))
      where
        tested : ServiceProbe → Type 0
        tested p = (start.proto == ipproto_tcp && not (is_at p.self hinted)) ≡ true

        known :
            (svc : ServiceNfo)
            → Course start Moved (tested q → Unmatched q) svc
            → Course start Moved ((p : ServiceProbe) → some q ≡ some p → tested p → Unmatched p) svc
        known svc (inl (e, n)) = inl (
          e,
          λ p i. let at : q ≡ p = ground (arith, i) in subst (λ r. tested r → Unmatched r) at n,
        )
        known svc (inr m) = inr m

    unless_soft :
        (C : Type 0) (soft : Bool) (x y : Progress)
        → soft ≡ false
        → Goes C y
        → Goes C (if soft then x else y)
    unless_soft C true x y e h = cc
    unless_soft C false x y e h = h

    pub listed-Course :
        (hinted : Option ServiceProbe) (p : ServiceProbe)
        → Goes (is_at p.self hinted ≡ false → Unmatched p) (try_listed db buf hinted p start)
    listed-Course hinted p =
        Course-skip start Moved (Unmatched p) _
          (unless_soft (Unmatched p) start.soft_match_found _ _ hard
            (try_probe_set-Course db buf start unmatched p))
          (is_at p.self hinted)

    pub other-Course :
        (intensity : ℕ) (hinted : Option ServiceProbe) (p : ServiceProbe)
        → Goes
            (is_other intensity hinted p start ≡ true → Unmatched p)
            (try_other intensity db buf hinted p start)
    other-Course intensity hinted p =
        Course-step start Moved (Unmatched p) _
          (unless_soft (Unmatched p) (start.soft_match_found && ltb intensity 9) _ _
            (ap (λ soft. soft && ltb intensity 9) hard)
            (try_probe_set-Course db buf start unmatched p))
          (is_other intensity hinted p start)

    pub after_listed-Course : Goes Unit (after_listed start)
    after_listed-Course = going_on _ (ap (λ m. is_some m && not start.soft_match_found) unmatched)
      where
        going_on :
            (over : Bool)
            → over ≡ false
            → Goes Unit (if over then Progress.done_hard start else Progress.going start)
        going_on true e = cc
        going_on false e = inl (refl, tt)

    pub dtls_step-Course :
        Goes
          ((start.proto == ipproto_udp && is_plain start.tunnel) ≡ true
            → All
                (λ p.
                  (p.protocol == ipproto_udp && port_is_ssl start.portno p) ≡ true → Unmatched p)
                db.probes)
          (dtls_step db buf start)
    dtls_step-Course = guarded _ _ (start.proto == ipproto_udp && is_plain start.tunnel) λ e.
        let outside = is_plain→plain start.tunnel (ground (arith, e)) in
        Leads-map (Course start (IsSoft db buf start) _) _ _ inner (
          for_each-Course start (IsSoft db buf start) _ (try_dtls db buf)
            (try_dtls-Course db buf start outside unmatched) (try_dtls-IsSoft db buf start outside)
            db.probes)
      where
        guarded :
            (C : Type 0) (r : Progress) (b : Bool)
            → (b ≡ true → Goes C r)
            → Goes (b ≡ true → C) (if b then r else Progress.going start)
        guarded C r true h = Course-step start Moved C r (h refl) true
        guarded C r false h = inl (refl, λ e. cc)

        inner :
            {C : Type 0} (svc : ServiceNfo)
            → Course start (IsSoft db buf start) C svc
            → Course start Moved C svc
        inner svc (inl k) = inl k
        inner svc (inr m) = inr (inl m)
