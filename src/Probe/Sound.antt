-- ===== src/Probe/Sound.antt =====
-- What `matchResponse` of probe.cpp has found at each step.
use trinetra.Prelude.{
  ℕ, List, Bool, true, false, not, ◌&&◌, Option, none, some, ◌≡◌, refl, subst, inl, inr, Bool-cases,
  Option-cases, take, drop, if◌then◌else◌, ◌==◌, ltb,
}
use trinetra.Probe.Text.{bytes_of}
use trinetra.Probe.Types.{
  ipproto_tcp, ipproto_udp, ServiceTunnel, MatchDetails, ServiceProbe, AllProbes, Matched,
  ServiceNfo,
}
use trinetra.Probe.Match.{
  has_prefix, set_match, no_fields, fields_of, is_some, no_fingerprint, is_plain, is_tunnel, is_at,
  scan_through_tunnel, process_match, Progress, after_tunnel, after_match, try_probe_set,
}
use trinetra.Probe.Lookup.{port_is_ssl, probes_for_port}
use trinetra.Probe.Engine.{
  for_each, service_is_possible, if_possible, try_hinted, try_null, try_listed, after_listed,
  is_other, try_other, set_tunnel, try_dtls, dtls_step, match_all,
}
use trinetra.Probe.Progress.{Holds, and_then-Holds, for_each-Holds}
use trinetra.Probe.Explained.{IsExplained, set_match-IsExplained}

-- The name of a service without the mark of a tunnel.
abbrev pub shown : List ℕ → List ℕ
shown name = if has_prefix false (bytes_of "ssl/") name then take 79 (drop 4 name) else name

module _ (db : AllProbes) (buf : List ℕ) (port proto : ℕ) where
  -- Nothing was found, or the service of a soft rule.
  abbrev pub Status : Option (List ℕ) → Bool → Matched → Type 0
  Status none true fields = ⊥
  Status none false fields = fields ≡ no_fields
  Status (some name) soft fields = (soft ≡ true) × IsExplained db buf true name fields

  pub record IsOngoing (svc : ServiceNfo) : Type 0 where
    pub at_port : svc.portno ≡ port
    pub over : svc.proto ≡ proto
    pub blank : svc.fingerprint ≡ no_fingerprint
    pub status : Status svc.probe_matched svc.soft_match_found svc.matched

  pub record IsEnded (svc : ServiceNfo) : Type 0 where
    pub at_port : svc.portno ≡ port
    pub over : svc.proto ≡ proto
    pub blank : svc.fingerprint ≡ no_fingerprint
    pub name : List ℕ
    pub service : svc.probe_matched ≡ some (shown name)
    pub explained : IsExplained db buf false name svc.matched

  abbrev Fine : Progress → Type 0
  Fine = Holds IsOngoing IsEnded

  abbrev matched_as : List ℕ → Bool → Matched → ServiceNfo → ServiceNfo
  matched_as name soft fields svc = record svc {
    probe_matched = some name;
    soft_match_found = soft;
    matched = fields;
  }

  tunnel-Fine :
      (name : List ℕ) (fields : Matched) (svc : ServiceNfo)
      → IsOngoing svc
      → IsExplained db buf false name fields
      → Fine (after_tunnel (scan_through_tunnel (matched_as name false fields svc)))
  unfolding scan_through_tunnel
  tunnel-Fine name fields svc h k = elim (Bool-cases (has_prefix false (bytes_of "ssl/") name)) [
    | inl e ↦ rw e (record {
      at_port = h.at_port;
      over = h.over;
      blank = h.blank;
      name = name;
      service = rw e refl;
      explained = k;
    })
    | inr e ↦ elim (Bool-cases (is_plain svc.tunnel && is_tunnel name)) [
      | inl i ↦
          rw (e, i) (record { at_port = h.at_port; over = h.over; blank = refl; status = refl })
      | inr i ↦
          rw (e, i)
            (record {
              at_port = h.at_port;
              over = h.over;
              blank = h.blank;
              name = name;
              service = rw e refl;
              explained = k;
            })
    ]
  ]

  process-Fine :
      (soft before : Bool) (md : MatchDetails) (svc : ServiceNfo)
      → md.is_soft ≡ soft
      → is_some svc.probe_matched ≡ before
      → IsOngoing svc
      → IsExplained db buf md.is_soft md.service_name (fields_of md.found)
      → Fine (after_match (process_match md svc))
  unfolding process_match
  process-Fine true false md svc e b h k =
      rw (e, b)
        (record {
          at_port = h.at_port;
          over = h.over;
          blank = h.blank;
          status = (
            refl,
            subst (λ soft. IsExplained db buf soft md.service_name (fields_of md.found)) e k,
          );
        })
  process-Fine true true md svc e b h k = rw (e, b) h
  process-Fine false before md svc e b h k = rw e (
      tunnel-Fine md.service_name (fields_of md.found) svc h
        (subst (λ soft. IsExplained db buf soft md.service_name (fields_of md.found)) e k))

  try_probe_set-Fine :
      (p : ServiceProbe) (svc : ServiceNfo) → IsOngoing svc → Fine (try_probe_set db buf p svc)
  unfolding try_probe_set
  try_probe_set-Fine p svc h = elim (Option-cases (set_match db buf p.fallbacks)) [
    | inl n ↦ rw n h
    | inr (md, s) ↦ rw s (
        process-Fine md.is_soft (is_some svc.probe_matched) md svc refl refl h
          (set_match-IsExplained db buf p.fallbacks md s))
  ]

  if_possible-Fine :
      (p : ServiceProbe) (svc : ServiceNfo) (name : Option (List ℕ)) (soft : Bool)
      → IsOngoing svc
      → soft ≡ true
      → Status name soft svc.matched
      → Fine (if_possible p name (try_probe_set db buf p svc) (Progress.going svc))
  if_possible-Fine p svc none true h e k = absurd k
  if_possible-Fine p svc none false h e k = cc
  if_possible-Fine p svc (some name) soft h e k =
      elim (Bool-cases (service_is_possible p.detected_services name)) [
        | inl i ↦ rw i (try_probe_set-Fine p svc h)
        | inr i ↦ rw i h
      ]

  step-Fine :
      (go : Bool) (r : Progress) (svc : ServiceNfo)
      → IsOngoing svc
      → Fine r
      → Fine (if go then r else Progress.going svc)
  step-Fine true r svc h k = k
  step-Fine false r svc h k = h

  skip-Fine :
      (skip : Bool) (r : Progress) (svc : ServiceNfo)
      → IsOngoing svc
      → Fine r
      → Fine (if skip then Progress.going svc else r)
  skip-Fine true r svc h k = h
  skip-Fine false r svc h k = k

  soft-Fine :
      (soft more : Bool) (p : ServiceProbe) (svc : ServiceNfo)
      → svc.soft_match_found ≡ soft
      → IsOngoing svc
      → Fine (
          if soft && more
          then if_possible p svc.probe_matched (try_probe_set db buf p svc) (Progress.going svc)
          else try_probe_set db buf p svc)
  soft-Fine true true p svc e h =
      if_possible-Fine p svc svc.probe_matched svc.soft_match_found h e h.status
  soft-Fine true false p svc e h = try_probe_set-Fine p svc h
  soft-Fine false more p svc e h = try_probe_set-Fine p svc h

  listed-Fine :
      (hinted : Option ServiceProbe) (p : ServiceProbe) (svc : ServiceNfo)
      → IsOngoing svc
      → Fine (try_listed db buf hinted p svc)
  listed-Fine hinted p svc h =
      skip-Fine (is_at p.self hinted) _ svc h (listed svc.soft_match_found refl)
    where
      listed :
          (soft : Bool)
          → svc.soft_match_found ≡ soft
          → Fine (
              if soft
              then if_possible p svc.probe_matched (try_probe_set db buf p svc) (Progress.going svc)
              else try_probe_set db buf p svc)
      listed true e = soft-Fine true true p svc e h
      listed false e = soft-Fine false true p svc e h

  Status-soft :
      (name : Option (List ℕ)) (soft : Bool) (fields : Matched)
      → Status name soft fields
      → (is_some name && not soft) ≡ false
  Status-soft none soft fields h = refl
  Status-soft (some name) soft fields h = rw h.0 refl

  after_listed-Fine : (svc : ServiceNfo) → IsOngoing svc → Fine (after_listed svc)
  after_listed-Fine svc h =
      rw (Status-soft svc.probe_matched svc.soft_match_found svc.matched h.status) h

  dtls-Fine : (p : ServiceProbe) (svc : ServiceNfo) → IsOngoing svc → Fine (try_dtls db buf p svc)
  dtls-Fine p svc h = step-Fine (p.protocol == ipproto_udp && port_is_ssl svc.portno p) _ svc h (
      and_then-Holds IsOngoing IsOngoing IsEnded
        (try_probe_set db buf p (set_tunnel ServiceTunnel.ssl svc))
        (λ after. Progress.going (set_tunnel ServiceTunnel.plain after))
        (try_probe_set-Fine p (set_tunnel ServiceTunnel.ssl svc)
          (record { at_port = h.at_port; over = h.over; blank = h.blank; status = h.status }))
        λ after k. record {
          at_port = k.at_port;
          over = k.over;
          blank = k.blank;
          status = k.status;
        })

  hinted-Fine :
      (hinted : Option ServiceProbe) (svc : ServiceNfo)
      → IsOngoing svc
      → Fine (try_hinted db buf hinted svc)
  hinted-Fine none svc h = h
  hinted-Fine (some p) svc h = try_probe_set-Fine p svc h

  null-Fine :
      (hinted null : Option ServiceProbe) (svc : ServiceNfo)
      → IsOngoing svc
      → Fine (try_null db buf hinted null svc)
  null-Fine hinted none svc h = h
  null-Fine hinted (some p) svc h =
      step-Fine (svc.proto == ipproto_tcp && not (is_at p.self hinted)) _ svc h
        (try_probe_set-Fine p svc h)

  -- Every step keeps what was found explained.
  pub match_all-Fine :
      (intensity : ℕ) (hinted : Option ServiceProbe) (svc : ServiceNfo)
      → IsOngoing svc
      → Holds IsOngoing IsEnded (match_all intensity db buf hinted svc)
  unfolding match_all
  match_all-Fine intensity hinted svc h =
      and_then-Holds IsOngoing IsOngoing IsEnded (try_hinted db buf hinted svc) _
        (hinted-Fine hinted svc h)
        λ s1 h1.
          and_then-Holds IsOngoing IsOngoing IsEnded (try_null db buf hinted db.null_probe s1) _
            (null-Fine hinted db.null_probe s1 h1)
            λ s2 h2.
              and_then-Holds IsOngoing IsOngoing IsEnded
                (for_each (try_listed db buf hinted)
                  (probes_for_port s2.proto s2.tunnel s2.portno db) s2)
                _
                (for_each-Holds IsOngoing IsEnded (try_listed db buf hinted)
                  (probes_for_port s2.proto s2.tunnel s2.portno db) (λ p l. listed-Fine hinted p) s2
                  h2)
                λ s3 h3.
                  and_then-Holds IsOngoing IsOngoing IsEnded (after_listed s3) _
                    (after_listed-Fine s3 h3)
                    λ s4 h4.
                      and_then-Holds IsOngoing IsOngoing IsEnded
                        (for_each (try_other intensity db buf hinted) db.probes s4)
                        (dtls_step db buf)
                        (for_each-Holds IsOngoing IsEnded (try_other intensity db buf hinted)
                          db.probes
                          (λ p l s k.
                            step-Fine (is_other intensity hinted p s) _ s k
                              (soft-Fine s.soft_match_found (ltb intensity 9) p s refl k))
                          s4 h4)
                        λ s5 h5. step-Fine (s5.proto == ipproto_udp && is_plain s5.tunnel) _ s5 h5 (
                          for_each-Holds IsOngoing IsEnded (try_dtls db buf) db.probes
                            (λ p l. dtls-Fine p) s5 h5)
