-- ===== src/Probe/Reported.antt =====
-- What `matchResponse` of probe.cpp reports.
use trinetra.Prelude.{
  ℕ, ◌<◌, List, [], ◌∷◌, Bool, true, false, not, ◌&&◌, Option, none, some, ◌≡◌, refl, ap, subst,
  sym, inl, All, arith, map_some, if◌then◌else◌,
}
use trinetra.Probe.Text.{bytes_of}
use trinetra.Probe.Fingerprint.{Fingerprint, FingerprintInfo, header_of, add_to_fingerprint}
use trinetra.Probe.Wrap.{Wrapped}
use trinetra.Probe.Recorded.{IsKept, Recorded, add_to_fingerprint-Recorded}
use trinetra.Probe.Types.{
  ServiceTunnel, AllProbes, ProbeState, ServiceNfo, ScanResult, MatchContext, ProbeEngine,
}
use trinetra.Probe.Match.{Progress, no_fields, no_fingerprint}
use trinetra.Probe.Lookup.{is_excluded}
use trinetra.Probe.Engine.{
  Clock, get_fingerprint, build_result, info_of, finish, new_service, hint, text_of, match_response,
}
use trinetra.Probe.Progress.{Holds}
use trinetra.Probe.Explained.{IsExplained}
use trinetra.Probe.Sound.{shown, IsOngoing, IsEnded, Status, match_all-Fine}

-- The reasons for a result of each state, for a response.
abbrev pub Accounts : AllProbes → List ℕ → ScanResult → ProbeState → Type 0
Accounts db buf r ProbeState.finished_hardmatched =
    (name : List ℕ) × IsExplained db buf false name r.matched × (r.service ≡ shown name)
Accounts db buf r ProbeState.finished_softmatched = IsExplained db buf true r.service r.matched
Accounts db buf r ProbeState.finished_nomatch =
    (r.service ≡ [])
    × (r.matched ≡ no_fields)
    × (info : FingerprintInfo) × (f : Fingerprint) × (info.portno ≡ r.port)
    × Recorded (header_of info) (bytes_of "(all probes)") buf [] (some f)
    × (r.fingerprint ≡ get_fingerprint f)
Accounts db buf r ProbeState.finished_excluded = ⊥
Accounts db buf r ProbeState.finished_tcpwrapped = ⊥

abbrev pub Reported : AllProbes → List ℕ → ℕ → ℕ → Option ScanResult → Type 0
Reported db buf port proto none = ⊥
Reported db buf port proto (some r) =
    (r.port ≡ port) × (r.proto ≡ proto) × Accounts db buf r r.state

pub no_fingerprint-IsKept : IsKept no_fingerprint []
no_fingerprint-IsKept = record {
  room = record { allocated = inl refl; fits = omega arith };
  wrapped = Wrapped.end;
  ended = inl refl;
}

module _ (now : Clock) (db : AllProbes) (buf : List ℕ) (port proto : ℕ) where
  recorded :
      (info : FingerprintInfo) (f : Fingerprint)
      → f ≡ no_fingerprint
      → All (λ c. c < 256) buf
      → Recorded
          (header_of info)
          (bytes_of "(all probes)")
          buf
          []
          (add_to_fingerprint info (bytes_of "(all probes)") buf f)
  recorded info f e h =
      subst
        (λ g.
          Recorded (header_of info) (bytes_of "(all probes)") buf []
            (add_to_fingerprint info (bytes_of "(all probes)") buf g))
        (sym e)
        (add_to_fingerprint-Recorded info (bytes_of "(all probes)") buf [] no_fingerprint
          no_fingerprint-IsKept (omega arith) (omega arith) (omega arith) h)

  nothing-Reported :
      (info : FingerprintInfo) (svc : ServiceNfo) (name : Option (List ℕ)) (fp : Option Fingerprint)
      → info.portno ≡ svc.portno
      → svc.portno ≡ port
      → svc.proto ≡ proto
      → svc.probe_matched ≡ name
      → Status db buf port proto name false svc.matched
      → Recorded (header_of info) (bytes_of "(all probes)") buf [] fp
      → Reported db buf port proto (
          map_some build_result (
            map_some
              (λ f. record svc { probe_state = ProbeState.finished_nomatch; fingerprint = f })
              fp))
  unfolding build_result
  nothing-Reported info svc name none i e m b h k = absurd k
  nothing-Reported info svc (some name) (some f) i e m b h k = cc
  nothing-Reported info svc none (some f) i e m b h k =
      (e, m, (ap text_of b, h, info, f, i, k, refl))

  soft-Reported :
      (svc : ServiceNfo) (name : Option (List ℕ))
      → svc.portno ≡ port
      → svc.proto ≡ proto
      → svc.probe_matched ≡ name
      → Status db buf port proto name true svc.matched
      → Reported db buf port proto
          (some (build_result (record svc { probe_state = ProbeState.finished_softmatched })))
  unfolding build_result
  soft-Reported svc none e m b h = absurd h
  soft-Reported svc (some name) e m b h =
      (e, m, subst (λ t. IsExplained db buf true t svc.matched) (sym (ap text_of b)) h.1)

  if-Reported :
      (soft : Bool) (x y : Option ScanResult)
      → (soft ≡ true → Reported db buf port proto x)
      → (soft ≡ false → Reported db buf port proto y)
      → Reported db buf port proto (if soft then x else y)
  if-Reported true x y h k = h refl
  if-Reported false x y h k = k refl

  going-Reported :
      (svc : ServiceNfo)
      → All (λ c. c < 256) buf
      → IsOngoing db buf port proto svc
      → Reported db buf port proto (finish now buf (Progress.going svc))
  unfolding finish
  going-Reported svc h k =
      if-Reported svc.soft_match_found _ _
        (λ e.
          soft-Reported svc svc.probe_matched k.at_port k.over refl
            (subst (λ s. Status db buf port proto svc.probe_matched s svc.matched) e k.status))
        (λ e.
          nothing-Reported (info_of now svc) svc svc.probe_matched _ refl k.at_port k.over refl
            (subst (λ s. Status db buf port proto svc.probe_matched s svc.matched) e k.status)
            (recorded (info_of now svc) svc.fingerprint k.blank h))

  finish-Reported :
      (r : Progress)
      → All (λ c. c < 256) buf
      → Holds (IsOngoing db buf port proto) (IsEnded db buf port proto) r
      → Reported db buf port proto (finish now buf r)
  unfolding finish build_result
  finish-Reported Progress.fault h k = absurd k
  finish-Reported (Progress.done_hard svc) h k =
      (k.at_port, k.over, (k.name, k.explained, ap text_of k.service))
  finish-Reported (Progress.going svc) h k = going-Reported svc h k

-- For a response of at least one byte to a port that is not excluded: there is a result, for that
-- port and protocol. A hard match has the name, without a leading `ssl/`, and the fields of a hard
-- rule of a probe of the database that matches the response. A soft match has those of a soft rule
-- that matches it. And with no match there is no service, and the response, up to
-- its first 900 bytes, can be read back from the fingerprint.
pub match_response-Reported :
    (now : Clock) (e : ProbeEngine) (port proto : ℕ) (tunnel : ServiceTunnel) (c : ℕ) (buf : List ℕ)
    (ctx : MatchContext)
    → All (λ b. b < 256) (c ∷ buf)
    → (not e.ignore_exclude && is_excluded port proto e.ap) ≡ false
    → Reported e.ap (c ∷ buf) port proto (match_response now e port proto tunnel (c ∷ buf) ctx)
unfolding match_response
match_response-Reported now e port proto tunnel c buf ctx h free = rw free (
    finish-Reported now e.ap (c ∷ buf) port proto _ h (
      match_all-Fine e.ap (c ∷ buf) port proto e.version_intensity (hint e.ap proto ctx.probe_name)
        (new_service port proto tunnel e.version_intensity)
        (record { at_port = refl; over = refl; blank = refl; status = refl })))
