-- ===== src/Probe/Engine.antt =====
-- `ProbeEngine::matchResponse` of probe.cpp, step by step as its comments number them.
use trinetra.Prelude.{
  ℕ, Bool, false, not, ◌&&◌, ◌||◌, List, [], ◌∷◌, ◌++◌, Option, none, some, ltb, ◌==◌,
  if◌then◌else◌, length, map_some,
}
use trinetra.Probe.Text.{bytes_of, text_eq, has_char}
use trinetra.Probe.Fingerprint.{FingerprintInfo, Fingerprint, add_to_fingerprint}
use trinetra.Probe.Types.{
  ipproto_tcp, ipproto_udp, ServiceTunnel, ServiceProbe, AllProbes, ProbeState, ServiceNfo,
  ScanResult, MatchContext, ProbeEngine,
}
use trinetra.Probe.Match.{
  Progress, try_probe_set, is_plain, is_at, is_some, no_fields, no_fingerprint,
}
use trinetra.Probe.Lookup.{
  get_probe_by_name, contains, is_excluded, probes_for_port, port_is_probable, port_is_ssl,
}

-- The local time of a fingerprint: the month and the day, and the seconds since 1970.
pub record Clock : Type 0 where
  pub month : ℕ
  pub day : ℕ
  pub time : ℕ

-- What follows a step, unless matching is over.
abbrev pub and_then : Progress → (ServiceNfo → Progress) → Progress
and_then (Progress.going svc) k = k svc
and_then (Progress.done_hard svc) k = Progress.done_hard svc
and_then Progress.fault k = Progress.fault

unfoldable pub for_each :
    (ServiceProbe → ServiceNfo → Progress) → List ServiceProbe → ServiceNfo → Progress
for_each step [] svc = Progress.going svc
for_each step (p ∷ probes) svc = and_then (step p svc) (for_each step probes)

-- `serviceIsPossible`, which compares with the name it is given.
unfoldable pub service_is_possible : List (List ℕ) → List ℕ → Bool
unfolding text_eq
service_is_possible [] name = false
service_is_possible (s ∷ services) name = text_eq s name || service_is_possible services name

abbrev pub if_possible : ServiceProbe → Option (List ℕ) → Progress → Progress → Progress
if_possible p none possible other = Progress.fault
if_possible p (some name) possible other =
    if service_is_possible p.detected_services name then possible else other

-- 0. the probe that generated this response
abbrev pub try_hinted : AllProbes → List ℕ → Option ServiceProbe → ServiceNfo → Progress
try_hinted ap buf none svc = Progress.going svc
try_hinted ap buf (some p) svc = try_probe_set ap buf p svc

-- 1. the NULL probe
abbrev pub try_null :
    AllProbes → List ℕ → Option ServiceProbe → Option ServiceProbe → ServiceNfo → Progress
try_null ap buf hinted none svc = Progress.going svc
try_null ap buf hinted (some p) svc =
    if svc.proto == ipproto_tcp && not (is_at p.self hinted)
    then try_probe_set ap buf p svc
    else Progress.going svc

-- 2. probes that list this port
abbrev pub try_listed :
    AllProbes → List ℕ → Option ServiceProbe → ServiceProbe → ServiceNfo → Progress
try_listed ap buf hinted p svc =
    if is_at p.self hinted
    then Progress.going svc
    else if svc.soft_match_found
    then if_possible p svc.probe_matched (try_probe_set ap buf p svc) (Progress.going svc)
    else try_probe_set ap buf p svc

abbrev pub after_listed : ServiceNfo → Progress
after_listed svc =
    if is_some svc.probe_matched && not svc.soft_match_found
    then Progress.done_hard svc
    else Progress.going svc

-- 3. all other probes
abbrev pub is_other : ℕ → Option ServiceProbe → ServiceProbe → ServiceNfo → Bool
is_other intensity hinted p svc =
    p.protocol == svc.proto
    && not (is_at p.self hinted)
    && not (port_is_probable svc.tunnel svc.portno p)
    && (svc.soft_match_found || not (ltb intensity p.rarity))

abbrev pub try_other :
    ℕ → AllProbes → List ℕ → Option ServiceProbe → ServiceProbe → ServiceNfo → Progress
try_other intensity ap buf hinted p svc =
    if is_other intensity hinted p svc
    then (if svc.soft_match_found && ltb intensity 9
        then if_possible p svc.probe_matched (try_probe_set ap buf p svc) (Progress.going svc)
        else try_probe_set ap buf p svc)
    else Progress.going svc

-- 4. UDP probes that list this port as DTLS
abbrev pub set_tunnel : ServiceTunnel → ServiceNfo → ServiceNfo
set_tunnel t svc = record svc { tunnel = t }

abbrev pub try_dtls : AllProbes → List ℕ → ServiceProbe → ServiceNfo → Progress
try_dtls ap buf p svc =
    if p.protocol == ipproto_udp && port_is_ssl svc.portno p
    then and_then (try_probe_set ap buf p (set_tunnel ServiceTunnel.ssl svc))
        (λ after. Progress.going (set_tunnel ServiceTunnel.plain after))
    else Progress.going svc

abbrev pub dtls_step : AllProbes → List ℕ → ServiceNfo → Progress
dtls_step ap buf svc =
    if svc.proto == ipproto_udp && is_plain svc.tunnel
    then for_each (try_dtls ap buf) ap.probes svc
    else Progress.going svc

unfoldable pub match_all : ℕ → AllProbes → List ℕ → Option ServiceProbe → ServiceNfo → Progress
unfolding for_each try_probe_set service_is_possible port_is_probable has_char
match_all intensity ap buf hinted svc = and_then (try_hinted ap buf hinted svc) (λ svc.
    and_then (try_null ap buf hinted ap.null_probe svc) (λ svc.
      and_then
        (for_each (try_listed ap buf hinted) (probes_for_port svc.proto svc.tunnel svc.portno ap)
          svc)
        (λ svc. and_then (after_listed svc) (λ svc.
          and_then (for_each (try_other intensity ap buf hinted) ap.probes svc)
            (dtls_step ap buf)))))

-- `getFingerprint`, which ends it with a semicolon.
abbrev pub get_fingerprint : Fingerprint → List ℕ
get_fingerprint f = if length f.servicefp == 0 then [] else f.servicefp ++ b';' ∷ []

abbrev pub text_of : Option (List ℕ) → List ℕ
text_of none = []
text_of (some s) = s

unfoldable pub build_result : ServiceNfo → ScanResult
build_result svc = record {
  port = svc.portno;
  proto = svc.proto;
  state = svc.probe_state;
  tunnel = svc.tunnel;
  service = text_of svc.probe_matched;
  matched = svc.matched;
  fingerprint = get_fingerprint svc.fingerprint;
}

abbrev pub info_of : Clock → ServiceNfo → FingerprintInfo
info_of now svc = record {
  portno = svc.portno;
  is_tcp = svc.proto == ipproto_tcp;
  is_ssl = not (is_plain svc.tunnel);
  version_intensity = svc.version_intensity;
  month = now.month;
  day = now.day;
  time = now.time;
}

abbrev pub with_state : ProbeState → ServiceNfo → ServiceNfo
with_state s svc = record svc { probe_state = s }

abbrev pub no_match : Clock → List ℕ → ServiceNfo → Option ServiceNfo
no_match now buf svc =
    map_some (λ f. record svc { probe_state = ProbeState.finished_nomatch; fingerprint = f })
      (add_to_fingerprint (info_of now svc) (bytes_of "(all probes)") buf svc.fingerprint)

-- `none` is a fault.
unfoldable pub finish : Clock → List ℕ → Progress → Option ScanResult
unfolding add_to_fingerprint build_result
finish now buf Progress.fault = none
finish now buf (Progress.done_hard svc) =
    some (build_result (with_state ProbeState.finished_hardmatched svc))
finish now buf (Progress.going svc) =
    if svc.soft_match_found
    then some (build_result (with_state ProbeState.finished_softmatched svc))
    else map_some build_result (no_match now buf svc)

abbrev pub new_service : ℕ → ℕ → ServiceTunnel → ℕ → ServiceNfo
new_service port proto tunnel intensity = record {
  portno = port;
  proto = proto;
  version_intensity = intensity;
  tunnel = tunnel;
  probe_matched = none;
  soft_match_found = false;
  matched = no_fields;
  probe_state = ProbeState.finished_nomatch;
  fingerprint = no_fingerprint;
}

abbrev pub tcpwrapped_limit : Option ServiceProbe → ℕ
tcpwrapped_limit none = 3000
tcpwrapped_limit (some p) = p.tcpwrapped_ms

abbrev pub is_quick : ℕ → Option ℕ → Bool
is_quick limit none = false
is_quick limit (some elapsed) = ltb elapsed limit

abbrev pub is_wrapped : AllProbes → ℕ → MatchContext → Bool
is_wrapped ap proto ctx =
    proto == ipproto_tcp
    && ctx.closed_without_data
    && is_quick (tcpwrapped_limit ap.null_probe) ctx.elapsed_ms

-- No data came.
unfoldable pub without_data : AllProbes → MatchContext → ServiceNfo → ScanResult
unfolding build_result
without_data ap ctx svc =
    if is_wrapped ap svc.proto ctx
    then record (build_result (with_state ProbeState.finished_tcpwrapped svc)) {
      service = bytes_of "tcpwrapped";
    }
    else build_result (with_state ProbeState.finished_nomatch svc)

abbrev pub excluded_result : ℕ → ℕ → ScanResult
excluded_result port proto = record {
  port = port;
  proto = proto;
  state = ProbeState.finished_excluded;
  tunnel = ServiceTunnel.plain;
  service = bytes_of "Excluded from version scan";
  matched = no_fields;
  fingerprint = [];
}

abbrev pub hint : AllProbes → ℕ → Option (List ℕ) → Option ServiceProbe
hint ap proto none = none
hint ap proto (some []) = none
hint ap proto (some (c ∷ name)) = get_probe_by_name (c ∷ name) proto ap

abbrev pub match_data : Clock → ProbeEngine → MatchContext → List ℕ → ServiceNfo → Option ScanResult
match_data now e ctx [] svc = some (without_data e.ap ctx svc)
match_data now e ctx (c ∷ buf) svc =
    finish now (c ∷ buf)
      (match_all e.version_intensity e.ap (c ∷ buf) (hint e.ap svc.proto ctx.probe_name) svc)

unfoldable pub match_response :
    Clock → ProbeEngine → ℕ → ℕ → ServiceTunnel → List ℕ → MatchContext → Option ScanResult
unfolding finish match_all without_data get_probe_by_name contains
match_response now e port proto tunnel buf ctx =
    if not e.ignore_exclude && is_excluded port proto e.ap
    then some (excluded_result port proto)
    else match_data now e ctx buf (new_service port proto tunnel e.version_intensity)
