-- ===== src/Probe/Match.antt =====
-- What one probe's rules give for a response in probe.cpp, and what the engine does with it.
use trinetra.Prelude.{
  ℕ, ◌+◌, ◌-◌, Bool, true, false, not, ◌&&◌, ◌||◌, List, [], ◌∷◌, Option, none, some, ◌==◌,
  if◌then◌else◌, take, drop, map_some,
}
use trinetra.Probe.Text.{bytes_of, text_eq, isupper}
use trinetra.Probe.Fingerprint.{Fingerprint}
use trinetra.Probe.Types.{
  ServiceTunnel, Version, MatchDetails, ServiceProbeMatch, ServiceProbe, AllProbes, Matched,
  ServiceNfo,
}

abbrev pub tolower : ℕ → ℕ
tolower c = if isupper c then c + 32 else c

-- `memcmp` and `strncasecmp` over the literal, which the response is long enough for. A literal
-- that is compared without case is taken to have no byte 0, at which `strncasecmp` stops.
unfoldable pub has_prefix : Bool → List ℕ → List ℕ → Bool
has_prefix caseless [] buf = true
has_prefix caseless (c ∷ s) [] = false
has_prefix caseless (c ∷ s) (b ∷ buf) =
    (if caseless then tolower c == tolower b else c == b) && has_prefix caseless s buf

abbrev pub passes_filter : Bool → Option (List ℕ) → List ℕ → Bool
passes_filter caseless none buf = true
passes_filter caseless (some literal) buf = has_prefix caseless literal buf

-- `none` is a result with no service's name.
unfoldable pub test_match : ServiceProbeMatch → List ℕ → Option MatchDetails
unfolding has_prefix
test_match m buf =
    if passes_filter m.flag_i m.prefix_literal buf
    then map_some (λ v. record { is_soft = m.is_soft; service_name = m.servicename; found = v })
        (m.regex buf)
    else none

-- The first rule that matches.
abbrev pub or_else {ℓ} : {A : Type ℓ} → Option A → Option A → Option A
or_else none y = y
or_else (some x) y = some x

unfoldable pub first_match : List ServiceProbeMatch → List ℕ → Option MatchDetails
unfolding test_match
first_match [] buf = none
first_match (m ∷ matches) buf = or_else (test_match m buf) (first_match matches buf)

abbrev pub has_address : ℕ → ServiceProbe → Bool
has_address address p = p.self == address

unfoldable pub find_probe : (ServiceProbe → Bool) → List ServiceProbe → Option ServiceProbe
find_probe test [] = none
find_probe test (p ∷ probes) = let rest = find_probe test probes in if test p then some p else rest

abbrev pub is_at : ℕ → Option ServiceProbe → Bool
is_at address none = false
is_at address (some p) = p.self == address

-- The object at an address.
abbrev pub probe_at : AllProbes → ℕ → Option ServiceProbe
probe_at ap address =
    if is_at address ap.null_probe
    then ap.null_probe
    else find_probe (has_address address) ap.probes

abbrev pub match_at : Option ServiceProbe → List ℕ → Option MatchDetails
match_at none buf = none
match_at (some p) buf = first_match p.matches buf

-- The first match along the fallbacks.
unfoldable pub set_match : AllProbes → List ℕ → List ℕ → Option MatchDetails
unfolding find_probe first_match
set_match ap buf [] = none
set_match ap buf (fb ∷ fallbacks) =
    or_else (match_at (probe_at ap fb) buf) (set_match ap buf fallbacks)

abbrev pub no_fields : Matched
no_fields = record {
  product = [];
  version = [];
  extrainfo = [];
  hostname = [];
  ostype = [];
  devicetype = [];
  cpe_a = [];
  cpe_h = [];
  cpe_o = [];
}

-- `copyField`, into a field of a size.
abbrev pub copy_field : ℕ → Option (List ℕ) → List ℕ
copy_field size none = []
copy_field size (some s) = take (size - 1) s

abbrev pub fields_of : Version → Matched
fields_of v = record {
  product = copy_field 80 v.product;
  version = copy_field 80 v.version;
  extrainfo = copy_field 256 v.info;
  hostname = copy_field 80 v.hostname;
  ostype = copy_field 32 v.ostype;
  devicetype = copy_field 32 v.devicetype;
  cpe_a = copy_field 80 v.cpe_a;
  cpe_h = copy_field 80 v.cpe_h;
  cpe_o = copy_field 80 v.cpe_o;
}

abbrev pub is_some {ℓ} : {A : Type ℓ} → Option A → Bool
is_some none = false
is_some (some a) = true

-- Whether the match is a hard one, and the service with it.
unfoldable pub process_match : MatchDetails → ServiceNfo → Bool × ServiceNfo
process_match md svc = if md.is_soft && is_some svc.probe_matched then (false, svc) else (
  not md.is_soft,
  record svc {
    probe_matched = some md.service_name;
    soft_match_found = md.is_soft;
    matched = fields_of md.found;
  },
)

abbrev pub no_fingerprint : Fingerprint
no_fingerprint = record { servicefp = []; alloc = 0 }

abbrev pub is_plain : ServiceTunnel → Bool
is_plain ServiceTunnel.plain = true
is_plain ServiceTunnel.ssl = false

abbrev pub is_tunnel : List ℕ → Bool
is_tunnel name = text_eq name (bytes_of "ssl") || text_eq name (bytes_of "dtls")

abbrev pub tunnelled : Option (List ℕ) → ServiceNfo → Bool × ServiceNfo
tunnelled none svc = (false, svc)
tunnelled (some name) svc =
    if has_prefix false (bytes_of "ssl/") name
    then (
      false,
      record svc { probe_matched = some (take 79 (drop 4 name)); tunnel = ServiceTunnel.ssl },
    )
    else if is_plain svc.tunnel && is_tunnel name
    then (
      true,
      record svc {
        tunnel = ServiceTunnel.ssl;
        probe_matched = none;
        soft_match_found = false;
        matched = no_fields;
        fingerprint = no_fingerprint;
      },
    )
    else (false, svc)

-- Whether the matching goes on inside of a tunnel.
unfoldable pub scan_through_tunnel : ServiceNfo → Bool × ServiceNfo
unfolding has_prefix text_eq
scan_through_tunnel svc = tunnelled svc.probe_matched svc

-- Matching goes on, or `goto done_hard`, or a null pointer is read.
pub data Progress : Type 0 where
  going : ServiceNfo → Progress
  done_hard : ServiceNfo → Progress
  fault : Progress

abbrev pub after_tunnel : Bool × ServiceNfo → Progress
after_tunnel (true, svc) = Progress.going svc
after_tunnel (false, svc) = Progress.done_hard svc

abbrev pub after_match : Bool × ServiceNfo → Progress
after_match (true, svc) = after_tunnel (scan_through_tunnel svc)
after_match (false, svc) = Progress.going svc

abbrev pub on_match : Option MatchDetails → ServiceNfo → Progress
on_match none svc = Progress.going svc
on_match (some md) svc = after_match (process_match md svc)

-- `tryProbeSet`, and what follows on a hard match.
unfoldable pub try_probe_set : AllProbes → List ℕ → ServiceProbe → ServiceNfo → Progress
unfolding set_match process_match scan_through_tunnel
try_probe_set ap buf p svc = on_match (set_match ap buf p.fallbacks) svc
