-- ===== src/Probe/Examples.antt =====
-- The theorems on the service probes at a small database: a NULL probe that knows SSH, a probe for
-- HTTP with a rule for a tunnel, and a rare one that falls back to it.
use trinetra.Prelude.{
  ℕ, Bool, true, false, List, [], ◌∷◌, Option, none, some, if◌then◌else◌, ◌≡◌, refl, inl, All, map,
  arith,
}
use trinetra.Probe.Text.{bytes_of}
use trinetra.Probe.Fingerprint.{header_of, FingerprintInfo, digits, add_to_fingerprint}
use trinetra.Probe.Recorded.{Recorded, add_to_fingerprint-Recorded}
use trinetra.Probe.Types.{
  ServiceTunnel, Version, ServiceProbeMatch, ServiceProbe, ExcludedPorts, AllProbes, ProbeState,
  ScanResult, MatchContext,
}
use trinetra.Probe.Match.{has_prefix, no_fields, no_fingerprint, first_match, match_at, probe_at}
use trinetra.Probe.Lookup.{contains, probes_for_port, build_port_index}
use trinetra.Probe.Engine.{Clock, match_response}
use trinetra.Probe.Index.{IsSized, listing, probes_for_port-listing}
use trinetra.Probe.Reported.{Reported, no_fingerprint-IsKept, match_response-Reported}
use trinetra.Probe.NoMatch.{engine_of, IsTried}
use trinetra.Probe.Tries.{match_response-IsTried}
use trinetra.Probe.Fallbacks.{compile_fallbacks}
use trinetra.Probe.Compiled.{IsCompiled}
use trinetra.Probe.Compilation.{compile_fallbacks-IsCompiled}
use trinetra.Probe.Excluded.{parse}
use trinetra.Probe.Spec.{Item, spec_text}
use trinetra.Probe.Excluding.{parse-is_listed}

abbrev version_of : List ℕ → Version
version_of product = record {
  product = some product;
  version = none;
  info = none;
  hostname = none;
  ostype = none;
  devicetype = none;
  cpe_a = none;
  cpe_h = none;
  cpe_o = none;
}

abbrev rule_for : List ℕ → List ℕ → Bool → ServiceProbeMatch
rule_for prefix name soft = record {
  servicename = name;
  is_soft = soft;
  flag_i = false;
  prefix_literal = some prefix;
  regex = λ buf. if has_prefix false prefix buf then some (version_of (bytes_of "x")) else none;
}

abbrev probe_of :
    ℕ → List ℕ → ℕ → List ℕ → List ℕ → List ServiceProbeMatch → Option (List ℕ) → ServiceProbe
probe_of address name rarity ports ssl_ports rules fallback_str = record {
  self = address;
  probename = name;
  protocol = 6;
  rarity = rarity;
  tcpwrapped_ms = 3000;
  probable_ports = ports;
  probable_ssl_ports = ssl_ports;
  detected_services = bytes_of "http" ∷ [];
  matches = rules;
  fallback_str = fallback_str;
  fallbacks = address ∷ [];
}

abbrev null : ServiceProbe
null =
    probe_of 1 (bytes_of "NULL") 1 [] [] (rule_for (bytes_of "SSH-") (bytes_of "ssh") false ∷ [])
      none

abbrev get_request : ServiceProbe
get_request =
    probe_of 2 (bytes_of "GetRequest") 1 (80 ∷ 8080 ∷ []) (443 ∷ [])
      (rule_for (bytes_of "HTTP/") (bytes_of "http") true
        ∷ rule_for (bytes_of "TLS") (bytes_of "ssl") false
        ∷ [])
      none

abbrev rare : ServiceProbe
rare = probe_of 3 (bytes_of "Rare") 9 (80 ∷ []) [] [] (some (bytes_of "GetRequest, NULL"))

abbrev db : AllProbes
db = record {
  probes = get_request ∷ rare ∷ [];
  null_probe = some null;
  excluded_ports = record { tcp_ports = 9100 ∷ []; udp_ports = []; sctp_ports = [] };
  excluded_seen = true;
  port_index = λ k. [];
}

abbrev now : Clock
now = record { month = 11; day = 26; time = 1795680000 }

abbrev ctx : MatchContext
ctx = record { probe_name = none; closed_without_data = false; elapsed_ms = none }

abbrev info : FingerprintInfo
info = record {
  portno = 80;
  is_tcp = true;
  is_ssl = false;
  version_intensity = 4;
  month = 11;
  day = 26;
  time = 1795680000;
}

abbrev response : List ℕ
response = 0 ∷ b'7' ∷ b'"' ∷ 200 ∷ []

add_to_fingerprint-Recorded_example :
    Recorded
      (header_of info)
      (bytes_of "(all probes)")
      response
      []
      (add_to_fingerprint info (bytes_of "(all probes)") response no_fingerprint)
add_to_fingerprint-Recorded_example =
    add_to_fingerprint-Recorded info (bytes_of "(all probes)") response [] no_fingerprint
      no_fingerprint-IsKept (omega arith) (omega arith) (omega arith) (omega arith)

match_response-Reported_example : Reported (build_port_index db) (bytes_of "SSH-2.0") 22 6 (
    match_response now
      (engine_of (build_port_index db) 4 false)
      22
      6
      ServiceTunnel.plain
      (bytes_of "SSH-2.0")
      ctx)
unfolding build_port_index contains
match_response-Reported_example =
    match_response-Reported now (engine_of (build_port_index db) 4 false) 22 6 ServiceTunnel.plain
      b'S' (bytes_of "SH-2.0") ctx (omega arith) refl

abbrev found : ScanResult
found = record {
  port = 22;
  proto = 6;
  state = ProbeState.finished_hardmatched;
  tunnel = ServiceTunnel.plain;
  service = bytes_of "ssh";
  matched = record no_fields { product = bytes_of "x" };
  fingerprint = [];
}

match_response_run :
    match_response now
      (engine_of (build_port_index db) 4 false)
      22
      6
      ServiceTunnel.plain
      (bytes_of "SSH-2.0")
      ctx
    ≡ some found
unfolding match_response build_port_index
match_response_run = refl

sized : All IsSized (get_request ∷ rare ∷ [])
sized = (
  record { protocol_small = omega arith; ports_small = omega arith; ssl_ports_small = omega arith },
  (record { protocol_small = omega arith; ports_small = omega arith; ssl_ports_small = tt }, tt),
)

probes_for_port-listing_example :
    probes_for_port 6 ServiceTunnel.plain 80 (build_port_index db)
    ≡ listing 6 ServiceTunnel.plain 80 (get_request ∷ rare ∷ [])
probes_for_port-listing_example =
    probes_for_port-listing 6 ServiceTunnel.plain 80 (omega arith) (omega arith) db sized

abbrev result_or : ScanResult → Option ScanResult → ScanResult
result_or r none = r
result_or r (some s) = s

abbrev db_or : AllProbes → Option AllProbes → AllProbes
db_or d none = d
db_or d (some e) = e

abbrev compiled : AllProbes
compiled = db_or db (compile_fallbacks db)

compiled_first : compile_fallbacks db ≡ some compiled
unfolding compile_fallbacks build_port_index
compiled_first = refl

compile_fallbacks-IsCompiled_example : All (IsCompiled db) compiled.probes
compile_fallbacks-IsCompiled_example = compile_fallbacks-IsCompiled db compiled compiled_first

compiled_fallbacks : map (λ p. p.fallbacks) compiled.probes ≡ (2 ∷ 1 ∷ []) ∷ (3 ∷ 2 ∷ 1 ∷ []) ∷ []
unfolding compile_fallbacks build_port_index
compiled_fallbacks = refl

abbrev nothing : Option ScanResult
nothing =
    match_response now (engine_of compiled 4 false) 80 6 ServiceTunnel.plain (bytes_of "hi") ctx

abbrev silent : ScanResult
silent = result_or found nothing

abbrev compiled_get : ServiceProbe
compiled_get = record get_request { fallbacks = 2 ∷ 1 ∷ [] }

compiled-IsSized : All IsSized compiled.probes
unfolding compile_fallbacks build_port_index
compiled-IsSized = (
  record { protocol_small = omega arith; ports_small = omega arith; ssl_ports_small = omega arith },
  (record { protocol_small = omega arith; ports_small = omega arith; ssl_ports_small = tt }, tt),
)

match_response-IsTried_example :
    (first_match compiled_get.matches (bytes_of "hi") ≡ none)
    × All (λ a. match_at (probe_at compiled a) (bytes_of "hi") ≡ none) compiled_get.fallbacks
unfolding match_response compile_fallbacks build_port_index contains digits
match_response-IsTried_example =
    match_response-IsTried now db compiled 4 false 80 6 ServiceTunnel.plain b'h' (bytes_of "i") ctx
      silent compiled_get compiled_first compiled-IsSized (omega arith) (omega arith) refl refl refl
      refl (IsTried.of_port (inl refl) refl refl refl) refl

abbrev no_ports : ExcludedPorts
no_ports = record { tcp_ports = []; udp_ports = []; sctp_ports = [] }

abbrev item : Option ℕ → ℕ → Option (ℕ × List ℕ) → Item
item letter lo hi = record { letter = letter; lo_first = lo; lo_rest = b'0' ∷ []; hi = hi }

-- The items of `T:90-93,80,U:50`.
abbrev items : List Item
items =
    item (some b'T') b'9' (some (b'9', b'3' ∷ []))
    ∷ item none b'8' none
    ∷ item (some b'U') b'5' none
    ∷ []

items_text : spec_text items ≡ bytes_of "T:90-93,80,U:50"
items_text = refl

parse-is_listed_example : contains 92 6 (parse (spec_text items) no_ports) ≡ true
unfolding contains
parse-is_listed_example = parse-is_listed 92 6 items no_ports (inl refl) (
  record {
    letter_known = refl;
    lo_digits = (refl, (refl, tt));
    hi_digits = (refl, (refl, tt));
    in_order = omega arith;
    is_port = omega arith;
  },
  (
    record {
      letter_known = tt;
      lo_digits = (refl, (refl, tt));
      hi_digits = tt;
      in_order = omega arith;
      is_port = omega arith;
    },
    (
      record {
        letter_known = refl;
        lo_digits = (refl, (refl, tt));
        hi_digits = tt;
        in_order = omega arith;
        is_port = omega arith;
      },
      tt,
    ),
  ),
)
