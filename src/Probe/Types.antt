-- ===== src/Probe/Types.antt =====
-- The types of probe.hpp. A null pointer to a text is `none`, and a text has no byte 0.
use trinetra.Prelude.{ℕ, Bool, List, Option}
use trinetra.Probe.Fingerprint.{Fingerprint}

abbrev pub ipproto_tcp : ℕ
ipproto_tcp = 6

abbrev pub ipproto_udp : ℕ
ipproto_udp = 17

abbrev pub ipproto_sctp : ℕ
ipproto_sctp = 132

abbrev pub max_fallbacks : ℕ
max_fallbacks = 20

-- `plain` is NONE.
pub data ServiceTunnel : Type 0 where
  plain ssl : ServiceTunnel

pub data ProbeState : Type 0 where
  finished_hardmatched finished_softmatched finished_nomatch finished_excluded finished_tcpwrapped :
      ProbeState

-- What the templates of a rule give for a response.
pub record Version : Type 0 where
  pub product : Option (List ℕ)
  pub version : Option (List ℕ)
  pub info : Option (List ℕ)
  pub hostname : Option (List ℕ)
  pub ostype : Option (List ℕ)
  pub devicetype : Option (List ℕ)
  pub cpe_a : Option (List ℕ)
  pub cpe_h : Option (List ℕ)
  pub cpe_o : Option (List ℕ)

pub record MatchDetails : Type 0 where
  pub is_soft : Bool
  pub service_name : List ℕ
  pub found : Version

-- `regex` is what PCRE2 and the templates give for a response, if the pattern matches.
pub record ServiceProbeMatch : Type 0 where
  pub servicename : List ℕ
  pub is_soft : Bool
  pub flag_i : Bool
  pub prefix_literal : Option (List ℕ)
  pub regex : List ℕ → Option Version

-- `self` is the address of the object, and `fallbacks` has the addresses before the null.
pub record ServiceProbe : Type 0 where
  pub self : ℕ
  pub probename : List ℕ
  pub protocol : ℕ
  pub rarity : ℕ
  pub tcpwrapped_ms : ℕ
  pub probable_ports : List ℕ
  pub probable_ssl_ports : List ℕ
  pub detected_services : List (List ℕ)
  pub matches : List ServiceProbeMatch
  pub fallback_str : Option (List ℕ)
  pub fallbacks : List ℕ

pub record ExcludedPorts : Type 0 where
  pub tcp_ports : List ℕ
  pub udp_ports : List ℕ
  pub sctp_ports : List ℕ

pub record AllProbes : Type 0 where
  pub probes : List ServiceProbe
  pub null_probe : Option ServiceProbe
  pub excluded_ports : ExcludedPorts
  pub excluded_seen : Bool
  pub port_index : ℕ → List ServiceProbe

-- The fields of a service that a match fills.
pub record Matched : Type 0 where
  pub product : List ℕ
  pub version : List ℕ
  pub extrainfo : List ℕ
  pub hostname : List ℕ
  pub ostype : List ℕ
  pub devicetype : List ℕ
  pub cpe_a : List ℕ
  pub cpe_h : List ℕ
  pub cpe_o : List ℕ

pub record ServiceNfo : Type 0 where
  pub portno : ℕ
  pub proto : ℕ
  pub version_intensity : ℕ
  pub tunnel : ServiceTunnel
  pub probe_matched : Option (List ℕ)
  pub soft_match_found : Bool
  pub matched : Matched
  pub probe_state : ProbeState
  pub fingerprint : Fingerprint

pub record ScanResult : Type 0 where
  pub port : ℕ
  pub proto : ℕ
  pub state : ProbeState
  pub tunnel : ServiceTunnel
  pub service : List ℕ
  pub matched : Matched
  pub fingerprint : List ℕ

-- An unknown time is `none`.
pub record MatchContext : Type 0 where
  pub probe_name : Option (List ℕ)
  pub closed_without_data : Bool
  pub elapsed_ms : Option ℕ

pub record ProbeEngine : Type 0 where
  pub ap : AllProbes
  pub version_intensity : ℕ
  pub ignore_exclude : Bool
