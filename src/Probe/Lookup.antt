-- ===== src/Probe/Lookup.antt =====
-- How probe.cpp finds a probe: by its name, and by a port in the index that it builds.
use trinetra.Prelude.{
  ℕ, ◌+◌, ◌*◌, ◌%◌, ◌^◌, Bool, false, ◌&&◌, List, [], ◌∷◌, ◌++◌, Option, none, some, ◌==◌,
  if◌then◌else◌,
}
use trinetra.Probe.Text.{text_eq, has_char}
use trinetra.Probe.Types.{
  ipproto_tcp, ipproto_udp, ipproto_sctp, ServiceTunnel, ServiceProbe, ExcludedPorts, AllProbes,
}
use trinetra.Probe.Match.{find_probe, or_else}

abbrev pub has_name : List ℕ → ServiceProbe → Bool
has_name name p = text_eq p.probename name

abbrev pub null_probe_named : ℕ → List ℕ → Option ServiceProbe → Option ServiceProbe
null_probe_named proto name none = none
null_probe_named proto name (some p) =
    if proto == ipproto_tcp && has_name name p then some p else none

unfoldable pub get_probe_by_name : List ℕ → ℕ → AllProbes → Option ServiceProbe
unfolding text_eq find_probe
get_probe_by_name name proto ap = or_else (null_probe_named proto name ap.null_probe) (
    or_else (find_probe (λ p. p.protocol == proto && has_name name p) ap.probes)
      (find_probe (has_name name) ap.probes))

unfoldable pub contains : ℕ → ℕ → ExcludedPorts → Bool
unfolding has_char
contains port proto e =
    if proto == ipproto_tcp
    then has_char port e.tcp_ports
    else if proto == ipproto_udp
    then has_char port e.udp_ports
    else if proto == ipproto_sctp
    then has_char port e.sctp_ports
    else false

abbrev pub is_excluded : ℕ → ℕ → AllProbes → Bool
is_excluded port proto ap =
    if ap.excluded_seen then contains port proto ap.excluded_ports else false

abbrev pub tunnel_bit : ServiceTunnel → ℕ
tunnel_bit ServiceTunnel.plain = 0
tunnel_bit ServiceTunnel.ssl = 1

-- A port is a 16-bit number, so that the or of the three parts is their sum.
abbrev pub port_index_key : ℕ → ServiceTunnel → ℕ → ℕ
port_index_key proto tunnel port = (proto * 2 ^ 17 + tunnel_bit tunnel * 2 ^ 16 + port) % 2 ^ 32

abbrev pub probes_for_port : ℕ → ServiceTunnel → ℕ → AllProbes → List ServiceProbe
probes_for_port proto tunnel port ap = ap.port_index (port_index_key proto tunnel port)

abbrev pub ports_of : ServiceTunnel → ServiceProbe → List ℕ
ports_of ServiceTunnel.ssl p = p.probable_ssl_ports
ports_of ServiceTunnel.plain p = p.probable_ports

unfoldable pub port_is_probable : ServiceTunnel → ℕ → ServiceProbe → Bool
unfolding has_char
port_is_probable tunnel port p = has_char port (ports_of tunnel p)

abbrev pub port_is_ssl : ℕ → ServiceProbe → Bool
port_is_ssl port p = has_char port p.probable_ssl_ports

-- The index is a map from a key to the probes pushed at it.
abbrev pub push_at : ServiceProbe → ℕ → (ℕ → List ServiceProbe) → ℕ → List ServiceProbe
push_at p key index k = if k == key then index k ++ p ∷ [] else index k

unfoldable pub index_ports :
    ServiceTunnel → ServiceProbe → List ℕ → (ℕ → List ServiceProbe) → ℕ → List ServiceProbe
index_ports tunnel p [] index k = index k
index_ports tunnel p (port ∷ ports) index k =
    index_ports tunnel p ports (push_at p (port_index_key p.protocol tunnel port) index) k

unfoldable pub index_probes : List ServiceProbe → (ℕ → List ServiceProbe) → ℕ → List ServiceProbe
unfolding index_ports
index_probes [] index k = index k
index_probes (p ∷ probes) index k =
    index_probes probes
      (index_ports ServiceTunnel.ssl p p.probable_ssl_ports
        (index_ports ServiceTunnel.plain p p.probable_ports index))
      k

unfoldable pub build_port_index : AllProbes → AllProbes
unfolding index_probes
build_port_index ap = record ap { port_index = index_probes ap.probes (λ k. []) }
