-- ===== src/NetCapture/Types.antt =====
-- net_capture.hpp: the findings, the options, the counters and the tables of a capture.
use Prim.Native.String.{String}
use text.Mathlib.Text.{◌==◌ as str_eq}
use text.Mathlib.TextEquality.{eq_iff}
use trinetra.Prelude.{ℕ, ◌+◌, ◌*◌, ◌%◌, ◌^◌, ◌≡◌, ◌↔◌, Bool, true, false, ◌&&◌, List, arith, ◌==◌}

pub data PortState : Type 0 where
  open_port closed_port : PortState

pub data Proto : Type 0 where
  tcp quic dns : Proto

pub data IpVersion : Type 0 where
  v4 v6 : IpVersion

-- The five fields that a finding, the pending entries and a reported key have in common.
pub record Flow : Type 0 where
  pub ip_version : IpVersion
  pub initiator_ip : String
  pub initiator_port : ℕ
  pub responder_ip : String
  pub responder_port : ℕ

-- `observed_at` is a reading of the steady clock, in nanoseconds.
pub record Finding : Type 0 where
  pub proto : Proto
  pub flow : Flow
  pub state : PortState
  pub observed_at : ℕ

-- The options that the packet handlers and the sweep read; times in milliseconds.
pub record Options : Type 0 where
  pub pending_timeout_ms : ℕ
  pub sweep_interval_ms : ℕ
  pub report_closed : Bool
  pub quic_port : ℕ
  pub detect_quic : Bool
  pub dns_port : ℕ
  pub detect_dns : Bool
  pub detect_established_traffic : Bool
  pub dedup_window_ms : ℕ
  pub duration_ms : ℕ

pub record Stats : Type 0 where
  pub packets_seen : ℕ
  pub syn_seen : ℕ
  pub synack_seen : ℕ
  pub rst_seen : ℕ
  pub matched_open : ℕ
  pub matched_closed : ℕ
  pub pending_expired : ℕ
  pub ack_seen : ℕ
  pub finack_seen : ℕ
  pub pshack_seen : ℕ
  pub psh_seen : ℕ
  pub matched_open_established : ℕ
  pub quic_initial_seen : ℕ
  pub quic_matched_open : ℕ
  pub quic_pending_expired : ℕ
  pub dns_query_seen : ℕ
  pub dns_matched_open : ℕ
  pub dns_pending_expired : ℕ
  pub duplicates_suppressed : ℕ

pub record PendingSyn : Type 0 where
  pub flow : Flow
  pub syn_seq : ℕ
  pub sent_at : ℕ

-- `PendingQuic` and `PendingDns` have the same fields.
pub record PendingUdp : Type 0 where
  pub flow : Flow
  pub sent_at : ℕ

pub record ReportedKey : Type 0 where
  pub proto : Proto
  pub flow : Flow
  pub state : PortState
  pub last_reported : ℕ

pub record Capture : Type 0 where
  pub opts : Options
  pub stats : Stats
  pub pending : List PendingSyn
  pub pending_quic : List PendingUdp
  pub pending_dns : List PendingUdp
  pub reported : List ReportedKey

-- A `uint64_t` counter goes up by `n`.
abbrev pub add64 : ℕ → ℕ → ℕ
add64 c n = (c + n) % 2 ^ 64

abbrev pub nanos : ℕ → ℕ
nanos ms = ms * 1_000_000

-- `==` on the enumerations.
abbrev pub version_eq : IpVersion → IpVersion → Bool
version_eq v4 v4 = true
version_eq v6 v6 = true
version_eq _ _ = false

abbrev pub proto_eq : Proto → Proto → Bool
proto_eq tcp tcp = true
proto_eq quic quic = true
proto_eq dns dns = true
proto_eq _ _ = false

abbrev pub state_eq : PortState → PortState → Bool
state_eq open_port open_port = true
state_eq closed_port closed_port = true
state_eq _ _ = false

-- The test that every table search makes, in the order of the source.
unfoldable pub flow_eq : Flow → Flow → Bool
flow_eq a b =
    version_eq a.ip_version b.ip_version
    && str_eq a.initiator_ip b.initiator_ip
    && a.initiator_port == b.initiator_port
    && str_eq a.responder_ip b.responder_ip
    && a.responder_port == b.responder_port

version_eq_iff : (a b : IpVersion) → (version_eq a b ≡ true) ↔ (a ≡ b)
version_eq_iff v4 v4 = ground arith
version_eq_iff v4 v6 = ground arith
version_eq_iff v6 v4 = ground arith
version_eq_iff v6 v6 = ground arith

-- The test holds of equal flows only.
pub flow_eq_iff : (a b : Flow) → (flow_eq a b ≡ true) ↔ (a ≡ b)
unfolding flow_eq
flow_eq_iff a b = ground (
  arith,
  version_eq_iff a.ip_version b.ip_version,
  eq_iff a.initiator_ip b.initiator_ip,
  eq_iff a.responder_ip b.responder_ip,
)

-- A reply travels the other way: the flow with its two ends exchanged.
abbrev pub flow_of : IpVersion → String → ℕ → String → ℕ → Flow
flow_of v ip port ip' port' = record {
  ip_version = v;
  initiator_ip = ip;
  initiator_port = port;
  responder_ip = ip';
  responder_port = port';
}
