-- ===== src/NetCapture/Examples.antt =====
-- Concrete captures and frames for net_capture.cpp, and runs over them.
use Prim.Native.String.{String}
use trinetra.Prelude.{
  ℕ, ◌≡◌, refl, ◌≢◌, true, false, List, [], ◌∷◌, ◌++◌, some, arith, All, ◌==◌, if◌then◌else◌,
  take_first, update_first,
}
use trinetra.NetCapture.Types.{
  Capture, Finding, Flow, IpVersion, Options, Stats, flow_eq, v4, tcp, open_port,
}
use trinetra.NetCapture.Bytes.{bytes}
use trinetra.NetCapture.Tcp.{
  tcp_finding, tcp_segment, tcp_header, on_syn, on_synack, answers, handle_tcp,
}
use trinetra.NetCapture.Dedupe.{report, dedupe_and_mark, marked, mark, same_key}
use trinetra.NetCapture.Frame.{handle_packet, dispatch, count_packet}
use trinetra.NetCapture.Run.{Loop, Round, run, do_round, end_round}
use trinetra.NetCapture.Safety.{Succeeds, run-Succeeds}
use trinetra.NetCapture.Tidy.{IsTidy, run-IsTidy}
use trinetra.NetCapture.Reported.{finding_key}
use trinetra.NetCapture.Window.{InWindow, run-after_report}

-- A stand-in for the C library: enough to tell two hosts apart.
abbrev host_name : IpVersion → List ℕ → String
host_name v [] = "?"
host_name v (b ∷ bs) = if b == 10 then "10.0.0.1" else "192.0.2.7"

abbrev defaults : Options
defaults = record {
  pending_timeout_ms = 4000;
  sweep_interval_ms = 1000;
  report_closed = true;
  quic_port = 443;
  detect_quic = true;
  dns_port = 53;
  detect_dns = true;
  detect_established_traffic = false;
  dedup_window_ms = 5000;
  duration_ms = 0;
}

abbrev no_stats : Stats
no_stats = record {
  packets_seen = 0;
  syn_seen = 0;
  synack_seen = 0;
  rst_seen = 0;
  matched_open = 0;
  matched_closed = 0;
  pending_expired = 0;
  ack_seen = 0;
  finack_seen = 0;
  pshack_seen = 0;
  psh_seen = 0;
  matched_open_established = 0;
  quic_initial_seen = 0;
  quic_matched_open = 0;
  quic_pending_expired = 0;
  dns_query_seen = 0;
  dns_matched_open = 0;
  dns_pending_expired = 0;
  duplicates_suppressed = 0;
}

abbrev pub fresh : Capture
fresh = record {
  opts = defaults;
  stats = no_stats;
  pending = [];
  pending_quic = [];
  pending_dns = [];
  reported = [];
}

-- Ethernet, IPv4 and TCP: 10.0.0.1:4660 to 192.0.2.7:80, a SYN with sequence number 2^32 - 1.
abbrev frame_of : List ℕ → List ℕ → List ℕ
frame_of addresses segment =
    0
    ∷ 0
    ∷ 0
    ∷ 0
    ∷ 0
    ∷ 0
    ∷ 0
    ∷ 0
    ∷ 0
    ∷ 0
    ∷ 0
    ∷ 0
    ∷ 8
    ∷ 0
    ∷ 0x45
    ∷ 0
    ∷ 0
    ∷ 40
    ∷ 0
    ∷ 0
    ∷ 0
    ∷ 0
    ∷ 64
    ∷ 6
    ∷ 0
    ∷ 0
    ∷ (addresses ++ segment)

abbrev syn_frame : List ℕ
syn_frame = frame_of (10 ∷ 0 ∷ 0 ∷ 1 ∷ 192 ∷ 0 ∷ 2 ∷ 7 ∷ []) (
    0x12 ∷ 0x34 ∷ 0 ∷ 80 ∷ 255 ∷ 255 ∷ 255 ∷ 255 ∷ 0 ∷ 0 ∷ 0 ∷ 0 ∷ 0x50 ∷ 2 ∷ 0 ∷ 0 ∷ 0 ∷ 0 ∷ 0 ∷ 0
    ∷ [])

abbrev synack_frame : List ℕ
synack_frame =
    frame_of (192 ∷ 0 ∷ 2 ∷ 7 ∷ 10 ∷ 0 ∷ 0 ∷ 1 ∷ []) (
      0 ∷ 80 ∷ 0x12 ∷ 0x34 ∷ 0 ∷ 0 ∷ 0 ∷ 9 ∷ 0 ∷ 0 ∷ 0 ∷ 0 ∷ 0x50 ∷ 18 ∷ 0 ∷ 0 ∷ 0 ∷ 0 ∷ 0 ∷ 0 ∷ [])

abbrev pub web_flow : Flow
web_flow = record {
  ip_version = v4;
  initiator_ip = "10.0.0.1";
  initiator_port = 4660;
  responder_ip = "192.0.2.7";
  responder_port = 80;
}

abbrev round_at : ℕ → List ℕ → Round
round_at t frame = record {
  stopped = false;
  deadline_read = t;
  received = frame;
  seen = t;
  marked = t;
  now = t;
  sweep_read = t;
}

abbrev start : Loop
start = record { capture = fresh; last_sweep = 0 }

abbrev rounds : List Round
rounds = round_at 5 syn_frame ∷ round_at 6 synack_frame ∷ []

abbrev done : Loop
done = record {
  capture = record fresh {
    stats = record no_stats { packets_seen = 2; syn_seen = 1; synack_seen = 1; matched_open = 1 };
    reported = (record { proto = tcp; flow = web_flow; state = open_port; last_reported = 6 }) ∷ [];
  };
  last_sweep = 0;
}

-- A handshake on the wire gives its one OPEN finding.
handshake_found : run host_name 0 start rounds ≡ some (done, tcp_finding web_flow open_port 6 ∷ [])
unfolding run do_round end_round handle_packet dispatch count_packet handle_tcp tcp_header
    tcp_segment bytes on_syn on_synack take_first update_first answers flow_eq report
    dedupe_and_mark marked mark same_key tcp_finding
handshake_found = refl

run-Succeeds_example : Succeeds (run host_name 0 start (round_at 5 (8 ∷ 0 ∷ []) ∷ rounds))
run-Succeeds_example = run-Succeeds host_name 0 start (round_at 5 (8 ∷ 0 ∷ []) ∷ rounds)

start-IsTidy : IsTidy fresh
start-IsTidy = record { syns = tt; quics = tt; dnss = tt; reports = tt }

run-IsTidy_example : IsTidy done.capture
run-IsTidy_example =
    run-IsTidy host_name 0 start done rounds (tcp_finding web_flow open_port 6 ∷ []) start-IsTidy
      handshake_found

abbrev pub web_finding : ℕ → Finding
web_finding = tcp_finding web_flow open_port

abbrev later : List Round
later = round_at 7 syn_frame ∷ round_at 8 synack_frame ∷ []

later-InWindow : All (InWindow 6 5000) later
later-InWindow = (
  record { after = omega arith; within = omega arith; swept = omega arith },
  (record { after = omega arith; within = omega arith; swept = omega arith }, tt),
)

abbrev repeated : Loop
repeated = record {
  capture = record fresh {
    stats = record no_stats {
      packets_seen = 2;
      syn_seen = 1;
      synack_seen = 1;
      matched_open = 1;
      duplicates_suppressed = 1;
    };
    reported = (record { proto = tcp; flow = web_flow; state = open_port; last_reported = 8 }) ∷ [];
  };
  last_sweep = 6;
}

repeat_suppressed :
    run host_name 0 (record { capture = (report fresh (web_finding 6) 6).0; last_sweep = 6 }) later
    ≡ some (repeated, [])
unfolding run do_round end_round handle_packet dispatch count_packet handle_tcp tcp_header
    tcp_segment bytes on_syn on_synack take_first update_first answers flow_eq report
    dedupe_and_mark marked mark same_key tcp_finding
repeat_suppressed = refl

run-after_report_example : All (λ g. finding_key g ≢ finding_key (web_finding 6)) []
run-after_report_example =
    run-after_report host_name fresh (web_finding 6) 6 0 6 later repeated [] (omega arith)
      later-InWindow repeat_suppressed
