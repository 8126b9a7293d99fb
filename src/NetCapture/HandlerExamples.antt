-- ===== src/NetCapture/HandlerExamples.antt =====
-- Concrete segments, datagrams, sweeps and texts for net_capture.cpp.
use trinetra.Prelude.{
  Elem, ◌+◌, ◌%◌, ◌^◌, ◌≤◌, ◌≡◌, refl, ◌⊎◌, ◌↔◌, inl, true, false, [], ◌∷◌, ◌++◌, some, arith,
  take_first, update_first, replicate,
}
use trinetra.NetCapture.Types.{
  Capture, flow_eq, PendingSyn, PendingUdp, ReportedKey, v4, tcp, quic, dns, open_port, closed_port,
}
use trinetra.NetCapture.Tcp.{
  TcpHeader, tcp_finding, established_flow, tcp_segment, on_syn, on_synack, answers,
}
use trinetra.NetCapture.Udp.{udp_finding, quic_initial, quic_reply, dns_query, dns_reply}
use trinetra.NetCapture.Dedupe.{report, dedupe_and_mark, marked, mark}
use trinetra.NetCapture.Sweep.{sweep_expired}
use trinetra.NetCapture.Duration.{
  millis, overflow, parse_duration_ms, scale, decimal, all_digits, is_digit, back, unit_of, int_max,
}
use trinetra.NetCapture.Handshake.{Reports, tcp_segment-synack, tcp_segment-rst, request_reply_udp}
use trinetra.NetCapture.Soundness.{Origin, tcp_segment_sound, established_flow_symmetric}
use trinetra.NetCapture.Expiry.{sweep_expired-exact}
use trinetra.NetCapture.Limits.{
  IsUnit, parse_duration_ms-value, parse_duration_ms-overflow, parse_duration_ms_bounds,
}
use trinetra.NetCapture.Examples.{fresh, web_flow, web_finding}

abbrev syn_header : TcpHeader
syn_header = record {
  source = 4660;
  dest = 80;
  seq = 4294967295;
  ack_seq = 0;
  fin = false;
  syn = true;
  rst = false;
  psh = false;
  ack = false;
}

abbrev synack_header : TcpHeader
synack_header = record syn_header { source = 80; dest = 4660; seq = 9; syn = true; ack = true }

abbrev waiting : Capture
waiting = (tcp_segment fresh v4 "10.0.0.1" "192.0.2.7" syn_header 5 5).0

tcp_segment-synack_example :
    Reports waiting
      (tcp_finding web_flow open_port 6)
      6
      (tcp_segment waiting v4 "192.0.2.7" "10.0.0.1" synack_header 6 6)
tcp_segment-synack_example =
    tcp_segment-synack fresh v4 "10.0.0.1" "192.0.2.7" syn_header synack_header 5 5 6 6 refl refl
      (record { source = refl; dest = refl }) refl refl refl

abbrev rst_header : TcpHeader
rst_header = record syn_header { source = 80; dest = 4660; syn = false; rst = true }

tcp_segment-rst_example :
    Reports waiting
      (tcp_finding web_flow closed_port 6)
      6
      (tcp_segment waiting v4 "192.0.2.7" "10.0.0.1" rst_header 6 6)
tcp_segment-rst_example =
    tcp_segment-rst fresh v4 "10.0.0.1" "192.0.2.7" syn_header rst_header 5 5 6 6 refl refl
      (record { source = refl; dest = refl }) refl refl refl

request_reply_udp_example :
    Reports
      (quic_initial fresh web_flow 5)
      (udp_finding quic web_flow 6)
      6
      (quic_reply (quic_initial fresh web_flow 5) web_flow 6 6)
    × Reports
        (dns_query fresh web_flow 5)
        (udp_finding dns web_flow 6)
        6
        (dns_reply (dns_query fresh web_flow 5) web_flow 6 6)
request_reply_udp_example = request_reply_udp fresh web_flow 5 6 6

synack_emits :
    (tcp_segment waiting v4 "192.0.2.7" "10.0.0.1" synack_header 6 6).1 ≡ some (web_finding 6)
unfolding tcp_segment on_syn on_synack take_first update_first answers flow_eq report
    dedupe_and_mark marked mark
synack_emits = refl

tcp_segment_sound_example :
    (o : Origin waiting web_flow (web_finding 6)) × ((open_port ≡ open_port)
        × (true ≡ true)
        × (true ≡ true)
        × (0 ≡ (o.entry.syn_seq + 1) % 2 ^ 32)
      ⊎ (open_port ≡ closed_port) × (false ≡ true) × (true ≡ true))
unfolding tcp_segment on_syn tcp_finding
tcp_segment_sound_example =
    tcp_segment_sound waiting v4 "192.0.2.7" "10.0.0.1" synack_header 6 6 (web_finding 6) refl
      synack_emits

established_flow_symmetric_example :
    (established_flow v4 "a" 443 "b" 50000 ≡ established_flow v4 "b" 50000 "a" 443)
    × ((established_flow v4 "a" 443 "b" 50000).responder_port ≤ 443)
    × ((established_flow v4 "a" 443 "b" 50000).responder_port ≤ 50000)
established_flow_symmetric_example =
    established_flow_symmetric v4 "a" "b" 443 50000 (λ e. absurd (omega arith))

abbrev aged : Capture
aged = record fresh { pending = (record { flow = web_flow; syn_seq = 1; sent_at = 3 }) ∷ [] }

abbrev old_syn : PendingSyn
old_syn = record { flow = web_flow; syn_seq = 1; sent_at = 3 }

abbrev old_query : PendingUdp
old_query = record { flow = web_flow; sent_at = 3 }

abbrev old_key : ReportedKey
old_key = record { proto = tcp; flow = web_flow; state = open_port; last_reported = 3 }

sweep_expired-exact_example :
    (Elem old_syn (sweep_expired aged 4_000_000_004).pending
      ↔ Elem old_syn aged.pending × (4_000_000_001 ≤ 4_000_000_000))
    × (Elem old_query (sweep_expired aged 4_000_000_004).pending_quic
        ↔ Elem old_query aged.pending_quic × (4_000_000_001 ≤ 4_000_000_000))
    × (Elem old_query (sweep_expired aged 4_000_000_004).pending_dns
        ↔ Elem old_query aged.pending_dns × (4_000_000_001 ≤ 4_000_000_000))
    × (Elem old_key (sweep_expired aged 4_000_000_004).reported
        ↔ Elem old_key aged.reported
          × ((aged.opts.dedup_window_ms ≡ 0) ⊎ (4_000_000_001 ≤ 10_000_000_000)))
sweep_expired-exact_example =
    sweep_expired-exact aged 4_000_000_004 old_syn old_query old_query old_key

-- "90m" and "90".
parse_duration_ms-value_example : parse_duration_ms (b'9' ∷ b'0' ∷ b'm' ∷ []) ≡ millis 5_400_000
unfolding all_digits is_digit decimal
parse_duration_ms-value_example =
    parse_duration_ms-value b'9' (b'0' ∷ []) b'm' 60_000 refl (IsUnit.minutes (inl refl) refl)
      (omega arith) (omega arith)

ninety_minutes : parse_duration_ms (b'9' ∷ b'0' ∷ b'm' ∷ []) ≡ millis 5_400_000
unfolding parse_duration_ms scale decimal all_digits back unit_of
ninety_minutes = refl

-- "9000000000000000h".
parse_duration_ms-overflow_example :
    parse_duration_ms (b'9' ∷ (replicate 15 b'0' ++ b'h' ∷ [])) ≡ overflow
unfolding all_digits is_digit decimal
parse_duration_ms-overflow_example =
    parse_duration_ms-overflow b'9' (replicate 15 b'0') b'h' 3_600_000 refl
      (IsUnit.hours (inl refl) refl) (omega arith) (omega arith)

parse_duration_ms_bounds_example : (1000 ≤ 5_400_000) × (5_400_000 ≤ int_max)
parse_duration_ms_bounds_example =
    parse_duration_ms_bounds (b'9' ∷ b'0' ∷ b'm' ∷ []) 5_400_000 ninety_minutes
