-- ===== src/NetCapture/Udp.antt =====
-- `Capture::handle_udp`, `handle_quic` and `handle_dns` of net_capture.cpp.
-- `seen` and `now` are the readings of the steady clock, as in Tcp.antt.
use Prim.Native.String.{String}
use trinetra.Prelude.{
  ℕ, not, ◌&&◌, ◌||◌, List, [], ◌∷◌, ◌++◌, Option, none, some, ltb, ◌==◌, if◌then◌else◌, length,
  get_elem?, drop, update_first, take_first,
}
use trinetra.NetCapture.Types.{
  Capture, Finding, Flow, IpVersion, PendingUdp, Proto, open_port, quic, dns, add64, flow_eq,
  flow_of,
}
use trinetra.NetCapture.Bytes.{◌>>=◌, be16, bit}
use trinetra.NetCapture.Dedupe.{report}

unfoldable pub udp_finding : Proto → Flow → ℕ → Finding
udp_finding proto flow seen = record {
  proto = proto;
  flow = flow;
  state = open_port;
  observed_at = seen;
}

-- The entry of a flow is renewed, or a new one is made.
unfoldable pub await_reply : Flow → ℕ → List PendingUdp → List PendingUdp
await_reply flow seen table =
    elim (update_first (λ (p : PendingUdp). flow_eq p.flow flow) (λ p. record p { sent_at = seen })
      table) [
        | some table' ↦ table'
        | none ↦ table ++ (record { flow = flow; sent_at = seen }) ∷ []
      ]

unfoldable pub quic_initial : Capture → Flow → ℕ → Capture
unfolding await_reply
quic_initial c flow seen = record c {
  stats = record (c.stats) { quic_initial_seen = add64 c.stats.quic_initial_seen 1 };
  pending_quic = await_reply flow seen c.pending_quic;
}

unfoldable pub quic_reply : Capture → Flow → ℕ → ℕ → Capture × Option Finding
unfolding udp_finding
quic_reply c flow seen now =
    elim (take_first (λ (p : PendingUdp). flow_eq p.flow flow) c.pending_quic) [
      | some (p, rest) ↦
          report
            (record c {
              stats = record (c.stats) { quic_matched_open = add64 c.stats.quic_matched_open 1 };
              pending_quic = rest;
            })
            (udp_finding quic p.flow seen) now
      | none ↦ (c, none)
    ]

unfoldable pub dns_query : Capture → Flow → ℕ → Capture
unfolding await_reply
dns_query c flow seen = record c {
  stats = record (c.stats) { dns_query_seen = add64 c.stats.dns_query_seen 1 };
  pending_dns = await_reply flow seen c.pending_dns;
}

unfoldable pub dns_reply : Capture → Flow → ℕ → ℕ → Capture × Option Finding
unfolding udp_finding
dns_reply c flow seen now =
    elim (take_first (λ (p : PendingUdp). flow_eq p.flow flow) c.pending_dns) [
      | some (p, rest) ↦
          report
            (record c {
              stats = record (c.stats) { dns_matched_open = add64 c.stats.dns_matched_open 1 };
              pending_dns = rest;
            })
            (udp_finding dns p.flow seen) now
      | none ↦ (c, none)
    ]

module _ (c : Capture) (ver : IpVersion) (src_ip : String) (src_port : ℕ) (dst_ip : String)
    (dst_port : ℕ) (payload : List ℕ) (seen now : ℕ) where
  forward : Flow
  forward = flow_of ver src_ip src_port dst_ip dst_port

  reply : Flow
  reply = flow_of ver dst_ip dst_port src_ip src_port

  -- Towards the QUIC port: only a long header counts, and its first byte is read if there is one.
  unfoldable pub handle_quic : Option (Capture × Option Finding)
  unfolding forward reply quic_initial quic_reply
  handle_quic =
      if dst_port == c.opts.quic_port
      then if ltb (length payload) 1 then some (c, none) else (do
        first ← get_elem? payload 0
        if not (bit first 7) then some (c, none) else some (quic_initial c forward seen, none))
      else some (quic_reply c reply seen now)

  unfoldable pub handle_dns : Option (Capture × Option Finding)
  unfolding forward reply dns_query dns_reply
  handle_dns =
      if dst_port == c.opts.dns_port
      then if ltb (length payload) 12 then some (c, none) else (do
        qr ← get_elem? payload 2
        if bit qr 7 then some (c, none) else some (dns_query c forward seen, none))
      else if ltb (length payload) 12
      then some (c, none)
      else do
        qr ← get_elem? payload 2
        if not (bit qr 7) then some (c, none) else some (dns_reply c reply seen now)

unfoldable pub handle_udp :
    Capture → IpVersion → String → String → List ℕ → ℕ → ℕ → Option (Capture × Option Finding)
handle_udp c ver src_ip dst_ip datagram seen now =
    if ltb (length datagram) 8 then some (c, none) else do
      src_port ← be16 datagram 0
      dst_port ← be16 datagram 2
      let payload = drop 8 datagram
      if c.opts.detect_quic && (src_port == c.opts.quic_port || dst_port == c.opts.quic_port)
          then handle_quic c ver src_ip src_port dst_ip dst_port payload seen now
          else if c.opts.detect_dns && (src_port == c.opts.dns_port || dst_port == c.opts.dns_port)
          then handle_dns c ver src_ip src_port dst_ip dst_port payload seen now
          else some (c, none)
