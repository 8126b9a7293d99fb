-- ===== src/NetCapture/Frame.antt =====
-- `Capture::handle_packet`, `handle_ipv4` and `handle_ipv6` of net_capture.cpp.
-- `inet_ntop` is the C library's, from the address bytes to its text.
use Prim.Native.String.{String}
use trinetra.Prelude.{
  ℕ, ◌*◌, ◌%◌, not, ◌&&◌, ◌||◌, List, Option, none, some, ltb, ◌==◌, if◌then◌else◌, length,
  get_elem?, drop,
}
use trinetra.NetCapture.Types.{Capture, Finding, IpVersion, v4, v6, add64}
use trinetra.NetCapture.Bytes.{◌>>=◌, be16, bytes}
use trinetra.NetCapture.Tcp.{handle_tcp}
use trinetra.NetCapture.Udp.{handle_udp}

unfoldable pub count_packet : Capture → Capture
count_packet c = record c {
  stats = record (c.stats) { packets_seen = add64 c.stats.packets_seen 1 };
}

-- IPPROTO_TCP is 6 and IPPROTO_UDP is 17.
unfoldable pub dispatch :
    Capture → IpVersion → String → String → ℕ → List ℕ → ℕ → ℕ → Option (Capture × Option Finding)
dispatch c ver src_ip dst_ip proto l4 seen now =
    if proto == 6
    then handle_tcp c ver src_ip dst_ip l4 seen now
    else if (c.opts.detect_quic || c.opts.detect_dns) && proto == 17
    then handle_udp c ver src_ip dst_ip l4 seen now
    else some (c, none)

module _ (inet_ntop : IpVersion → List ℕ → String) (c : Capture) where
  unfoldable pub handle_ipv4 : List ℕ → ℕ → ℕ → Option (Capture × Option Finding)
  handle_ipv4 packet seen now = if ltb (length packet) 20 then some (c, none) else do
    first ← get_elem? packet 0
    let ip_hlen = first % 16 * 4
    if ltb ip_hlen 20 || ltb (length packet) ip_hlen then some (c, none) else do
      src ← bytes packet 12 4
      dst ← bytes packet 16 4
      proto ← get_elem? packet 9
      dispatch (count_packet c) v4 (inet_ntop v4 src) (inet_ntop v4 dst) proto (drop ip_hlen packet)
          seen now

  unfoldable pub handle_ipv6 : List ℕ → ℕ → ℕ → Option (Capture × Option Finding)
  handle_ipv6 packet seen now = if ltb (length packet) 40 then some (c, none) else do
    next_header ← get_elem? packet 6
    if not (next_header == 6) && not (next_header == 17) then some (c, none) else do
      src ← bytes packet 8 16
      dst ← bytes packet 24 16
      dispatch (count_packet c) v6 (inet_ntop v6 src) (inet_ntop v6 dst) next_header
          (drop 40 packet) seen now

  -- ETHERTYPE_IP is 0x0800 and ETHERTYPE_IPV6 is 0x86dd.
  unfoldable pub handle_packet : List ℕ → ℕ → ℕ → Option (Capture × Option Finding)
  unfolding handle_ipv4 handle_ipv6
  handle_packet frame seen now = if ltb (length frame) 14 then some (c, none) else do
    ethertype ← be16 frame 12
    let packet = drop 14 frame
    if ethertype == 0x0800
        then handle_ipv4 packet seen now
        else if ethertype == 0x86dd
        then handle_ipv6 packet seen now
        else some (c, none)
