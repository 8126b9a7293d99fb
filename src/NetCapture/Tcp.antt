-- ===== src/NetCapture/Tcp.antt =====
-- `Capture::handle_tcp` of net_capture.cpp, with `looks_like_responder_port`.
-- `seen` and `now` are the handler's two readings of the steady clock: for the entry or the
-- finding that it makes, and in the test for a duplicate.
use Prim.Native.String.{String}
use trinetra.Prelude.{
  ℕ, ◌+◌, ◌%◌, ◌^◌, Bool, not, ◌&&◌, ◌||◌, List, [], ◌∷◌, ◌++◌, Option, none, some, ltb, ◌==◌,
  if◌then◌else◌, length, get_elem?, update_first, take_first,
}
use trinetra.NetCapture.Types.{
  Capture, Finding, Flow, IpVersion, PendingSyn, PortState, open_port, closed_port, tcp, add64,
  flow_eq, flow_of,
}
use trinetra.NetCapture.Bytes.{◌>>=◌, be16, be32, bit}
use trinetra.NetCapture.Dedupe.{report}

unfoldable pub looks_like_responder_port : ℕ → ℕ → Bool
looks_like_responder_port candidate other =
    let candidate_wk = ltb candidate 1024 in
    let other_wk = ltb other 1024 in
    if (candidate_wk && not other_wk) || (not candidate_wk && other_wk)
    then candidate_wk
    else ltb candidate other

-- The fields of `struct tcphdr` that the handler reads.
pub record TcpHeader : Type 0 where
  pub source : ℕ
  pub dest : ℕ
  pub seq : ℕ
  pub ack_seq : ℕ
  pub fin : Bool
  pub syn : Bool
  pub rst : Bool
  pub psh : Bool
  pub ack : Bool

unfoldable pub tcp_header : List ℕ → Option TcpHeader
unfolding be16 be32
tcp_header buf = do
  source ← be16 buf 0
  dest ← be16 buf 2
  seq ← be32 buf 4
  ack_seq ← be32 buf 8
  flags ← get_elem? buf 13
  some (record {
    source = source;
    dest = dest;
    seq = seq;
    ack_seq = ack_seq;
    fin = bit flags 0;
    syn = bit flags 1;
    rst = bit flags 2;
    psh = bit flags 3;
    ack = bit flags 4;
  })

unfoldable pub tcp_finding : Flow → PortState → ℕ → Finding
tcp_finding flow state seen = record { proto = tcp; flow = flow; state = state; observed_at = seen }

-- A SYN: its entry is renewed, or a new one is made.
unfoldable pub on_syn : Capture → Flow → ℕ → ℕ → Capture
on_syn c flow seq seen = record c {
  stats = record (c.stats) { syn_seen = add64 c.stats.syn_seen 1 };
  pending =
      elim (update_first (λ p. flow_eq p.flow flow)
        (λ p. record p { syn_seq = seq; sent_at = seen }) c.pending) [
          | some pending ↦ pending
          | none ↦ c.pending ++ (record { flow = flow; syn_seq = seq; sent_at = seen }) ∷ []
        ];
}

-- The SYN that a SYN-ACK answers.
unfoldable pub answers : Flow → ℕ → PendingSyn → Bool
answers flow ack_num p = flow_eq p.flow flow && ack_num == (p.syn_seq + 1) % 2 ^ 32

unfoldable pub on_synack : Capture → Flow → ℕ → ℕ → ℕ → Capture × Option Finding
on_synack c flow ack_num seen now =
    let c' = record c { stats = record (c.stats) { synack_seen = add64 c.stats.synack_seen 1 } } in
    elim (take_first (answers flow ack_num) c.pending) [
      | some (p, rest) ↦
          report
            (record c' {
              stats = record (c'.stats) { matched_open = add64 c.stats.matched_open 1 };
              pending = rest;
            })
            (tcp_finding p.flow open_port seen) now
      | none ↦ (c', none)
    ]

unfoldable pub on_rst : Capture → Flow → ℕ → ℕ → Capture × Option Finding
on_rst c flow seen now =
    let c' = record c { stats = record (c.stats) { rst_seen = add64 c.stats.rst_seen 1 } } in
    if not c.opts.report_closed
    then (c', none)
    else elim (take_first (λ (p : PendingSyn). flow_eq p.flow flow) c.pending) [
      | some (p, rest) ↦
          report
            (record c' {
              stats = record (c'.stats) { matched_closed = add64 c.stats.matched_closed 1 };
              pending = rest;
            })
            (tcp_finding p.flow closed_port seen) now
      | none ↦ (c', none)
    ]

-- The flow of a segment without SYN or RST: the likelier service port is the responder's.
unfoldable pub established_flow : IpVersion → String → ℕ → String → ℕ → Flow
unfolding looks_like_responder_port
established_flow ver src_ip src_port dst_ip dst_port =
    if looks_like_responder_port src_port dst_port
    then flow_of ver dst_ip dst_port src_ip src_port
    else flow_of ver src_ip src_port dst_ip dst_port

abbrev count_if : ℕ → Bool → ℕ
count_if n b = add64 n (if b then 1 else 0)

unfoldable pub on_established :
    Capture → IpVersion → String → String → TcpHeader → ℕ → ℕ → Capture × Option Finding
on_established c ver src_ip dst_ip h seen now =
    let bare_ack = h.ack && not h.psh && not h.fin in
    let fin_ack = h.fin && h.ack in
    let psh_ack = h.psh && h.ack in
    let bare_psh = h.psh && not h.ack in
    if not c.opts.detect_established_traffic
    then (c, none)
    else if not (bare_ack || fin_ack || psh_ack || bare_psh)
    then (c, none)
    else report
        (record c {
          stats = record (c.stats) {
            ack_seen = count_if c.stats.ack_seen bare_ack;
            finack_seen = count_if c.stats.finack_seen fin_ack;
            pshack_seen = count_if c.stats.pshack_seen psh_ack;
            psh_seen = count_if c.stats.psh_seen bare_psh;
            matched_open_established = add64 c.stats.matched_open_established 1;
          };
        })
        (tcp_finding (established_flow ver src_ip h.source dst_ip h.dest) open_port seen) now

-- The handler after its reads. A reply is looked up under the flow of the segment turned round.
unfoldable pub tcp_segment :
    Capture → IpVersion → String → String → TcpHeader → ℕ → ℕ → Capture × Option Finding
tcp_segment c ver src_ip dst_ip h seen now =
    let forward = flow_of ver src_ip h.source dst_ip h.dest in
    let reply = flow_of ver dst_ip h.dest src_ip h.source in
    if h.syn && not h.ack
    then (on_syn c forward h.seq seen, none)
    else if h.syn && h.ack
    then on_synack c reply h.ack_seq seen now
    else if h.rst
    then on_rst c reply seen now
    else on_established c ver src_ip dst_ip h seen now

unfoldable pub handle_tcp :
    Capture → IpVersion → String → String → List ℕ → ℕ → ℕ → Option (Capture × Option Finding)
handle_tcp c ver src_ip dst_ip segment seen now =
    if ltb (length segment) 20
    then some (c, none)
    else do h ← tcp_header segment; some (tcp_segment c ver src_ip dst_ip h seen now)
