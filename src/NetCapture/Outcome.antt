-- ===== src/NetCapture/Outcome.antt =====
-- What a step of the capture does to the reported keys: nothing, or one call of `report`.
use Prim.Native.String.{String}
use trinetra.Prelude.{
  ◌≡◌, refl, inl, inr, not, ◌&&◌, ◌||◌, Option, none, ℕ, Option-cases, Bool-cases, take_first,
}
use trinetra.NetCapture.Types.{Capture, Finding, Flow, IpVersion, PendingSyn, PendingUdp, flow_eq}
use trinetra.NetCapture.Dedupe.{report}
use trinetra.NetCapture.Tcp.{TcpHeader, on_syn, on_synack, on_rst, on_established, answers}
use trinetra.NetCapture.Udp.{quic_initial, quic_reply, dns_query, dns_reply}
use trinetra.NetCapture.Step.{
  Step, ignored, syn, synack, rst, established, initial, quic_answer, query, dns_answer, if_cases,
}

pub data Outcome (c : Capture) (now : ℕ) : Capture × Option Finding → Type 0 where
  silent : (d : Capture) → d.opts ≡ c.opts → d.reported ≡ c.reported → Outcome c now (d, none)
  reports :
      (d : Capture) (f : Finding)
      → d.opts ≡ c.opts
      → d.reported ≡ c.reported
      → Outcome c now (report d f now)

module _ (c : Capture) (seen now : ℕ) where
  on_synack-Outcome :
      (flow : Flow) (ack_num : ℕ) → Outcome c now (on_synack c flow ack_num seen now)
  unfolding on_synack
  on_synack-Outcome flow ack_num =
      elim (Option-cases (take_first (answers flow ack_num) c.pending)) [
        | inl n ↦ rw (n, on_synack) (silent _ refl refl)
        | inr (r, n) ↦ rw (n, on_synack) (reports _ _ refl refl)
      ]

  on_rst-Outcome : (flow : Flow) → Outcome c now (on_rst c flow seen now)
  unfolding on_rst
  on_rst-Outcome flow = elim (Bool-cases (not c.opts.report_closed)) [
    | inl e ↦ rw (e, on_rst) (silent _ refl refl)
    | inr e ↦ elim (Option-cases (take_first (λ (p : PendingSyn). flow_eq p.flow flow) c.pending)) [
      | inl n ↦ rw (e, n, on_rst) (silent _ refl refl)
      | inr (r, n) ↦ rw (e, n, on_rst) (reports _ _ refl refl)
    ]
  ]

  on_established-Outcome :
      (ver : IpVersion) (src_ip dst_ip : String) (h : TcpHeader)
      → Outcome c now (on_established c ver src_ip dst_ip h seen now)
  unfolding on_established
  on_established-Outcome ver src_ip dst_ip h =
      if_cases (Outcome c now) (not c.opts.detect_established_traffic) _ _ (silent _ refl refl) (
        if_cases (Outcome c now)
          (not (
            h.ack && not h.psh && not h.fin
            || h.fin && h.ack
            || h.psh && h.ack
            || h.psh && not h.ack))
          _ _ (silent _ refl refl) (reports _ _ refl refl))

  quic_reply-Outcome : (flow : Flow) → Outcome c now (quic_reply c flow seen now)
  unfolding quic_reply
  quic_reply-Outcome flow =
      elim (Option-cases (take_first (λ (p : PendingUdp). flow_eq p.flow flow) c.pending_quic)) [
        | inl n ↦ rw (n, quic_reply) (silent _ refl refl)
        | inr (r, n) ↦ rw (n, quic_reply) (reports _ _ refl refl)
      ]

  dns_reply-Outcome : (flow : Flow) → Outcome c now (dns_reply c flow seen now)
  unfolding dns_reply
  dns_reply-Outcome flow =
      elim (Option-cases (take_first (λ (p : PendingUdp). flow_eq p.flow flow) c.pending_dns)) [
        | inl n ↦ rw (n, dns_reply) (silent _ refl refl)
        | inr (r, n) ↦ rw (n, dns_reply) (reports _ _ refl refl)
      ]

  pub Step-Outcome : {r : Capture × Option Finding} → Step c seen now r → Outcome c now r
  unfolding on_syn quic_initial dns_query
  Step-Outcome ignored = silent c refl refl
  Step-Outcome (syn flow seq) = silent _ refl refl
  Step-Outcome (synack flow ack_num) = on_synack-Outcome flow ack_num
  Step-Outcome (rst flow) = on_rst-Outcome flow
  Step-Outcome (established ver src_ip dst_ip h) = on_established-Outcome ver src_ip dst_ip h
  Step-Outcome (initial flow) = silent _ refl refl
  Step-Outcome (quic_answer flow) = quic_reply-Outcome flow
  Step-Outcome (query flow) = silent _ refl refl
  Step-Outcome (dns_answer flow) = dns_reply-Outcome flow
