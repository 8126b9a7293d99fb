-- ===== src/NetCapture/Soundness.antt =====
-- Where the findings of net_capture.cpp come from.
use Prim.Native.String.{String}
use trinetra.Prelude.{
  Elem, ℕ, ◌+◌, ◌%◌, ◌^◌, ◌≤◌, ◌≡◌, refl, ◌∙◌, ap, ◌≢◌, ◌⊎◌, inl, inr, Bool, true, false, List,
  some, arith, Taken, take_first, take_first-Taken, Option-cases, Bool-cases,
}
use trinetra.NetCapture.Types.{
  Capture, Finding, Flow, IpVersion, PendingSyn, open_port, closed_port, flow_eq, flow_eq_iff,
  flow_of,
}
use trinetra.NetCapture.Dedupe.{report}
use trinetra.NetCapture.Tcp.{
  TcpHeader, looks_like_responder_port, tcp_finding, answers, on_synack, on_rst, on_established,
  established_flow, tcp_segment,
}

Taken-Elem :
    {A : Type 0} {p : A → Bool} {x : A} {xs ys : List A}
    → Taken p x xs ys
    → Elem x xs × (p x ≡ true)
Taken-Elem (Taken.here xs e) = (inl refl, e)
Taken-Elem (Taken.there z e t) = let r = Taken-Elem t in (inr r.0, r.1)

report-some : (c : Capture) (f g : Finding) (now : ℕ) → (report c f now).1 ≡ some g → g ≡ f
unfolding report
report-some c f g now e = ground arith

-- The pending SYN of a flow that a reply has matched.
pub record Origin (c : Capture) (flow : Flow) (f : Finding) : Type 0 where
  pub entry : PendingSyn
  pub pending : Elem entry c.pending
  pub entry_flow : entry.flow ≡ flow
  pub same_flow : f.flow ≡ flow

on_synack_sound :
    (c : Capture) (flow : Flow) (ack_num seen now : ℕ) (f : Finding)
    → (on_synack c flow ack_num seen now).1 ≡ some f
    → (o : Origin c flow f) × (f.state ≡ open_port) × (ack_num ≡ (o.entry.syn_seq + 1) % 2 ^ 32)
unfolding on_synack answers tcp_finding
on_synack_sound c flow ack_num seen now f e =
    elim (Option-cases (take_first (answers flow ack_num) c.pending)) [
      | inl n ↦ absurd (ground arith)
      | inr ((p, rest), n) ↦
          let t = Taken-Elem (take_first-Taken (answers flow ack_num) c.pending p rest n) in
          let at : p.flow ≡ flow = ground (arith, t.1, flow_eq_iff p.flow flow) in
          let is = report-some _ _ f now (rw (n, on_synack) at e) in
          (
            record {
              entry = p;
              pending = t.0;
              entry_flow = at;
              same_flow = ap (λ (g : Finding). g.flow) is ∙ at;
            },
            ap (λ (g : Finding). g.state) is,
            ground (arith, t.1),
          )
    ]

on_rst_sound :
    (c : Capture) (flow : Flow) (seen now : ℕ) (f : Finding)
    → (on_rst c flow seen now).1 ≡ some f
    → Origin c flow f × (f.state ≡ closed_port) × (c.opts.report_closed ≡ true)
unfolding on_rst tcp_finding
on_rst_sound c flow seen now f e = elim (Bool-cases c.opts.report_closed) [
  | inr off ↦ absurd (ground arith)
  | inl on ↦ elim (Option-cases (take_first (λ (p : PendingSyn). flow_eq p.flow flow) c.pending)) [
    | inl n ↦ absurd (ground arith)
    | inr ((p, rest), n) ↦
        let t = Taken-Elem (take_first-Taken _ c.pending p rest n) in
        let at : p.flow ≡ flow = (flow_eq_iff p.flow flow).0 t.1 in
        let is = report-some _ _ f now (simp (on, n, on_rst) at e) in
        (
          record {
            entry = p;
            pending = t.0;
            entry_flow = at;
            same_flow = ap (λ (g : Finding). g.flow) is ∙ at;
          },
          ap (λ (g : Finding). g.state) is,
          on,
        )
  ]
]

-- With the inference from established traffic switched off, a TCP segment gives a finding only if
-- it answers a pending SYN of its flow turned round, and the finding is of that flow. It is OPEN
-- for a SYN-ACK that acknowledges the entry's sequence number, and CLOSED for a RST, with closed
-- ports to be reported.
pub tcp_segment_sound :
    (c : Capture) (ver : IpVersion) (src_ip dst_ip : String) (h : TcpHeader) (seen now : ℕ)
    (f : Finding)
    → c.opts.detect_established_traffic ≡ false
    → (tcp_segment c ver src_ip dst_ip h seen now).1 ≡ some f
    → (o : Origin c (flow_of ver dst_ip h.dest src_ip h.source) f) × ((f.state ≡ open_port)
          × (h.syn ≡ true)
          × (h.ack ≡ true)
          × (h.ack_seq ≡ (o.entry.syn_seq + 1) % 2 ^ 32)
        ⊎ (f.state ≡ closed_port) × (h.rst ≡ true) × (c.opts.report_closed ≡ true))
unfolding tcp_segment on_established
tcp_segment_sound c ver src_ip dst_ip h seen now f off e = elim (Bool-cases h.syn) [
  | inl s ↦ elim (Bool-cases h.ack) [
    | inr a ↦ absurd (ground arith)
    | inl a ↦
        let r = on_synack_sound c _ h.ack_seq seen now f (simp (s, a) at e) in
        (r.0, inl (r.1, s, a, r.2))
  ]
  | inr s ↦ elim (Bool-cases h.rst) [
    | inr r ↦ absurd (ground arith)
    | inl r ↦ let o = on_rst_sound c _ seen now f (simp (s, r) at e) in (o.0, inr (o.1, r, o.2))
  ]
]

-- For two different ports both directions of a connection give the same flow, and its responder
-- has the lower port: the test for well-known ports decides nothing that the order does not.
pub established_flow_symmetric :
    (ver : IpVersion) (ip ip' : String) (port port' : ℕ)
    → port ≢ port'
    → (established_flow ver ip port ip' port' ≡ established_flow ver ip' port' ip port)
      × ((established_flow ver ip port ip' port').responder_port ≤ port)
      × ((established_flow ver ip port ip' port').responder_port ≤ port')
unfolding established_flow looks_like_responder_port
established_flow_symmetric ver ip ip' port port' h = (ground arith, ground arith, ground arith)
