-- ===== src/NetCapture/Handshake.antt =====
-- Requests and their replies: a SYN and its SYN-ACK or RST, a QUIC Initial or a DNS query and its
-- answer, and segments of a connection that was there before.
use Prim.Native.String.{String}
use mathlib.Core.Bool.{and-true}
use trinetra.Prelude.{
  ℕ, ◌+◌, ◌%◌, ◌^◌, ◌≡◌, refl, sym, inl, inr, Bool, true, false, ◌&&◌, List, [], ◌∷◌, ◌++◌, Option,
  none, some, arith, ◌==◌, ==_iff, All, Updated, update_first, update_first-none,
  update_first-Updated, take_first, Option-cases,
}
use trinetra.NetCapture.Types.{
  Capture, Finding, Flow, IpVersion, PendingSyn, PendingUdp, open_port, closed_port, quic, dns,
  flow_eq, flow_eq_iff, flow_of, add64,
}
use trinetra.NetCapture.Dedupe.{report}
use trinetra.NetCapture.Tcp.{
  TcpHeader, tcp_finding, on_syn, answers, on_synack, on_rst, tcp_segment,
}
use trinetra.NetCapture.Udp.{udp_finding, quic_initial, quic_reply, dns_query, dns_reply}

module _ {ℓ} {A : Type ℓ} (key : A → Flow) (flow : Flow) (extra wanted : A → Bool)
    (test : (x : A) → wanted x ≡ (flow_eq (key x) flow && extra x)) where
  -- The reply finds the entry that the request has renewed,
  take_first-Updated :
      {renew : A → A} {xs ys : List A}
      → ((x : A) → key (renew x) ≡ key x)
      → ((x : A) → extra (renew x) ≡ true)
      → Updated (λ x. flow_eq (key x) flow) renew xs ys
      → (x : A) × (zs : List A) × (take_first wanted ys ≡ some (x, zs)) × (key x ≡ flow)
  unfolding take_first
  take_first-Updated {renew} same ok (Updated.here x xs e) = (
    renew x,
    xs,
    ground (arith, test (renew x), same x, ok x),
    ground (arith, same x, flow_eq_iff (key x) flow),
  )
  take_first-Updated same ok (Updated.there z e u) =
      let r = take_first-Updated same ok u in (r.0, z ∷ r.1, ground (arith, test z, r.2), r.3)

  -- or the one that it has made.
  take_first-append :
      (new : A) (xs : List A)
      → key new ≡ flow
      → extra new ≡ true
      → All (λ x. flow_eq (key x) flow ≡ false) xs
      → (x : A) × (zs : List A) × (take_first wanted (xs ++ new ∷ []) ≡ some (x, zs))
        × (key x ≡ flow)
  unfolding take_first
  take_first-append new [] at ok h =
      (new, [], ground (arith, test new, flow_eq_iff (key new) flow), at)
  take_first-append new (x ∷ xs) at ok h =
      let r = take_first-append new xs at ok h.1 in (r.0, x ∷ r.1, ground (arith, test x, r.2), r.3)

  -- So a reply to a request that was just seen is matched.
  request_reply :
      (renew : A → A) (new : A) (xs : List A)
      → ((x : A) → key (renew x) ≡ key x)
      → ((x : A) → extra (renew x) ≡ true)
      → key new ≡ flow
      → extra new ≡ true
      → (x : A) × (zs : List A) × (take_first wanted
            (elim (update_first (λ x. flow_eq (key x) flow) renew xs) [
              | some ys ↦ ys
              | none ↦ xs ++ new ∷ []
            ])
          ≡ some (x, zs))
        × (key x ≡ flow)
  request_reply renew new xs same ok at ok' =
      elim (Option-cases (update_first (λ x. flow_eq (key x) flow) renew xs)) [
        | inl n ↦ rw n (take_first-append new xs at ok' (update_first-none _ renew xs n))
        | inr (ys, n) ↦ rw n (take_first-Updated same ok (update_first-Updated _ renew xs ys n))
      ]

-- A finding as it is handed to `report`, and the capture that it is reported to.
pub record Reports (c : Capture) (f : Finding) (now : ℕ) (r : Capture × Option Finding)
    : Type 0 where
  pub matched : Capture
  pub result : r ≡ report matched f now
  pub opts : matched.opts ≡ c.opts
  pub reported : matched.reported ≡ c.reported

take_synack :
    (c : Capture) (flow : Flow) (ack_num seen now : ℕ) (p : PendingSyn) (rest : List PendingSyn)
    → take_first (answers flow ack_num) c.pending ≡ some (p, rest)
    → p.flow ≡ flow
    → Reports c (tcp_finding flow open_port seen) now (on_synack c flow ack_num seen now)
unfolding on_synack
take_synack c flow ack_num seen now p rest found at = record {
  matched = record c {
    stats = record (c.stats) {
      synack_seen = add64 c.stats.synack_seen 1;
      matched_open = add64 c.stats.matched_open 1;
    };
    pending = rest;
  };
  result = rw (found, on_synack, at) refl;
  opts = refl;
  reported = refl;
}

take_rst :
    (c : Capture) (flow : Flow) (seen now : ℕ) (p : PendingSyn) (rest : List PendingSyn)
    → c.opts.report_closed ≡ true
    → take_first (λ (q : PendingSyn). flow_eq q.flow flow) c.pending ≡ some (p, rest)
    → p.flow ≡ flow
    → Reports c (tcp_finding flow closed_port seen) now (on_rst c flow seen now)
unfolding on_rst
take_rst c flow seen now p rest on found at = record {
  matched = record c {
    stats = record (c.stats) {
      rst_seen = add64 c.stats.rst_seen 1;
      matched_closed = add64 c.stats.matched_closed 1;
    };
    pending = rest;
  };
  result = simp (on, found, on_rst, at);
  opts = refl;
  reported = refl;
}

syn-synack :
    (c : Capture) (flow : Flow) (seq seen seen' now : ℕ)
    → Reports
        (on_syn c flow seq seen)
        (tcp_finding flow open_port seen')
        now
        (on_synack (on_syn c flow seq seen) flow ((seq + 1) % 2 ^ 32) seen' now)
unfolding on_syn answers
syn-synack c flow seq seen seen' now =
    let r =
      request_reply (λ (p : PendingSyn). p.flow) flow
        (λ p. (seq + 1) % 2 ^ 32 == (p.syn_seq + 1) % 2 ^ 32) _ (λ p. refl)
        (λ p. record p { syn_seq = seq; sent_at = seen }) _ c.pending (λ p. refl)
        (λ p. (==_iff _ _).1 refl) refl ((==_iff _ _).1 refl) in
    take_synack _ flow _ seen' now r.0 r.1 r.2 r.3

syn-rst :
    (c : Capture) (flow : Flow) (seq seen seen' now : ℕ)
    → c.opts.report_closed ≡ true
    → Reports
        (on_syn c flow seq seen)
        (tcp_finding flow closed_port seen')
        now
        (on_rst (on_syn c flow seq seen) flow seen' now)
unfolding on_syn
syn-rst c flow seq seen seen' now on =
    let r =
      request_reply (λ (p : PendingSyn). p.flow) flow (λ p. true) (λ p. flow_eq p.flow flow)
        (λ p. sym (and-true _)) (λ p. record p { syn_seq = seq; sent_at = seen })
        (record { flow = flow; syn_seq = seq; sent_at = seen }) c.pending (λ p. refl) (λ p. refl)
        refl refl in
    take_rst _ flow seen' now r.0 r.1 on r.2 r.3

quic_initial-reply :
    (c : Capture) (flow : Flow) (seen seen' now : ℕ)
    → Reports
        (quic_initial c flow seen)
        (udp_finding quic flow seen')
        now
        (quic_reply (quic_initial c flow seen) flow seen' now)
unfolding quic_initial quic_reply
quic_initial-reply c flow seen seen' now =
    let r =
      request_reply (λ (p : PendingUdp). p.flow) flow (λ p. true) (λ p. flow_eq p.flow flow)
        (λ p. sym (and-true _)) (λ p. record p { sent_at = seen })
        (record { flow = flow; sent_at = seen }) c.pending_quic (λ p. refl) (λ p. refl) refl refl in
    record {
      matched = record (quic_initial c flow seen) {
        stats = record (c.stats) {
          quic_initial_seen = add64 c.stats.quic_initial_seen 1;
          quic_matched_open = add64 c.stats.quic_matched_open 1;
        };
        pending_quic = r.1;
      };
      result = simp (r.2, quic_reply, r.3);
      opts = refl;
      reported = refl;
    }

dns_query-reply :
    (c : Capture) (flow : Flow) (seen seen' now : ℕ)
    → Reports
        (dns_query c flow seen)
        (udp_finding dns flow seen')
        now
        (dns_reply (dns_query c flow seen) flow seen' now)
unfolding dns_query dns_reply
dns_query-reply c flow seen seen' now =
    let r =
      request_reply (λ (p : PendingUdp). p.flow) flow (λ p. true) (λ p. flow_eq p.flow flow)
        (λ p. sym (and-true _)) (λ p. record p { sent_at = seen })
        (record { flow = flow; sent_at = seen }) c.pending_dns (λ p. refl) (λ p. refl) refl refl in
    record {
      matched = record (dns_query c flow seen) {
        stats = record (c.stats) {
          dns_query_seen = add64 c.stats.dns_query_seen 1;
          dns_matched_open = add64 c.stats.dns_matched_open 1;
        };
        pending_dns = r.1;
      };
      result = simp (r.2, dns_reply, r.3);
      opts = refl;
      reported = refl;
    }

-- A QUIC Initial or a DNS query, and then an answer of its flow, gives an OPEN finding of that
-- flow: it goes to `report` with the reported keys and the options as they were.
pub request_reply_udp :
    (c : Capture) (flow : Flow) (seen seen' now : ℕ)
    → Reports
        (quic_initial c flow seen)
        (udp_finding quic flow seen')
        now
        (quic_reply (quic_initial c flow seen) flow seen' now)
      × Reports
          (dns_query c flow seen)
          (udp_finding dns flow seen')
          now
          (dns_reply (dns_query c flow seen) flow seen' now)
request_reply_udp c flow seen seen' now =
    (quic_initial-reply c flow seen seen' now, dns_query-reply c flow seen seen' now)

-- Two segments of one connection, in opposite directions.
pub record IsReply (h h' : TcpHeader) : Type 0 where
  pub source : h'.source ≡ h.dest
  pub dest : h'.dest ≡ h.source

-- A SYN followed by the SYN-ACK that acknowledges its sequence number, modulo 2^32, from the
-- other end gives an OPEN finding for the initiator and the responder of the SYN: it goes to
-- `report` with the reported keys and the options as they were.
pub tcp_segment-synack :
    (c : Capture) (ver : IpVersion) (ip ip' : String) (h h' : TcpHeader) (seen now seen' now' : ℕ)
    → h.syn ≡ true
    → h.ack ≡ false
    → IsReply h h'
    → h'.syn ≡ true
    → h'.ack ≡ true
    → h'.ack_seq ≡ (h.seq + 1) % 2 ^ 32
    → Reports
        (tcp_segment c ver ip ip' h seen now).0
        (tcp_finding (flow_of ver ip h.source ip' h.dest) open_port seen')
        now'
        (tcp_segment (tcp_segment c ver ip ip' h seen now).0 ver ip' ip h' seen' now')
unfolding tcp_segment
tcp_segment-synack c ver ip ip' h h' seen now seen' now' s a r s' a' k =
    simp (s, a, s', a', k, r.source, r.dest) (syn-synack c _ h.seq seen seen' now')

-- A SYN followed by a RST from the other end gives a CLOSED finding in the same way, when closed
-- ports are to be reported.
pub tcp_segment-rst :
    (c : Capture) (ver : IpVersion) (ip ip' : String) (h h' : TcpHeader) (seen now seen' now' : ℕ)
    → h.syn ≡ true
    → h.ack ≡ false
    → IsReply h h'
    → h'.syn ≡ false
    → h'.rst ≡ true
    → c.opts.report_closed ≡ true
    → Reports
        (tcp_segment c ver ip ip' h seen now).0
        (tcp_finding (flow_of ver ip h.source ip' h.dest) closed_port seen')
        now'
        (tcp_segment (tcp_segment c ver ip ip' h seen now).0 ver ip' ip h' seen' now')
unfolding tcp_segment
tcp_segment-rst c ver ip ip' h h' seen now seen' now' s a r s' r' on =
    simp (s, a, s', r', r.source, r.dest) (syn-rst c _ h.seq seen seen' now' on)
