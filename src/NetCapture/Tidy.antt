-- ===== src/NetCapture/Tidy.antt =====
-- The tables of a capture hold one entry for each key, over any run.
use Prim.Native.String.{String}
use trinetra.Prelude.{
  ℕ, ◌≡◌, refl, ◌≢◌, inl, inr, Bool, true, false, not, ◌&&◌, ◌||◌, List, [], ◌∷◌, ◌++◌, Option,
  none, some, leb, ltb, All, Distinct, Distinct-append_one, Distinct-keep_if, Distinct-Updated,
  Distinct-Taken, update_first, update_first-none, update_first-Updated, take_first,
  take_first-Taken, Option-cases, Bool-cases,
}
use trinetra.NetCapture.Types.{
  Capture, Finding, Flow, PendingSyn, PendingUdp, ReportedKey, Stats, flow_eq, flow_eq_iff,
  IpVersion, nanos,
}
use trinetra.NetCapture.Dedupe.{same_key, mark, marked, new_key, dedupe_and_mark, report}
use trinetra.NetCapture.Reported.{
  key_of, finding_key, same_key_iff, mark-Updated, mark-none, dedupe-SameTables,
}
use trinetra.NetCapture.Tcp.{TcpHeader, on_syn, on_synack, on_rst, on_established, answers}
use trinetra.NetCapture.Udp.{quic_initial, quic_reply, dns_query, dns_reply}
use trinetra.NetCapture.Frame.{count_packet}
use trinetra.NetCapture.Sweep.{sweep_expired, live_syn, live_udp, live_reported}
use trinetra.NetCapture.Run.{Loop, Round, to_list, run}
use trinetra.NetCapture.Step.{
  Step, ignored, syn, synack, rst, established, initial, quic_answer, query, dns_answer, Yields,
  Yields-some, if_cases,
}
use trinetra.NetCapture.Trace.{run-keeps}

abbrev syn_flow : PendingSyn → Flow
syn_flow p = p.flow

abbrev udp_flow : PendingUdp → Flow
udp_flow p = p.flow

-- At most one pending SYN, QUIC and DNS entry for a flow, and one entry for a reported key.
pub record IsTidy (c : Capture) : Type 0 where
  pub syns : Distinct syn_flow c.pending
  pub quics : Distinct udp_flow c.pending_quic
  pub dnss : Distinct udp_flow c.pending_dns
  pub reports : Distinct key_of c.reported

-- A failed search for a key: every entry has another.
others {ℓ κ} :
    {A : Type ℓ} {K : Type κ} (key : A → K) (test : A → Bool) (k : K) (xs : List A)
    → ((x : A) → key x ≡ k → test x ≡ true)
    → All (λ x. test x ≡ false) xs
    → All (λ x. key x ≢ k) xs
others key test k [] h t = tt
others key test k (x ∷ xs) h t = ((λ e. cc (h x e, t.0)), others key test k xs h t.1)

marked-reports :
    (c : Capture) (f : Finding) (window now : ℕ) (o : Option (List ReportedKey × Bool))
    → mark f window now c.reported ≡ o
    → Distinct key_of c.reported
    → Distinct key_of (marked c f now o).0.reported
unfolding marked new_key
marked-reports c f window now none e d =
    Distinct-append_one key_of c.reported (new_key f now)
      (others key_of (same_key f) (finding_key f) c.reported (λ r. (same_key_iff f r).1)
        (mark-none f window now c.reported e))
      d
marked-reports c f window now (some (rs, true)) e d =
    Distinct-Updated key_of (λ r. refl) (mark-Updated f window now c.reported rs true e) d
marked-reports c f window now (some (rs, false)) e d =
    Distinct-Updated key_of (λ r. refl) (mark-Updated f window now c.reported rs false e) d

dedupe-reports :
    (c : Capture) (f : Finding) (now : ℕ)
    → Distinct key_of c.reported
    → Distinct key_of (dedupe_and_mark c f now).0.reported
unfolding dedupe_and_mark
dedupe-reports c f now d =
    if_cases (λ (r : Capture × Bool). Distinct key_of r.0.reported) (leb c.opts.dedup_window_ms 0) _
      _ d (marked-reports c f _ now (mark f (nanos c.opts.dedup_window_ms) now c.reported) refl d)

report-IsTidy : (c : Capture) (f : Finding) (now : ℕ) → IsTidy c → IsTidy (report c f now).0
unfolding report
report-IsTidy c f now t =
    let same = dedupe-SameTables c f now in
    record {
      syns = rw same.pending t.syns;
      quics = rw same.pending_quic t.quics;
      dnss = rw same.pending_dns t.dnss;
      reports = dedupe-reports c f now t.reports;
    }

-- A table in which a flow's entry is renewed or made.
renew-Distinct {ℓ} :
    {A : Type ℓ} (key : A → Flow) (flow : Flow) (renew : A → A) (new : A) (xs : List A)
    → ((x : A) → key (renew x) ≡ key x)
    → key new ≡ flow
    → Distinct key xs
    → Distinct key (elim (update_first (λ x. flow_eq (key x) flow) renew xs) [
      | some ys ↦ ys
      | none ↦ xs ++ new ∷ []
    ])
renew-Distinct key flow renew new xs same at d =
    elim (Option-cases (update_first (λ x. flow_eq (key x) flow) renew xs)) [
      | inl n ↦ rw n (
          Distinct-append_one key xs new
            (rw at (
              others key (λ x. flow_eq (key x) flow) flow xs (λ x. (flow_eq_iff (key x) flow).1)
                (update_first-none _ renew xs n)))
            d)
      | inr (ys, n) ↦ rw n (Distinct-Updated key same (update_first-Updated _ renew xs ys n) d)
    ]

on_syn-IsTidy :
    (c : Capture) (flow : Flow) (seq seen : ℕ) → IsTidy c → IsTidy (on_syn c flow seq seen)
unfolding on_syn
on_syn-IsTidy c flow seq seen t = record {
  syns = renew-Distinct syn_flow flow _ _ c.pending (λ p. refl) refl t.syns;
  quics = t.quics;
  dnss = t.dnss;
  reports = t.reports;
}

-- What the tables of two captures have in common.
with_stats : {c : Capture} (s : Stats) → IsTidy c → IsTidy (record c { stats = s })
with_stats s t = record { syns = t.syns; quics = t.quics; dnss = t.dnss; reports = t.reports }

on_synack-IsTidy :
    (c : Capture) (flow : Flow) (ack_num seen now : ℕ)
    → IsTidy c
    → IsTidy (on_synack c flow ack_num seen now).0
unfolding on_synack
on_synack-IsTidy c flow ack_num seen now t =
    elim (Option-cases (take_first (answers flow ack_num) c.pending)) [
      | inl n ↦ rw (n, on_synack) (with_stats _ t)
      | inr ((p, rest), n) ↦
          let syns = Distinct-Taken syn_flow (take_first-Taken _ c.pending p rest n) t.syns in
          rw (n, on_synack)
            (report-IsTidy _ _ now
              (record { syns = syns; quics = t.quics; dnss = t.dnss; reports = t.reports }))
    ]

on_rst-IsTidy :
    (c : Capture) (flow : Flow) (seen now : ℕ) → IsTidy c → IsTidy (on_rst c flow seen now).0
unfolding on_rst
on_rst-IsTidy c flow seen now t = elim (Bool-cases (not c.opts.report_closed)) [
  | inl e ↦ rw (e, on_rst) (with_stats _ t)
  | inr e ↦ elim (Option-cases (take_first (λ (p : PendingSyn). flow_eq p.flow flow) c.pending)) [
    | inl n ↦ rw (e, n, on_rst) (with_stats _ t)
    | inr ((p, rest), n) ↦
        let syns = Distinct-Taken syn_flow (take_first-Taken _ c.pending p rest n) t.syns in
        rw (e, n, on_rst)
          (report-IsTidy _ _ now
            (record { syns = syns; quics = t.quics; dnss = t.dnss; reports = t.reports }))
  ]
]

on_established-IsTidy :
    (c : Capture) (ver : IpVersion) (src_ip dst_ip : String) (h : TcpHeader) (seen now : ℕ)
    → IsTidy c
    → IsTidy (on_established c ver src_ip dst_ip h seen now).0
unfolding on_established
on_established-IsTidy c ver src_ip dst_ip h seen now t =
    if_cases (λ (r : Capture × Option Finding). IsTidy r.0) (not c.opts.detect_established_traffic)
      _ _ t
      (if_cases (λ (r : Capture × Option Finding). IsTidy r.0)
        (not (
          h.ack && not h.psh && not h.fin
          || h.fin && h.ack
          || h.psh && h.ack
          || h.psh && not h.ack))
        _ _ t (report-IsTidy _ _ now (with_stats _ t)))

quic_reply-IsTidy :
    (c : Capture) (flow : Flow) (seen now : ℕ) → IsTidy c → IsTidy (quic_reply c flow seen now).0
unfolding quic_reply
quic_reply-IsTidy c flow seen now t =
    elim (Option-cases (take_first (λ (p : PendingUdp). flow_eq p.flow flow) c.pending_quic)) [
      | inl n ↦ rw (n, quic_reply) t
      | inr ((p, rest), n) ↦
          let quics =
            Distinct-Taken udp_flow (take_first-Taken _ c.pending_quic p rest n) t.quics in
          rw (n, quic_reply)
            (report-IsTidy _ _ now
              (record { syns = t.syns; quics = quics; dnss = t.dnss; reports = t.reports }))
    ]

dns_reply-IsTidy :
    (c : Capture) (flow : Flow) (seen now : ℕ) → IsTidy c → IsTidy (dns_reply c flow seen now).0
unfolding dns_reply
dns_reply-IsTidy c flow seen now t =
    elim (Option-cases (take_first (λ (p : PendingUdp). flow_eq p.flow flow) c.pending_dns)) [
      | inl n ↦ rw (n, dns_reply) t
      | inr ((p, rest), n) ↦
          let dnss = Distinct-Taken udp_flow (take_first-Taken _ c.pending_dns p rest n) t.dnss in
          rw (n, dns_reply)
            (report-IsTidy _ _ now
              (record { syns = t.syns; quics = t.quics; dnss = dnss; reports = t.reports }))
    ]

quic_initial-IsTidy :
    (c : Capture) (flow : Flow) (seen : ℕ) → IsTidy c → IsTidy (quic_initial c flow seen)
unfolding quic_initial
quic_initial-IsTidy c flow seen t = record {
  syns = t.syns;
  quics = renew-Distinct udp_flow flow _ _ c.pending_quic (λ p. refl) refl t.quics;
  dnss = t.dnss;
  reports = t.reports;
}

dns_query-IsTidy :
    (c : Capture) (flow : Flow) (seen : ℕ) → IsTidy c → IsTidy (dns_query c flow seen)
unfolding dns_query
dns_query-IsTidy c flow seen t = record {
  syns = t.syns;
  quics = t.quics;
  dnss = renew-Distinct udp_flow flow _ _ c.pending_dns (λ p. refl) refl t.dnss;
  reports = t.reports;
}

Step-IsTidy :
    (c : Capture) (seen now : ℕ) {r : Capture × Option Finding}
    → Step c seen now r
    → IsTidy c
    → IsTidy r.0
Step-IsTidy c seen now ignored t = t
Step-IsTidy c seen now (syn flow seq) t = on_syn-IsTidy c flow seq seen t
Step-IsTidy c seen now (synack flow ack_num) t = on_synack-IsTidy c flow ack_num seen now t
Step-IsTidy c seen now (rst flow) t = on_rst-IsTidy c flow seen now t
Step-IsTidy c seen now (established ver src_ip dst_ip h) t =
    on_established-IsTidy c ver src_ip dst_ip h seen now t
Step-IsTidy c seen now (initial flow) t = quic_initial-IsTidy c flow seen t
Step-IsTidy c seen now (quic_answer flow) t = quic_reply-IsTidy c flow seen now t
Step-IsTidy c seen now (query flow) t = dns_query-IsTidy c flow seen t
Step-IsTidy c seen now (dns_answer flow) t = dns_reply-IsTidy c flow seen now t

sweep-IsTidy : (c : Capture) (now : ℕ) → IsTidy c → IsTidy (sweep_expired c now)
unfolding sweep_expired live_syn live_udp live_reported
sweep-IsTidy c now t = record {
  syns = Distinct-keep_if syn_flow _ c.pending t.syns;
  quics = Distinct-keep_if udp_flow _ c.pending_quic t.quics;
  dnss = Distinct-keep_if udp_flow _ c.pending_dns t.dnss;
  reports =
      if_cases (Distinct key_of) (ltb 0 c.opts.dedup_window_ms) _ _
        (Distinct-keep_if key_of _ c.reported t.reports) t.reports;
}

-- The tables stay free of duplicate keys through any run of the capture, whatever arrives and
-- whatever the clock reads: one pending SYN, one QUIC and one DNS entry for a flow, and one
-- reported entry for a finding's key.
pub run-IsTidy :
    (inet_ntop : IpVersion → List ℕ → String) (deadline : ℕ) (l m : Loop) (rounds : List Round)
    (findings : List Finding)
    → IsTidy l.capture
    → run inet_ntop deadline l rounds ≡ some (m, findings)
    → IsTidy m.capture
unfolding count_packet
run-IsTidy inet_ntop deadline l m rounds findings t e = (Yields-some _ kept e).0
  where
    any : (rs : List Round) → All (λ (r : Round). Unit {0}) rs
    any [] = tt
    any (r ∷ rs) = (tt, any rs)

    anything : (fs : List Finding) → All (λ (f : Finding). Unit {0}) fs
    anything [] = tt
    anything (f ∷ fs) = (tt, anything fs)

    kept :
        Yields
          (λ (r : Loop × List Finding). IsTidy r.0.capture × All (λ (f : Finding). Unit {0}) r.1)
          (run inet_ntop deadline l rounds)
    kept =
        run-keeps IsTidy (λ f. Unit {0}) (λ r. Unit {0}) (λ c h. with_stats _ h)
          (λ c r _ h. sweep-IsTidy c r.sweep_read h)
          (λ c r result _ s h. (Step-IsTidy c r.seen r.marked s h, anything (to_list result.1)))
          inet_ntop deadline l rounds (any rounds) t
