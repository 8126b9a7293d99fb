-- ===== src/NetCapture/Expiry.antt =====
-- What `Capture::sweep_expired` of net_capture.cpp removes.
use trinetra.Prelude.{
  Elem, ℕ, ◌-◌, ◌*◌, ◌≤◌, ◌≡◌, ap, ◌↔◌, ◌⊎◌, inl, inr, Bool, true, not, List, [], ◌∷◌, arith, ltb,
  if◌then◌else◌, keep_if, Bool-cases,
}
use trinetra.NetCapture.Types.{Capture, PendingSyn, PendingUdp, ReportedKey, nanos}
use trinetra.NetCapture.Sweep.{live_syn, live_udp, live_reported, sweep_expired}

Elem-keep_if :
    {A : Type 0} (p : A → Bool) (x : A) (xs : List A)
    → Elem x (keep_if p xs) ↔ Elem x xs × (p x ≡ true)
Elem-keep_if p x [] = ((λ h. absurd h), λ h. h.0)
Elem-keep_if p x (y ∷ ys) = elim (Bool-cases (p y)) [
  | inl e ↦ rw e (
    (λ h. elim h [
      | inl q ↦ (inl q, rw q e)
      | inr m ↦ ((inr ((Elem-keep_if p x ys).0 m).0), ((Elem-keep_if p x ys).0 m).1)
    ]),
    (λ h. elim h.0 [ inl q ↦ inl q | inr m ↦ inr ((Elem-keep_if p x ys).1 (m, h.1)) ]),
  )
  | inr e ↦ rw e (
    (λ m. ((inr ((Elem-keep_if p x ys).0 m).0), ((Elem-keep_if p x ys).0 m).1)),
    (λ h. elim h.0 [ inl q ↦ cc (ap p q) | inr m ↦ (Elem-keep_if p x ys).1 (m, h.1) ]),
  )
]

not-ltb : (a b : ℕ) → (not (ltb a b) ≡ true) ↔ (b ≤ a)
not-ltb a b = ground arith

kept_iff :
    {A : Type 0} (age : A → ℕ) (limit : ℕ) (x : A) (xs : List A)
    → Elem x (keep_if (λ y. not (ltb limit (age y))) xs) ↔ Elem x xs × (age x ≤ limit)
kept_iff age limit x xs =
    let k = Elem-keep_if (λ y. not (ltb limit (age y))) x xs in
    (
      (λ h. ((k.0 h).0, (not-ltb limit (age x)).0 (k.0 h).1)),
      (λ h. k.1 (h.0, (not-ltb limit (age x)).1 h.1)),
    )

reported_iff :
    (c : Capture) (now limit : ℕ) (r : ReportedKey)
    → Elem r (
        if ltb 0 c.opts.dedup_window_ms
        then keep_if (λ s. not (ltb limit (now - s.last_reported))) c.reported
        else c.reported)
      ↔ Elem r c.reported × ((c.opts.dedup_window_ms ≡ 0) ⊎ (now - r.last_reported ≤ limit))
reported_iff c now limit r = elim (Bool-cases (ltb 0 c.opts.dedup_window_ms)) [
  | inl e ↦
      let k = kept_iff (λ (q : ReportedKey). now - q.last_reported) limit r c.reported in
      rw e (
        (λ h. ((k.0 h).0, inr (k.0 h).1)),
        (λ h. elim h.1 [ inl z ↦ absurd (ground arith) | inr y ↦ k.1 (h.0, y) ]),
      )
  | inr e ↦ rw e ((λ h. (h, inl (ground arith))), λ h. h.0)
]

-- After a sweep exactly those pending SYN, QUIC and DNS entries are left that were there and are
-- at most `pending_timeout_ms` old, and exactly those reported keys that were there and are at
-- most twice the dedup window old, or all of them without a window.
pub sweep_expired-exact :
    (c : Capture) (now : ℕ) (syn : PendingSyn) (quic dns : PendingUdp) (key : ReportedKey)
    → (Elem syn (sweep_expired c now).pending
        ↔ Elem syn c.pending × (now - syn.sent_at ≤ nanos c.opts.pending_timeout_ms))
      × (Elem quic (sweep_expired c now).pending_quic
          ↔ Elem quic c.pending_quic × (now - quic.sent_at ≤ nanos c.opts.pending_timeout_ms))
      × (Elem dns (sweep_expired c now).pending_dns
          ↔ Elem dns c.pending_dns × (now - dns.sent_at ≤ nanos c.opts.pending_timeout_ms))
      × (Elem key (sweep_expired c now).reported
          ↔ Elem key c.reported
            × ((c.opts.dedup_window_ms ≡ 0)
                ⊎ (now - key.last_reported ≤ nanos c.opts.dedup_window_ms * 2)))
unfolding sweep_expired live_syn live_udp live_reported
sweep_expired-exact c now syn quic dns key = (
  kept_iff (λ (q : PendingSyn). now - q.sent_at) _ syn c.pending,
  kept_iff (λ (q : PendingUdp). now - q.sent_at) _ quic c.pending_quic,
  kept_iff (λ (q : PendingUdp). now - q.sent_at) _ dns c.pending_dns,
  reported_iff c now _ key,
)
