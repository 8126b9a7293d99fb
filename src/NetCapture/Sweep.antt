-- ===== src/NetCapture/Sweep.antt =====
-- `Capture::sweep_expired` of net_capture.cpp.
use trinetra.Prelude.{ℕ, ◌-◌, ◌*◌, not, List, ltb, if◌then◌else◌, length, keep_if}
use trinetra.NetCapture.Types.{Capture, PendingSyn, PendingUdp, ReportedKey, add64, nanos}

-- The entries that `remove_if` leaves: at most `limit` old.
unfoldable pub live_syn : ℕ → ℕ → List PendingSyn → List PendingSyn
live_syn now limit = keep_if λ p. not (ltb limit (now - p.sent_at))

unfoldable pub live_udp : ℕ → ℕ → List PendingUdp → List PendingUdp
live_udp now limit = keep_if λ p. not (ltb limit (now - p.sent_at))

unfoldable pub live_reported : ℕ → ℕ → List ReportedKey → List ReportedKey
live_reported now limit = keep_if λ r. not (ltb limit (now - r.last_reported))

unfoldable pub sweep_expired : Capture → ℕ → Capture
unfolding live_syn live_udp live_reported
sweep_expired c now =
    let timeout = nanos c.opts.pending_timeout_ms in
    let pending = live_syn now timeout c.pending in
    let pending_quic = live_udp now timeout c.pending_quic in
    let pending_dns = live_udp now timeout c.pending_dns in
    record c {
      pending = pending;
      pending_quic = pending_quic;
      pending_dns = pending_dns;
      stats = record (c.stats) {
        pending_expired = add64 c.stats.pending_expired (length c.pending - length pending);
        quic_pending_expired =
            add64 c.stats.quic_pending_expired (length c.pending_quic - length pending_quic);
        dns_pending_expired =
            add64 c.stats.dns_pending_expired (length c.pending_dns - length pending_dns);
      };
      reported =
          if ltb 0 c.opts.dedup_window_ms
          then live_reported now (nanos c.opts.dedup_window_ms * 2) c.reported
          else c.reported;
    }
