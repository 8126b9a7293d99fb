-- ===== src/NetCapture/Safety.antt =====
-- The handlers of net_capture.cpp read inside of the packet, whatever it holds.
use Prim.Native.String.{String}
use trinetra.Prelude.{
  ℕ, ◌*◌, ◌%◌, ◌≤◌, ◌≡◌, refl, Bool, true, false, not, ◌&&◌, ◌||◌, List, Option, none, some, arith,
  ltb, leb, ◌==◌, [], ◌∷◌, if◌then◌else◌, length, get_elem?-of_lt, drop,
}
use trinetra.NetCapture.Types.{Capture, IpVersion}
use trinetra.NetCapture.Bytes.{◌>>=◌, bit, be16-of_lt, be32-of_lt, bytes-of_le}
use trinetra.NetCapture.Tcp.{tcp_header, handle_tcp}
use trinetra.NetCapture.Udp.{handle_quic, handle_dns, handle_udp}
use trinetra.NetCapture.Frame.{dispatch, handle_ipv4, handle_ipv6, handle_packet}
use trinetra.NetCapture.Run.{Loop, Round, do_round, run}

abbrev pub Succeeds {ℓ} : {A : Type ℓ} → Option A → Type ℓ
Succeeds {A = A} o = (a : A) × (o ≡ some a)

Succeeds-bind {ℓ κ} :
    {A : Type ℓ} {B : Type κ} (o : Option A) (f : A → Option B)
    → Succeeds o
    → ((a : A) → Succeeds (f a))
    → Succeeds (o >>= f)
Succeeds-bind none f s k = cc s.1
Succeeds-bind (some a) f s k = k a

Succeeds-if {ℓ} :
    {A : Type ℓ} (b : Bool) (x y : Option A)
    → (b ≡ true → Succeeds x)
    → (b ≡ false → Succeeds y)
    → Succeeds (if b then x else y)
Succeeds-if true x y h k = h refl
Succeeds-if false x y h k = k refl

Succeeds-some {ℓ} : {A : Type ℓ} (a : A) → Succeeds (some a)
Succeeds-some a = (a, refl)

tcp_header_reads : (buf : List ℕ) → 20 ≤ length buf → Succeeds (tcp_header buf)
unfolding tcp_header
tcp_header_reads buf h = Succeeds-bind _ _ (be16-of_lt buf 0 (omega arith)) λ _.
    Succeeds-bind _ _ (be16-of_lt buf 2 (omega arith)) λ _.
      Succeeds-bind _ _ (be32-of_lt buf 4 (omega arith)) λ _.
        Succeeds-bind _ _ (be32-of_lt buf 8 (omega arith))
          λ _. Succeeds-bind _ _ (get_elem?-of_lt buf 13 (omega arith)) λ _. Succeeds-some _

module _ (c : Capture) (ver : IpVersion) (src_ip dst_ip : String) (seen now : ℕ) where
  handle_tcp_reads : (buf : List ℕ) → Succeeds (handle_tcp c ver src_ip dst_ip buf seen now)
  unfolding handle_tcp
  handle_tcp_reads buf =
      Succeeds-if (ltb (length buf) 20) _ _ (λ _. Succeeds-some _)
        λ e. Succeeds-bind _ _ (tcp_header_reads buf (ground arith)) λ _. Succeeds-some _

  handle_quic_reads :
      (sp dp : ℕ) (buf : List ℕ) → Succeeds (handle_quic c ver src_ip sp dst_ip dp buf seen now)
  unfolding handle_quic
  handle_quic_reads sp dp buf =
      Succeeds-if (dp == c.opts.quic_port) _ _
        (λ _.
          Succeeds-if (ltb (length buf) 1) _ _ (λ _. Succeeds-some _)
            λ e. Succeeds-bind _ _ (get_elem?-of_lt buf 0 (ground arith)) λ first.
              Succeeds-if (not (bit first 7)) _ _ (λ _. Succeeds-some _) (λ _. Succeeds-some _))
        (λ _. Succeeds-some _)

  handle_dns_reads :
      (sp dp : ℕ) (buf : List ℕ) → Succeeds (handle_dns c ver src_ip sp dst_ip dp buf seen now)
  unfolding handle_dns
  handle_dns_reads sp dp buf =
      Succeeds-if (dp == c.opts.dns_port) _ _
        (λ _.
          Succeeds-if (ltb (length buf) 12) _ _ (λ _. Succeeds-some _)
            λ e.
              Succeeds-bind _ _ (get_elem?-of_lt buf 2 (ground arith))
                λ qr. Succeeds-if (bit qr 7) _ _ (λ _. Succeeds-some _) (λ _. Succeeds-some _))
        (λ _.
          Succeeds-if (ltb (length buf) 12) _ _ (λ _. Succeeds-some _)
            λ e.
              Succeeds-bind _ _ (get_elem?-of_lt buf 2 (ground arith)) λ qr.
                Succeeds-if (not (bit qr 7)) _ _ (λ _. Succeeds-some _) (λ _. Succeeds-some _))

  handle_udp_reads : (buf : List ℕ) → Succeeds (handle_udp c ver src_ip dst_ip buf seen now)
  unfolding handle_udp
  handle_udp_reads buf =
      Succeeds-if (ltb (length buf) 8) _ _ (λ _. Succeeds-some _)
        λ e. Succeeds-bind _ _ (be16-of_lt buf 0 (ground arith)) λ sp.
          Succeeds-bind _ _ (be16-of_lt buf 2 (ground arith)) λ dp.
            let quic_ports = sp == c.opts.quic_port || dp == c.opts.quic_port in
            let dns_ports = sp == c.opts.dns_port || dp == c.opts.dns_port in
            Succeeds-if (c.opts.detect_quic && quic_ports) _ _
              (λ _. handle_quic_reads sp dp (drop 8 buf))
              λ _.
                Succeeds-if (c.opts.detect_dns && dns_ports) _ _
                  (λ _. handle_dns_reads sp dp (drop 8 buf)) (λ _. Succeeds-some _)

dispatch_reads :
    (c : Capture) (ver : IpVersion) (src_ip dst_ip : String) (proto : ℕ) (buf : List ℕ)
    (seen now : ℕ)
    → Succeeds (dispatch c ver src_ip dst_ip proto buf seen now)
unfolding dispatch
dispatch_reads c ver src_ip dst_ip proto buf seen now =
    Succeeds-if (proto == 6) _ _ (λ _. handle_tcp_reads c ver src_ip dst_ip seen now buf)
      λ _.
        Succeeds-if ((c.opts.detect_quic || c.opts.detect_dns) && proto == 17) _ _
          (λ _. handle_udp_reads c ver src_ip dst_ip seen now buf) (λ _. Succeeds-some _)

module _ (inet_ntop : IpVersion → List ℕ → String) (c : Capture) where
  handle_ipv4_reads :
      (buf : List ℕ) (seen now : ℕ) → Succeeds (handle_ipv4 inet_ntop c buf seen now)
  unfolding handle_ipv4
  handle_ipv4_reads buf seen now =
      Succeeds-if (ltb (length buf) 20) _ _ (λ _. Succeeds-some _)
        λ e. Succeeds-bind _ _ (get_elem?-of_lt buf 0 (ground arith)) λ first.
          let ip_hlen = first % 16 * 4 in
          Succeeds-if (ltb ip_hlen 20 || ltb (length buf) ip_hlen) _ _ (λ _. Succeeds-some _)
            λ _.
              Succeeds-bind _ _ (_, bytes-of_le buf 12 4 (ground arith))
                λ _.
                  Succeeds-bind _ _ (_, bytes-of_le buf 16 4 (ground arith))
                    λ _.
                      Succeeds-bind _ _ (get_elem?-of_lt buf 9 (ground arith))
                        λ _. dispatch_reads _ _ _ _ _ _ seen now

  handle_ipv6_reads :
      (buf : List ℕ) (seen now : ℕ) → Succeeds (handle_ipv6 inet_ntop c buf seen now)
  unfolding handle_ipv6
  handle_ipv6_reads buf seen now =
      Succeeds-if (ltb (length buf) 40) _ _ (λ _. Succeeds-some _)
        λ e. Succeeds-bind _ _ (get_elem?-of_lt buf 6 (ground arith)) λ next.
          Succeeds-if (not (next == 6) && not (next == 17)) _ _ (λ _. Succeeds-some _)
            λ _.
              Succeeds-bind _ _ (_, bytes-of_le buf 8 16 (ground arith))
                λ _.
                  Succeeds-bind _ _ (_, bytes-of_le buf 24 16 (ground arith))
                    λ _. dispatch_reads _ _ _ _ _ _ seen now

  handle_packet_reads :
      (frame : List ℕ) (seen now : ℕ) → Succeeds (handle_packet inet_ntop c frame seen now)
  unfolding handle_packet
  handle_packet_reads frame seen now =
      Succeeds-if (ltb (length frame) 14) _ _ (λ _. Succeeds-some _)
        λ e. Succeeds-bind _ _ (be16-of_lt frame 12 (ground arith)) λ ethertype.
          Succeeds-if (ethertype == 0x0800) _ _ (λ _. handle_ipv4_reads (drop 14 frame) seen now)
            λ _.
              Succeeds-if (ethertype == 0x86dd) _ _
                (λ _. handle_ipv6_reads (drop 14 frame) seen now) (λ _. Succeeds-some _)

  do_round_reads :
      (last : ℕ) (r : Round)
      → Succeeds (do_round inet_ntop (record { capture = c; last_sweep = last }) r)
  unfolding do_round
  do_round_reads last r =
      Succeeds-if (ltb 0 (length r.received)) _ _
        (λ _.
          Succeeds-bind _ _ (handle_packet_reads r.received r.seen r.marked) λ _. Succeeds-some _)
        (λ _. Succeeds-some _)

-- Whatever bytes arrive, in frames of whatever length, a capture makes no read outside of the
-- packet that it handles, and gets through all of its rounds.
pub run-Succeeds :
    (inet_ntop : IpVersion → List ℕ → String) (deadline : ℕ) (l : Loop) (rounds : List Round)
    → Succeeds (run inet_ntop deadline l rounds)
unfolding run
run-Succeeds inet_ntop deadline l [] = Succeeds-some _
run-Succeeds inet_ntop deadline l (r ∷ rs) =
    Succeeds-if r.stopped _ _ (λ _. Succeeds-some _)
      λ _.
        Succeeds-if (ltb 0 l.capture.opts.duration_ms && leb deadline r.deadline_read) _ _
          (λ _. Succeeds-some _)
          λ _. Succeeds-bind _ _ (do_round_reads inet_ntop l.capture l.last_sweep r) λ done.
            Succeeds-bind _ _ (run-Succeeds inet_ntop deadline done.0 rs) λ _. Succeeds-some _
