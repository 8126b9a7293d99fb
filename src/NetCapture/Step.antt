-- ===== src/NetCapture/Step.antt =====
-- The packet handlers of net_capture.cpp as a step relation: whatever a frame holds, one of nine
-- things happens to the capture.
use Prim.Native.String.{String}
use trinetra.Prelude.{
  ℕ, ◌*◌, ◌%◌, ◌≡◌, subst, Bool, true, false, not, ◌&&◌, ◌||◌, List, Option, none, some, ◌⊎◌, inl,
  inr, arith, ltb, ◌==◌, if◌then◌else◌, length, get_elem?, drop,
}
use trinetra.NetCapture.Types.{Capture, Finding, Flow, IpVersion, v4, v6}
use trinetra.NetCapture.Bytes.{◌>>=◌, be16, bytes, bit}
use trinetra.NetCapture.Tcp.{
  TcpHeader, on_syn, on_synack, on_rst, on_established, tcp_header, tcp_segment, handle_tcp,
}
use trinetra.NetCapture.Udp.{
  quic_initial, quic_reply, dns_query, dns_reply, handle_quic, handle_dns, handle_udp,
}
use trinetra.NetCapture.Frame.{dispatch, count_packet, handle_ipv4, handle_ipv6, handle_packet}

pub data Step (c : Capture) (seen now : ℕ) : Capture × Option Finding → Type 0 where
  ignored : Step c seen now (c, none)
  syn : (flow : Flow) (seq : ℕ) → Step c seen now (on_syn c flow seq seen, none)
  synack : (flow : Flow) (ack_num : ℕ) → Step c seen now (on_synack c flow ack_num seen now)
  rst : (flow : Flow) → Step c seen now (on_rst c flow seen now)
  established :
      (ver : IpVersion) (src_ip dst_ip : String) (h : TcpHeader)
      → Step c seen now (on_established c ver src_ip dst_ip h seen now)
  initial : (flow : Flow) → Step c seen now (quic_initial c flow seen, none)
  quic_answer : (flow : Flow) → Step c seen now (quic_reply c flow seen now)
  query : (flow : Flow) → Step c seen now (dns_query c flow seen, none)
  dns_answer : (flow : Flow) → Step c seen now (dns_reply c flow seen now)

-- A property of the value, if there is one.
pub data Yields {ℓ κ} {A : Type ℓ} (P : A → Type κ) : Option A → Type (ℓ ⊔ κ) where
  nothing : Yields P none
  value : {a : A} → P a → Yields P (some a)

pub Yields-some {ℓ κ} :
    {A : Type ℓ} (P : A → Type κ) {o : Option A} {a : A} → Yields P o → o ≡ some a → P a
Yields-some P nothing e = cc
Yields-some P {a = a} (value {a = b} h) e = subst P (ground arith) h

pub Yields-bind {ℓ κ ι} :
    {A : Type ℓ} {B : Type κ} (P : B → Type ι) (o : Option A) (f : A → Option B)
    → ((a : A) → Yields P (f a))
    → Yields P (o >>= f)
Yields-bind P none f k = nothing
Yields-bind P (some a) f k = k a

pub Yields-if {ℓ κ} :
    {A : Type ℓ} (P : A → Type κ) (b : Bool) (x y : Option A)
    → Yields P x
    → Yields P y
    → Yields P (if b then x else y)
Yields-if P true x y h k = h
Yields-if P false x y h k = k

pub if_cases {ℓ κ} :
    {A : Type ℓ} (P : A → Type κ) (b : Bool) (x y : A) → P x → P y → P (if b then x else y)
if_cases P true x y h k = h
if_cases P false x y h k = k

tcp_segment-Step :
    (c : Capture) (ver : IpVersion) (src_ip dst_ip : String) (h : TcpHeader) (seen now : ℕ)
    → Step c seen now (tcp_segment c ver src_ip dst_ip h seen now)
unfolding tcp_segment
tcp_segment-Step c ver src_ip dst_ip h seen now =
    if_cases (Step c seen now) (h.syn && not h.ack) _ _ (syn _ _) (
      if_cases (Step c seen now) (h.syn && h.ack) _ _ (synack _ _)
        (if_cases (Step c seen now) h.rst _ _ (rst _) (established ver src_ip dst_ip h)))

module _ (c : Capture) (ver : IpVersion) (src_ip dst_ip : String) (seen now : ℕ) where
  handle_tcp-Step :
      (buf : List ℕ) → Yields (Step c seen now) (handle_tcp c ver src_ip dst_ip buf seen now)
  unfolding handle_tcp
  handle_tcp-Step buf = Yields-if (Step c seen now) (ltb (length buf) 20) _ _ (value ignored) (
      Yields-bind (Step c seen now) (tcp_header buf) _
        λ h. value (tcp_segment-Step c ver src_ip dst_ip h seen now))

  handle_quic-Step :
      (sp dp : ℕ) (buf : List ℕ)
      → Yields (Step c seen now) (handle_quic c ver src_ip sp dst_ip dp buf seen now)
  unfolding handle_quic
  handle_quic-Step sp dp buf =
      Yields-if (Step c seen now) (dp == c.opts.quic_port) _ _
        (Yields-if (Step c seen now) (ltb (length buf) 1) _ _ (value ignored) (
          Yields-bind (Step c seen now) (get_elem? buf 0) _ λ first.
            Yields-if (Step c seen now) (not (bit first 7)) _ _ (value ignored)
              (value (initial _))))
        (value (quic_answer _))

  handle_dns-Step :
      (sp dp : ℕ) (buf : List ℕ)
      → Yields (Step c seen now) (handle_dns c ver src_ip sp dst_ip dp buf seen now)
  unfolding handle_dns
  handle_dns-Step sp dp buf =
      Yields-if (Step c seen now) (dp == c.opts.dns_port) _ _
        (Yields-if (Step c seen now) (ltb (length buf) 12) _ _ (value ignored) (
          Yields-bind (Step c seen now) (get_elem? buf 2) _
            λ qr. Yields-if (Step c seen now) (bit qr 7) _ _ (value ignored) (value (query _))))
        (Yields-if (Step c seen now) (ltb (length buf) 12) _ _ (value ignored) (
          Yields-bind (Step c seen now) (get_elem? buf 2) _ λ qr.
            Yields-if (Step c seen now) (not (bit qr 7)) _ _ (value ignored)
              (value (dns_answer _))))

  handle_udp-Step :
      (buf : List ℕ) → Yields (Step c seen now) (handle_udp c ver src_ip dst_ip buf seen now)
  unfolding handle_udp
  handle_udp-Step buf = Yields-if (Step c seen now) (ltb (length buf) 8) _ _ (value ignored) (
      Yields-bind (Step c seen now) (be16 buf 0) _ λ sp.
        Yields-bind (Step c seen now) (be16 buf 2) _ λ dp.
          let quic_ports = sp == c.opts.quic_port || dp == c.opts.quic_port in
          let dns_ports = sp == c.opts.dns_port || dp == c.opts.dns_port in
          Yields-if (Step c seen now) (c.opts.detect_quic && quic_ports) _ _
            (handle_quic-Step sp dp (drop 8 buf))
            (Yields-if (Step c seen now) (c.opts.detect_dns && dns_ports) _ _
              (handle_dns-Step sp dp (drop 8 buf)) (value ignored)))

  dispatch-Step :
      (proto : ℕ) (buf : List ℕ)
      → Yields (Step c seen now) (dispatch c ver src_ip dst_ip proto buf seen now)
  unfolding dispatch
  dispatch-Step proto buf = Yields-if (Step c seen now) (proto == 6) _ _ (handle_tcp-Step buf) (
      Yields-if (Step c seen now) ((c.opts.detect_quic || c.opts.detect_dns) && proto == 17) _ _
        (handle_udp-Step buf) (value ignored))

-- A step of the capture as it is, or with the packet counted.
abbrev pub Handled : Capture → ℕ → ℕ → Capture × Option Finding → Type 0
Handled c seen now r = Step c seen now r ⊎ Step (count_packet c) seen now r

Handled-dispatch :
    (c : Capture) (seen now : ℕ) (o : Option (Capture × Option Finding))
    → Yields (Step (count_packet c) seen now) o
    → Yields (Handled c seen now) o
Handled-dispatch c seen now none nothing = nothing
Handled-dispatch c seen now (some r) (value h) = value (inr h)

module _ (inet_ntop : IpVersion → List ℕ → String) (c : Capture) (seen now : ℕ) where
  handle_ipv4-Handled :
      (buf : List ℕ) → Yields (Handled c seen now) (handle_ipv4 inet_ntop c buf seen now)
  unfolding handle_ipv4
  handle_ipv4-Handled buf =
      Yields-if (Handled c seen now) (ltb (length buf) 20) _ _ (value (inl ignored)) (
        Yields-bind (Handled c seen now) (get_elem? buf 0) _ λ first.
          let ip_hlen = first % 16 * 4 in
          Yields-if (Handled c seen now) (ltb ip_hlen 20 || ltb (length buf) ip_hlen) _ _
            (value (inl ignored))
            (Yields-bind (Handled c seen now) (bytes buf 12 4) _ λ src.
              Yields-bind (Handled c seen now) (bytes buf 16 4) _ λ dst.
                Yields-bind (Handled c seen now) (get_elem? buf 9) _ λ proto.
                  Handled-dispatch c seen now _
                    (dispatch-Step _ v4 _ _ seen now proto (drop ip_hlen buf))))

  handle_ipv6-Handled :
      (buf : List ℕ) → Yields (Handled c seen now) (handle_ipv6 inet_ntop c buf seen now)
  unfolding handle_ipv6
  handle_ipv6-Handled buf =
      Yields-if (Handled c seen now) (ltb (length buf) 40) _ _ (value (inl ignored)) (
        Yields-bind (Handled c seen now) (get_elem? buf 6) _ λ next.
          Yields-if (Handled c seen now) (not (next == 6) && not (next == 17)) _ _
            (value (inl ignored))
            (Yields-bind (Handled c seen now) (bytes buf 8 16) _ λ src.
              Yields-bind (Handled c seen now) (bytes buf 24 16) _ λ dst.
                Handled-dispatch c seen now _ (dispatch-Step _ v6 _ _ seen now next (drop 40 buf))))

  pub handle_packet-Handled :
      (frame : List ℕ) → Yields (Handled c seen now) (handle_packet inet_ntop c frame seen now)
  unfolding handle_packet
  handle_packet-Handled frame =
      Yields-if (Handled c seen now) (ltb (length frame) 14) _ _ (value (inl ignored)) (
        Yields-bind (Handled c seen now) (be16 frame 12) _ λ ethertype.
          Yields-if (Handled c seen now) (ethertype == 0x0800) _ _
            (handle_ipv4-Handled (drop 14 frame))
            (Yields-if (Handled c seen now) (ethertype == 0x86dd) _ _
              (handle_ipv6-Handled (drop 14 frame)) (value (inl ignored))))
