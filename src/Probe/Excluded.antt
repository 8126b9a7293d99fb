-- ===== src/Probe/Excluded.antt =====
-- `ExcludedPorts::parse` of probe.cpp. `strtol` at a digit is the decimal number there, up to the
-- greatest `long`, and what is behind it.
use Prim.Native.Nat.{min}
use trinetra.Prelude.{
  ℕ, zero, suc, ◌+◌, ◌-◌, ◌*◌, ◌^◌, Bool, true, false, ◌&&◌, ◌||◌, List, [], ◌∷◌, ◌++◌, Option,
  none, some, ltb, ◌==◌, if◌then◌else◌, length, drop,
}
use trinetra.Probe.Text.{isdigit, isspace, has_char}
use trinetra.Probe.Match.{is_some}
use trinetra.Probe.Types.{ipproto_tcp, ipproto_udp, ipproto_sctp, ExcludedPorts}

unfoldable pub read_digits : ℕ → List ℕ → ℕ × List ℕ
read_digits n [] = (n, [])
read_digits n (c ∷ s) =
    let rest = read_digits (n * 10 + (c - b'0')) s in if isdigit c then rest else (n, c ∷ s)

abbrev pub saturated : ℕ × List ℕ → ℕ × List ℕ
saturated (n, s) = (min n (2 ^ 63 - 1), s)

abbrev pub strtol : List ℕ → ℕ × List ℕ
strtol s = saturated (read_digits 0 s)

unfoldable pub skip_separators : List ℕ → List ℕ
skip_separators [] = []
skip_separators (c ∷ s) =
    let rest = skip_separators s in if isspace c || c == b',' then rest else c ∷ s

abbrev pub starts_with : (ℕ → Bool) → List ℕ → Bool
starts_with test [] = false
starts_with test (c ∷ s) = test c

-- The protocol that a letter forces; without one, -1 stands for all of them.
abbrev pub forced_proto : ℕ → Option ℕ
forced_proto c =
    if c == b'T' || c == b't'
    then some ipproto_tcp
    else if c == b'U' || c == b'u'
    then some ipproto_udp
    else if c == b'S' || c == b's'
    then some ipproto_sctp
    else none

abbrev pub add_port : ℕ → List ℕ → List ℕ
add_port port v = if has_char port v then v else v ++ port ∷ []

abbrev pub applies : Option ℕ → ℕ → Bool
applies none proto = true
applies (some forced) proto = forced == proto

abbrev pub add_if : Bool → ℕ → List ℕ → List ℕ
add_if false port v = v
add_if true port v = add_port port v

abbrev pub add_excluded : Option ℕ → ℕ → ExcludedPorts → ExcludedPorts
add_excluded forced port e = record {
  tcp_ports = add_if (applies forced ipproto_tcp) port e.tcp_ports;
  udp_ports = add_if (applies forced ipproto_udp) port e.udp_ports;
  sctp_ports = add_if (applies forced ipproto_sctp) port e.sctp_ports;
}

-- As many ports as a range has, from a port on.
unfoldable pub add_ports : Option ℕ → ℕ → ℕ → ExcludedPorts → ExcludedPorts
unfolding has_char
add_ports forced zero port e = e
add_ports forced (suc n) port e = add_ports forced n (suc port) (add_excluded forced port e)

abbrev pub add_range : Option ℕ → ℕ → ℕ → ExcludedPorts → ExcludedPorts
add_range forced lo hi e =
    if ltb 65535 lo || ltb hi lo then e else add_ports forced (suc (min hi 65535) - lo) lo e

-- The upper end of a range, and what is behind it.
abbrev pub behind_dash : ℕ → List ℕ → ℕ × List ℕ
behind_dash lo s = if starts_with isdigit s then strtol s else (lo, s)

abbrev pub upper_end : ℕ × List ℕ → ℕ × (ℕ × List ℕ)
upper_end (lo, []) = (lo, (lo, []))
upper_end (lo, c ∷ s) = (lo, (if c == b'-' then behind_dash lo s else (lo, c ∷ s)))

abbrev pub is_prefix : ℕ → List ℕ → Bool
is_prefix c s = starts_with (λ d. d == b':') s && is_some (forced_proto c)

abbrev pub Again : Type 0
Again = Option ℕ → List ℕ → ExcludedPorts → ExcludedPorts

abbrev pub with_range : Again → Option ℕ → ℕ × (ℕ × List ℕ) → ExcludedPorts → ExcludedPorts
with_range again forced (lo, (hi, s)) e = again forced s (add_range forced lo hi e)

-- A prefix, a range, or a byte of neither.
abbrev pub read_item : Again → Bool → Bool → Option ℕ → ℕ → List ℕ → ExcludedPorts → ExcludedPorts
read_item again true digit forced c s e = again (forced_proto c) (drop 1 s) e
read_item again false true forced c s e = with_range again forced (upper_end (strtol (c ∷ s))) e
read_item again false false forced c s e = again forced s e

abbrev pub read_round : Again → Option ℕ → List ℕ → ExcludedPorts → ExcludedPorts
read_round again forced [] e = e
read_round again forced (c ∷ s) e = read_item again (is_prefix c s) (isdigit c) forced c s e

-- A round reads a byte at least.
unfoldable pub parse_loop : ℕ → Option ℕ → List ℕ → ExcludedPorts → ExcludedPorts
unfolding add_ports skip_separators read_digits
parse_loop zero forced s e = e
parse_loop (suc fuel) forced s e = read_round (parse_loop fuel) forced (skip_separators s) e

unfoldable pub parse : List ℕ → ExcludedPorts → ExcludedPorts
unfolding parse_loop
parse spec e = parse_loop (length spec) none spec e
