-- ===== src/Probe/Added.antt =====
-- What the ranges that `ExcludedPorts::parse` of probe.cpp adds exclude.
use Prim.Native.Nat.{min}
use trinetra.Prelude.{
  ℕ, zero, suc, ◌+◌, ◌-◌, ◌≤◌, ◌≡◌, ap, ◌∙◌, ◌⊎◌, inl, inr, Bool, true, false, ◌&&◌, ◌||◌, List, [],
  ◌∷◌, ◌++◌, Option, ltb, leb, ◌==◌, Bool-cases, arith,
}
use trinetra.Probe.Text.{has_char}
use trinetra.Probe.Types.{ipproto_tcp, ipproto_udp, ipproto_sctp, ExcludedPorts}
use trinetra.Probe.Lookup.{contains}
use trinetra.Probe.Excluded.{applies, add_if, add_excluded, add_ports, add_range}

has_char-last : (c d : ℕ) (s : List ℕ) → has_char c (s ++ d ∷ []) ≡ (has_char c s || c == d)
unfolding has_char
has_char-last c d [] = ground arith
has_char-last c d (b ∷ s) = ground (arith, has_char-last c d s)

add_if-has_char :
    (b : Bool) (port c : ℕ) (v : List ℕ)
    → has_char c (add_if b port v) ≡ (has_char c v || b && c == port)
add_if-has_char false port c v = ground arith
add_if-has_char true port c v = elim (Bool-cases (has_char port v)) [
  | inl e ↦ elim (Bool-cases (c == port)) [
    | inl same ↦
        let at : c ≡ port = ground (arith, same) in
        rw e (ground (arith, ap (λ x. has_char x v) at, e, same))
    | inr differ ↦ rw e (ground (arith, differ))
  ]
  | inr e ↦ rw e (has_char-last c port v)
]

abbrev pub IsProto : ℕ → Type 0
IsProto proto = (proto ≡ ipproto_tcp) ⊎ ((proto ≡ ipproto_udp) ⊎ (proto ≡ ipproto_sctp))

module _ (port : ℕ) where
  contains-add_excluded :
      (proto : ℕ) (forced : Option ℕ) (q : ℕ) (e : ExcludedPorts)
      → IsProto proto
      → contains port proto (add_excluded forced q e)
        ≡ (contains port proto e || applies forced proto && port == q)
  unfolding contains
  contains-add_excluded proto forced q e (inl k) =
      rw k (add_if-has_char (applies forced ipproto_tcp) q port e.tcp_ports)
  contains-add_excluded proto forced q e (inr (inl k)) =
      rw k (add_if-has_char (applies forced ipproto_udp) q port e.udp_ports)
  contains-add_excluded proto forced q e (inr (inr k)) =
      rw k (add_if-has_char (applies forced ipproto_sctp) q port e.sctp_ports)

  next_port :
      (a b : Bool) (n q : ℕ)
      → ((a || b && port == q) || b && (leb (suc q) port && ltb port (suc q + n)))
        ≡ (a || b && (leb q port && ltb port (q + suc n)))
  next_port true b n q = ground arith
  next_port false true n q = ground arith
  next_port false false n q = ground arith

  up_to :
      (a b : Bool) (lo hi : ℕ)
      → lo ≤ hi
      → (a || b && (leb lo port && ltb port (lo + (suc hi - lo))))
        ≡ (a || b && (leb lo port && leb port hi))
  up_to a b lo hi l = ap (λ c. a || b && (leb lo port && c)) (ground (arith, l))

  contains-add_ports :
      (proto : ℕ) (forced : Option ℕ) (n q : ℕ) (e : ExcludedPorts)
      → IsProto proto
      → contains port proto (add_ports forced n q e)
        ≡ (contains port proto e || applies forced proto && (leb q port && ltb port (q + n)))
  unfolding add_ports
  contains-add_ports proto forced zero q e k = ground arith
  contains-add_ports proto forced (suc n) q e k =
      contains-add_ports proto forced n (suc q) (add_excluded forced q e) k
      ∙ ap (λ b. b || applies forced proto && (leb (suc q) port && ltb port (suc q + n)))
          (contains-add_excluded proto forced q e k)
      ∙ next_port (contains port proto e) (applies forced proto) n q

  pub contains-add_range :
      (proto : ℕ) (forced : Option ℕ) (lo hi : ℕ) (e : ExcludedPorts)
      → IsProto proto
      → lo ≤ hi
      → hi ≤ 65535
      → contains port proto (add_range forced lo hi e)
        ≡ (contains port proto e || applies forced proto && (leb lo port && leb port hi))
  contains-add_range proto forced lo hi e k l h =
      let fits : (ltb 65535 lo || ltb hi lo) ≡ false = ground (arith, l, h) in
      let all : min hi 65535 ≡ hi = omega arith in
      rw (fits, all)
        (contains-add_ports proto forced (suc hi - lo) lo e k
          ∙ up_to (contains port proto e) (applies forced proto) lo hi l)
