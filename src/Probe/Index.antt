-- ===== src/Probe/Index.antt =====
-- The index that `buildPortIndex` makes.
use trinetra.Prelude.{
  ℕ, ◌^◌, ◌<◌, Bool, true, false, ◌&&◌, List, [], ◌∷◌, ◌++◌, ◌≡◌, inl, inr, refl, sym, ap, subst,
  ◌∙◌, All, Elem, append_nil, append_assoc, arith, ◌==◌, if◌then◌else◌, Bool-cases,
}
use trinetra.Probe.Types.{ServiceTunnel, ServiceProbe, AllProbes}
use trinetra.Probe.Text.{has_char}
use trinetra.Probe.Lookup.{
  port_index_key, probes_for_port, ports_of, port_is_probable, push_at, index_ports, index_probes,
  build_port_index,
}

-- The numbers of a probe, in the widths of the index.
pub record IsSized (p : ServiceProbe) : Type 0 where
  pub protocol_small : p.protocol < 2 ^ 15
  pub ports_small : All (λ port. port < 2 ^ 16) p.probable_ports
  pub ssl_ports_small : All (λ port. port < 2 ^ 16) p.probable_ssl_ports

-- A probe as often as it lists a port.
unfoldable pub entries : ℕ → ServiceProbe → List ℕ → List ServiceProbe
entries port p [] = []
entries port p (q ∷ ports) = let rest = entries port p ports in if q == port then p ∷ rest else rest

-- The probes of a protocol that list a port, in the order of the database.
unfoldable pub listing : ℕ → ServiceTunnel → ℕ → List ServiceProbe → List ServiceProbe
unfolding entries
listing proto tunnel port [] = []
listing proto tunnel port (p ∷ probes) =
    (if p.protocol == proto then entries port p (ports_of tunnel p) else [])
    ++ listing proto tunnel port probes

abbrev same : ServiceTunnel → ServiceTunnel → Bool
same ServiceTunnel.plain ServiceTunnel.plain = true
same ServiceTunnel.plain ServiceTunnel.ssl = false
same ServiceTunnel.ssl ServiceTunnel.plain = false
same ServiceTunnel.ssl ServiceTunnel.ssl = true

key_same :
    (a b : ℕ) (t u : ServiceTunnel) (p q : ℕ)
    → a < 2 ^ 15
    → b < 2 ^ 15
    → p < 2 ^ 16
    → q < 2 ^ 16
    → (port_index_key a t p == port_index_key b u q) ≡ (b == a && same t u && q == p)
key_same a b ServiceTunnel.plain ServiceTunnel.plain p q ha hb hp hq =
    ground (arith, ha, hb, hp, hq)
key_same a b ServiceTunnel.plain ServiceTunnel.ssl p q ha hb hp hq = ground (arith, ha, hb, hp, hq)
key_same a b ServiceTunnel.ssl ServiceTunnel.plain p q ha hb hp hq = ground (arith, ha, hb, hp, hq)
key_same a b ServiceTunnel.ssl ServiceTunnel.ssl p q ha hb hp hq = ground (arith, ha, hb, hp, hq)

module _ (proto : ℕ) (tunnel : ServiceTunnel) (port : ℕ) (hb : proto < 2 ^ 15)
    (hp : port < 2 ^ 16) where
  abbrev key : ℕ
  key = port_index_key proto tunnel port

  abbrev here : ServiceTunnel → ServiceProbe → List ℕ → List ServiceProbe
  here t p ports = if p.protocol == proto && same tunnel t then entries port p ports else []

  push_at-entries :
      (t : ServiceTunnel) (p : ServiceProbe) (q : ℕ) (ports : List ℕ)
      (index : ℕ → List ServiceProbe)
      → p.protocol < 2 ^ 15
      → q < 2 ^ 16
      → push_at p (port_index_key p.protocol t q) index key ++ here t p ports
        ≡ index key ++ here t p (q ∷ ports)
  unfolding entries
  push_at-entries t p q ports index ha hq =
      pushed (p.protocol == proto && same tunnel t) (q == port) _
        (key_same proto p.protocol tunnel t port q hb ha hp hq)
    where
      pushed :
          (ours at : Bool) (k : Bool)
          → k ≡ (ours && at)
          → (if k then index key ++ p ∷ [] else index key)
              ++ (if ours then entries port p ports else [])
            ≡ index key
              ++ (if ours
                  then (if at then p ∷ entries port p ports else entries port p ports)
                  else [])
      pushed true true k e = rw e (append_assoc (index key) (p ∷ []) (entries port p ports))
      pushed true false k e = rw e refl
      pushed false at k e = rw e refl

  entries_nil : (p : ServiceProbe) → entries port p [] ≡ []
  unfolding entries
  entries_nil p = refl

  index_ports-entries :
      (t : ServiceTunnel) (p : ServiceProbe) (ports : List ℕ) (index : ℕ → List ServiceProbe)
      → p.protocol < 2 ^ 15
      → All (λ q. q < 2 ^ 16) ports
      → index_ports t p ports index key ≡ index key ++ here t p ports
  unfolding index_ports
  index_ports-entries t p [] index ha hs =
      sym (append_nil (index key))
      ∙ ap (λ r. index key ++ r) (sym (none_here (p.protocol == proto && same tunnel t)))
    where
      none_here : (b : Bool) → (if b then entries port p [] else []) ≡ []
      none_here true = entries_nil p
      none_here false = refl
  index_ports-entries t p (q ∷ ports) index ha hs =
      index_ports-entries t p ports (push_at p (port_index_key p.protocol t q) index) ha hs.1
      ∙ push_at-entries t p q ports index ha hs.0

  abbrev of_probe : ServiceProbe → List ServiceProbe
  of_probe p = if p.protocol == proto then entries port p (ports_of tunnel p) else []

  both_tunnels :
      (ours : Bool) (t : ServiceTunnel) (p : ServiceProbe)
      → (if ours && same t ServiceTunnel.plain then entries port p p.probable_ports else [])
          ++ (if ours && same t ServiceTunnel.ssl then entries port p p.probable_ssl_ports else [])
        ≡ (if ours then entries port p (ports_of t p) else [])
  both_tunnels false t p = refl
  both_tunnels true ServiceTunnel.plain p = append_nil (entries port p p.probable_ports)
  both_tunnels true ServiceTunnel.ssl p = refl

  index_probes-listing :
      (probes : List ServiceProbe) (index : ℕ → List ServiceProbe)
      → All IsSized probes
      → index_probes probes index key ≡ index key ++ listing proto tunnel port probes
  unfolding index_probes listing
  index_probes-listing [] index h = sym (append_nil (index key))
  index_probes-listing (p ∷ probes) index h =
      let plains = index_ports ServiceTunnel.plain p p.probable_ports index in
      let both = index_ports ServiceTunnel.ssl p p.probable_ssl_ports plains in
      let first : plains key ≡ _ =
        index_ports-entries ServiceTunnel.plain p p.probable_ports index h.0.protocol_small
          h.0.ports_small in
      let second : both key ≡ _ =
        index_ports-entries ServiceTunnel.ssl p p.probable_ssl_ports plains h.0.protocol_small
          h.0.ssl_ports_small in
      index_probes-listing probes both h.1
      ∙ ap (λ r. r ++ listing proto tunnel port probes)
          (second
            ∙ ap (λ r. r ++ here ServiceTunnel.ssl p p.probable_ssl_ports) first
            ∙ append_assoc (index key) (here ServiceTunnel.plain p p.probable_ports)
                (here ServiceTunnel.ssl p p.probable_ssl_ports)
            ∙ ap (λ r. index key ++ r) (both_tunnels (p.protocol == proto) tunnel p))
      ∙ append_assoc (index key) (of_probe p) (listing proto tunnel port probes)

  -- With numbers in their widths, in the probes and in the request: the probes that the index has
  -- for a port are those of the protocol that list it for the tunnel, in the order of the database.
  pub probes_for_port-listing :
      (db : AllProbes)
      → All IsSized db.probes
      → probes_for_port proto tunnel port (build_port_index db)
        ≡ listing proto tunnel port db.probes
  unfolding build_port_index
  probes_for_port-listing db h = index_probes-listing db.probes (λ k. []) h

entries-Elem :
    (port : ℕ) (p : ServiceProbe) (ports : List ℕ)
    → has_char port ports ≡ true
    → Elem p (entries port p ports)
unfolding entries has_char
entries-Elem port p [] h = cc
entries-Elem port p (q ∷ ports) h = elim (Bool-cases (q == port)) [
  | inl e ↦ rw e (inl refl)
  | inr e ↦ rw e (entries-Elem port p ports (ground (arith, e, h)))
]

Elem-append_left : {A : Type 0} (x : A) (xs ys : List A) → Elem x xs → Elem x (xs ++ ys)
Elem-append_left x [] ys h = absurd h
Elem-append_left x (y ∷ xs) ys (inl e) = inl e
Elem-append_left x (y ∷ xs) ys (inr h) = inr (Elem-append_left x xs ys h)

Elem-append_right : {A : Type 0} (x : A) (xs ys : List A) → Elem x ys → Elem x (xs ++ ys)
Elem-append_right x [] ys h = h
Elem-append_right x (y ∷ xs) ys h = inr (Elem-append_right x xs ys h)

Elem-if :
    {A : Type 0} (x : A) (b : Bool) (xs : List A)
    → b ≡ true
    → Elem x xs
    → Elem x (if b then xs else [])
Elem-if x true xs e h = h
Elem-if x false xs e h = cc

pub listing-Elem :
    (proto : ℕ) (tunnel : ServiceTunnel) (port : ℕ) (p : ServiceProbe) (probes : List ServiceProbe)
    → Elem p probes
    → (p.protocol == proto) ≡ true
    → port_is_probable tunnel port p ≡ true
    → Elem p (listing proto tunnel port probes)
unfolding listing port_is_probable
listing-Elem proto tunnel port p [] l e h = absurd l
listing-Elem proto tunnel port p (q ∷ probes) (inl same_probe) e h =
    subst (λ r. Elem p (listing proto tunnel port (r ∷ probes))) same_probe
      (Elem-append_left p _ (listing proto tunnel port probes) (
        Elem-if p (p.protocol == proto) (entries port p (ports_of tunnel p)) e
          (entries-Elem port p (ports_of tunnel p) h)))
listing-Elem proto tunnel port p (q ∷ probes) (inr l) e h =
    Elem-append_right p _ (listing proto tunnel port probes)
      (listing-Elem proto tunnel port p probes l e h)
