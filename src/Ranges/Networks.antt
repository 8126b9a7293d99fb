-- ===== src/Ranges/Networks.antt =====
-- A network that is added to the tables of utils.cpp, and the addresses that are in it.
use native.Mathlib.Nat.{mod-lt, div-add-mod, pow-zero, pow-suc}
use trinetra.Prelude.{
  ℕ, zero, suc, ◌-◌, ◌*◌, ◌/◌, ◌^◌, ◌≤◌, ◌<◌, ◌≡◌, refl, ap, ◌∙◌, inl, inr, false, List, [], ◌∷◌,
  ◌++◌, Option, some, arith, ltb, ◌==◌, All, Elem,
}
use trinetra.Ranges.Tables.{
  IpRange, RangeTables, Libc, split_slash, no_prefix, prefix_of, range_of, range_if, pushed, add_v4,
  add_v6, add_cidr_range, finalize_ip_range_tables, lookup_ip_provider,
}
use trinetra.Ranges.Lookup.{IsApart, lookup_ip_provider-finds}

pow_positive : (n : ℕ) → 0 < 2 ^ n
pow_positive zero = rw pow-zero (omega arith)
pow_positive (suc n) = let h = pow_positive n in rw pow-suc (omega (arith, h))

-- The range has the network's addresses: those with the same bits in front.
pub range_of_holds :
    (base size target : ℕ) (label : List ℕ)
    → 0 < size
    → target / size ≡ base / size
    → ((range_of base size label).start ≤ target) × (target ≤ (range_of base size label).end)
range_of_holds base size target label h same =
    let b = div-add-mod base size in
    let t = div-add-mod target size in
    let small = mod-lt target h in
    let first = mod-lt base h in
    let e = ap (λ q. size * q) same in
    (omega (arith, b, t, small, first, e), omega (arith, b, t, small, first, e))

range_if_lem :
    (base prefix : ℕ) (label : List ℕ)
    → prefix ≤ 32
    → range_if 32 base prefix label ≡ some (range_of base (2 ^ (32 - prefix)) label)
range_if_lem base prefix label h =
    let e : (prefix == no_prefix) ≡ false = ground (arith, h) in
    let f : ltb 32 prefix ≡ false = ground (arith, h) in rw e (rw f refl)

All-last :
    (P : IpRange → Type 0) (ranges : List IpRange) (r : IpRange)
    → All P ranges
    → P r
    → All P (ranges ++ r ∷ [])
All-last P [] r h p = (p, tt)
All-last P (q ∷ ranges) r h p = (h.0, All-last P ranges r h.1 p)

Elem-last : (ranges : List IpRange) (r : IpRange) → Elem r (ranges ++ r ∷ [])
Elem-last [] r = inl refl
Elem-last (q ∷ ranges) r = inr (Elem-last ranges r)

added :
    (libc : Libc) (cidr label addr text : List ℕ) (base prefix : ℕ) (t : RangeTables)
    → split_slash cidr ≡ (addr, some text)
    → prefix_of libc (some text) ≡ prefix
    → libc.inet_pton addr ≡ some base
    → prefix ≤ 32
    → add_cidr_range libc cidr label t
      ≡ record t { v4_ranges = t.v4_ranges ++ range_of base (2 ^ (32 - prefix)) label ∷ [] }
unfolding add_cidr_range
added libc cidr label addr text base prefix t parts value address h =
    let otherwise = λ (a : List ℕ) (p : ℕ). add_v6 (libc.inet_pton_6 a) p label t in
    ap
      (λ (s : List ℕ × Option (List ℕ)).
        add_v4 (libc.inet_pton s.0) (prefix_of libc s.1) label t
          (otherwise s.0 (prefix_of libc s.1)))
      parts
    ∙ ap (λ p. add_v4 (libc.inet_pton addr) p label t (otherwise addr p)) value
    ∙ ap (λ b. add_v4 b prefix label t (otherwise addr prefix)) address
    ∙ ap (λ r. record t { v4_ranges = pushed r t.v4_ranges }) (range_if_lem base prefix label h)

-- A line with an address of IPv4 and a prefix of at most 32 adds its network, so that after the
-- tables are sorted every address with the same bits in front is given the line's label, if the
-- other ranges of the table are apart from the network.
pub add_cidr_range-finds :
    (libc : Libc) (cidr label addr text ip : List ℕ) (base prefix target : ℕ) (t : RangeTables)
    → split_slash cidr ≡ (addr, some text)
    → prefix_of libc (some text) ≡ prefix
    → libc.inet_pton addr ≡ some base
    → prefix ≤ 32
    → libc.inet_pton ip ≡ some target
    → target / 2 ^ (32 - prefix) ≡ base / 2 ^ (32 - prefix)
    → All (IsApart (range_of base (2 ^ (32 - prefix)) label)) t.v4_ranges
    → lookup_ip_provider libc ip (finalize_ip_range_tables (add_cidr_range libc cidr label t))
      ≡ some label
add_cidr_range-finds libc cidr label addr text ip base prefix target t parts value address h asked
      same apart =
    let r = range_of base (2 ^ (32 - prefix)) label in
    let table = record t { v4_ranges = t.v4_ranges ++ r ∷ [] } in
    let holds =
      range_of_holds base (2 ^ (32 - prefix)) target label (pow_positive (32 - prefix)) same in
    ap (λ u. lookup_ip_provider libc ip (finalize_ip_range_tables u))
      (added libc cidr label addr text base prefix t parts value address h)
    ∙ lookup_ip_provider-finds libc ip target r table asked (Elem-last t.v4_ranges r)
        (All-last (IsApart r) t.v4_ranges r apart (inl refl)) holds.0 holds.1
