-- ===== src/Ipv6Ext/Tlv.antt =====
-- The options headers of scan.cpp against the format of RFC 8200: type-length-value options, in a
-- header whose length is a multiple of 8 and stands in its second byte.
use trinetra.Prelude.{
  ℕ, zero, suc, ◌+◌, ◌-◌, ◌*◌, ◌/◌, ◌%◌, ◌≤◌, ◌<◌, ◌≡◌, ◌≢◌, refl, inl, inr, ◌&&◌, List, [], ◌∷◌,
  ◌++◌, arith, ltb, leb, ◌==◌, length, replicate, length-append, length-replicate, append_assoc,
  append_nil, subst, Bool-cases,
}
use trinetra.Ipv6Ext.Types.{HopOptKind, DestOptKind, Ipv6ExtHeaderOptions, min, htons, htonl}
use trinetra.Ipv6Ext.Options.{pad_loop, align_loop, option_if, home_addr, hop_options, dest_options}

-- A sequence of options: Pad1 is a single zero, any other has its type, the length of its data,
-- and the data.
pub data IsTlv : List ℕ → Type 0 where
  nil : IsTlv []
  pad1 : {rest : List ℕ} → IsTlv rest → IsTlv (0 ∷ rest)
  option :
      (kind n : ℕ) (value : List ℕ) {rest : List ℕ}
      → kind ≢ 0
      → length value ≡ n
      → n ≤ 255
      → IsTlv rest
      → IsTlv (kind ∷ n ∷ (value ++ rest))

pub IsTlv-append : {xs ys : List ℕ} → IsTlv xs → IsTlv ys → IsTlv (xs ++ ys)
IsTlv-append IsTlv.nil q = q
IsTlv-append (IsTlv.pad1 p) q = IsTlv.pad1 (IsTlv-append p q)
IsTlv-append {ys = ys} (IsTlv.option kind n value {rest} k e short p) q =
    rw (append_assoc value rest ys) (IsTlv.option kind n value k e short (IsTlv-append p q))

pad_loop-IsTlv : (fuel remaining pos cap : ℕ) → IsTlv (pad_loop fuel remaining pos cap)
unfolding pad_loop
pad_loop-IsTlv zero remaining pos cap = IsTlv.nil
pad_loop-IsTlv (suc fuel) remaining pos cap =
    elim (Bool-cases (ltb 0 remaining && leb (pos + 2) cap)) [
      | inr e ↦ rw e IsTlv.nil
      | inl e ↦ rw e (elim (Bool-cases (remaining == 1)) [
        | inl f ↦ rw f (IsTlv.pad1 IsTlv.nil)
        | inr f ↦ rw f (
            IsTlv.option 1 _ (replicate _ 0) (λ z. omega (arith, z)) (length-replicate _ 0)
              (omega arith) (pad_loop-IsTlv fuel _ _ cap))
      ])
    ]

length-padn :
    (k n : ℕ) (rest : List ℕ) → length (k ∷ n ∷ (replicate n 0 ++ rest)) ≡ n + 2 + length rest
length-padn k n rest =
    omega (arith, length-append (replicate n 0) rest, length-replicate {A = ℕ} n 0)

pad_loop-fits :
    (fuel remaining pos cap : ℕ) → pos ≤ cap → pos + length (pad_loop fuel remaining pos cap) ≤ cap
unfolding pad_loop
pad_loop-fits zero remaining pos cap h = omega arith
pad_loop-fits (suc fuel) remaining pos cap h =
    elim (Bool-cases (ltb 0 remaining && leb (pos + 2) cap)) [
      | inr e ↦ rw e (omega arith)
      | inl e ↦
          let room : pos + 2 ≤ cap = ground (arith, e) in
          rw e (elim (Bool-cases (remaining == 1)) [
            | inl f ↦ rw f (omega arith)
            | inr f ↦
                let chunk = min (remaining - 2) (min 255 (cap - pos - 2)) in
                let rest = pad_loop fuel (remaining - (chunk + 2)) (pos + 2 + chunk) cap in
                let fits =
                  pad_loop-fits fuel (remaining - (chunk + 2)) (pos + 2 + chunk) cap
                    (omega arith) in
                rw f (omega (arith, length-padn 1 chunk rest, fits))
          ])
    ]

-- The padding takes as many bytes as it is asked for, where they fit.
pub pad_loop-exact :
    (fuel remaining pos cap : ℕ)
    → remaining ≤ fuel
    → pos + remaining < cap
    → length (pad_loop fuel remaining pos cap) ≡ remaining
unfolding pad_loop
pad_loop-exact zero remaining pos cap h k = omega arith
pad_loop-exact (suc fuel) remaining pos cap h k =
    elim (Bool-cases (ltb 0 remaining && leb (pos + 2) cap)) [
      | inr e ↦ let stop : remaining ≡ 0 = ground (arith, e, k) in rw e (omega arith)
      | inl e ↦
          let some_left : 0 < remaining = ground (arith, e) in
          rw e (elim (Bool-cases (remaining == 1)) [
            | inl f ↦ let one : remaining ≡ 1 = ground arith in rw f (omega arith)
            | inr f ↦
                let many : remaining ≢ 1 = ground arith in
                let chunk = min (remaining - 2) (min 255 (cap - pos - 2)) in
                let rest = pad_loop fuel (remaining - (chunk + 2)) (pos + 2 + chunk) cap in
                let left =
                  pad_loop-exact fuel (remaining - (chunk + 2)) (pos + 2 + chunk) cap (omega arith)
                    (omega arith) in
                rw f (omega (arith, length-padn 1 chunk rest, left, many))
          ])
    ]

-- The second loop ends at a multiple of 8, with seven bytes at most.
abbrev need : ℕ → ℕ
need pos = 8 - pos % 8

align_loop-done : (fuel pos : ℕ) → pos % 8 ≡ 0 → align_loop fuel pos ≡ []
unfolding align_loop
align_loop-done zero pos h = refl
align_loop-done (suc fuel) pos h = rw h refl

pub align_loop_lem :
    (fuel pos : ℕ)
    → IsTlv (align_loop (suc fuel) pos)
      × (pos + length (align_loop (suc fuel) pos) ≡ (pos + 7) / 8 * 8)
unfolding align_loop
align_loop_lem fuel pos = elim (Bool-cases (pos % 8 == 0)) [
  | inl e ↦ let h : pos % 8 ≡ 0 = ground arith in rw e (IsTlv.nil, omega arith)
  | inr e ↦
      let h : pos % 8 ≢ 0 = ground arith in
      let stop = align_loop-done fuel (pos + need pos) (omega (arith, h)) in
      rw (e, stop)
        (elim (Bool-cases (need pos == 1)) [
          | inl f ↦
              let one : need pos ≡ 1 = ground arith in
              rw f (IsTlv.pad1 IsTlv.nil, omega (arith, one, h))
          | inr f ↦
              let many : need pos ≢ 1 = ground arith in
              rw f (
                IsTlv.option 1 _ (replicate (need pos - 2) 0) (λ z. omega (arith, z))
                    (length-replicate _ 0) (omega arith) IsTlv.nil,
                omega (arith, length-padn 1 (need pos - 2) [], many, h),
              )
        ])
]

-- What a header builder makes of its options: they have the format, and fit behind two bytes.
pub record AreOptions (cap : ℕ) (options : List ℕ) : Type 0 where
  pub tlv : IsTlv options
  pub fits : 2 + length options ≤ cap

option_if_lem :
    (cap n : ℕ) (options : List ℕ)
    → 2 ≤ cap
    → IsTlv options
    → length options ≡ n
    → AreOptions cap (option_if (leb (2 + n) cap) options)
option_if_lem cap n options room tlv size = elim (Bool-cases (leb (2 + n) cap)) [
  | inl e ↦ rw e (record { tlv = tlv; fits = ground (arith, size, e) })
  | inr e ↦ rw e (record { tlv = IsTlv.nil; fits = omega arith })
]

one-IsTlv :
    (kind n : ℕ) (value : List ℕ) → kind ≢ 0 → length value ≡ n → n ≤ 255 → IsTlv (kind ∷ n ∷ value)
one-IsTlv kind n value k e short =
    subst (λ v. IsTlv (kind ∷ n ∷ v)) (append_nil value)
      (IsTlv.option kind n value k e short IsTlv.nil)

unknown-IsTlv : (kind : ℕ) → IsTlv (kind ∷ 0 ∷ [])
unknown-IsTlv zero = IsTlv.pad1 (IsTlv.pad1 IsTlv.nil)
unknown-IsTlv (suc kind) = one-IsTlv (suc kind) 0 [] (λ z. omega (arith, z)) refl (omega arith)

pad_AreOptions : (remaining cap : ℕ) → 2 ≤ cap → AreOptions cap (pad_loop remaining remaining 2 cap)
pad_AreOptions remaining cap room = record {
  tlv = pad_loop-IsTlv remaining remaining 2 cap;
  fits = pad_loop-fits remaining remaining 2 cap room;
}

pub hop_options_lem :
    (cap : ℕ) (o : Ipv6ExtHeaderOptions) (kind : HopOptKind)
    → 2 ≤ cap
    → AreOptions cap (hop_options cap o kind)
unfolding hop_options
hop_options_lem cap o HopOptKind.alert room =
    option_if_lem cap 4 _ room
      (one-IsTlv 5 2 (htons o.hop_value) (λ z. omega (arith, z)) refl (omega arith)) refl
hop_options_lem cap o HopOptKind.jumbo room =
    option_if_lem cap 6 _ room
      (one-IsTlv 0xC2 4 (htonl o.hop_value) (λ z. omega (arith, z)) refl (omega arith)) refl
hop_options_lem cap o HopOptKind.pad room = pad_AreOptions o.hop_value cap room
hop_options_lem cap o HopOptKind.unknown room =
    option_if_lem cap 2 _ room (unknown-IsTlv o.hop_unknown_type) refl
hop_options_lem cap o HopOptKind.none room = record { tlv = IsTlv.nil; fits = room }

length-home_addr : (o : Ipv6ExtHeaderOptions) → length (home_addr o) ≡ 16
length-home_addr o = elim (Bool-cases o.dest_home_addr_set) [
  | inl e ↦ rw e o.dest_home_addr.sixteen
  | inr e ↦ rw e refl
]

pub dest_options_lem :
    (cap : ℕ) (o : Ipv6ExtHeaderOptions) (kind : DestOptKind)
    → 2 ≤ cap
    → kind ≢ DestOptKind.malformed
    → AreOptions cap (dest_options cap o kind)
unfolding dest_options
dest_options_lem cap o DestOptKind.home room h =
    option_if_lem cap 18 _ room
      (one-IsTlv 0xC9 16 (home_addr o) (λ z. omega (arith, z)) (length-home_addr o) (omega arith))
      (omega (arith, length-home_addr o))
dest_options_lem cap o DestOptKind.tunnel room h =
    option_if_lem cap 3 _ room
      (one-IsTlv 4 1 (o.dest_value % 256 ∷ []) (λ z. omega (arith, z)) refl (omega arith)) refl
dest_options_lem cap o DestOptKind.pad room h = pad_AreOptions o.dest_value cap room
dest_options_lem cap o DestOptKind.malformed room h = absurd (h refl)
dest_options_lem cap o DestOptKind.unknown room h =
    option_if_lem cap 2 _ room (unknown-IsTlv o.dest_unknown_type) refl
dest_options_lem cap o DestOptKind.none room h = record { tlv = IsTlv.nil; fits = room }
