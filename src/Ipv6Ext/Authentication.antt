-- ===== src/Ipv6Ext/Authentication.antt =====
-- The AH and ESP headers of scan.cpp against the layouts of RFC 4302 and RFC 4303.
use trinetra.Prelude.{
  ℕ, zero, suc, ◌+◌, ◌-◌, ◌/◌, ◌%◌, ◌≤◌, ◌≡◌, refl, ap, true, false, ◌++◌, arith, ltb, length,
  length-append, length-replicate, get_elem?, some, replicate,
}
use trinetra.Ipv6Ext.Security.{
  AhMode, icv_length, is_bad_len, ah_total, random_loop, build_ah_header,
}

length-random_loop :
    (rng : ℕ → ℕ) (draws n pos cap : ℕ)
    → pos + n ≤ cap
    → length (random_loop rng draws n pos cap) ≡ n
unfolding random_loop
length-random_loop rng draws zero pos cap h = refl
length-random_loop rng draws (suc n) pos cap h =
    let room : ltb pos cap ≡ true = ground (arith, h) in
    rw room (omega (arith, length-random_loop rng (draws + 1) n (pos + 1) cap (omega arith)))

ah_total_lem :
    (mode : AhMode)
    → (12 + icv_length mode ≤ ah_total mode) × (ah_total mode % 8 ≡ 0) × (ah_total mode ≤ 24)
ah_total_lem AhMode.none = (omega arith, refl, omega arith)
ah_total_lem AhMode.valid = (omega arith, refl, omega arith)
ah_total_lem AhMode.bad_spi = (omega arith, refl, omega arith)
ah_total_lem AhMode.no_icv = (omega arith, refl, omega arith)
ah_total_lem AhMode.bad_len = (omega arith, refl, omega arith)
ah_total_lem AhMode.seq0 = (omega arith, refl, omega arith)

-- With an AH wanted and room for it: its length is a multiple of 8, and unless the mode is to lie
-- about the length, the second byte counts its words of 4 without the first two.
build_ah_header-length :
    (cap next_header : ℕ) (mode : AhMode) (rng : ℕ → ℕ) (draws : ℕ)
    → 24 ≤ cap
    → is_bad_len mode ≡ false
    → (length (build_ah_header cap next_header true mode rng draws) % 8 ≡ 0)
      × (get_elem? (build_ah_header cap next_header true mode rng draws) 1
          ≡ some (length (build_ah_header cap next_header true mode rng draws) / 4 - 2))
unfolding build_ah_header
build_ah_header-length cap next_header mode rng draws room honest =
    let t = ah_total_lem mode in
    let fits : ltb cap (ah_total mode) ≡ false = ground (arith, t.2, room) in
    let icv = random_loop rng (draws + 1) (icv_length mode) 12 cap in
    let drawn = length-random_loop rng (draws + 1) (icv_length mode) 12 cap (omega (arith, t)) in
    let pad = replicate (ah_total mode - (12 + length icv)) 0 in
    let bytes : 12 + length (icv ++ pad) ≡ ah_total mode = omega (
      arith,
      length-append icv pad,
      length-replicate {A = ℕ} (ah_total mode - (12 + length icv)) 0,
      drawn,
      t.0,
    ) in
    rw (fits, honest)
      (omega (arith, bytes, t.1), ap (λ (n : ℕ). some n) (omega (arith, bytes, t.1, t.2)))
