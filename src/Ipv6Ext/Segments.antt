-- ===== src/Ipv6Ext/Segments.antt =====
-- The routing header of scan.cpp: its length, and how it counts its segments.
use trinetra.Prelude.{
  ℕ, zero, suc, ◌+◌, ◌-◌, ◌*◌, ◌/◌, ◌%◌, ◌≤◌, ◌<◌, ◌≡◌, ◌≢◌, refl, ap, inl, inr, true, ◌&&◌, not,
  List, ◌∷◌, ◌++◌, arith, ltb, leb, ◌==◌, length, replicate, length-append, Bool-cases, get_elem?,
  some,
}
use trinetra.Ipv6Ext.Types.{RouteHdrType, Ipv6ExtHeaderOptions}
use trinetra.Ipv6Ext.Routing.{
  four, segments, segments_loop, routing_data, zeros_loop, build_routing_header,
}
use trinetra.Ipv6Ext.Header.{IsCap}

segments_loop-fits :
    (n pos cap : ℕ)
    → pos ≤ cap
    → (pos + length (segments_loop n pos cap) ≤ cap) × (length (segments_loop n pos cap) % 8 ≡ 0)
unfolding segments_loop
segments_loop-fits zero pos cap h = (omega arith, refl)
segments_loop-fits (suc n) pos cap h = elim (Bool-cases (leb (pos + 16) cap)) [
  | inl e ↦
      let room : pos + 16 ≤ cap = ground arith in
      let rest = segments_loop-fits n (pos + 16) cap room in
      rw e (omega (arith, rest.0), omega (arith, rest.1))
  | inr e ↦ rw e (omega arith, refl)
]

segments_loop-all : (n pos cap : ℕ) → pos + 16 * n ≤ cap → length (segments_loop n pos cap) ≡ 16 * n
unfolding segments_loop
segments_loop-all zero pos cap h = refl
segments_loop-all (suc n) pos cap h =
    let room : leb (pos + 16) cap ≡ true = ground (arith, h) in
    rw room (omega (arith, segments_loop-all n (pos + 16) cap (omega arith)))

zeros_loop_lem :
    (fuel pos cap : ℕ)
    → cap % 8 ≡ 0
    → pos ≤ cap
    → (pos + 7) / 8 * 8 ≤ pos + fuel
    → pos + length (zeros_loop fuel pos cap) ≡ (pos + 7) / 8 * 8
unfolding zeros_loop
zeros_loop_lem zero pos cap whole h enough = omega arith
zeros_loop_lem (suc fuel) pos cap whole h enough =
    elim (Bool-cases (not (pos % 8 == 0) && ltb pos cap)) [
      | inl e ↦
          let part : pos % 8 ≢ 0 = ground (arith, e) in
          let room : pos < cap = ground (arith, e) in
          rw e (
            omega (
              arith,
              part,
              zeros_loop_lem fuel (pos + 1) cap whole (omega arith) (omega (arith, part)),
            ))
      | inr e ↦ elim (Bool-cases (pos % 8 == 0)) [
        | inl f ↦ let full : pos % 8 ≡ 0 = ground arith in rw e (omega (arith, full))
        | inr f ↦ let full : cap ≤ pos = ground (arith, e, f) in rw e (omega (arith, full))
      ]
    ]

four_fits : (cap : ℕ) (bytes : List ℕ) → 8 ≤ cap → four cap bytes ≡ bytes
four_fits cap bytes room = let e : leb 8 cap ≡ true = ground (arith, room) in rw e refl

-- Four bytes and then the segments.
with_segments :
    (cap n : ℕ) (fixed : List ℕ)
    → 8 ≤ cap
    → length fixed ≡ 4
    → 4 + length (four cap fixed ++ segments_loop n (4 + length (four cap fixed)) cap) ≤ cap
with_segments cap n fixed room size = rw (four_fits cap fixed room) (
    omega (
      arith,
      size,
      length-append fixed (segments_loop n (4 + length fixed) cap),
      (segments_loop-fits n (4 + length fixed) cap (omega (arith, size, room))).0,
    ))

-- The data of every kind fits behind the first four bytes.
routing_data-fits :
    (cap : ℕ) (o : Ipv6ExtHeaderOptions) (kind : RouteHdrType)
    → IsCap cap
    → 4 + length (routing_data cap o kind).data_bytes ≤ cap
unfolding routing_data
routing_data-fits cap o RouteHdrType.type0 size =
    with_segments cap (segments o) (replicate 4 0) size.room refl
routing_data-fits cap o RouteHdrType.type2 size =
    rw (four_fits cap (replicate 4 0) size.room) (elim (Bool-cases (leb 24 cap)) [
      | inl e ↦ let room : 24 ≤ cap = ground arith in rw e (omega (arith, room))
      | inr e ↦ rw e (omega (arith, size.room))
    ])
routing_data-fits cap o RouteHdrType.srh size = with_segments cap (segments o) _ size.room refl
routing_data-fits cap o RouteHdrType.invalid size = omega (arith, size.room)
routing_data-fits cap o RouteHdrType.none size = omega (arith, size.room)

-- A routing header's length is a multiple of 8 and is in its second byte, and it fits.
pub data RoutingHeader (cap next_header : ℕ) : List ℕ → Type 0 where
  header :
      (units routing_type segments_left : ℕ) (body : List ℕ)
      → 4 + length body ≡ 8 * (units + 1)
      → 8 * (units + 1) ≤ cap
      → units ≤ 255
      → RoutingHeader cap next_header (next_header ∷ units ∷ routing_type ∷ segments_left ∷ body)

-- With a routing header wanted, of any kind and with any count of segments: its length is a
-- multiple of 8 that stands in its second byte, and it fits into its buffer.
pub build_routing_header-RoutingHeader :
    (cap next_header : ℕ) (o : Ipv6ExtHeaderOptions)
    → IsCap cap
    → o.use_route_hdr ≡ true
    → RoutingHeader cap next_header (build_routing_header cap next_header o)
unfolding build_routing_header
build_routing_header-RoutingHeader cap next_header o size use_it =
    let d = (routing_data cap o o.route_kind).data_bytes in
    let fits = routing_data-fits cap o o.route_kind size in
    let zeros = zeros_loop_lem 8 (4 + length d) cap size.whole fits (omega arith) in
    let all = length-append d (zeros_loop 8 (4 + length d) cap) in
    rw use_it (
      RoutingHeader.header _ _ _ _ (omega (arith, zeros, all, size.countable, size.whole, fits))
        (omega (arith, zeros, all, size.whole, fits, size.countable)) (omega arith))

-- The kinds of header that list segments.
pub data Lists : RouteHdrType → Type 0 where
  type0 : Lists RouteHdrType.type0
  srh : Lists RouteHdrType.srh

with_all_segments :
    (cap n : ℕ) (fixed : List ℕ)
    → 8 + 16 * n ≤ cap
    → length fixed ≡ 4
    → length (four cap fixed ++ segments_loop n (4 + length (four cap fixed)) cap) ≡ 4 + 16 * n
with_all_segments cap n fixed room size = rw (four_fits cap fixed (omega (arith, room))) (
    omega (
      arith,
      size,
      length-append fixed (segments_loop n (4 + length fixed) cap),
      segments_loop-all n (4 + length fixed) cap (omega (arith, size, room)),
    ))

zeros_loop-none : (fuel pos cap : ℕ) → pos % 8 ≡ 0 → length (zeros_loop fuel pos cap) ≡ 0
unfolding zeros_loop
zeros_loop-none zero pos cap h = refl
zeros_loop-none (suc fuel) pos cap h = rw h refl

listed :
    (cap : ℕ) (o : Ipv6ExtHeaderOptions) {kind : RouteHdrType}
    → Lists kind
    → 8 + 16 * segments o ≤ cap
    → (length (routing_data cap o kind).data_bytes ≡ 4 + 16 * segments o)
      × ((routing_data cap o kind).segments_left ≡ segments o)
unfolding routing_data
listed cap o Lists.type0 fits = (with_all_segments cap (segments o) (replicate 4 0) fits refl, refl)
listed cap o Lists.srh fits = (with_all_segments cap (segments o) _ fits refl, refl)

-- With a routing header wanted that lists segments, and a buffer that has room for them: the
-- header holds them all behind its first 8 bytes, its second byte is twice their number, and its
-- fourth byte is their number.
pub build_routing_header-segments :
    (cap next_header : ℕ) (o : Ipv6ExtHeaderOptions)
    → o.use_route_hdr ≡ true
    → Lists o.route_kind
    → 8 + 16 * segments o ≤ cap
    → (length (build_routing_header cap next_header o) ≡ 8 + 16 * segments o)
      × (get_elem? (build_routing_header cap next_header o) 1 ≡ some (2 * segments o))
      × (get_elem? (build_routing_header cap next_header o) 3 ≡ some (segments o))
unfolding build_routing_header
build_routing_header-segments cap next_header o use_it lists fits =
    let d = (routing_data cap o o.route_kind).data_bytes in
    let l = listed cap o lists fits in
    let z = zeros_loop 8 (4 + length d) cap in
    let none_left : length z ≡ 0 = zeros_loop-none 8 (4 + length d) cap (omega (arith, l.0)) in
    let all = length-append d z in
    let units : ((4 + length (d ++ z)) / 8 - 1) % 256 ≡ 2 * segments o =
      omega (arith, l.0, all, none_left) in
    rw use_it
      (omega (arith, l.0, all, none_left), ap (λ (n : ℕ). some n) units, ap (λ (n : ℕ). some n) l.1)
