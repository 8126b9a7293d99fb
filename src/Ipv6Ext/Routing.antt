-- ===== src/Ipv6Ext/Routing.antt =====
-- `build_routing_header` of scan.cpp.
use trinetra.Prelude.{
  ℕ, zero, suc, ◌+◌, ◌-◌, ◌/◌, ◌%◌, not, ◌&&◌, List, [], ◌∷◌, ◌++◌, ltb, leb, ◌==◌, if◌then◌else◌,
  length, replicate,
}
use trinetra.Ipv6Ext.Types.{RouteHdrType, Ipv6ExtHeaderOptions, min}

abbrev pub ip6_route_seg_max : ℕ
ip6_route_seg_max = 16

-- The loop over the segments: 16 bytes each, as long as they fit.
unfoldable pub segments_loop : ℕ → ℕ → ℕ → List ℕ
segments_loop zero pos cap = []
segments_loop (suc n) pos cap =
    let rest = segments_loop n (pos + 16) cap in
    if leb (pos + 16) cap then replicate 16 0 ++ rest else []

-- What `pos` is after four bytes, where they fit.
abbrev pub four : ℕ → List ℕ → List ℕ
four cap bytes = if leb (4 + 4) cap then bytes else []

pub record Routing : Type 0 where
  pub routing_type : ℕ
  pub segments_left : ℕ
  pub data_bytes : List ℕ

-- The segments that are wanted, and no more than the maximum.
abbrev pub segments : Ipv6ExtHeaderOptions → ℕ
segments o = min o.route_segments ip6_route_seg_max

unfoldable pub routing_data : ℕ → Ipv6ExtHeaderOptions → RouteHdrType → Routing
unfolding segments_loop
routing_data cap o RouteHdrType.type0 =
    let reserved = four cap (replicate 4 0) in
    record {
      routing_type = 0;
      segments_left = segments o;
      data_bytes = reserved ++ segments_loop (segments o) (4 + length reserved) cap;
    }
routing_data cap o RouteHdrType.type2 =
    let reserved = four cap (replicate 4 0) in
    let home = if leb (4 + length reserved + 16) cap then replicate 16 0 else [] in
    record { routing_type = 2; segments_left = 1; data_bytes = reserved ++ home }
routing_data cap o RouteHdrType.srh =
    let n = segments o in
    let fixed = four cap ((if ltb 0 n then n - 1 else 0) ∷ 0 ∷ 0 ∷ 0 ∷ []) in
    record {
      routing_type = 4;
      segments_left = n;
      data_bytes = fixed ++ segments_loop n (4 + length fixed) cap;
    }
routing_data cap o RouteHdrType.invalid = record {
  routing_type = o.route_raw_type;
  segments_left = segments o;
  data_bytes = [];
}
routing_data cap o RouteHdrType.none = record {
  routing_type = 0;
  segments_left = 0;
  data_bytes = [];
}

-- The loop that pads with zeros to a multiple of 8, inside of the buffer.
unfoldable pub zeros_loop : ℕ → ℕ → ℕ → List ℕ
zeros_loop zero pos cap = []
zeros_loop (suc fuel) pos cap =
    let rest = zeros_loop fuel (pos + 1) cap in
    if not (pos % 8 == 0) && ltb pos cap then 0 ∷ rest else []

-- The data begins at 4. An empty list is the return value 0.
unfoldable pub build_routing_header : ℕ → ℕ → Ipv6ExtHeaderOptions → List ℕ
unfolding routing_data zeros_loop
build_routing_header cap next_header o =
    let r = routing_data cap o o.route_kind in
    let body = r.data_bytes ++ zeros_loop 8 (4 + length r.data_bytes) cap in
    if o.use_route_hdr
    then next_header ∷ ((4 + length body) / 8 - 1) % 256 ∷ r.routing_type ∷ r.segments_left ∷ body
    else []
