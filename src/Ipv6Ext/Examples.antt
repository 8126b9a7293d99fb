-- ===== src/Ipv6Ext/Examples.antt =====
-- The theorems on the extension headers at concrete options.
use trinetra.Prelude.{◌≡◌, refl, true, false, [], ◌∷◌, arith, length, replicate, get_elem?, some}
use trinetra.Ipv6Ext.Types.{
  HopOptKind, DestOptKind, RouteHdrType, Ipv6ExtHeaderOptions, ip6_ext_hdr_cap,
}
use trinetra.Ipv6Ext.Options.{build_hop_by_hop_header, build_dest_options_header}
use trinetra.Ipv6Ext.Security.{EspMode, build_esp_header}
use trinetra.Ipv6Ext.Routing.{build_routing_header}
use trinetra.Ipv6Ext.Header.{
  IsCap, OptionsHeader, build_hop_by_hop_header-OptionsHeader,
  build_dest_options_header-OptionsHeader,
}
use trinetra.Ipv6Ext.Segments.{
  RoutingHeader, Lists, build_routing_header-RoutingHeader, build_routing_header-segments,
}

-- A padding of 11 bytes, a tunnel limit of 4, and two segments.
abbrev wanted : Ipv6ExtHeaderOptions
wanted = record {
  use_hop_opts = true;
  hop_kind = HopOptKind.pad;
  hop_value = 11;
  hop_unknown_type = 62;
  use_dest_opts = true;
  dest_kind = DestOptKind.tunnel;
  dest_value = 4;
  dest_unknown_type = 62;
  dest_home_addr = record { bytes = replicate 16 0; sixteen = refl };
  dest_home_addr_set = false;
  use_route_hdr = true;
  route_kind = RouteHdrType.srh;
  route_segments = 2;
  route_raw_type = 0;
}

ip6_ext_hdr_cap-IsCap : IsCap ip6_ext_hdr_cap
ip6_ext_hdr_cap-IsCap = record { whole = refl; room = omega arith; countable = omega arith }

dest_header_bytes :
    build_dest_options_header ip6_ext_hdr_cap 6 wanted ≡ 6 ∷ 0 ∷ 4 ∷ 1 ∷ 4 ∷ 1 ∷ 1 ∷ 0 ∷ []
unfolding build_dest_options_header
dest_header_bytes = refl

build_hop_by_hop_header-OptionsHeader_example :
    OptionsHeader ip6_ext_hdr_cap 6 (build_hop_by_hop_header ip6_ext_hdr_cap 6 wanted)
build_hop_by_hop_header-OptionsHeader_example =
    build_hop_by_hop_header-OptionsHeader ip6_ext_hdr_cap 6 wanted ip6_ext_hdr_cap-IsCap refl

tunnel_wanted : DestOptKind.tunnel ≡ DestOptKind.malformed → ⊥
tunnel_wanted e = cc e

build_dest_options_header-OptionsHeader_example :
    OptionsHeader ip6_ext_hdr_cap 6 (build_dest_options_header ip6_ext_hdr_cap 6 wanted)
build_dest_options_header-OptionsHeader_example =
    build_dest_options_header-OptionsHeader ip6_ext_hdr_cap 6 wanted ip6_ext_hdr_cap-IsCap refl
      tunnel_wanted

build_routing_header-RoutingHeader_example :
    RoutingHeader ip6_ext_hdr_cap 6 (build_routing_header ip6_ext_hdr_cap 6 wanted)
build_routing_header-RoutingHeader_example =
    build_routing_header-RoutingHeader ip6_ext_hdr_cap 6 wanted ip6_ext_hdr_cap-IsCap refl

build_routing_header-segments_example :
    (length (build_routing_header ip6_ext_hdr_cap 6 wanted) ≡ 40)
    × (get_elem? (build_routing_header ip6_ext_hdr_cap 6 wanted) 1 ≡ some 4)
    × (get_elem? (build_routing_header ip6_ext_hdr_cap 6 wanted) 3 ≡ some 2)
build_routing_header-segments_example =
    build_routing_header-segments ip6_ext_hdr_cap 6 wanted refl Lists.srh (omega arith)

-- A truncated ESP header.
malformed_esp : length (build_esp_header ip6_ext_hdr_cap true EspMode.malformed (λ _. 7) 0) ≡ 11
unfolding build_esp_header
malformed_esp = refl
