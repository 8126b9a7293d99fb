-- ===== src/Ipv6Ext/Types.antt =====
-- `Ipv6ExtHeaderOptions` of scan.hpp, as far as the header builders read it, and the bytes that
-- they write.
pub use Prim.Native.Nat.{min}
use trinetra.Prelude.{ℕ, ◌/◌, ◌%◌, ◌≡◌, Bool, List, [], ◌∷◌, length}

pub data HopOptKind : Type 0 where
  none alert jumbo pad unknown : HopOptKind

pub data DestOptKind : Type 0 where
  none home tunnel pad malformed unknown : DestOptKind

pub data RouteHdrType : Type 0 where
  none type0 type2 srh invalid : RouteHdrType

-- `struct in6_addr`.
pub record In6Addr : Type 0 where
  pub bytes : List ℕ
  pub sixteen : length bytes ≡ 16

pub record Ipv6ExtHeaderOptions : Type 0 where
  pub use_hop_opts : Bool
  pub hop_kind : HopOptKind
  pub hop_value : ℕ
  pub hop_unknown_type : ℕ
  pub use_dest_opts : Bool
  pub dest_kind : DestOptKind
  pub dest_value : ℕ
  pub dest_unknown_type : ℕ
  pub dest_home_addr : In6Addr
  pub dest_home_addr_set : Bool
  pub use_route_hdr : Bool
  pub route_kind : RouteHdrType
  pub route_segments : ℕ
  pub route_raw_type : ℕ

abbrev pub ip6_ext_hdr_cap : ℕ
ip6_ext_hdr_cap = 320

-- `htons` and `htonl` of a value that is cast to the width.
abbrev pub htons : ℕ → List ℕ
htons v = v / 256 % 256 ∷ v % 256 ∷ []

abbrev pub htonl : ℕ → List ℕ
htonl v = v / 16_777_216 % 256 ∷ v / 65_536 % 256 ∷ v / 256 % 256 ∷ v % 256 ∷ []
