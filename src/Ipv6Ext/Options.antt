-- ===== src/Ipv6Ext/Options.antt =====
-- `build_hop_by_hop_header` and `build_dest_options_header` of scan.cpp. A header is the list of
-- the bytes that the code writes into its buffer of `cap` bytes, and `pos` is where it stands.
use trinetra.Prelude.{
  ℕ, zero, suc, ◌+◌, ◌-◌, ◌/◌, ◌%◌, Bool, ◌&&◌, List, [], ◌∷◌, ◌++◌, ltb, leb, ◌==◌, if◌then◌else◌,
  length, replicate,
}
use trinetra.Ipv6Ext.Types.{HopOptKind, DestOptKind, Ipv6ExtHeaderOptions, min, htons, htonl}

-- The loop of the PAD options. A round takes two off `remaining` at least, or is the last.
unfoldable pub pad_loop : ℕ → ℕ → ℕ → ℕ → List ℕ
pad_loop zero remaining pos cap = []
pad_loop (suc fuel) remaining pos cap =
    let chunk = min (remaining - 2) (min 255 (cap - pos - 2)) in
    let rest = pad_loop fuel (remaining - (chunk + 2)) (pos + 2 + chunk) cap in
    if ltb 0 remaining && leb (pos + 2) cap
    then if remaining == 1 then 0 ∷ [] else 1 ∷ chunk ∷ (replicate chunk 0 ++ rest)
    else []

abbrev pub pad_options : ℕ → ℕ → ℕ → List ℕ
pad_options remaining pos cap = pad_loop remaining remaining pos cap

-- The loop that pads a header to a multiple of 8.
unfoldable pub align_loop : ℕ → ℕ → List ℕ
align_loop zero pos = []
align_loop (suc fuel) pos =
    let need = 8 - pos % 8 in
    let rest = align_loop fuel (pos + need) in
    if pos % 8 == 0
    then []
    else if need == 1
    then 0 ∷ rest
    else 1 ∷ (need - 2) ∷ (replicate (need - 2) 0 ++ rest)

abbrev pub option_if : Bool → List ℕ → List ℕ
option_if fits bytes = if fits then bytes else []

-- The options, which begin at 2.
unfoldable pub hop_options : ℕ → Ipv6ExtHeaderOptions → HopOptKind → List ℕ
unfolding pad_loop
hop_options cap o HopOptKind.alert = option_if (leb (2 + 4) cap) (0x05 ∷ 2 ∷ htons o.hop_value)
hop_options cap o HopOptKind.jumbo = option_if (leb (2 + 6) cap) (0xC2 ∷ 4 ∷ htonl o.hop_value)
hop_options cap o HopOptKind.pad = pad_options o.hop_value 2 cap
hop_options cap o HopOptKind.unknown = option_if (leb (2 + 2) cap) (o.hop_unknown_type ∷ 0 ∷ [])
hop_options cap o HopOptKind.none = []

abbrev pub home_addr : Ipv6ExtHeaderOptions → List ℕ
home_addr o = if o.dest_home_addr_set then o.dest_home_addr.bytes else replicate 16 0

unfoldable pub dest_options : ℕ → Ipv6ExtHeaderOptions → DestOptKind → List ℕ
unfolding pad_loop
dest_options cap o DestOptKind.home = option_if (leb (2 + 18) cap) (0xC9 ∷ 16 ∷ home_addr o)
dest_options cap o DestOptKind.tunnel =
    option_if (leb (2 + 3) cap) (0x04 ∷ 1 ∷ o.dest_value % 256 ∷ [])
dest_options cap o DestOptKind.pad = pad_options o.dest_value 2 cap
dest_options cap o DestOptKind.malformed =
    option_if (leb (2 + 6) cap) (0x8E ∷ 40 ∷ replicate 4 0xAA)
dest_options cap o DestOptKind.unknown = option_if (leb (2 + 2) cap) (o.dest_unknown_type ∷ 0 ∷ [])
dest_options cap o DestOptKind.none = []

-- The padding, and the first two bytes at the end.
unfoldable pub options_header : ℕ → List ℕ → List ℕ
unfolding align_loop
options_header next_header options =
    let body = options ++ align_loop 8 (2 + length options) in
    next_header ∷ ((2 + length body) / 8 - 1) % 256 ∷ body

-- An empty list is the return value 0.
unfoldable pub build_hop_by_hop_header : ℕ → ℕ → Ipv6ExtHeaderOptions → List ℕ
unfolding hop_options options_header
build_hop_by_hop_header cap next_header o =
    if o.use_hop_opts then options_header next_header (hop_options cap o o.hop_kind) else []

unfoldable pub build_dest_options_header : ℕ → ℕ → Ipv6ExtHeaderOptions → List ℕ
unfolding dest_options options_header
build_dest_options_header cap next_header o =
    if o.use_dest_opts then options_header next_header (dest_options cap o o.dest_kind) else []
