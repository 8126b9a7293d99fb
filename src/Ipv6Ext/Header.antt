-- ===== src/Ipv6Ext/Header.antt =====
-- The header builders of scan.cpp against the layout of RFC 8200: a header's length is a multiple
-- of 8, its second byte counts the groups of 8 behind the first, and it stays in its buffer.
use trinetra.Prelude.{
  ℕ, ◌+◌, ◌*◌, ◌/◌, ◌%◌, ◌≤◌, ◌<◌, ◌≡◌, ◌≢◌, ap, ◌∙◌, true, List, ◌∷◌, ◌++◌, arith, length,
  length-append,
}
use trinetra.Ipv6Ext.Types.{HopOptKind, DestOptKind, Ipv6ExtHeaderOptions}
use trinetra.Ipv6Ext.Options.{
  align_loop, hop_options, dest_options, options_header, build_hop_by_hop_header,
  build_dest_options_header,
}
use trinetra.Ipv6Ext.Tlv.{
  IsTlv, IsTlv-append, AreOptions, pad_loop-exact, align_loop_lem, hop_options_lem,
  dest_options_lem,
}

pub data OptionsHeader (cap next_header : ℕ) : List ℕ → Type 0 where
  header :
      (units : ℕ) (body : List ℕ)
      → IsTlv body
      → 2 + length body ≡ 8 * (units + 1)
      → 8 * (units + 1) ≤ cap
      → units ≤ 255
      → OptionsHeader cap next_header (next_header ∷ units ∷ body)

-- The sizes of a buffer that the builders can count: IP6_EXT_HDR_CAP is 320.
pub record IsCap (cap : ℕ) : Type 0 where
  pub whole : cap % 8 ≡ 0
  pub room : 8 ≤ cap
  pub countable : cap ≤ 2048

body_length :
    (options : List ℕ)
    → 2 + length (options ++ align_loop 8 (2 + length options)) ≡ (2 + length options + 7) / 8 * 8
body_length options = omega (
  arith,
  length-append options (align_loop 8 (2 + length options)),
  (align_loop_lem 7 (2 + length options)).1,
)

options_header_lem :
    (cap next_header : ℕ) (options : List ℕ)
    → IsCap cap
    → AreOptions cap options
    → OptionsHeader cap next_header (options_header next_header options)
unfolding options_header
options_header_lem cap next_header options size are =
    let n = body_length options in
    OptionsHeader.header _ _ (IsTlv-append are.tlv (align_loop_lem 7 (2 + length options)).0)
      (omega (arith, n, are.fits, size.whole, size.room, size.countable))
      (omega (arith, n, are.fits, size.whole, size.room, size.countable)) (omega arith)

-- With hop-by-hop options wanted, the header has the layout and the options the format of
-- RFC 8200, whatever the option and its value.
pub build_hop_by_hop_header-OptionsHeader :
    (cap next_header : ℕ) (o : Ipv6ExtHeaderOptions)
    → IsCap cap
    → o.use_hop_opts ≡ true
    → OptionsHeader cap next_header (build_hop_by_hop_header cap next_header o)
unfolding build_hop_by_hop_header
build_hop_by_hop_header-OptionsHeader cap next_header o size use_it = rw use_it (
    options_header_lem cap next_header (hop_options cap o o.hop_kind) size
      (hop_options_lem cap o o.hop_kind (omega (arith, size.room))))

-- With destination options wanted that are not malformed on purpose, the header has the layout
-- and the options the format of RFC 8200.
pub build_dest_options_header-OptionsHeader :
    (cap next_header : ℕ) (o : Ipv6ExtHeaderOptions)
    → IsCap cap
    → o.use_dest_opts ≡ true
    → o.dest_kind ≢ DestOptKind.malformed
    → OptionsHeader cap next_header (build_dest_options_header cap next_header o)
unfolding build_dest_options_header
build_dest_options_header-OptionsHeader cap next_header o size use_it proper = rw use_it (
    options_header_lem cap next_header (dest_options cap o o.dest_kind) size
      (dest_options_lem cap o o.dest_kind (omega (arith, size.room)) proper))

length-options_header :
    (next_header : ℕ) (options : List ℕ)
    → length (options_header next_header options) ≡ (length options + 9) / 8 * 8
unfolding options_header
length-options_header next_header options = omega (arith, body_length options)

pads :
    (cap : ℕ) (o : Ipv6ExtHeaderOptions)
    → 2 + o.hop_value < cap
    → length (hop_options cap o HopOptKind.pad) ≡ o.hop_value
unfolding hop_options
pads cap o fits = pad_loop-exact o.hop_value o.hop_value 2 cap (omega arith) fits

-- A padding of `n` bytes that is wanted makes a header of `n + 2` bytes, up to a multiple of 8,
-- where that leaves a byte of the buffer.
build_hop_by_hop_header-pad :
    (cap next_header : ℕ) (o : Ipv6ExtHeaderOptions)
    → o.use_hop_opts ≡ true
    → o.hop_kind ≡ HopOptKind.pad
    → 2 + o.hop_value < cap
    → length (build_hop_by_hop_header cap next_header o) ≡ (o.hop_value + 9) / 8 * 8
unfolding build_hop_by_hop_header
build_hop_by_hop_header-pad cap next_header o use_it kind fits =
    rw (use_it, kind)
      (length-options_header next_header (hop_options cap o HopOptKind.pad)
        ∙ ap (λ (n : ℕ). (n + 9) / 8 * 8) (pads cap o fits))
