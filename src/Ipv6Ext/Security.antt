-- ===== src/Ipv6Ext/Security.antt =====
-- `build_ah_header` and `build_esp_header` of scan.cpp. The random numbers are the library's: the
-- engine's state is the number of draws so far, and `rng n` is the 32 bits of draw `n`.
use trinetra.Prelude.{
  ℕ, zero, suc, ◌+◌, ◌-◌, ◌/◌, ◌%◌, Bool, true, false, List, [], ◌∷◌, ◌++◌, ltb, ◌==◌,
  if◌then◌else◌, length, take, replicate,
}
use Prim.Native.Nat.{max}
use trinetra.Ipv6Ext.Types.{htonl}

pub data AhMode : Type 0 where
  none valid bad_spi no_icv bad_len seq0 : AhMode

pub data EspMode : Type 0 where
  none valid bad_pad bad_spi no_iv malformed : EspMode

abbrev pub icv_length : AhMode → ℕ
icv_length AhMode.no_icv = 0
icv_length _ = 12

abbrev pub is_bad_len : AhMode → Bool
is_bad_len AhMode.bad_len = true
is_bad_len _ = false

abbrev pub ah_spi : AhMode → ℕ → ℕ
ah_spi AhMode.bad_spi draw = 0
ah_spi _ draw = 0x1000 + draw % 0x10000

abbrev pub ah_seq : AhMode → ℕ
ah_seq AhMode.seq0 = 0
ah_seq _ = 1

abbrev pub iv_length : EspMode → ℕ
iv_length EspMode.no_iv = 0
iv_length EspMode.malformed = 3
iv_length _ = 8

abbrev pub esp_spi : EspMode → ℕ → ℕ
esp_spi EspMode.bad_spi draw = 0
esp_spi _ draw = 0x2000 + draw % 0x10000

abbrev pub esp_pad : EspMode → ℕ
esp_pad EspMode.bad_pad = 0x2A
esp_pad _ = 0

abbrev pub is_malformed : EspMode → Bool
is_malformed EspMode.malformed = true
is_malformed _ = false

-- What the loops write: bytes of draws, and zeros up to `total`, both within the buffer.
unfoldable pub random_loop : (ℕ → ℕ) → ℕ → ℕ → ℕ → ℕ → List ℕ
random_loop rng draws zero pos cap = []
random_loop rng draws (suc n) pos cap =
    let rest = random_loop rng (draws + 1) n (pos + 1) cap in
    if ltb pos cap then rng draws % 256 ∷ rest else []

-- The length of an AH up to a multiple of 8.
abbrev pub ah_total : AhMode → ℕ
ah_total mode =
    let total = 12 + icv_length mode in if total % 8 == 0 then total else total + (8 - total % 8)

-- The draws are one for the SPI and then one for each byte. An empty list is the return value 0;
-- the two tests of the length are one, as padding only adds to it.
unfoldable pub build_ah_header : ℕ → ℕ → Bool → AhMode → (ℕ → ℕ) → ℕ → List ℕ
unfolding random_loop
build_ah_header cap next_header use_ah mode rng draws =
    let total = ah_total mode in
    let payload_len = (total / 4 - 2) % 256 in
    let icv = random_loop rng (draws + 1) (icv_length mode) 12 cap in
    let pos = 12 + length icv in
    if use_ah
    then if ltb cap total
      then []
      else next_header
        ∷ (if is_bad_len mode then (payload_len + 5) % 256 else payload_len)
        ∷ 0
        ∷ 0
        ∷ (htonl (ah_spi mode (rng draws))
            ++ (htonl (ah_seq mode) ++ (icv ++ replicate (total - pos) 0)))
    else []

unfoldable pub build_esp_header : ℕ → Bool → EspMode → (ℕ → ℕ) → ℕ → List ℕ
unfolding random_loop
build_esp_header cap use_esp mode rng draws =
    let total = 8 + iv_length mode + 2 in
    let bytes =
      htonl (esp_spi mode (rng draws))
      ++ (htonl 1
          ++ (random_loop rng (draws + 1) (iv_length mode) 8 cap ++ esp_pad mode ∷ 6 ∷ [])) in
    if use_esp
    then if ltb cap total
      then []
      else if is_malformed mode
      then take (max (length bytes - 2) 8) bytes
      else bytes
    else []
