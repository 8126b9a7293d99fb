-- ===== src/NetCapture/Bytes.antt =====
-- Reads from a packet buffer, as the header structures that net_capture.cpp lays over it make
-- them. `none` is a read outside of the buffer.
use trinetra.Prelude.{
  ℕ, ◌+◌, ◌*◌, ◌/◌, ◌%◌, ◌^◌, ◌≤◌, ◌<◌, ◌≡◌, Bool, List, Option, none, some, arith, ltb, ◌==◌,
  if◌then◌else◌, length, get_elem?, get_elem?-of_lt, take, drop,
}

infixl 5 ◌>>=◌
abbrev pub ◌>>=◌ {ℓ κ} : {A : Type ℓ} {B : Type κ} → Option A → (A → Option B) → Option B
none >>= f = none
some a >>= f = f a

-- A 16-bit and a 32-bit field in network order.
unfoldable pub be16 : List ℕ → ℕ → Option ℕ
be16 buf i = do hi ← get_elem? buf i; lo ← get_elem? buf (i + 1); some (hi * 256 + lo)

unfoldable pub be32 : List ℕ → ℕ → Option ℕ
unfolding be16
be32 buf i = do hi ← be16 buf i; lo ← be16 buf (i + 2); some (hi * 65536 + lo)

-- `n` bytes from `i` on.
unfoldable pub bytes : List ℕ → ℕ → ℕ → Option (List ℕ)
bytes buf i n = if ltb (length buf) (i + n) then none else some (take n (drop i buf))

abbrev pub bit : ℕ → ℕ → Bool
bit x k = x / 2 ^ k % 2 == 1

pub be16-of_lt : (buf : List ℕ) (i : ℕ) → i + 1 < length buf → (v : ℕ) × (be16 buf i ≡ some v)
unfolding be16
be16-of_lt buf i h =
    let hi = get_elem?-of_lt buf i (omega arith) in
    let lo = get_elem?-of_lt buf (i + 1) h in (hi.0 * 256 + lo.0, cc (hi.1, lo.1))

pub be32-of_lt : (buf : List ℕ) (i : ℕ) → i + 3 < length buf → (v : ℕ) × (be32 buf i ≡ some v)
unfolding be32
be32-of_lt buf i h =
    let hi = be16-of_lt buf i (omega arith) in
    let lo = be16-of_lt buf (i + 2) (omega arith) in
    (hi.0 * 65536 + lo.0, ground (arith, hi.1, lo.1))

pub bytes-of_le :
    (buf : List ℕ) (i n : ℕ) → i + n ≤ length buf → bytes buf i n ≡ some (take n (drop i buf))
unfolding bytes
bytes-of_le buf i n h = ground arith
