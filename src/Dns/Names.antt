-- ===== src/Dns/Names.antt =====
-- `dns_skip_name` and `dns_decode_name` of handler.cpp. `len` is the length of the buffer.
use trinetra.Prelude.{
  ℕ, zero, suc, ◌+◌, ◌*◌, ◌/◌, ◌%◌, Bool, true, false, List, [], ◌∷◌, ◌++◌, ltb, leb, ◌==◌,
  if◌then◌else◌, length,
}
use trinetra.Dns.Reader.{Reader, done, spent, ◌>>=◌, read_byte, read_bytes}

-- The two high bits of a length byte are set.
unfoldable pub is_pointer : ℕ → Bool
is_pointer b = b / 64 % 4 == 3

unfoldable pub skip_loop : ℕ → List ℕ → ℕ → Reader ℕ
unfolding is_pointer
skip_loop zero buf pos = spent
skip_loop (suc fuel) buf pos =
    if ltb pos (length buf)
    then (do
      b ← read_byte buf pos
      let rest = skip_loop fuel buf (pos + 1 + b)
      if b == 0 then done (pos + 1) else if is_pointer b then done (pos + 2) else rest)
    else done pos

-- Each round moves on by a byte at least.
unfoldable pub dns_skip_name : List ℕ → ℕ → Reader ℕ
unfolding skip_loop
dns_skip_name buf pos = skip_loop (length buf + 1) buf pos

-- The variables of the decoding loop.
pub record Decoding : Type 0 where
  pub pos : ℕ
  pub original_pos : ℕ
  pub jumped : Bool
  pub hops : ℕ
  pub out : List ℕ

-- What the function returns, and the name that it has built.
abbrev finish : Decoding → Reader (ℕ × List ℕ)
finish d = done (if d.jumped then d.original_pos else d.pos, d.out)

abbrev pub with_dot : List ℕ → List ℕ
with_dot [] = []
with_dot (c ∷ s) = (c ∷ s) ++ b'.' ∷ []

unfoldable pub decode_loop : ℕ → List ℕ → Decoding → Reader (ℕ × List ℕ)
unfolding is_pointer
decode_loop zero buf d = spent
decode_loop (suc fuel) buf d =
    if ltb d.pos (length buf)
    then (do
      b ← read_byte buf d.pos
      if b == 0
          then finish (record d { pos = d.pos + 1 })
          else if is_pointer b
          then if leb (length buf) (d.pos + 1) then done (d.original_pos, d.out) else (do
            low ← read_byte buf (d.pos + 1)
            let target = b % 64 * 256 + low
            let original = if d.jumped then d.original_pos else d.pos + 2
            let rest = decode_loop fuel buf (record {
              pos = target;
              original_pos = original;
              jumped = true;
              hops = d.hops + 1;
              out = d.out;
            })
            if ltb 128 (d.hops + 1) then done (original, d.out) else rest)
          else if ltb (length buf) (d.pos + 1 + b)
          then done (d.original_pos, d.out)
          else (do
            label ← read_bytes buf (d.pos + 1) b
            decode_loop fuel buf (record d { pos = d.pos + 1 + b; out = with_dot d.out ++ label })))
    else finish d

-- Enough for 128 jumps with a pass over the buffer after each.
abbrev pub decode_fuel : List ℕ → ℕ
decode_fuel buf = 129 * (length buf + 1) + 1

unfoldable pub dns_decode_name : List ℕ → ℕ → Reader (ℕ × List ℕ)
dns_decode_name buf pos =
    decode_loop (decode_fuel buf) buf
      (record { pos = pos; original_pos = pos; jumped = false; hops = 0; out = [] })
