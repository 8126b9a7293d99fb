-- ===== src/Checksum/Sum.antt =====
-- The checksums that scan.cpp and icmp_ping.hpp write, over the bytes in memory. A word is read as
-- on a little-endian host, and the sums wrap at 32 bits.
use trinetra.Prelude.{
  ℕ, zero, suc, ◌+◌, ◌-◌, ◌*◌, ◌/◌, ◌%◌, ◌^◌, List, [], ◌∷◌, ◌++◌, Option, none, some, ◌==◌,
  if◌then◌else◌,
}
use trinetra.Dns.Encode.{u16_bytes}

abbrev pub word : ℕ → ℕ → ℕ
word a b = a + b * 256

-- The loop of `icmp_checksum`: an odd last byte is a word of its own.
unfoldable pub words_loop : ℕ → List ℕ → ℕ
words_loop sum [] = sum
words_loop sum (a ∷ []) = (sum + a) % 2 ^ 32
words_loop sum (a ∷ b ∷ rest) = words_loop ((sum + word a b) % 2 ^ 32) rest

-- `while (sum >> 16)`; `none` is a loop that has not ended.
unfoldable pub fold_loop : ℕ → ℕ → Option ℕ
fold_loop zero sum = none
fold_loop (suc fuel) sum =
    let next = fold_loop fuel (sum % 2 ^ 16 + sum / 2 ^ 16) in
    if sum / 2 ^ 16 == 0 then some sum else next

-- `static_cast<uint16_t>(~sum)`
abbrev pub complement : ℕ → ℕ
complement sum = 2 ^ 16 - 1 - sum % 2 ^ 16

abbrev pub complemented : Option ℕ → Option ℕ
complemented none = none
complemented (some sum) = some (complement sum)

unfoldable pub icmp_checksum : List ℕ → Option ℕ
unfolding words_loop fold_loop
icmp_checksum bytes = complemented (fold_loop 3 (words_loop 0 bytes))

-- The checksum is computed with a zero in its place, and then stored there.
abbrev pub stored : List ℕ → List ℕ → Option ℕ → Option (List ℕ)
stored front back none = none
stored front back (some sum) = some (front ++ sum % 256 ∷ sum / 256 ∷ back)

unfoldable pub write_checksum : List ℕ → List ℕ → Option (List ℕ)
unfolding icmp_checksum
write_checksum front back = stored front back (icmp_checksum (front ++ 0 ∷ 0 ∷ back))

-- The loop of the TCP checksum: an odd last byte is shifted up.
unfoldable pub segment_loop : ℕ → List ℕ → ℕ
segment_loop sum [] = sum
segment_loop sum (a ∷ []) = (sum + a * 256) % 2 ^ 32
segment_loop sum (a ∷ b ∷ rest) = segment_loop ((sum + word a b) % 2 ^ 32) rest

abbrev pub fold_twice : ℕ → ℕ
fold_twice sum =
    let once = (sum / 2 ^ 16 + sum % 2 ^ 16) % 2 ^ 32 in (once + once / 2 ^ 16) % 2 ^ 32

-- `psh` and `psh6`, for addresses of 4 and of 16 bytes; IPPROTO_TCP is 6.
abbrev pub pseudo_header : List ℕ → List ℕ → ℕ → List ℕ
pseudo_header src dst tcp_len = src ++ dst ++ 0 ∷ 6 ∷ u16_bytes tcp_len

abbrev pub pseudo_header_6 : List ℕ → List ℕ → ℕ → List ℕ
pseudo_header_6 src dst tcp_len =
    src ++ dst ++ u16_bytes (tcp_len / 2 ^ 16) ++ u16_bytes tcp_len ++ 0 ∷ 0 ∷ 0 ∷ 6 ∷ []

-- The pseudo header has an even length.
unfoldable pub tcp_checksum : List ℕ → List ℕ → ℕ
unfolding segment_loop
tcp_checksum psh segment = complement (fold_twice (segment_loop (segment_loop 0 psh) segment))

-- `tcph->th_sum = ~sum`, where it was zero.
unfoldable pub write_tcp_checksum : List ℕ → List ℕ → List ℕ → List ℕ
unfolding tcp_checksum
write_tcp_checksum psh front back =
    let sum = tcp_checksum psh (front ++ 0 ∷ 0 ∷ back) in front ++ sum % 256 ∷ sum / 256 ∷ back
