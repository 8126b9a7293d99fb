-- ===== src/Checksum/Verify.antt =====
-- What a receiver computes over the packets that scan.cpp and icmp_ping.hpp send.
use trinetra.Prelude.{
  ℕ, ◌+◌, ◌-◌, ◌*◌, ◌/◌, ◌%◌, ◌^◌, ◌<◌, ◌≡◌, ◌≢◌, subst, sym, ap, ◌∙◌, List, [], ◌∷◌, ◌++◌, Option,
  none, some, arith, length, length-append, append_assoc,
}
use trinetra.Checksum.Sum.{
  words_loop, fold_loop, complement, complemented, icmp_checksum, write_checksum, segment_loop,
  fold_twice, tcp_checksum, write_tcp_checksum,
}
use trinetra.Checksum.Fold.{
  folded, fold_loop-folded, fold_twice-folded, folded_bound, folded_complement, folded_shifted,
  total, Bytes, HasPairs, total_bound, words_loop-total, segment_loop-words, words_loop-append,
  segment_loop-append, total-append, Bytes-append,
}

-- A packet's length has 16 bits.
abbrev pub IsPacket : List ℕ → Type 0
IsPacket bytes = Bytes bytes × (length bytes < 2 ^ 16)

summed : (bytes : List ℕ) → Bytes bytes → length bytes < 2 ^ 16 → words_loop 0 bytes ≡ total bytes
summed bytes h small =
    let sum = words_loop-total 0 bytes h (omega (arith, small)) in omega (arith, sum)

icmp_checksum-total :
    (bytes : List ℕ)
    → IsPacket bytes
    → icmp_checksum bytes ≡ some (2 ^ 16 - 1 - folded (total bytes))
unfolding icmp_checksum
icmp_checksum-total bytes p =
    let bound = total_bound bytes p.0 in
    ap (λ n. complemented (fold_loop 3 n)) (summed bytes p.0 p.1)
    ∙ ap complemented (fold_loop-folded (total bytes) (omega (arith, bound, p.1)))
    ∙ (let small = folded_bound (total bytes) in ground (arith, small))

abbrev sum_bytes : ℕ → List ℕ → List ℕ
sum_bytes c back = c % 256 ∷ c / 256 ∷ back

with_sum :
    (front back : List ℕ) (c : ℕ)
    → HasPairs front
    → c < 2 ^ 16
    → total (front ++ sum_bytes c back) ≡ total front + total back + c
unfolding total
with_sum front back c h small =
    let split = total-append front (sum_bytes c back) h in omega (arith, split, small)

with_sum-IsPacket :
    (front back : List ℕ) (c : ℕ)
    → c < 2 ^ 16
    → Bytes front
    → Bytes back
    → length front + length back + 2 < 2 ^ 16
    → IsPacket (front ++ sum_bytes c back)
with_sum-IsPacket front back c small f b fits =
    let size = length-append front (sum_bytes c back) in
    (
      Bytes-append front (sum_bytes c back) f (omega arith, (omega (arith, small), b)),
      omega (arith, size, fits),
    )

-- Receivers accept a packet over which the checksum is zero.
abbrev pub Verifies : Option (List ℕ) → Type 0
Verifies none = ⊥
Verifies (some packet) = icmp_checksum packet ≡ some 0

sum_verifies :
    (front back : List ℕ)
    → HasPairs front
    → Bytes front
    → Bytes back
    → length front + length back + 2 < 2 ^ 16
    → icmp_checksum (front ++ sum_bytes (2 ^ 16 - 1 - folded (total front + total back)) back)
      ≡ some 0
sum_verifies front back pairs f b fits =
    let c = 2 ^ 16 - 1 - folded (total front + total back) in
    icmp_checksum-total (front ++ sum_bytes c back)
      (with_sum-IsPacket front back c (omega arith) f b fits)
    ∙ ap (λ n. some (2 ^ 16 - 1 - folded n)) (with_sum front back c pairs (omega arith))
    ∙ ap (λ n. some (2 ^ 16 - 1 - n)) (folded_complement (total front + total back))

-- The checksum of a packet with nothing where the sum is to be.
blank_sum :
    (front back : List ℕ)
    → HasPairs front
    → Bytes front
    → Bytes back
    → length front + length back + 2 < 2 ^ 16
    → icmp_checksum (front ++ 0 ∷ 0 ∷ back) ≡ some (2 ^ 16 - 1 - folded (total front + total back))
blank_sum front back pairs f b fits =
    let none_yet = with_sum front back 0 pairs (omega arith) in
    icmp_checksum-total (front ++ 0 ∷ 0 ∷ back)
      (with_sum-IsPacket front back 0 (omega arith) f b fits)
    ∙ ap (λ n. some (2 ^ 16 - 1 - folded n)) (omega (arith, none_yet))

-- A packet of less than 64 KiB whose checksum stands behind an even number of bytes, as in the
-- headers of IPv4 and of ICMP: the sum is computed, and the packet with the sum in it verifies.
pub write_checksum-Verifies :
    (front back : List ℕ)
    → HasPairs front
    → Bytes front
    → Bytes back
    → length front + length back + 2 < 2 ^ 16
    → Verifies (write_checksum front back)
unfolding write_checksum
write_checksum-Verifies front back pairs f b fits =
    rw (blank_sum front back pairs f b fits) (sum_verifies front back pairs f b fits)

tcp_checksum-folded :
    (psh segment : List ℕ) (sum : ℕ)
    → segment_loop (segment_loop 0 psh) segment ≡ sum
    → sum < 2 ^ 32
    → tcp_checksum psh segment ≡ 2 ^ 16 - 1 - folded sum
unfolding tcp_checksum
tcp_checksum-folded psh segment sum e small =
    ap (λ n. complement (fold_twice n)) e ∙ ap (λ n. 2 ^ 16 - 1 - n) (fold_twice-folded sum small)

-- Over an even number of bytes, the two loops add up the same words.
tcp_checksum-even :
    (psh segment : List ℕ)
    → HasPairs psh
    → HasPairs segment
    → IsPacket (psh ++ segment)
    → tcp_checksum psh segment ≡ 2 ^ 16 - 1 - folded (total (psh ++ segment))
tcp_checksum-even psh segment p s packet =
    let bound = total_bound (psh ++ segment) packet.0 in
    tcp_checksum-folded psh segment (total (psh ++ segment))
      (segment_loop-words (segment_loop 0 psh) segment s
        ∙ ap (λ n. words_loop n segment) (segment_loop-words 0 psh p)
        ∙ sym (words_loop-append 0 psh segment p)
        ∙ summed (psh ++ segment) packet.0 (omega (arith, packet.1)))
      (omega (arith, bound, packet.1))

HasPairs-append : (front back : List ℕ) → HasPairs front → HasPairs back → HasPairs (front ++ back)
HasPairs-append [] back h k = k
HasPairs-append (a ∷ []) back h k = elim h [ ]
HasPairs-append (a ∷ b ∷ rest) back h k = HasPairs-append rest back h k

-- A TCP segment with an even number of bytes behind a pseudo header, less than 64 KiB together:
-- the segment with its checksum in it verifies, pseudo header included.
pub write_tcp_checksum-Verifies :
    (psh front back : List ℕ)
    → HasPairs psh
    → HasPairs front
    → HasPairs back
    → Bytes psh
    → Bytes front
    → Bytes back
    → length psh + length front + length back + 2 < 2 ^ 16
    → Verifies (some (psh ++ write_tcp_checksum psh front back))
unfolding write_tcp_checksum
write_tcp_checksum-Verifies psh front back p f b ph fh bh fits =
    let start = psh ++ front in
    let size = length-append psh front in
    let pairs = HasPairs-append psh front p f in
    let bytes = Bytes-append psh front ph fh in
    let blank = front ++ 0 ∷ 0 ∷ back in
    let joined : psh ++ blank ≡ start ++ 0 ∷ 0 ∷ back = sym (append_assoc psh front _) in
    let packet =
      with_sum-IsPacket start back 0 (omega arith) bytes bh (omega (arith, size, fits)) in
    let none_yet = with_sum start back 0 pairs (omega arith) in
    let c = 2 ^ 16 - 1 - folded (total start + total back) in
    let sum : tcp_checksum psh blank ≡ c =
      tcp_checksum-even psh blank p (HasPairs-append front (0 ∷ 0 ∷ back) f b)
        (subst (λ l. IsPacket l) (sym joined) packet)
      ∙ ap (λ l. 2 ^ 16 - 1 - folded (total l)) joined
      ∙ ap (λ n. 2 ^ 16 - 1 - folded n) (omega (arith, none_yet)) in
    ap (λ n. icmp_checksum (psh ++ (front ++ sum_bytes n back))) sum
    ∙ ap icmp_checksum (sym (append_assoc psh front (sum_bytes c back)))
    ∙ sum_verifies start back pairs bytes bh (omega (arith, size, fits))

odd_total :
    (front : List ℕ) (last : ℕ) → HasPairs front → total (front ++ last ∷ []) ≡ total front + last
unfolding total
odd_total front last f = total-append front (last ∷ []) f

-- In the code's loop the last byte counts 256 times.
odd_segment :
    (psh front : List ℕ) (last : ℕ)
    → HasPairs psh
    → HasPairs front
    → IsPacket (psh ++ front)
    → last < 256
    → segment_loop (segment_loop 0 psh) (front ++ last ∷ []) ≡ total (psh ++ front) + last * 256
unfolding segment_loop
odd_segment psh front last p f packet small =
    let bound = total_bound (psh ++ front) packet.0 in
    segment_loop-append (segment_loop 0 psh) front (last ∷ []) f
    ∙ ap (λ n. (words_loop n front + last * 256) % 2 ^ 32) (segment_loop-words 0 psh p)
    ∙ ap (λ n. (n + last * 256) % 2 ^ 32)
        (sym (words_loop-append 0 psh front p) ∙ summed (psh ++ front) packet.0 packet.1)
    ∙ (omega (arith, bound, packet.1, small))

some-injective : (a b : ℕ) → some a ≡ some b → a ≡ b
some-injective a b e = ground (arith, e)

-- A segment that ends in an odd byte: the code adds that byte as a high one, and a receiver adds
-- it as a low one, so unless it is zero the checksum of the code is never the right one.
pub tcp_checksum_odd :
    (psh front : List ℕ) (last : ℕ)
    → HasPairs psh
    → HasPairs front
    → Bytes (psh ++ front)
    → length (psh ++ front) + 1 < 2 ^ 16
    → 0 < last
    → last < 256
    → icmp_checksum ((psh ++ front) ++ last ∷ []) ≢ some (tcp_checksum psh (front ++ last ∷ []))
tcp_checksum_odd psh front last p f bytes fits nonzero small e =
    let start = psh ++ front in
    let packet : IsPacket start = (bytes, omega (arith, fits)) in
    let size = length-append start (last ∷ []) in
    let bound = total_bound start bytes in
    let whole : IsPacket (start ++ last ∷ []) =
      (Bytes-append start (last ∷ []) bytes (small, tt), omega (arith, size, fits)) in
    let right =
      icmp_checksum-total (start ++ last ∷ []) whole
      ∙ ap (λ n. some (2 ^ 16 - 1 - folded n))
          (odd_total start last (HasPairs-append psh front p f)) in
    let ours =
      tcp_checksum-folded psh (front ++ last ∷ []) (total start + last * 256)
        (odd_segment psh front last p f packet small) (omega (arith, bound, fits, small)) in
    let same = some-injective _ _ (sym right ∙ e ∙ ap some ours) in
    let a = folded_bound (total start + last) in
    let b = folded_bound (total start + last * 256) in
    folded_shifted (total start) last nonzero small (omega (arith, same, a, b))
