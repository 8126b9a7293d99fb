-- ===== src/Checksum/Examples.antt =====
-- The theorems on the checksums at concrete packets, and the checksum of one of them.
use trinetra.Prelude.{◌≡◌, ◌≢◌, refl, [], ◌∷◌, ◌++◌, List, ℕ, some, arith}
use trinetra.Checksum.Sum.{
  icmp_checksum, write_checksum, pseudo_header, tcp_checksum, write_tcp_checksum,
}
use trinetra.Checksum.Verify.{
  Verifies, write_checksum-Verifies, write_tcp_checksum-Verifies, tcp_checksum_odd,
}

-- An echo request with an identifier and a sequence number.
write_checksum-Verifies_example : Verifies (write_checksum (8 ∷ 0 ∷ []) (18 ∷ 52 ∷ 0 ∷ 7 ∷ []))
write_checksum-Verifies_example =
    write_checksum-Verifies (8 ∷ 0 ∷ []) (18 ∷ 52 ∷ 0 ∷ 7 ∷ []) tt (omega arith) (omega arith)
      (omega arith)

echo_request :
    write_checksum (8 ∷ 0 ∷ []) (18 ∷ 52 ∷ 0 ∷ 7 ∷ [])
    ≡ some (8 ∷ 0 ∷ 229 ∷ 196 ∷ 18 ∷ 52 ∷ 0 ∷ 7 ∷ [])
unfolding write_checksum
echo_request = refl

-- From port 4660 to port 80, a SYN.
abbrev psh : List ℕ
psh = pseudo_header (10 ∷ 0 ∷ 0 ∷ 1 ∷ []) (10 ∷ 0 ∷ 0 ∷ 2 ∷ []) 20

abbrev before_sum : List ℕ
before_sum = 18 ∷ 52 ∷ 0 ∷ 80 ∷ 1 ∷ 2 ∷ 3 ∷ 4 ∷ 0 ∷ 0 ∷ 0 ∷ 0 ∷ 80 ∷ 2 ∷ 255 ∷ 255 ∷ []

write_tcp_checksum-Verifies_example :
    Verifies (some (psh ++ write_tcp_checksum psh before_sum (0 ∷ 0 ∷ [])))
write_tcp_checksum-Verifies_example =
    write_tcp_checksum-Verifies psh before_sum (0 ∷ 0 ∷ []) tt tt tt (omega arith) (omega arith)
      (omega arith) (omega arith)

-- With a payload of one byte.
abbrev segment : List ℕ
segment = before_sum ++ 0 ∷ 0 ∷ 0 ∷ 0 ∷ []

tcp_checksum_odd_example :
    icmp_checksum ((psh ++ segment) ++ 65 ∷ []) ≢ some (tcp_checksum psh (segment ++ 65 ∷ []))
tcp_checksum_odd_example =
    tcp_checksum_odd psh segment 65 tt tt (omega arith) (omega arith) (omega arith) (omega arith)
