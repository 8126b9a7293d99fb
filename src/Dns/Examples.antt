-- ===== src/Dns/Examples.antt =====
-- The DNS theorems of this library at concrete messages.
use Prim.Native.String.{String}
use trinetra.Prelude.{ℕ, ◌+◌, ◌≡◌, ◌++◌, Option, some, List, [], ◌∷◌}
use trinetra.Dns.Reader.{Ends}
use trinetra.Dns.Answer.{dns_parse_answer, dns_parse_answer_all, dns_parse_ptr_answer}
use trinetra.Dns.Safety.{dns_parsers-Ends}
use trinetra.Dns.Reader.{done, ◌>>=◌}
use trinetra.Dns.Encode.{dns_encode_name}
use trinetra.Dns.Names.{dns_decode_name, dns_skip_name}
use trinetra.Dns.RoundTrip.{IsLabel, host_of, dns_encode_name-decode}
use trinetra.Dns.First.{dns_parse_answer-first}
use trinetra.Prelude.{All, get_elem?, length, arith, refl}

abbrev shown : ℕ → List ℕ → Option String
shown family bytes = some "10.0.0.1"

-- One question and one answer, whose name is a pointer to itself.
abbrev looping : List ℕ
looping =
    0 ∷ 1 ∷ 129 ∷ 128 ∷ 0 ∷ 1 ∷ 0 ∷ 1 ∷ 0 ∷ 0 ∷ 0 ∷ 0 ∷ 1 ∷ b'a' ∷ 0 ∷ 0 ∷ 12 ∷ 0 ∷ 1 ∷ 192 ∷ 19 ∷ 0
    ∷ 12 ∷ 0 ∷ 1 ∷ 0 ∷ 0 ∷ 0 ∷ 0 ∷ 0 ∷ 2 ∷ 192 ∷ 31 ∷ []

dns_parsers-Ends_example :
    Ends (λ (_ : Option String). Unit {0}) (dns_parse_answer shown looping 1)
    × Ends (λ (_ : List String). Unit {0}) (dns_parse_answer_all shown looping 1)
    × Ends (λ (_ : Option (List ℕ)). Unit {0}) (dns_parse_ptr_answer looping)
dns_parsers-Ends_example = dns_parsers-Ends shown looping 1

abbrev labels : List (List ℕ)
labels = (b'e' ∷ b'x' ∷ []) ∷ (b'o' ∷ b'r' ∷ b'g' ∷ []) ∷ []

labels-IsLabel : All IsLabel labels
labels-IsLabel = (
  record { nonempty = omega arith; short = omega arith; no_dot = (refl, (refl, tt)) },
  (record { nonempty = omega arith; short = omega arith; no_dot = (refl, (refl, (refl, tt))) }, tt),
)

dns_encode_name-decode_example :
    (dns_decode_name ((7 ∷ 7 ∷ []) ++ (dns_encode_name (host_of labels) ++ 0 ∷ [])) 2
      ≡ done (2 + length (dns_encode_name (host_of labels)), host_of labels))
    × (dns_skip_name ((7 ∷ 7 ∷ []) ++ (dns_encode_name (host_of labels) ++ 0 ∷ [])) 2
        ≡ done (2 + length (dns_encode_name (host_of labels))))
dns_encode_name-decode_example = dns_encode_name-decode (7 ∷ 7 ∷ []) labels (0 ∷ []) labels-IsLabel

dns_parse_answer-first_example :
    dns_parse_answer shown looping 1
    ≡ (dns_parse_answer_all shown looping 1 >>= (λ ips. done (get_elem? ips 0)))
dns_parse_answer-first_example = dns_parse_answer-first shown looping 1
