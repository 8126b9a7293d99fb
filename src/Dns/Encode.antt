-- ===== src/Dns/Encode.antt =====
-- `dns_encode_name` and `dns_build_query` of handler.cpp, over bytes.
use trinetra.Prelude.{
  ℕ, zero, suc, ◌/◌, ◌%◌, List, [], ◌∷◌, ◌++◌, Option, none, some, ltb, ◌==◌, if◌then◌else◌, length,
  take,
}

-- The label in front of the first dot, and what follows the dot, if there is one.
unfoldable pub split_label : List ℕ → List ℕ × Option (List ℕ)
split_label [] = ([], none)
split_label (c ∷ s) =
    let rest = split_label s in if c == b'.' then ([], some s) else (c ∷ rest.0, rest.1)

-- A label longer than 63 bytes is cut.
unfoldable pub encode_label : List ℕ → List ℕ
encode_label label =
    let len = if ltb 63 (length label) then 63 else length label in len ∷ take len label

-- The loop over the labels from `start` on: `s` is the host name from there.
unfoldable pub encode_labels : ℕ → List ℕ → List ℕ
unfolding split_label encode_label
encode_labels zero s = []
encode_labels (suc fuel) [] = []
encode_labels (suc fuel) (c ∷ s) =
    let (label, rest) = split_label (c ∷ s) in
    encode_label label ++ (elim rest [ none ↦ [] | some s' ↦ encode_labels fuel s' ])

unfoldable pub dns_encode_name : List ℕ → List ℕ
unfolding encode_labels
dns_encode_name host = encode_labels (length host) host ++ 0 ∷ []

abbrev pub u16_bytes : ℕ → List ℕ
u16_bytes n = n / 256 % 256 ∷ n % 256 ∷ []

-- A header with one question, recursion desired; the name; the type, and class IN.
unfoldable pub dns_build_query : ℕ → List ℕ → ℕ → List ℕ
unfolding dns_encode_name
dns_build_query txn_id host qtype =
    u16_bytes txn_id
    ++ (u16_bytes 0x0100
        ++ (u16_bytes 1
            ++ (0
                ∷ 0
                ∷ 0
                ∷ 0
                ∷ 0
                ∷ 0
                ∷ (dns_encode_name host ++ (u16_bytes qtype ++ u16_bytes 1)))))
