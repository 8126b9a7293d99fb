-- ===== src/Ranges/Examples.antt =====
-- The theorems on the range tables at concrete lines, with a small library of C functions.
use trinetra.Prelude.{
  ℕ, ◌+◌, ◌-◌, ◌*◌, ◌≡◌, refl, inl, inr, List, [], ◌∷◌, Option, none, some, arith,
}
use trinetra.Ranges.Tables.{
  IpRange, RangeTables, Libc, split_slash, add_cidr_range, finalize_ip_range_tables, label_if,
  lookup_ip_provider,
}
use trinetra.Ranges.Lookup.{lookup_ip_provider_nested}
use trinetra.Ranges.Networks.{add_cidr_range-finds}

-- An address is its last byte in 10.0.0.0/24, written in one or two digits.
abbrev pton : List ℕ → Option ℕ
pton (a ∷ []) = some (167772160 + (a - b'0'))
pton (a ∷ b ∷ []) = some (167772160 + (a - b'0') * 10 + (b - b'0'))
pton _ = none

-- A number of two digits.
abbrev strtol : List ℕ → ℕ × List ℕ
strtol (a ∷ b ∷ rest) = ((a - b'0') * 10 + (b - b'0'), rest)
strtol s = (0, s)

abbrev libc : Libc
libc = record { inet_pton = pton; inet_pton_6 = λ s. none; strtol = strtol }

abbrev cidr : List ℕ
cidr = b'1' ∷ b'6' ∷ b'/' ∷ b'2' ∷ b'9' ∷ []

abbrev tables : RangeTables
tables = record {
  v4_ranges = record { start = 167772200; end = 167772203; label = 7 ∷ [] } ∷ [];
  v6_ranges = [];
}

cidr_parts : split_slash cidr ≡ (b'1' ∷ b'6' ∷ [], some (b'2' ∷ b'9' ∷ []))
unfolding split_slash
cidr_parts = refl

add_cidr_range-finds_example :
    lookup_ip_provider libc
      (b'2' ∷ b'3' ∷ [])
      (finalize_ip_range_tables (add_cidr_range libc cidr (9 ∷ []) tables))
    ≡ some (9 ∷ [])
add_cidr_range-finds_example =
    add_cidr_range-finds libc cidr (9 ∷ []) (b'1' ∷ b'6' ∷ []) (b'2' ∷ b'9' ∷ []) (b'2' ∷ b'3' ∷ [])
      167772176 29 167772183 tables cidr_parts refl refl (omega arith) refl refl
      (inr (omega arith, inr (omega arith)), tt)

abbrev outer : IpRange
outer = record { start = 167772160; end = 167772415; label = 1 ∷ [] }

abbrev inner : IpRange
inner = record { start = 167772168; end = 167772171; label = 2 ∷ [] }

-- A third range is behind the address, and the outer one is listed last.
abbrev nested : RangeTables
nested = record {
  v4_ranges = inner ∷ record { start = 167772300; end = 167772303; label = 3 ∷ [] } ∷ outer ∷ [];
  v6_ranges = [];
}

lookup_ip_provider_nested_example :
    (lookup_ip_provider libc (b'2' ∷ b'0' ∷ []) (finalize_ip_range_tables nested) ≡ none)
    × (label_if 167772180 (some outer) ≡ some (1 ∷ []))
lookup_ip_provider_nested_example =
    lookup_ip_provider_nested libc (b'2' ∷ b'0' ∷ []) 167772180 outer inner nested refl
      (inr (inr (inl refl))) (inl refl)
      (inl refl, (inr (inr (omega arith)), (inr (inl (omega arith)), tt))) (omega arith)
      (omega arith) (omega arith) (omega arith)
