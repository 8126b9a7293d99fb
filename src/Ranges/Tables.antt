-- ===== src/Ranges/Tables.antt =====
-- The range tables of utils.cpp. `inet_pton` gives an address as a number, and `strtol` gives the
-- value in two's complement at 64 bits and the text that is left: both are the C library's.
use trinetra.Prelude.{
  ℕ, ◌+◌, ◌-◌, ◌%◌, ◌^◌, Bool, true, not, ◌&&◌, List, [], ◌∷◌, ◌++◌, Option, none, some, ltb, leb,
  ◌==◌, if◌then◌else◌, length,
}

-- `IpRangeV4` and `IpRangeV6`.
pub record IpRange : Type 0 where
  pub start : ℕ
  pub end : ℕ
  pub label : List ℕ

pub record RangeTables : Type 0 where
  pub v4_ranges : List IpRange
  pub v6_ranges : List IpRange

pub record Libc : Type 0 where
  pub inet_pton : List ℕ → Option ℕ
  pub inet_pton_6 : List ℕ → Option ℕ
  pub strtol : List ℕ → ℕ × List ℕ

-- The text in front of the first slash, and the text behind it.
unfoldable pub split_slash : List ℕ → List ℕ × Option (List ℕ)
split_slash [] = ([], none)
split_slash (c ∷ s) =
    let rest = split_slash s in if c == b'/' then ([], some s) else (c ∷ rest.0, rest.1)

abbrev at_end : List ℕ → Bool
at_end [] = true
at_end (c ∷ s) = c == 0

-- -1 as an `int`.
abbrev pub no_prefix : ℕ
no_prefix = 2 ^ 32 - 1

abbrev pub prefix_of : Libc → Option (List ℕ) → ℕ
prefix_of libc none = no_prefix
prefix_of libc (some text) =
    let (v, rest) = libc.strtol text in
    if not (length rest == length text) && at_end rest then v % 2 ^ 32 else no_prefix

-- `base & mask` and `start | ~mask`, for a mask of `size - 1` zeros in binary at the end.
abbrev pub range_of : ℕ → ℕ → List ℕ → IpRange
range_of base size label =
    let start = base - base % size in
    record { start = start; end = start + (size - 1); label = label }

-- An `int` below 0 is above 2^31 here. `none` is a return with no range.
abbrev pub range_if : ℕ → ℕ → ℕ → List ℕ → Option IpRange
range_if bits base prefix label =
    let p = if prefix == no_prefix then bits else prefix in
    if ltb bits p then none else some (range_of base (2 ^ (bits - p)) label)

abbrev pub pushed : Option IpRange → List IpRange → List IpRange
pushed none ranges = ranges
pushed (some r) ranges = ranges ++ r ∷ []

abbrev pub add_v6 : Option ℕ → ℕ → List ℕ → RangeTables → RangeTables
add_v6 none prefix label t = t
add_v6 (some base) prefix label t = record t {
  v6_ranges = pushed (range_if 128 base prefix label) t.v6_ranges;
}

abbrev pub add_v4 : Option ℕ → ℕ → List ℕ → RangeTables → RangeTables → RangeTables
add_v4 none prefix label t otherwise = otherwise
add_v4 (some base) prefix label t otherwise = record t {
  v4_ranges = pushed (range_if 32 base prefix label) t.v4_ranges;
}

unfoldable pub add_cidr_range : Libc → List ℕ → List ℕ → RangeTables → RangeTables
unfolding split_slash
add_cidr_range libc cidr label t =
    let (addr, text) = split_slash cidr in
    let prefix = prefix_of libc text in
    add_v4 (libc.inet_pton addr) prefix label t (add_v6 (libc.inet_pton_6 addr) prefix label t)

-- `std::sort` by the start.
unfoldable pub insert_range : IpRange → List IpRange → List IpRange
insert_range r [] = r ∷ []
insert_range r (q ∷ ranges) =
    let rest = insert_range r ranges in if ltb q.start r.start then q ∷ rest else r ∷ q ∷ ranges

unfoldable pub sort_ranges : List IpRange → List IpRange
unfolding insert_range
sort_ranges [] = []
sort_ranges (r ∷ ranges) = insert_range r (sort_ranges ranges)

abbrev pub finalize_ip_range_tables : RangeTables → RangeTables
finalize_ip_range_tables t = record {
  v4_ranges = sort_ranges t.v4_ranges;
  v6_ranges = sort_ranges t.v6_ranges;
}

-- The entry before `std::upper_bound`: the last that does not start behind the target.
unfoldable pub last_before : ℕ → List IpRange → Option IpRange → Option IpRange
last_before target [] prev = prev
last_before target (r ∷ ranges) prev =
    let rest = last_before target ranges (some r) in if ltb target r.start then prev else rest

abbrev pub label_if : ℕ → Option IpRange → Option (List ℕ)
label_if target none = none
label_if target (some r) = if leb r.start target && leb target r.end then some r.label else none

unfoldable pub lookup_range : ℕ → List IpRange → Option (List ℕ)
unfolding last_before
lookup_range target ranges = label_if target (last_before target ranges none)

abbrev pub lookup_v6 : Option ℕ → RangeTables → Option (List ℕ)
lookup_v6 none t = none
lookup_v6 (some target) t = lookup_range target t.v6_ranges

abbrev pub lookup_v4 : Option ℕ → RangeTables → Option (List ℕ) → Option (List ℕ)
lookup_v4 none t otherwise = otherwise
lookup_v4 (some target) t otherwise = lookup_range target t.v4_ranges

-- `none` is `false`.
unfoldable pub lookup_ip_provider : Libc → List ℕ → RangeTables → Option (List ℕ)
unfolding lookup_range
lookup_ip_provider libc ip t = lookup_v4 (libc.inet_pton ip) t (lookup_v6 (libc.inet_pton_6 ip) t)
