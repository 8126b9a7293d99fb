-- ===== src/Ranges/Lookup.antt =====
-- Which ranges of utils.cpp a lookup finds.
use trinetra.Prelude.{
  ℕ, ◌≤◌, ◌<◌, ◌≡◌, refl, ap, ◌∙◌, ◌⊎◌, inl, inr, Bool, true, false, List, [], ◌∷◌, Option, none,
  some, arith, ltb, ltb→lt, ltb-false, if◌then◌else◌, All, Elem, Bool-cases,
}
use trinetra.Ranges.Tables.{
  IpRange, RangeTables, Libc, insert_range, sort_ranges, finalize_ip_range_tables, last_before,
  label_if, lookup_range, lookup_ip_provider,
}

abbrev InOrder : ℕ → List IpRange → Type 0
InOrder lo [] = Unit
InOrder lo (r ∷ ranges) = (lo ≤ r.start) × InOrder r.start ranges

InOrder-if :
    (b : Bool) (lo : ℕ) (x y : List IpRange)
    → (b ≡ true → InOrder lo x)
    → (b ≡ false → InOrder lo y)
    → InOrder lo (if b then x else y)
InOrder-if true lo x y h k = h refl
InOrder-if false lo x y h k = k refl

insert_range-InOrder :
    (r : IpRange) (lo : ℕ) (ranges : List IpRange)
    → lo ≤ r.start
    → InOrder lo ranges
    → InOrder lo (insert_range r ranges)
unfolding insert_range
insert_range-InOrder r lo [] h a = (h, tt)
insert_range-InOrder r lo (q ∷ ranges) h a =
    InOrder-if (ltb q.start r.start) lo _ _
      (λ e.
        let before = ltb→lt _ _ e in
        (a.0, insert_range-InOrder r q.start ranges (omega (arith, before)) a.1))
      (λ e. let behind = ltb-false _ _ e in (h, (omega (arith, behind), a.1)))

sort_ranges-InOrder : (ranges : List IpRange) → InOrder 0 (sort_ranges ranges)
unfolding sort_ranges
sort_ranges-InOrder [] = tt
sort_ranges-InOrder (r ∷ ranges) =
    insert_range-InOrder r 0 (sort_ranges ranges) (omega arith) (sort_ranges-InOrder ranges)

insert_range-All :
    (P : IpRange → Type 0) (r : IpRange) (ranges : List IpRange)
    → P r
    → All P ranges
    → All P (insert_range r ranges)
unfolding insert_range
insert_range-All P r [] p h = (p, tt)
insert_range-All P r (q ∷ ranges) p h = elim (Bool-cases (ltb q.start r.start)) [
  | inl e ↦ rw e (h.0, insert_range-All P r ranges p h.1)
  | inr e ↦ rw e (p, h)
]

sort_ranges-All :
    (P : IpRange → Type 0) (ranges : List IpRange) → All P ranges → All P (sort_ranges ranges)
unfolding sort_ranges
sort_ranges-All P [] h = tt
sort_ranges-All P (r ∷ ranges) h =
    insert_range-All P r (sort_ranges ranges) h.0 (sort_ranges-All P ranges h.1)

insert_range-Elem :
    (r s : IpRange) (ranges : List IpRange)
    → (s ≡ r) ⊎ Elem s ranges
    → Elem s (insert_range r ranges)
unfolding insert_range
insert_range-Elem r s [] h = h
insert_range-Elem r s (q ∷ ranges) h = elim (Bool-cases (ltb q.start r.start)) [
  | inl e ↦ rw e (elim h [
    | inl here ↦ inr (insert_range-Elem r s ranges (inl here))
    | inr (inl there) ↦ inl there
    | inr (inr there) ↦ inr (insert_range-Elem r s ranges (inr there))
  ])
  | inr e ↦ rw e h
]

sort_ranges-Elem :
    (s : IpRange) (ranges : List IpRange) → Elem s ranges → Elem s (sort_ranges ranges)
unfolding sort_ranges
sort_ranges-Elem s [] h = h
sort_ranges-Elem s (r ∷ ranges) (inl here) = insert_range-Elem r s (sort_ranges ranges) (inl here)
sort_ranges-Elem s (r ∷ ranges) (inr there) =
    insert_range-Elem r s (sort_ranges ranges) (inr (sort_ranges-Elem s ranges there))

-- Another range is not empty, and ends before this one or starts after it.
abbrev pub IsApart : IpRange → IpRange → Type 0
IsApart r q = (q ≡ r) ⊎ ((q.start ≤ q.end) × ((q.end < r.start) ⊎ (r.end < q.start)))

-- The entry that a lookup reaches, from one that starts with the range or behind it.
record Reached (P : IpRange → Type 0) (r : IpRange) (target : ℕ) (found : Option IpRange)
    : Type 0 where
  at : IpRange
  is_found : found ≡ some at
  holds : P at
  not_before : r.start ≤ at.start
  not_behind : at.start ≤ target

Reached-if :
    {P : IpRange → Type 0} {r : IpRange} {target : ℕ} (b : Bool) (x y : Option IpRange)
    → (b ≡ true → Reached P r target x)
    → (b ≡ false → Reached P r target y)
    → Reached P r target (if b then x else y)
Reached-if true x y h k = h refl
Reached-if false x y h k = k refl

Reached-from :
    (P : IpRange → Type 0) (r q : IpRange) (target : ℕ) (ranges : List IpRange)
    → P q
    → All P ranges
    → InOrder q.start ranges
    → r.start ≤ q.start
    → q.start ≤ target
    → Reached P r target (last_before target ranges (some q))
unfolding last_before
Reached-from P r q target [] p h a before behind = record {
  at = q;
  is_found = refl;
  holds = p;
  not_before = before;
  not_behind = behind;
}
Reached-from P r q target (s ∷ ranges) p h a before behind =
    Reached-if (ltb target s.start) (some q) _
      (λ e. record { at = q; is_found = refl; holds = p; not_before = before; not_behind = behind })
      (λ e.
        let reaches = ltb-false _ _ e in
        Reached-from P r s target ranges h.0 h.1 a.1 (omega (arith, before, a.0)) reaches)

InOrder-Elem :
    (r : IpRange) (lo : ℕ) (ranges : List IpRange)
    → InOrder lo ranges
    → Elem r ranges
    → lo ≤ r.start
InOrder-Elem r lo [] a h = elim h [ ]
InOrder-Elem r lo (q ∷ ranges) a (inl here) =
    let same = ap (λ (s : IpRange). s.start) here in omega (arith, same, a.0)
InOrder-Elem r lo (q ∷ ranges) a (inr there) =
    let later = InOrder-Elem r q.start ranges a.1 there in omega (arith, later, a.0)

reached :
    (P : IpRange → Type 0) (r : IpRange) (target lo : ℕ) (ranges : List IpRange)
    (prev : Option IpRange)
    → All P ranges
    → InOrder lo ranges
    → Elem r ranges
    → r.start ≤ target
    → Reached P r target (last_before target ranges prev)
unfolding last_before
reached P r target lo [] prev h a e le = elim e [ ]
reached P r target lo (q ∷ ranges) prev h a (inl here) le =
    let same = ap (λ (s : IpRange). s.start) here in
    Reached-if (ltb target q.start) prev _
      (λ t. let wrong = ltb→lt _ _ t in absurd (omega (arith, wrong, same, le)))
      (λ t.
        Reached-from P r q target ranges h.0 h.1 a.1 (omega (arith, same))
          (omega (arith, same, le)))
reached P r target lo (q ∷ ranges) prev h a (inr there) le =
    let first = InOrder-Elem r q.start ranges a.1 there in
    Reached-if (ltb target q.start) prev _
      (λ t. let wrong = ltb→lt _ _ t in absurd (omega (arith, wrong, first, le)))
      (λ t. reached P r target q.start ranges (some q) h.1 a.1 there le)

-- What is reached is the range itself, as the others do not start in it.
Reached-is :
    (r : IpRange) (target : ℕ) (found : Option IpRange)
    → target ≤ r.end
    → Reached (IsApart r) r target found
    → found ≡ some r
Reached-is r target found le h = elim h.holds [
  | inl same ↦ h.is_found ∙ ap some same
  | inr (whole, inl before) ↦ absurd (omega (arith, whole, before, h.not_before))
  | inr (whole, inr behind) ↦ absurd (omega (arith, behind, le, h.not_behind))
]

label_of_range :
    (r : IpRange) (target : ℕ)
    → r.start ≤ target
    → target ≤ r.end
    → label_if target (some r) ≡ some r.label
label_of_range r target h k = ground (arith, h, k)

-- Over the tables that were sorted, an address of IPv4 that is in a range is given that range's
-- label, if every other range is apart from it, in whatever order the files listed them.
pub lookup_ip_provider-finds :
    (libc : Libc) (ip : List ℕ) (target : ℕ) (r : IpRange) (t : RangeTables)
    → libc.inet_pton ip ≡ some target
    → Elem r t.v4_ranges
    → All (IsApart r) t.v4_ranges
    → r.start ≤ target
    → target ≤ r.end
    → lookup_ip_provider libc ip (finalize_ip_range_tables t) ≡ some r.label
unfolding lookup_ip_provider lookup_range
lookup_ip_provider-finds libc ip target r t address listed others h k =
    let sorted = sort_ranges t.v4_ranges in
    let found =
      reached (IsApart r) r target 0 sorted none (sort_ranges-All (IsApart r) t.v4_ranges others)
        (sort_ranges-InOrder t.v4_ranges) (sort_ranges-Elem r t.v4_ranges listed) h in
    rw address (
      ap (label_if target) (Reached-is r target (last_before target sorted none) k found)
      ∙ label_of_range r target h k)

last_behind :
    (inner : IpRange) (target : ℕ) → inner.end < target → label_if target (some inner) ≡ none
last_behind inner target h = ground (arith, h)

-- Another range starts before this one, or behind an address.
abbrev pub StartsOutside : IpRange → ℕ → IpRange → Type 0
StartsOutside inner target q = (q ≡ inner) ⊎ ((q.start < inner.start) ⊎ (target < q.start))

Reached-inner :
    (inner : IpRange) (target : ℕ) (found : Option IpRange)
    → Reached (StartsOutside inner target) inner target found
    → found ≡ some inner
Reached-inner inner target found h = elim h.holds [
  | inl same ↦ h.is_found ∙ ap some same
  | inr (inl before) ↦ absurd (omega (arith, before, h.not_before))
  | inr (inr behind) ↦ absurd (omega (arith, behind, h.not_behind))
]

-- A range of a table that covers an address, and another one that starts later and ends before the
-- address, where no third range of the table starts from the start of that other one up to the
-- address: the address is not found, whatever the rest of the table is and in whatever order the
-- files listed it, though the covering range by itself gives its label.
pub lookup_ip_provider_nested :
    (libc : Libc) (ip : List ℕ) (target : ℕ) (outer inner : IpRange) (t : RangeTables)
    → libc.inet_pton ip ≡ some target
    → Elem outer t.v4_ranges
    → Elem inner t.v4_ranges
    → All (StartsOutside inner target) t.v4_ranges
    → outer.start < inner.start
    → inner.start ≤ inner.end
    → inner.end < target
    → target ≤ outer.end
    → (lookup_ip_provider libc ip (finalize_ip_range_tables t) ≡ none)
      × (label_if target (some outer) ≡ some outer.label)
unfolding lookup_ip_provider lookup_range
lookup_ip_provider_nested libc ip target outer inner t address covers listed others h whole behind
      k =
    let sorted = sort_ranges t.v4_ranges in
    let P = StartsOutside inner target in
    let found =
      reached P inner target 0 sorted none (sort_ranges-All P t.v4_ranges others)
        (sort_ranges-InOrder t.v4_ranges) (sort_ranges-Elem inner t.v4_ranges listed)
        (omega (arith, whole, behind)) in
    (
      rw address (
          ap (label_if target) (Reached-inner inner target (last_before target sorted none) found)
          ∙ last_behind inner target behind),
      label_of_range outer target (omega (arith, h, whole, behind)) k,
    )
