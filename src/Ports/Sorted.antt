-- ===== src/Ports/Sorted.antt =====
-- The port lists of utils.cpp are in strictly ascending order and within bounds.
use trinetra.Prelude.{
  Elem, ℕ, ◌≤◌, ◌<◌, ◌≡◌, inl, inr, ◌↔◌, List, [], ◌∷◌, arith, leb, ◌==◌, All, Bool-cases,
}
use trinetra.Ports.File.{insert, sort, unique}

abbrev Ascending : List ℕ → Type 0
Ascending [] = Unit
Ascending (x ∷ xs) = All (λ y. x ≤ y) xs × Ascending xs

abbrev pub StrictlyAscending : List ℕ → Type 0
StrictlyAscending [] = Unit
StrictlyAscending (x ∷ xs) = All (λ y. x < y) xs × StrictlyAscending xs

All-impl : {P Q : ℕ → Type 0} (xs : List ℕ) → ((n : ℕ) → P n → Q n) → All P xs → All Q xs
All-impl [] f h = tt
All-impl (x ∷ xs) f h = (f x h.0, All-impl xs f h.1)

insert-All : (P : ℕ → Type 0) (x : ℕ) (xs : List ℕ) → P x → All P xs → All P (insert x xs)
unfolding insert
insert-All P x [] p h = (p, tt)
insert-All P x (y ∷ ys) p h = elim (Bool-cases (leb x y)) [
  | inl e ↦ rw e (p, h)
  | inr e ↦ rw e (h.0, insert-All P x ys p h.1)
]

insert-Ascending : (x : ℕ) (xs : List ℕ) → Ascending xs → Ascending (insert x xs)
unfolding insert
insert-Ascending x [] h = (tt, tt)
insert-Ascending x (y ∷ ys) h = elim (Bool-cases (leb x y)) [
  | inl e ↦
      let le : x ≤ y = ground arith in rw e ((le, All-impl ys (λ z l. omega (arith, l, le)) h.0), h)
  | inr e ↦
      let le : y ≤ x = ground arith in
      rw e (insert-All (λ z. y ≤ z) x ys le h.0, insert-Ascending x ys h.1)
]

pub sort-Ascending : (xs : List ℕ) → Ascending (sort xs)
unfolding sort
sort-Ascending [] = tt
sort-Ascending (x ∷ xs) = insert-Ascending x (sort xs) (sort-Ascending xs)

unique_cons :
    (x : ℕ) (xs : List ℕ)
    → Ascending (x ∷ xs)
    → StrictlyAscending (unique (x ∷ xs)) × All (λ z. x ≤ z) (unique (x ∷ xs))
unfolding unique
unique_cons x [] h = ((tt, tt), (omega arith, tt))
unique_cons x (y ∷ ys) h =
    let rest = unique_cons y ys h.1 in
    elim (Bool-cases (x == y)) [
      | inl e ↦
          let same : x ≡ y = ground arith in
          rw e (rest.0, All-impl (unique (y ∷ ys)) (λ z l. omega (arith, l, same)) rest.1)
      | inr e ↦
          let less : x < y = ground (arith, h.0.0) in
          rw e (
            (All-impl (unique (y ∷ ys)) (λ z l. omega (arith, l, less)) rest.1, rest.0),
            (omega arith, All-impl (unique (y ∷ ys)) (λ z l. omega (arith, l, less)) rest.1),
          )
    ]

pub unique-StrictlyAscending : (xs : List ℕ) → Ascending xs → StrictlyAscending (unique xs)
unfolding unique
unique-StrictlyAscending [] h = tt
unique-StrictlyAscending (x ∷ xs) h = (unique_cons x xs h).0

-- Neither sorting nor the removal of repetitions changes which numbers there are.
insert-Elem : (n x : ℕ) (xs : List ℕ) → Elem n (insert x xs) ↔ Elem n (x ∷ xs)
unfolding insert
insert-Elem n x [] = ground arith
insert-Elem n x (y ∷ ys) = let ih = insert-Elem n x ys in ground (arith, ih)

pub sort-Elem : (n : ℕ) (xs : List ℕ) → Elem n (sort xs) ↔ Elem n xs
unfolding sort
sort-Elem n [] = ground arith
sort-Elem n (x ∷ xs) =
    let ih = sort-Elem n xs in let here = insert-Elem n x (sort xs) in ground (arith, ih, here)

pub unique-Elem : (n : ℕ) (xs : List ℕ) → Elem n (unique xs) ↔ Elem n xs
unfolding unique
unique-Elem n [] = ground arith
unique-Elem n (x ∷ []) = ground arith
unique-Elem n (x ∷ (y ∷ ys)) = let ih = unique-Elem n (y ∷ ys) in ground (arith, ih)
