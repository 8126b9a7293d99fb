-- ===== src/Prelude/Search.antt =====
-- The two linear searches of the source: a loop over a vector that changes the first element
-- that passes a test and returns, and one that erases it.
use trinetra.Prelude.Lists.{All}
use trinetra.Prelude.Tests.{if◌then◌else◌, Bool-cases, Option-cases}
use mathlib.Core.Path.{◌≡◌, subst}
use mathlib.Core.Logic.{inl, inr}
use mathlib.Core.Bool.{Bool, true, false}
use mathlib.Core.List.{List, [], ◌∷◌}
use mathlib.Core.Option.{Option, none, some}
use native.Mathlib.Omega.{arith}

abbrev pub map_some {ℓ κ} : {A : Type ℓ} {B : Type κ} → (A → B) → Option A → Option B
map_some f none = none
map_some f (some a) = some (f a)

module _ {ℓ} {A : Type ℓ} where
  -- `none` when no element passes.
  unfoldable pub update_first : (A → Bool) → (A → A) → List A → Option (List A)
  update_first p f [] = none
  update_first p f (x ∷ xs) =
      if p x then some (f x ∷ xs) else map_some (λ ys. x ∷ ys) (update_first p f xs)

  -- The element, and the list without it.
  unfoldable pub take_first : (A → Bool) → List A → Option (A × List A)
  take_first p [] = none
  take_first p (x ∷ xs) =
      if p x then some (x, xs) else map_some (λ r. (r.0, x ∷ r.1)) (take_first p xs)

  -- A search that fails has tested every element.
  pub update_first-none :
      (p : A → Bool) (f : A → A) (xs : List A)
      → update_first p f xs ≡ none
      → All (λ x. p x ≡ false) xs
  unfolding update_first
  update_first-none p f [] h = tt
  update_first-none p f (x ∷ xs) h = ground (arith, update_first-none p f xs)

  pub take_first-none :
      (p : A → Bool) (xs : List A) → All (λ x. p x ≡ false) xs → take_first p xs ≡ none
  unfolding take_first
  take_first-none p [] h = ground arith
  take_first-none p (x ∷ xs) h = ground (arith, take_first-none p xs h.1)

-- What a search that succeeds has found.
pub data Updated {ℓ} {A : Type ℓ} (p : A → Bool) (f : A → A) : List A → List A → Type ℓ where
  here : (x : A) (xs : List A) → p x ≡ true → Updated p f (x ∷ xs) (f x ∷ xs)
  there : (z : A) {xs ys : List A} → p z ≡ false → Updated p f xs ys → Updated p f (z ∷ xs) (z ∷ ys)

pub data Taken {ℓ} {A : Type ℓ} (p : A → Bool) (x : A) : List A → List A → Type ℓ where
  here : (xs : List A) → p x ≡ true → Taken p x (x ∷ xs) xs
  there : (z : A) {xs ys : List A} → p z ≡ false → Taken p x xs ys → Taken p x (z ∷ xs) (z ∷ ys)

module _ {ℓ} {A : Type ℓ} (p : A → Bool) where
  pub update_first-Updated :
      (f : A → A) (xs ys : List A) → update_first p f xs ≡ some ys → Updated p f xs ys
  unfolding update_first
  update_first-Updated f [] ys h = cc
  update_first-Updated f (x ∷ xs) ys h = elim (Bool-cases (p x)) [
    | inl e ↦ subst (Updated p f (x ∷ xs)) (ground arith) (Updated.here x xs e)
    | inr e ↦ elim (Option-cases (update_first p f xs)) [
      | inl n ↦ ground arith
      | inr (zs, m) ↦
          subst (Updated p f (x ∷ xs)) (ground arith)
            (Updated.there x e (update_first-Updated f xs zs m))
    ]
  ]

  pub take_first-Taken :
      (xs : List A) (x : A) (ys : List A) → take_first p xs ≡ some (x, ys) → Taken p x xs ys
  unfolding take_first
  take_first-Taken [] x ys h = cc
  take_first-Taken (z ∷ xs) x ys h = elim (Bool-cases (p z)) [
    | inl e ↦
        let at : z ≡ x = ground arith in
        let rest : xs ≡ ys = ground arith in rw (at, rest) (Taken.here ys (ground arith))
    | inr e ↦ elim (Option-cases (take_first p xs)) [
      | inl n ↦ ground arith
      | inr (r, m) ↦
          let at : r.0 ≡ x = ground arith in
          let rest : z ∷ r.1 ≡ ys = ground arith in
          subst (Taken p x (z ∷ xs)) rest
            (Taken.there z e (subst (λ y. Taken p y xs r.1) at (take_first-Taken xs r.0 r.1 m)))
    ]
  ]
