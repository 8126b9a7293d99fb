-- ===== src/Prelude/Keys.antt =====
-- Tables whose entries have pairwise different keys, and the searches that keep them so.
use trinetra.Prelude.Lists.{All, All-append, All-keep_if, keep_if}
use trinetra.Prelude.Search.{Updated, Taken}
use mathlib.Core.Path.{◌≡◌, subst, sym, ◌∙◌}
use mathlib.Core.Logic.{◌≢◌}
use mathlib.Core.Bool.{Bool, true}
use mathlib.Core.List.{List, [], ◌∷◌, ◌++◌}
use native.Mathlib.Omega.{arith}

module _ {ℓ κ} {A : Type ℓ} {K : Type κ} (key : A → K) where
  abbrev pub Distinct : List A → Type κ
  Distinct [] = Unit
  Distinct (x ∷ xs) = All (λ y. key y ≢ key x) xs × Distinct xs

  pub Distinct-append_one :
      (xs : List A) (x : A) → All (λ y. key y ≢ key x) xs → Distinct xs → Distinct (xs ++ x ∷ [])
  Distinct-append_one [] x h d = (tt, tt)
  Distinct-append_one (z ∷ xs) x h d = (
    All-append (λ y. key y ≢ key z) xs (x ∷ []) d.0 ((λ e. h.0 (sym e)), tt),
    Distinct-append_one xs x h.1 d.1,
  )

  pub Distinct-keep_if : (p : A → Bool) (xs : List A) → Distinct xs → Distinct (keep_if p xs)
  Distinct-keep_if p [] d = tt
  Distinct-keep_if p (x ∷ xs) d =
      ground (arith, All-keep_if (λ y. key y ≢ key x) p xs d.0, Distinct-keep_if p xs d.1)

module _ {ℓ κ} {A : Type ℓ} {p : A → Bool} (P : A → Type κ) where
  pub All-Taken : {x : A} {xs ys : List A} → Taken p x xs ys → All P xs → P x × All P ys
  All-Taken (Taken.here xs e) h = h
  All-Taken (Taken.there z e t) h = let r = All-Taken t h.1 in (r.0, (h.0, r.1))

  pub All-Updated :
      {f : A → A} {xs ys : List A}
      → ((x : A) → p x ≡ true → P x → P (f x))
      → Updated p f xs ys
      → All P xs
      → All P ys
  All-Updated k (Updated.here x xs e) h = (k x e h.0, h.1)
  All-Updated k (Updated.there z e u) h = (h.0, All-Updated k u h.1)

module _ {ℓ κ} {A : Type ℓ} {K : Type κ} {p : A → Bool} (key : A → K) where
  pub Distinct-Taken :
      {x : A} {xs ys : List A} → Taken p x xs ys → Distinct key xs → Distinct key ys
  Distinct-Taken (Taken.here xs e) d = d.1
  Distinct-Taken (Taken.there z e t) d =
      ((All-Taken (λ y. key y ≢ key z) t d.0).1, Distinct-Taken t d.1)

  pub Distinct-Updated :
      {f : A → A} {xs ys : List A}
      → ((x : A) → key (f x) ≡ key x)
      → Updated p f xs ys
      → Distinct key xs
      → Distinct key ys
  Distinct-Updated {f} k (Updated.here x xs e) d =
      (subst (λ t. All (λ y. key y ≢ t) xs) (sym (k x)) d.0, d.1)
  Distinct-Updated {f} k (Updated.there z e u) d = (
    All-Updated (λ y. key y ≢ key z) (λ x _ h q. h (sym (k x) ∙ q)) u d.0,
    Distinct-Updated k u d.1,
  )
