-- ===== src/Checksum/Fold.antt =====
-- The end-around carry: the folded sum is the remainder at 65535, with 65535 in the place of 0.
use trinetra.Prelude.{
  ℕ, zero, suc, ◌+◌, ◌-◌, ◌*◌, ◌%◌, ◌^◌, ◌≤◌, ◌<◌, ◌≡◌, ◌≢◌, refl, List, [], ◌∷◌, ◌++◌, some, arith,
  ap, ◌∙◌, length, All,
}
use trinetra.Checksum.Sum.{word, words_loop, fold_loop, segment_loop, fold_twice}

abbrev pub folded : ℕ → ℕ
folded zero = 0
folded (suc n) = n % 65535 + 1

pub fold_loop-folded : (sum : ℕ) → sum < 2 ^ 32 → fold_loop 3 sum ≡ some (folded sum)
unfolding fold_loop
fold_loop-folded sum h = ground (arith, h)

-- The two carries may leave a bit above 16, which the conversion drops.
pub fold_twice-folded : (sum : ℕ) → sum < 2 ^ 32 → fold_twice sum % 2 ^ 16 ≡ folded sum
fold_twice-folded sum h = ground (arith, h)

pub folded_bound : (sum : ℕ) → folded sum < 2 ^ 16
folded_bound sum = ground arith

-- A sum and its complement make up 65535.
pub folded_complement : (sum : ℕ) → folded (sum + (2 ^ 16 - 1 - folded sum)) ≡ 2 ^ 16 - 1
folded_complement sum = ground arith

-- A byte and the same byte shifted up never fold to the same.
pub folded_shifted : (sum b : ℕ) → 0 < b → b < 256 → folded (sum + b) ≢ folded (sum + b * 256)
folded_shifted sum b h k e = ground (arith, h, k, e)

-- The sum of the words, with no wrap-around.
unfoldable pub total : List ℕ → ℕ
total [] = 0
total (a ∷ []) = a
total (a ∷ b ∷ rest) = word a b + total rest

abbrev pub Bytes : List ℕ → Type 0
Bytes = All (λ b. b < 256)

-- A list of pairs.
abbrev pub HasPairs : List ℕ → Type 0
HasPairs [] = Unit
HasPairs (a ∷ []) = ⊥
HasPairs (a ∷ b ∷ rest) = HasPairs rest

pub total_bound : (bytes : List ℕ) → Bytes bytes → total bytes ≤ 65536 * length bytes
unfolding total
total_bound [] h = omega arith
total_bound (a ∷ []) h = omega (arith, h.0)
total_bound (a ∷ b ∷ rest) h = let r = total_bound rest h.1.1 in omega (arith, h.0, h.1.0, r)

pub words_loop-total :
    (sum : ℕ) (bytes : List ℕ)
    → Bytes bytes
    → sum + 65536 * length bytes < 2 ^ 32
    → words_loop sum bytes ≡ sum + total bytes
unfolding words_loop total
words_loop-total sum [] h fits = omega arith
words_loop-total sum (a ∷ []) h fits = omega (arith, h.0, fits)
words_loop-total sum (a ∷ b ∷ rest) h fits =
    let wrapped : (sum + word a b) % 2 ^ 32 ≡ sum + word a b = omega (arith, h.0, h.1.0, fits) in
    let r = words_loop-total (sum + word a b) rest h.1.1 (omega (arith, h.0, h.1.0, fits)) in
    ap (λ n. words_loop n rest) wrapped ∙ (omega (arith, r))

pub segment_loop-words :
    (sum : ℕ) (bytes : List ℕ) → HasPairs bytes → segment_loop sum bytes ≡ words_loop sum bytes
unfolding words_loop segment_loop
segment_loop-words sum [] h = refl
segment_loop-words sum (a ∷ []) h = elim h [ ]
segment_loop-words sum (a ∷ b ∷ rest) h = segment_loop-words ((sum + word a b) % 2 ^ 32) rest h

pub words_loop-append :
    (sum : ℕ) (front back : List ℕ)
    → HasPairs front
    → words_loop sum (front ++ back) ≡ words_loop (words_loop sum front) back
unfolding words_loop
words_loop-append sum [] back h = refl
words_loop-append sum (a ∷ []) back h = elim h [ ]
words_loop-append sum (a ∷ b ∷ rest) back h =
    words_loop-append ((sum + word a b) % 2 ^ 32) rest back h

pub segment_loop-append :
    (sum : ℕ) (front back : List ℕ)
    → HasPairs front
    → segment_loop sum (front ++ back) ≡ segment_loop (words_loop sum front) back
unfolding words_loop segment_loop
segment_loop-append sum [] back h = refl
segment_loop-append sum (a ∷ []) back h = elim h [ ]
segment_loop-append sum (a ∷ b ∷ rest) back h =
    segment_loop-append ((sum + word a b) % 2 ^ 32) rest back h

pub total-append :
    (front back : List ℕ) → HasPairs front → total (front ++ back) ≡ total front + total back
unfolding total
total-append [] back h = omega arith
total-append (a ∷ []) back h = elim h [ ]
total-append (a ∷ b ∷ rest) back h = let r = total-append rest back h in omega (arith, r)

pub Bytes-append : (front back : List ℕ) → Bytes front → Bytes back → Bytes (front ++ back)
Bytes-append [] back h k = k
Bytes-append (b ∷ front) back h k = (h.0, Bytes-append front back h.1 k)
