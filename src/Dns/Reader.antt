-- ===== src/Dns/Reader.antt =====
-- Code that reads a message buffer: a read outside of the buffer is a fault, and a loop that runs
-- out of its fuel is spent.
use trinetra.Prelude.{
  ℕ, ◌+◌, ◌*◌, ◌<◌, ◌≤◌, ◌≡◌, refl, Bool, true, false, List, Option, none, some, arith, ltb, ltb→lt,
  if◌then◌else◌, length, get_elem?, get_elem?-of_lt, take, drop,
}

pub data Reader {ℓ} (A : Type ℓ) : Type ℓ where
  done : A → Reader A
  fault : Reader A
  spent : Reader A

infixl 5 ◌>>=◌
abbrev pub ◌>>=◌ {ℓ κ} : {A : Type ℓ} {B : Type κ} → Reader A → (A → Reader B) → Reader B
done a >>= f = f a
fault >>= f = fault
spent >>= f = spent

abbrev pub read_some {ℓ} : {A : Type ℓ} → Option A → Reader A
read_some none = fault
read_some (some a) = done a

abbrev pub read_byte : List ℕ → ℕ → Reader ℕ
read_byte buf i = read_some (get_elem? buf i)

-- `memcpy` of two bytes and `ntohs`.
unfoldable pub read_u16 : List ℕ → ℕ → Reader ℕ
read_u16 buf i = do hi ← read_byte buf i; lo ← read_byte buf (i + 1); done (hi * 256 + lo)

-- `n` bytes from `i` on.
unfoldable pub read_bytes : List ℕ → ℕ → ℕ → Reader (List ℕ)
read_bytes buf i n = if ltb (length buf) (i + n) then fault else done (take n (drop i buf))

-- The code comes to its end, and its value has the property.
pub data Ends {ℓ κ} {A : Type ℓ} (P : A → Type κ) : Reader A → Type (ℓ ⊔ κ) where
  ends : {a : A} → P a → Ends P (done a)

pub Ends-bind {ℓ κ ι υ} :
    {A : Type ℓ} {B : Type κ} (P : A → Type ι) (Q : B → Type υ) (m : Reader A) (f : A → Reader B)
    → Ends P m
    → ((a : A) → P a → Ends Q (f a))
    → Ends Q (m >>= f)
Ends-bind P Q (done a) f (ends p) k = k a p
Ends-bind P Q fault f h k = elim h [ ]
Ends-bind P Q spent f h k = elim h [ ]

pub Ends-if {ℓ κ} :
    {A : Type ℓ} (P : A → Type κ) (b : Bool) (x y : Reader A)
    → (b ≡ true → Ends P x)
    → (b ≡ false → Ends P y)
    → Ends P (if b then x else y)
Ends-if P true x y h k = h refl
Ends-if P false x y h k = k refl

pub read_byte-Ends :
    (buf : List ℕ) (i : ℕ) → i < length buf → Ends (λ _. Unit {0}) (read_byte buf i)
read_byte-Ends buf i h = let r = get_elem?-of_lt buf i h in rw r.1 (ends tt)

pub read_u16-Ends :
    (buf : List ℕ) (i : ℕ) → i + 1 < length buf → Ends (λ _. Unit {0}) (read_u16 buf i)
unfolding read_u16
read_u16-Ends buf i h =
    Ends-bind (λ _. Unit {0}) (λ _. Unit {0}) (read_byte buf i) _
      (read_byte-Ends buf i (omega arith))
      λ hi _.
        Ends-bind (λ _. Unit {0}) (λ _. Unit {0}) (read_byte buf (i + 1)) _
          (read_byte-Ends buf (i + 1) h) λ lo _. ends tt

pub read_bytes-Ends :
    (buf : List ℕ) (i n : ℕ) → i + n ≤ length buf → Ends (λ _. Unit {0}) (read_bytes buf i n)
unfolding read_bytes
read_bytes-Ends buf i n h =
    Ends-if (λ _. Unit {0}) (ltb (length buf) (i + n)) _ _
      (λ e. absurd (omega (arith, ltb→lt _ _ e))) (λ _. ends tt)
