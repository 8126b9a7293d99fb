-- ===== src/Probe/Wrap.antt =====
-- What is in a fingerprint of probe.cpp when the marks of its lines are taken out.
use trinetra.Prelude.{
  ℕ, ◌+◌, ◌%◌, ◌≤◌, ◌<◌, ◌≡◌, ◌≢◌, sym, ap, subst, ◌⊎◌, inr, Bool, true, false, List, [], ◌∷◌, ◌++◌,
  Option, some, arith, leb, ◌==◌, length, All, length-append, append_assoc, append_nil,
}
use trinetra.Probe.Fingerprint.{
  Fingerprint, ◌>>=◌, wrap_mark, wrap, grow_if, put, wrap_if, add_fp_char, add_fp_string,
}

-- A text with marks, and the text without them.
pub data Wrapped : List ℕ → List ℕ → Type 0 where
  end : Wrapped [] []
  plain : (c : ℕ) {t p : List ℕ} → c ≢ 10 → Wrapped t p → Wrapped (c ∷ t) (c ∷ p)
  mark : {t p : List ℕ} → Wrapped t p → Wrapped (10 ∷ b'S' ∷ b'F' ∷ b':' ∷ t) p

pub Wrapped-append :
    {t p : List ℕ} (s : List ℕ) → All (λ c. c ≢ 10) s → Wrapped t p → Wrapped (t ++ s) (p ++ s)
Wrapped-append [] h Wrapped.end = Wrapped.end
Wrapped-append (c ∷ s) h Wrapped.end = Wrapped.plain c h.0 (Wrapped-append s h.1 Wrapped.end)
Wrapped-append s h (Wrapped.plain c n w) = Wrapped.plain c n (Wrapped-append s h w)
Wrapped-append s h (Wrapped.mark w) = Wrapped.mark (Wrapped-append s h w)

Wrapped-mark : {t p : List ℕ} → Wrapped t p → Wrapped (t ++ wrap_mark) p
Wrapped-mark Wrapped.end = Wrapped.mark Wrapped.end
Wrapped-mark (Wrapped.plain c n w) = Wrapped.plain c n (Wrapped-mark w)
Wrapped-mark (Wrapped.mark w) = Wrapped.mark (Wrapped-mark w)

-- The allocation has room for the byte behind the text.
pub record HasRoom (f : Fingerprint) : Type 0 where
  pub allocated : (f.alloc ≡ 0) ⊎ (1024 ≤ f.alloc)
  pub fits : length f.servicefp ≤ f.alloc

grow_if-room :
    (f : Fingerprint)
    → HasRoom f
    → (1024 ≤ (grow_if f).alloc)
      × (length f.servicefp + 8 ≤ (grow_if f).alloc)
      × ((grow_if f).servicefp ≡ f.servicefp)
grow_if-room f h = ground (arith, h.allocated, h.fits)

-- What a write leads to: it is in the allocation, and the text has one byte more.
pub data Adds (s : List ℕ) (p : List ℕ) : Option Fingerprint → Type 0 where
  adds :
      {f : Fingerprint}
      → HasRoom f
      → length f.servicefp < f.alloc
      → Wrapped f.servicefp (p ++ s)
      → Adds s p (some f)

put_char :
    (c : ℕ) (p : List ℕ) (f : Fingerprint)
    → c ≢ 10
    → 1024 ≤ f.alloc
    → length f.servicefp + 2 ≤ f.alloc
    → Wrapped f.servicefp p
    → Adds (c ∷ []) p (put (c ∷ []) f)
put_char c p f n big room w =
    let e : leb (length f.servicefp + 1) f.alloc ≡ true = ground (arith, room) in
    let size = length-append f.servicefp (c ∷ []) in
    rw e (
      Adds.adds (record { allocated = inr big; fits = omega (arith, size, room) })
        (omega (arith, size, room)) (Wrapped-append (c ∷ []) (n, tt) w))

Wrapped_of : {t t' p : List ℕ} → t ≡ t' → Wrapped t' p → Wrapped t p
Wrapped_of {p} e w = subst (λ t. Wrapped t p) (sym e) w

put_mark :
    (c : ℕ) (p : List ℕ) (f : Fingerprint)
    → c ≢ 10
    → 1024 ≤ f.alloc
    → length f.servicefp + 8 ≤ f.alloc
    → Wrapped f.servicefp p
    → Adds (c ∷ []) p (wrap_if true f >>= λ g. put (c ∷ []) g)
put_mark c p f n big room w =
    let e : leb (length f.servicefp + 4) f.alloc ≡ true = ground (arith, room) in
    let g = record f { servicefp = f.servicefp ++ wrap_mark } in
    let size = length-append f.servicefp wrap_mark in
    let r = grow_if-room g (record { allocated = inr big; fits = omega (arith, size, room) }) in
    let same = ap length r.2 in
    rw e
      (put_char c p (grow_if g) n r.0 (omega (arith, r.1, same)) (Wrapped_of r.2 (Wrapped-mark w)))

wrap_cases :
    (b : Bool) (c : ℕ) (p : List ℕ) (f : Fingerprint)
    → c ≢ 10
    → 1024 ≤ f.alloc
    → length f.servicefp + 8 ≤ f.alloc
    → Wrapped f.servicefp p
    → Adds (c ∷ []) p (wrap_if b f >>= λ g. put (c ∷ []) g)
wrap_cases true c p f n big room w = put_mark c p f n big room w
wrap_cases false c p f n big room w = put_char c p f n big (omega (arith, room)) w

add_fp_char-Adds :
    (c : ℕ) (p : List ℕ) (f : Fingerprint)
    → c ≢ 10
    → HasRoom f
    → Wrapped f.servicefp p
    → Adds (c ∷ []) p (add_fp_char c f)
unfolding add_fp_char
add_fp_char-Adds c p f n h w =
    let r = grow_if-room f h in
    let same = ap length r.2 in
    wrap_cases (length f.servicefp % (wrap + 1) == wrap) c p (grow_if f) n r.0
      (omega (arith, r.1, same)) (Wrapped_of r.2 w)

pub Adds-bind :
    (s t p : List ℕ) (m : Option Fingerprint) (k : Fingerprint → Option Fingerprint)
    → Adds s p m
    → ((f : Fingerprint)
        → HasRoom f
        → length f.servicefp < f.alloc
        → Wrapped f.servicefp (p ++ s)
        → Adds t (p ++ s) (k f))
    → Adds (s ++ t) p (m >>= k)
Adds-bind s t p m k (Adds.adds {f} h l w) next = regroup (k f) (next f h l w)
  where
    regroup : (m : Option Fingerprint) → Adds t (p ++ s) m → Adds (s ++ t) p m
    regroup m (Adds.adds {f = g} h l w) =
        Adds.adds h l (subst (λ q. Wrapped g.servicefp q) (append_assoc p s t) w)

-- A text with no line feed, added where there is room for the byte behind it.
pub add_fp_string-Adds :
    (s p : List ℕ) (f : Fingerprint)
    → All (λ c. c ≢ 10) s
    → HasRoom f
    → length f.servicefp < f.alloc
    → Wrapped f.servicefp p
    → Adds s p (add_fp_string s f)
unfolding add_fp_string
add_fp_string-Adds [] p f n h l w =
    Adds.adds h l (subst (λ q. Wrapped f.servicefp q) (sym (append_nil p)) w)
add_fp_string-Adds (c ∷ s) p f n h l w =
    Adds-bind (c ∷ []) s p (add_fp_char c f) (add_fp_string s) (add_fp_char-Adds c p f n.0 h w)
      (λ g r m v. add_fp_string-Adds s (p ++ c ∷ []) g n.1 r m v)

-- The same for a text that is not empty, into a fingerprint that may have no allocation yet.
pub add_fp_string-Adds_first :
    (c : ℕ) (s p : List ℕ) (f : Fingerprint)
    → All (λ c. c ≢ 10) (c ∷ s)
    → HasRoom f
    → Wrapped f.servicefp p
    → Adds (c ∷ s) p (add_fp_string (c ∷ s) f)
unfolding add_fp_string
add_fp_string-Adds_first c s p f n h w =
    Adds-bind (c ∷ []) s p (add_fp_char c f) (add_fp_string s) (add_fp_char-Adds c p f n.0 h w)
      (λ g r m v. add_fp_string-Adds s (p ++ c ∷ []) g n.1 r m v)
