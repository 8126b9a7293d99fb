-- ===== src/Probe/Recorded.antt =====
-- A response can be read back from the fingerprint that probe.cpp makes of it.
use trinetra.Prelude.{
  ℕ, zero, suc, ◌+◌, ◌/◌, ◌%◌, ◌≤◌, ◌<◌, ◌≡◌, ◌≢◌, sym, ap, subst, ◌⊎◌, inl, inr, Bool, true, false,
  List, [], ◌∷◌, ◌++◌, Option, none, some, arith, ltb, lt→ltb, ◌==◌, if◌then◌else◌, length, take,
  All, All-append, length-append, refl, append_nil, Bool-cases,
}
use trinetra.Probe.Text.{bytes_of, hex_digit}
use trinetra.Probe.Escape.{cstring_unescape}
use trinetra.Probe.Fingerprint.{
  Fingerprint, escapes, joined, digits, number, header_parts, FingerprintInfo, header_of, record_of,
  add_fp_string, with_header, terminated, write_response, add_to_fingerprint,
}
use trinetra.Probe.Wrap.{
  Wrapped, HasRoom, Adds, Adds-bind, add_fp_string-Adds, add_fp_string-Adds_first,
}
use trinetra.Probe.RoundTrip.{
  quoted, quoted-escapes, hex_digit-ne, unescape_loop-escapes, escapes_plain,
}

abbrev pub InLine : List ℕ → Type 0
InLine = All (λ c. c ≢ 10)

digits-InLine :
    (fuel base n : ℕ) (behind : List ℕ) → InLine behind → InLine (digits fuel base n behind)
unfolding digits
digits-InLine zero base n behind h = h
digits-InLine (suc fuel) base n behind h = elim (Bool-cases (ltb n base)) [
  | inl e ↦ rw e (hex_digit-ne b'A' n (omega arith), h)
  | inr e ↦ rw e (
      digits-InLine fuel base (n / base) (hex_digit b'A' (n % base) ∷ behind)
        (hex_digit-ne b'A' (n % base) (omega arith), h))
]

InLine-append : (s t : List ℕ) → InLine s → InLine t → InLine (s ++ t)
InLine-append s t h k = All-append (λ c. c ≢ 10) s t h k

InLine-take : (n : ℕ) (s : List ℕ) → InLine s → InLine (take n s)
InLine-take zero s h = tt
InLine-take (suc n) [] h = tt
InLine-take (suc n) (c ∷ s) h = (h.0, InLine-take n s h.1)

InLine-if : (b : Bool) (s t : List ℕ) → InLine s → InLine t → InLine (if b then s else t)
InLine-if true s t h k = h
InLine-if false s t h k = k

number-InLine : (base n : ℕ) → InLine (number base n)
number-InLine base n = digits-InLine 10 base n [] tt

joined-InLine : (parts : List (List ℕ)) → All InLine parts → InLine (joined parts)
unfolding joined
joined-InLine [] h = tt
joined-InLine (s ∷ parts) h = InLine-append s (joined parts) h.0 (joined-InLine parts h.1)

header_parts-InLine : (i : FingerprintInfo) → All InLine (header_parts i)
header_parts-InLine i = (
  number-InLine 10 i.portno,
  (
    omega arith,
    (
      InLine-if i.is_tcp (bytes_of "TCP") (bytes_of "UDP") (omega arith) (omega arith),
      (
        omega arith,
        (
          number-InLine 10 i.version_intensity,
          (
            omega arith,
            (
              number-InLine 10 i.month,
              (
                omega arith,
                (
                  number-InLine 10 i.day,
                  (
                    omega arith,
                    (
                      number-InLine 16 i.time,
                      (
                        omega arith,
                        (InLine-if i.is_ssl (bytes_of "%T=SSL") [] (omega arith) tt, tt),
                      ),
                    ),
                  ),
                ),
              ),
            ),
          ),
        ),
      ),
    ),
  ),
)

record_of-InLine : (name : List ℕ) (n : ℕ) → InLine name → InLine (record_of name n)
unfolding record_of
record_of-InLine name n h =
    let parts = bytes_of "%r(" ∷ name ∷ bytes_of "," ∷ number 16 n ∷ bytes_of ",\"" ∷ [] in
    InLine-take 255 (joined parts) (
      joined-InLine parts
        (omega arith, (h, (omega arith, (number-InLine 16 n, (omega arith, tt))))))

-- A fingerprint as it is between two calls, and its text without the marks.
pub record IsKept (f : Fingerprint) (p : List ℕ) : Type 0 where
  pub room : HasRoom f
  pub wrapped : Wrapped f.servicefp p
  pub ended : (f.servicefp ≡ []) ⊎ (length f.servicefp < f.alloc)

header-Adds :
    (info : FingerprintInfo) (f : Fingerprint) (p : List ℕ)
    → HasRoom f
    → Wrapped f.servicefp p
    → Adds (header_of info) p (add_fp_string (header_of info) f)
unfolding header_of
header-Adds info f p room w =
    let behind = joined-InLine (header_parts info) (header_parts-InLine info) in
    let plain =
      InLine-append (bytes_of "SF-Port") (joined (header_parts info)) (omega arith) behind in
    add_fp_string-Adds_first b'S' (bytes_of "F-Port" ++ joined (header_parts info)) p f plain room w

-- What comes before the first record.
abbrev pub header_if : Bool → FingerprintInfo → List ℕ
header_if b info = if b then header_of info else []

with_header-Adds :
    (info : FingerprintInfo) (f : Fingerprint) (p : List ℕ)
    → IsKept f p
    → Adds (header_if (length f.servicefp == 0) info) p (with_header info f)
with_header-Adds info f p h = elim (Bool-cases (length f.servicefp == 0)) [
  | inl e ↦ rw e (header-Adds info f p h.room h.wrapped)
  | inr e ↦ rw e (kept h.ended e)
]
  where
    kept :
        (f.servicefp ≡ []) ⊎ (length f.servicefp < f.alloc)
        → (length f.servicefp == 0) ≡ false
        → Adds [] p (some f)
    kept (inl empty) e = let size = ap length empty in absurd (ground (arith, e, size))
    kept (inr l) e =
        Adds.adds h.room l (subst (λ q. Wrapped f.servicefp q) (sym (append_nil p)) h.wrapped)

terminated-Adds :
    (q : List ℕ) (f : Fingerprint)
    → HasRoom f
    → length f.servicefp < f.alloc
    → Wrapped f.servicefp q
    → Adds [] q (terminated f)
terminated-Adds q f h l w =
    let e = lt→ltb (length f.servicefp) f.alloc l in
    rw e (Adds.adds h l (subst (λ r. Wrapped f.servicefp r) (sym (append_nil q)) w))

-- The beginning of a record, up to the quote.
abbrev pub opening : List ℕ → ℕ → List ℕ
opening name n =
    bytes_of "%r(" ++ (name ++ (bytes_of "," ++ (number 16 n ++ (bytes_of ",\"" ++ []))))

-- What a fingerprint has after a response was added: an introduction, the name of the probe and the
-- length of the response, and between quotes the response's bytes, as many as fit, in a form that
-- `cstring_unescape` reads and that has no quote of its own.
abbrev pub Recorded : List ℕ → List ℕ → List ℕ → List ℕ → Option Fingerprint → Type 0
Recorded intro name resp p none = ⊥
Recorded intro name resp p (some f) =
    (body : List ℕ) × IsKept f
      (p ++ (intro ++ (opening name (length resp) ++ (body ++ b'"' ∷ b')' ∷ []))))
    × (quoted (body ++ b'"' ∷ b')' ∷ []) ≡ some (body, b')' ∷ []))
    × (cstring_unescape body ≡ some (take 900 resp))

digits-length :
    (fuel base n : ℕ) (behind : List ℕ) → length (digits fuel base n behind) ≤ fuel + length behind
unfolding digits
digits-length zero base n behind = omega arith
digits-length (suc fuel) base n behind = elim (Bool-cases (ltb n base)) [
  | inl e ↦ rw e (omega arith)
  | inr e ↦
      let rest = digits-length fuel base (n / base) (hex_digit b'A' (n % base) ∷ behind) in
      rw e (omega (arith, rest))
]

take-short : (n : ℕ) (s : List ℕ) → length s ≤ n → take n s ≡ s
take-short zero [] h = refl
take-short zero (c ∷ s) h = absurd (omega (arith, h))
take-short (suc n) [] h = refl
take-short (suc n) (c ∷ s) h = ap (λ t. c ∷ t) (take-short n s (omega (arith, h)))

-- A name of up to 239 bytes leaves room for the quote in the 255 of `rec`.
record_of-opening : (name : List ℕ) (n : ℕ) → length name ≤ 239 → record_of name n ≡ opening name n
unfolding record_of joined
record_of-opening name n h = take-short 255 (opening name n) (
    omega (
      arith,
      h,
      digits-length 10 16 n [],
      length-append name (bytes_of "," ++ (number 16 n ++ (bytes_of ",\"" ++ []))),
      length-append (number 16 n) (bytes_of ",\"" ++ []),
    ))

take-Bytes : (n : ℕ) (s : List ℕ) → All (λ c. c < 256) s → All (λ c. c < 256) (take n s)
take-Bytes zero s h = tt
take-Bytes (suc n) [] h = tt
take-Bytes (suc n) (c ∷ s) h = (h.0, take-Bytes n s h.1)

unescape-escapes : (s : List ℕ) → All (λ c. c < 256) s → cstring_unescape (escapes s) ≡ some s
unfolding cstring_unescape
unescape-escapes s h = unescape_loop-escapes (length (escapes s)) s h (omega arith)

Adds-Recorded :
    (intro name resp p : List ℕ) (m : Option Fingerprint)
    → All (λ c. c < 256) resp
    → Adds
        (intro ++ (opening name (length resp) ++ (escapes (take 900 resp) ++ (b'"' ∷ b')' ∷ []))))
        p
        m
    → Recorded intro name resp p m
Adds-Recorded intro name resp p none h a = elim a [ ]
Adds-Recorded intro name resp p (some f) h (Adds.adds room l w) = (
  escapes (take 900 resp),
  record { room = room; wrapped = w; ended = inr l },
  quoted-escapes (take 900 resp) (b')' ∷ []) (take-Bytes 900 resp h),
  unescape-escapes (take 900 resp) (take-Bytes 900 resp h),
)

-- The writes of a response behind a fingerprint, one after the other.
writes-Adds :
    (info : FingerprintInfo) (name resp p : List ℕ) (f : Fingerprint)
    → IsKept f p
    → InLine name
    → All (λ c. c < 256) resp
    → Adds
        (header_if (length f.servicefp == 0) info
          ++ (record_of name (length resp) ++ (escapes (take 900 resp) ++ (b'"' ∷ b')' ∷ []))))
        p
        (write_response info name resp f)
writes-Adds info name resp p f kept name_plain h =
    let hd = header_if (length f.servicefp == 0) info in
    let rec = record_of name (length resp) in
    let body = escapes (take 900 resp) in
    let plain = escapes_plain (take 900 resp) (take-Bytes 900 resp h) in
    (Adds-bind hd (rec ++ (body ++ (b'"' ∷ b')' ∷ []))) p (with_header info f) _
      (with_header-Adds info f p kept)
      λ f1 h1 l1 w1.
        Adds-bind rec (body ++ (b'"' ∷ b')' ∷ [])) (p ++ hd) (add_fp_string rec f1) _
          (add_fp_string-Adds rec (p ++ hd) f1 (record_of-InLine name (length resp) name_plain) h1
            l1 w1)
          λ f2 h2 l2 w2.
            Adds-bind body (b'"' ∷ b')' ∷ []) ((p ++ hd) ++ rec) (add_fp_string body f2) _
              (add_fp_string-Adds body ((p ++ hd) ++ rec) f2 plain h2 l2 w2)
              λ f3 h3 l3 w3.
                Adds-bind (b'"' ∷ b')' ∷ []) [] (((p ++ hd) ++ rec) ++ body)
                  (add_fp_string (b'"' ∷ b')' ∷ []) f3) terminated
                  (add_fp_string-Adds (b'"' ∷ b')' ∷ []) (((p ++ hd) ++ rec) ++ body) f3
                    (omega arith) h3 l3 w3)
                  (λ f4 h4 l4 w4. terminated-Adds _ f4 h4 l4 w4))

-- A fingerprint that is not yet too long, a name of a probe in one line and of at most 239 bytes,
-- and a response of bytes. No write goes outside of the allocation and the text that was there is
-- kept. Behind it is, without the marks of the lines, the header of a service if there was no text,
-- then a record with the name, the length of the response and a quote. From that quote on, up to
-- the first quote without a backslash, is a text that is unescaped to the response, up to its first
-- 900 bytes, and behind it only the parenthesis that closes the record.
pub add_to_fingerprint-Recorded :
    (info : FingerprintInfo) (name resp p : List ℕ) (f : Fingerprint)
    → IsKept f p
    → length f.servicefp ≤ 2200
    → InLine name
    → length name ≤ 239
    → All (λ c. c < 256) resp
    → Recorded
        (header_if (length f.servicefp == 0) info)
        name
        resp
        p
        (add_to_fingerprint info name resp f)
unfolding add_to_fingerprint
add_to_fingerprint-Recorded info name resp p f kept short name_plain name_short h =
    let e : ltb 2200 (length f.servicefp) ≡ false = ground (arith, short) in
    let intro = header_if (length f.servicefp == 0) info in
    rw e (
      Adds-Recorded intro name resp p (write_response info name resp f) h (
        subst
          (λ t.
            Adds (intro ++ (t ++ (escapes (take 900 resp) ++ (b'"' ∷ b')' ∷ [])))) p
              (write_response info name resp f))
          (record_of-opening name (length resp) name_short)
          (writes-Adds info name resp p f kept name_plain h)))
