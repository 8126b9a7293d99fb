-- ===== src/Probe/Fingerprint.antt =====
-- The fingerprint of a service in probe.cpp: `addFpChar`, `addFpString` and `addToFingerprint`.
use trinetra.Prelude.{
  ℕ, zero, suc, ◌+◌, ◌-◌, ◌*◌, ◌/◌, ◌%◌, Bool, true, false, List, [], ◌∷◌, ◌++◌, Option, none, some,
  ltb, leb, ◌==◌, if◌then◌else◌, length, take,
}
use trinetra.Probe.Text.{bytes_of, isdigit, isalnum, ispunct, has_char, hex_digit}

-- `servicefp_` up to `servicefplen_`, and `servicefpalloc_`.
pub record Fingerprint : Type 0 where
  pub servicefp : List ℕ
  pub alloc : ℕ

infixl 5 ◌>>=◌
abbrev pub ◌>>=◌ {ℓ κ} : {A : Type ℓ} {B : Type κ} → Option A → (A → Option B) → Option B
none >>= f = none
some a >>= f = f a

abbrev pub wrap_mark : List ℕ
wrap_mark = 10 ∷ b'S' ∷ b'F' ∷ b':' ∷ []

abbrev pub wrap : ℕ
wrap = 74

abbrev pub grow_if : Fingerprint → Fingerprint
grow_if f =
    if ltb (f.alloc - length f.servicefp) 8
    then record f { alloc = if f.alloc == 0 then 1024 else f.alloc * 2 }
    else f

-- A write behind the allocation is a fault.
abbrev pub put : List ℕ → Fingerprint → Option Fingerprint
put bytes f =
    if leb (length f.servicefp + length bytes) f.alloc
    then some (record f { servicefp = f.servicefp ++ bytes })
    else none

abbrev pub wrap_if : Bool → Fingerprint → Option Fingerprint
wrap_if false f = some f
wrap_if true f = do f' ← put wrap_mark f; some (grow_if f')

unfoldable pub add_fp_char : ℕ → Fingerprint → Option Fingerprint
add_fp_char c f = do
  f' ← wrap_if (length f.servicefp % (wrap + 1) == wrap) (grow_if f)
  put (c ∷ []) f'

unfoldable pub add_fp_string : List ℕ → Fingerprint → Option Fingerprint
unfolding add_fp_char
add_fp_string [] f = some f
add_fp_string (c ∷ s) f = do f' ← add_fp_char c f; add_fp_string s f'

-- `isdigit(resp[i + 1])`, for a byte behind that is used.
abbrev pub digit_follows : List ℕ → Bool
digit_follows [] = false
digit_follows (c ∷ s) = isdigit c

abbrev pub special : List ℕ
special =
    b'\\' ∷ b'?' ∷ b'"' ∷ b'[' ∷ b']' ∷ b'(' ∷ b')' ∷ b'.' ∷ b'*' ∷ b'+' ∷ b'$' ∷ b'^' ∷ b'|' ∷ []

abbrev pub hex_escape_of : ℕ → List ℕ
hex_escape_of c = b'\\' ∷ b'x' ∷ hex_digit b'a' (c / 16) ∷ hex_digit b'a' (c % 16) ∷ []

abbrev pub zero_escape : Bool → List ℕ
zero_escape true = b'\\' ∷ b'x' ∷ b'0' ∷ b'0' ∷ []
zero_escape false = b'\\' ∷ b'0' ∷ []

-- What is added for a byte, before the bytes that follow it.
unfoldable pub escape_of : ℕ → List ℕ → List ℕ
unfolding has_char
escape_of c behind =
    if isalnum c
    then c ∷ []
    else if c == 0
    then zero_escape (digit_follows behind)
    else if has_char c special
    then b'\\' ∷ c ∷ []
    else if ispunct c
    then c ∷ []
    else if c == 13
    then b'\\' ∷ b'r' ∷ []
    else if c == 10
    then b'\\' ∷ b'n' ∷ []
    else if c == 9
    then b'\\' ∷ b't' ∷ []
    else hex_escape_of c

unfoldable pub escapes : List ℕ → List ℕ
unfolding escape_of
escapes [] = []
escapes (c ∷ s) = escape_of c s ++ escapes s

-- The numbers of the header and of a record as `snprintf` writes them.
unfoldable pub digits : ℕ → ℕ → ℕ → List ℕ → List ℕ
digits zero base n behind = behind
digits (suc fuel) base n behind =
    let rest = digits fuel base (n / base) (hex_digit b'A' (n % base) ∷ behind) in
    if ltb n base then hex_digit b'A' n ∷ behind else rest

-- A 32-bit number has 10 digits at most.
abbrev pub number : ℕ → ℕ → List ℕ
number base n = digits 10 base n []

-- What `addToFingerprint` reads of a service and of the clock.
pub record FingerprintInfo : Type 0 where
  pub portno : ℕ
  pub is_tcp : Bool
  pub is_ssl : Bool
  pub version_intensity : ℕ
  pub month : ℕ
  pub day : ℕ
  pub time : ℕ

unfoldable pub joined : List (List ℕ) → List ℕ
joined [] = []
joined (s ∷ parts) = s ++ joined parts

abbrev pub header_parts : FingerprintInfo → List (List ℕ)
header_parts i =
    number 10 i.portno
    ∷ bytes_of "-"
    ∷ (if i.is_tcp then bytes_of "TCP" else bytes_of "UDP")
    ∷ bytes_of ":V=custom%I="
    ∷ number 10 i.version_intensity
    ∷ bytes_of "%D="
    ∷ number 10 i.month
    ∷ bytes_of "/"
    ∷ number 10 i.day
    ∷ bytes_of "%Time="
    ∷ number 16 i.time
    ∷ bytes_of "%P=custom"
    ∷ (if i.is_ssl then bytes_of "%T=SSL" else [])
    ∷ []

unfoldable pub header_of : FingerprintInfo → List ℕ
unfolding joined
header_of i = bytes_of "SF-Port" ++ joined (header_parts i)

-- `rec` holds 255 bytes.
unfoldable pub record_of : List ℕ → ℕ → List ℕ
unfolding joined
record_of probe_name resplen =
    take 255 (
      joined (bytes_of "%r(" ∷ probe_name ∷ bytes_of "," ∷ number 16 resplen ∷ bytes_of ",\"" ∷ []))

-- The byte 0 behind the text is written in the allocation too.
abbrev pub terminated : Fingerprint → Option Fingerprint
terminated f = if ltb (length f.servicefp) f.alloc then some f else none

abbrev pub with_header : FingerprintInfo → Fingerprint → Option Fingerprint
with_header info f = if length f.servicefp == 0 then add_fp_string (header_of info) f else some f

abbrev pub write_response : FingerprintInfo → List ℕ → List ℕ → Fingerprint → Option Fingerprint
write_response info probe_name resp f = do
  f1 ← with_header info f
  f2 ← add_fp_string (record_of probe_name (length resp)) f1
  f3 ← add_fp_string (escapes (take 900 resp)) f2
  f4 ← add_fp_string (b'"' ∷ b')' ∷ []) f3
  terminated f4

unfoldable pub add_to_fingerprint :
    FingerprintInfo → List ℕ → List ℕ → Fingerprint → Option Fingerprint
unfolding header_of record_of escapes add_fp_string
add_to_fingerprint info probe_name resp f =
    if ltb 2200 (length f.servicefp) then some f else write_response info probe_name resp f
