-- ===== src/Dns/First.antt =====
-- The two passes of handler.cpp over the addresses of a DNS answer, against each other.
use Prim.Native.String.{String}
use trinetra.Prelude.{
  ℕ, zero, suc, ◌+◌, ◌≡◌, refl, ◌∙◌, Bool, true, false, ltb, ◌==◌, length, if◌then◌else◌, List, [],
  ◌∷◌, Option, none, some, get_elem?,
}
use trinetra.Dns.Reader.{Reader, done, fault, spent, ◌>>=◌, read_u16, Ends}
use trinetra.Dns.Answer.{
  Record, skip_questions, read_record, visit_records, first_record, parse_message, visit_address,
  dns_parse_answer, dns_parse_answer_all,
}
use trinetra.Dns.Safety.{visit_records-Ends, visit_address-Ends}

bind_then :
    {A B C : Type 0} (m : Reader A) (f : A → Reader C) (g : A → Reader B) (k : B → Reader C)
    → ((a : A) → f a ≡ (g a >>= k))
    → (m >>= f) ≡ ((m >>= g) >>= k)
bind_then (done a) f g k h = h a
bind_then fault f g k h = refl
bind_then spent f g k h = refl

if_then :
    {A B : Type 0} (b : Bool) (x y : Reader B) (x' y' : Reader A) (k : A → Reader B)
    → x ≡ (x' >>= k)
    → y ≡ (y' >>= k)
    → (if b then x else y) ≡ ((if b then x' else y') >>= k)
if_then true x y x' y' k h i = h
if_then false x y x' y' k h i = i

-- The first element, as the result of a pass.
abbrev first {ℓ} : {A : Type ℓ} → List A → Reader (Option A)
first xs = done (get_elem? xs 0)

first-cons :
    {A : Type 0} (a : A) (m : Reader (List A))
    → Ends (λ (_ : List A). Unit {0}) m
    → done (some a) ≡ ((m >>= (λ rest. done (a ∷ rest))) >>= first)
first-cons a (done xs) h = refl
first-cons a fault h = elim h [ ]
first-cons a spent h = elim h [ ]

bind_same :
    {A : Type 0} (m : Reader (List A)) → (m >>= first) ≡ ((m >>= (λ rest. done rest)) >>= first)
bind_same (done xs) = refl
bind_same fault = refl
bind_same spent = refl

first_record-visit_records :
    {A : Type 0} (buf : List ℕ) (visit : Record → Reader (Option A))
    → ((n pos : ℕ) → Ends (λ (_ : List A). Unit {0}) (visit_records visit n buf pos))
    → (n pos : ℕ) → first_record visit n buf pos ≡ (visit_records visit n buf pos >>= first)
unfolding first_record visit_records
first_record-visit_records buf visit h zero pos = refl
first_record-visit_records buf visit h (suc n) pos =
    bind_then (read_record buf pos) _ _ first (elim [
      | none ↦ refl
      | some r ↦ bind_then (visit r) _ _ first (elim [
        | none ↦
            first_record-visit_records buf visit h n (r.rdata + r.rdlen)
            ∙ bind_same (visit_records visit n buf (r.rdata + r.rdlen))
        | some a ↦
            first-cons a (visit_records visit n buf (r.rdata + r.rdlen)) (h n (r.rdata + r.rdlen))
      ])
    ])

parse_message-then :
    {A B : Type 0} (x : A) (y : B) (p : ℕ → List ℕ → ℕ → Reader A) (q : ℕ → List ℕ → ℕ → Reader B)
    (k : B → Reader A) (buf : List ℕ)
    → done x ≡ k y
    → ((n pos : ℕ) → p n buf pos ≡ (q n buf pos >>= k))
    → parse_message x p buf ≡ (parse_message y q buf >>= k)
unfolding parse_message
parse_message-then x y p q k buf start step = if_then (ltb (length buf) 12) _ _ _ _ k start (
    bind_then (read_u16 buf 4) _ _ k λ qdcount. bind_then (read_u16 buf 6) _ _ k λ ancount.
      if_then (ancount == 0) _ _ _ _ k start (
        bind_then (skip_questions qdcount buf 12) _ _ k
          (elim [ none ↦ start | some pos ↦ step ancount pos ])))

-- For any message: `dns_parse_answer` gives the first of the addresses that
-- `dns_parse_answer_all` gives, and none when there is none.
pub dns_parse_answer-first :
    (inet_ntop : ℕ → List ℕ → Option String) (buf : List ℕ) (want_type : ℕ)
    → dns_parse_answer inet_ntop buf want_type
      ≡ (dns_parse_answer_all inet_ntop buf want_type >>= (λ ips. done (get_elem? ips 0)))
unfolding dns_parse_answer dns_parse_answer_all
dns_parse_answer-first inet_ntop buf want_type = parse_message-then none [] _ _ first buf refl (
    first_record-visit_records buf (visit_address inet_ntop buf want_type) (
      visit_records-Ends buf (visit_address inet_ntop buf want_type)
        (visit_address-Ends inet_ntop buf want_type)))
