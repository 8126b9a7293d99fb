-- ===== src/Dns/Safety.antt =====
-- The parsers of DNS answers in handler.cpp read inside of their buffer, and end.
use Prim.Native.String.{String}
use trinetra.Prelude.{
  ℕ, zero, suc, ◌+◌, ◌≤◌, ◌&&◌, List, [], ◌∷◌, Option, none, some, arith, ltb, ◌==◌, length,
  ltb-false,
}
use trinetra.Dns.Reader.{
  Reader, done, ◌>>=◌, read_u16, read_bytes, Ends, ends, Ends-bind, Ends-if, read_u16-Ends,
  read_bytes-Ends,
}
use trinetra.Dns.Names.{dns_skip_name, dns_decode_name}
use trinetra.Dns.NameSafety.{dns_skip_name-Ends, dns_decode_name-Ends}
use trinetra.Dns.Answer.{
  Record, skip_questions, read_record, visit_records, first_record, parse_message, visit_address,
  visit_ptr, dns_parse_answer, dns_parse_answer_all, dns_parse_ptr_answer,
}

skip_questions-Ends :
    (n : ℕ) (buf : List ℕ) (pos : ℕ) → Ends (λ (_ : Option ℕ). Unit {0}) (skip_questions n buf pos)
unfolding skip_questions
skip_questions-Ends zero buf pos = ends tt
skip_questions-Ends (suc n) buf pos =
    Ends-bind (λ next. pos ≤ next) (λ (_ : Option ℕ). Unit {0}) (dns_skip_name buf pos) _
      (dns_skip_name-Ends buf pos)
      λ next _.
        Ends-if (λ (_ : Option ℕ). Unit {0}) (ltb (length buf) (next + 4)) _ _ (λ _. ends tt)
          (λ _. skip_questions-Ends n buf (next + 4))

-- A record's data lies in the buffer, behind the place where the record began.
abbrev Fits : List ℕ → ℕ → Option Record → Type 0
Fits buf pos none = Unit
Fits buf pos (some r) = (pos + 10 ≤ r.rdata) × (r.rdata + r.rdlen ≤ length buf)

read_record-Ends : (buf : List ℕ) (pos : ℕ) → Ends (Fits buf pos) (read_record buf pos)
unfolding read_record
read_record-Ends buf pos =
    Ends-bind (λ next. pos ≤ next) (Fits buf pos) (dns_skip_name buf pos) _
      (dns_skip_name-Ends buf pos)
      λ next after.
        Ends-if (Fits buf pos) (ltb (length buf) (next + 10)) _ _ (λ _. ends tt)
          λ e.
            let room = ltb-false _ _ e in
            Ends-bind (λ _. Unit {0}) (Fits buf pos) (read_u16 buf next) _
              (read_u16-Ends buf next (omega arith))
              λ rtype _.
                Ends-bind (λ _. Unit {0}) (Fits buf pos) (read_u16 buf (next + 2)) _
                  (read_u16-Ends buf (next + 2) (omega arith))
                  λ rclass _.
                    Ends-bind (λ _. Unit {0}) (Fits buf pos) (read_u16 buf (next + 8)) _
                      (read_u16-Ends buf (next + 8) (omega arith))
                      λ rdlen _.
                        Ends-if (Fits buf pos) (ltb (length buf) (next + 10 + rdlen)) _ _
                          (λ _. ends tt) (λ f. ends (omega arith, ltb-false _ _ f))

module _ {A : Type 0} (buf : List ℕ) (visit : Record → Reader (Option A))
    (visits : (r : Record)
      → r.rdata + r.rdlen ≤ length buf
      → Ends (λ (_ : Option A). Unit {0}) (visit r)) where
  pub visit_records-Ends :
      (n pos : ℕ) → Ends (λ (_ : List A). Unit {0}) (visit_records visit n buf pos)
  unfolding visit_records
  visit_records-Ends zero pos = ends tt
  visit_records-Ends (suc n) pos =
      Ends-bind (Fits buf pos) (λ (_ : List A). Unit {0}) (read_record buf pos) _
        (read_record-Ends buf pos)
        (elim [
          | none ↦ λ _. ends tt
          | some r ↦ λ fits.
              Ends-bind (λ (_ : Option A). Unit {0}) (λ (_ : List A). Unit {0}) (visit r) _
                (visits r fits.1)
                λ value _.
                  Ends-bind (λ (_ : List A). Unit {0}) (λ (_ : List A). Unit {0})
                    (visit_records visit n buf (r.rdata + r.rdlen)) _
                    (visit_records-Ends n (r.rdata + r.rdlen))
                    λ rest _.
                      (elim value
                        as (λ (v : Option A).
                          Ends (λ (_ : List A). Unit {0})
                            (elim v [ none ↦ done rest | some a ↦ done (a ∷ rest) ])) [
                              | none ↦ ends tt
                              | some a ↦ ends tt
                            ])
        ])

  first_record-Ends : (n pos : ℕ) → Ends (λ (_ : Option A). Unit {0}) (first_record visit n buf pos)
  unfolding first_record
  first_record-Ends zero pos = ends tt
  first_record-Ends (suc n) pos =
      Ends-bind (Fits buf pos) (λ (_ : Option A). Unit {0}) (read_record buf pos) _
        (read_record-Ends buf pos)
        (elim [
          | none ↦ λ _. ends tt
          | some r ↦ λ fits.
              Ends-bind (λ (_ : Option A). Unit {0}) (λ (_ : Option A). Unit {0}) (visit r) _
                (visits r fits.1)
                λ value _.
                  (elim value
                    as (λ (v : Option A).
                      Ends (λ (_ : Option A). Unit {0})
                        (elim v [
                          | none ↦ first_record visit n buf (r.rdata + r.rdlen)
                          | some a ↦ done (some a)
                        ])) [ none ↦ first_record-Ends n (r.rdata + r.rdlen) | some a ↦ ends tt ])
        ])

parse_message-Ends :
    {A : Type 0} (default : A) (pass : ℕ → List ℕ → ℕ → Reader A) (buf : List ℕ)
    → ((n pos : ℕ) → Ends (λ (_ : A). Unit {0}) (pass n buf pos))
    → Ends (λ (_ : A). Unit {0}) (parse_message default pass buf)
unfolding parse_message
parse_message-Ends {A} default pass buf passes =
    Ends-if Any (ltb (length buf) 12) _ _ (λ _. ends tt)
      λ e.
        let room = ltb-false _ _ e in
        Ends-bind (λ _. Unit {0}) Any (read_u16 buf 4) _ (read_u16-Ends buf 4 (omega arith))
          λ qdcount _.
            Ends-bind (λ _. Unit {0}) Any (read_u16 buf 6) _ (read_u16-Ends buf 6 (omega arith))
              λ ancount _.
                Ends-if Any (ancount == 0) _ _ (λ _. ends tt)
                  λ _.
                    Ends-bind (λ (_ : Option ℕ). Unit {0}) Any (skip_questions qdcount buf 12) _
                      (skip_questions-Ends qdcount buf 12)
                      (elim [ none ↦ λ _. ends tt | some pos ↦ λ _. passes ancount pos ])
  where
    Any : A → Type 0
    Any _ = Unit {0}

pub visit_address-Ends :
    (inet_ntop : ℕ → List ℕ → Option String) (buf : List ℕ) (want_type : ℕ) (r : Record)
    → r.rdata + r.rdlen ≤ length buf
    → Ends (λ (_ : Option String). Unit {0}) (visit_address inet_ntop buf want_type r)
unfolding visit_address
visit_address-Ends inet_ntop buf want_type r fits =
    Ends-if Any (r.rtype == want_type && r.rclass == 1) _ _
      (λ _.
        Ends-if Any (want_type == 1 && r.rdlen == 4) _ _
          (λ e. address 4 4 (read_bytes-Ends buf r.rdata 4 ground arith))
          (λ _.
            Ends-if Any (want_type == 28 && r.rdlen == 16) _ _
              (λ e. address 6 16 (read_bytes-Ends buf r.rdata 16 ground arith)) (λ _. ends tt)))
      (λ _. ends tt)
  where
    Any : Option String → Type 0
    Any _ = Unit {0}

    address :
        (family n : ℕ)
        → Ends (λ (_ : List ℕ). Unit {0}) (read_bytes buf r.rdata n)
        → Ends Any (read_bytes buf r.rdata n >>= (λ bytes. done (inet_ntop family bytes)))
    address family n h =
        Ends-bind (λ _. Unit {0}) Any (read_bytes buf r.rdata n) _ h (λ _ _. ends tt)

visit_ptr-Ends :
    (buf : List ℕ) (r : Record) → Ends (λ (_ : Option (List ℕ)). Unit {0}) (visit_ptr buf r)
unfolding visit_ptr
visit_ptr-Ends buf r =
    Ends-if Any (r.rtype == 12 && r.rclass == 1) _ _
      (λ _.
        Ends-bind (λ _. Unit {0}) Any (dns_decode_name buf r.rdata) _
          (dns_decode_name-Ends buf r.rdata)
          λ found _. Ends-if Any (ltb 0 (length found.1)) _ _ (λ _. ends tt) (λ _. ends tt))
      (λ _. ends tt)
  where
    Any : Option (List ℕ) → Type 0
    Any _ = Unit {0}

-- Any bytes and any wanted type: the three parsers of a DNS answer read inside of the buffer and
-- come to an end, whatever lengths, counts and compression pointers the bytes hold.
pub dns_parsers-Ends :
    (inet_ntop : ℕ → List ℕ → Option String) (buf : List ℕ) (want_type : ℕ)
    → Ends (λ (_ : Option String). Unit {0}) (dns_parse_answer inet_ntop buf want_type)
      × Ends (λ (_ : List String). Unit {0}) (dns_parse_answer_all inet_ntop buf want_type)
      × Ends (λ (_ : Option (List ℕ)). Unit {0}) (dns_parse_ptr_answer buf)
unfolding dns_parse_answer dns_parse_answer_all dns_parse_ptr_answer
dns_parsers-Ends inet_ntop buf want_type = (
  parse_message-Ends none (first_record (visit_address inet_ntop buf want_type)) buf (
      first_record-Ends buf (visit_address inet_ntop buf want_type)
        (visit_address-Ends inet_ntop buf want_type)),
  parse_message-Ends [] (visit_records (visit_address inet_ntop buf want_type)) buf (
      visit_records-Ends buf (visit_address inet_ntop buf want_type)
        (visit_address-Ends inet_ntop buf want_type)),
  parse_message-Ends none (first_record (visit_ptr buf)) buf
      (first_record-Ends buf (visit_ptr buf) (λ r _. visit_ptr-Ends buf r)),
)
