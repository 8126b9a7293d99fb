-- ===== src/Dns/Answer.antt =====
-- `dns_parse_answer`, `dns_parse_answer_all` and `dns_parse_ptr_answer` of handler.cpp, whose
-- passes over the questions and over the records are the same.
-- `inet_ntop` is the C library's, from the address family (4 or 6 here) and the bytes to the text,
-- or `none` when it fails.
use Prim.Native.String.{String}
use trinetra.Prelude.{
  ℕ, zero, suc, ◌+◌, ◌&&◌, List, [], ◌∷◌, Option, none, some, ltb, ◌==◌, if◌then◌else◌, length,
}
use trinetra.Dns.Reader.{Reader, done, ◌>>=◌, read_u16, read_bytes}
use trinetra.Dns.Names.{dns_skip_name, dns_decode_name}

-- The position behind the questions; `none` where the function gives up.
unfoldable pub skip_questions : ℕ → List ℕ → ℕ → Reader (Option ℕ)
skip_questions zero buf pos = done (some pos)
skip_questions (suc n) buf pos = do
  next ← dns_skip_name buf pos
  let rest = skip_questions n buf (next + 4)
  if ltb (length buf) (next + 4) then done none else rest

-- The fixed part of a resource record, and where its data begins.
pub record Record : Type 0 where
  pub rtype : ℕ
  pub rclass : ℕ
  pub rdlen : ℕ
  pub rdata : ℕ

unfoldable pub read_record : List ℕ → ℕ → Reader (Option Record)
unfolding read_u16
read_record buf pos = do
  name_end ← dns_skip_name buf pos
  if ltb (length buf) (name_end + 10) then done none else (do
    rtype ← read_u16 buf name_end
    rclass ← read_u16 buf (name_end + 2)
    rdlen ← read_u16 buf (name_end + 8)
    if ltb (length buf) (name_end + 10 + rdlen)
        then done none
        else done (
            some (record { rtype = rtype; rclass = rclass; rdlen = rdlen; rdata = name_end + 10 })))

-- The values that `visit` finds in the records, up to the first that is cut short.
unfoldable pub visit_records {ℓ} :
    {A : Type ℓ} → (Record → Reader (Option A)) → ℕ → List ℕ → ℕ → Reader (List A)
visit_records visit zero buf pos = done []
visit_records visit (suc n) buf pos = do
  found ← read_record buf pos
  elim found [
    | none ↦ done []
    | some r ↦ do
      value ← visit r
      rest ← visit_records visit n buf (r.rdata + r.rdlen)
      elim value [ none ↦ done rest | some a ↦ done (a ∷ rest) ]
  ]

-- The same pass, which returns at the first value.
unfoldable pub first_record {ℓ} :
    {A : Type ℓ} → (Record → Reader (Option A)) → ℕ → List ℕ → ℕ → Reader (Option A)
first_record visit zero buf pos = done none
first_record visit (suc n) buf pos = do
  found ← read_record buf pos
  elim found [
    | none ↦ done none
    | some r ↦ do
      value ← visit r
      elim value [ none ↦ first_record visit n buf (r.rdata + r.rdlen) | some a ↦ done (some a) ]
  ]

-- The header, the questions, and then a pass over the answers. `default` is the result for a
-- message that is too short, has no answer, or is cut short in its questions.
unfoldable pub parse_message {ℓ} :
    {A : Type ℓ} → A → (ℕ → List ℕ → ℕ → Reader A) → List ℕ → Reader A
unfolding read_u16 skip_questions
parse_message default pass buf = if ltb (length buf) 12 then done default else (do
  qdcount ← read_u16 buf 4
  ancount ← read_u16 buf 6
  if ancount == 0 then done default else (do
    behind ← skip_questions qdcount buf 12
    elim behind [ none ↦ done default | some pos ↦ pass ancount buf pos ]))

module _ (inet_ntop : ℕ → List ℕ → Option String) (buf : List ℕ) where
  -- The address in a record of the wanted type: A is 1 and AAAA is 28.
  unfoldable pub visit_address : ℕ → Record → Reader (Option String)
  visit_address want_type r =
      if r.rtype == want_type && r.rclass == 1
      then if want_type == 1 && r.rdlen == 4
        then (do bytes ← read_bytes buf r.rdata 4; done (inet_ntop 4 bytes))
        else if want_type == 28 && r.rdlen == 16
        then (do bytes ← read_bytes buf r.rdata 16; done (inet_ntop 6 bytes))
        else done none
      else done none

  -- `none` is the return value false.
  unfoldable pub dns_parse_answer : ℕ → Reader (Option String)
  dns_parse_answer want_type = parse_message none (first_record (visit_address want_type)) buf

  unfoldable pub dns_parse_answer_all : ℕ → Reader (List String)
  dns_parse_answer_all want_type = parse_message [] (visit_records (visit_address want_type)) buf

-- The name in a PTR record; an empty one is passed over.
unfoldable pub visit_ptr : List ℕ → Record → Reader (Option (List ℕ))
visit_ptr buf r =
    if r.rtype == 12 && r.rclass == 1
    then (do
      (_, name) ← dns_decode_name buf r.rdata
      if ltb 0 (length name) then done (some name) else done none)
    else done none

unfoldable pub dns_parse_ptr_answer : List ℕ → Reader (Option (List ℕ))
dns_parse_ptr_answer buf = parse_message none (first_record (visit_ptr buf)) buf
