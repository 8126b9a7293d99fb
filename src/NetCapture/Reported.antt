-- ===== src/NetCapture/Reported.antt =====
-- Facts about the table of reported keys that `Capture::dedupe_and_mark` searches.
use trinetra.Prelude.{
  ℕ, ◌≡◌, refl, sym, ap, ◌∙◌, ◌↔◌, inl, inr, Bool, true, false, List, [], ◌∷◌, Option, none, some,
  arith, leb, All, Updated, update_first, update_first-Updated, update_first-none, Bool-cases,
  Option-cases, map_some,
}
use trinetra.NetCapture.Types.{
  Capture, Finding, Flow, Proto, PortState, ReportedKey, tcp, quic, dns, open_port, closed_port,
  proto_eq, state_eq, flow_eq_iff,
}
use trinetra.NetCapture.Dedupe.{same_key, mark, marked, dedupe_and_mark}

-- What the test compares.
abbrev pub key_of : ReportedKey → Proto × Flow × PortState
key_of r = (r.proto, r.flow, r.state)

abbrev pub finding_key : Finding → Proto × Flow × PortState
finding_key f = (f.proto, f.flow, f.state)

proto_eq_iff : (a b : Proto) → (proto_eq a b ≡ true) ↔ (a ≡ b)
proto_eq_iff tcp tcp = ground arith
proto_eq_iff quic quic = ground arith
proto_eq_iff dns dns = ground arith
proto_eq_iff tcp quic = ground arith
proto_eq_iff tcp dns = ground arith
proto_eq_iff quic tcp = ground arith
proto_eq_iff quic dns = ground arith
proto_eq_iff dns tcp = ground arith
proto_eq_iff dns quic = ground arith

state_eq_iff : (a b : PortState) → (state_eq a b ≡ true) ↔ (a ≡ b)
state_eq_iff open_port open_port = ground arith
state_eq_iff open_port closed_port = ground arith
state_eq_iff closed_port open_port = ground arith
state_eq_iff closed_port closed_port = ground arith

pub same_key_iff :
    (f : Finding) (r : ReportedKey) → (same_key f r ≡ true) ↔ (key_of r ≡ finding_key f)
unfolding same_key
same_key_iff f r =
    ground
      (arith, proto_eq_iff r.proto f.proto, flow_eq_iff r.flow f.flow, state_eq_iff r.state f.state)

abbrev pub touched : ℕ → ReportedKey → ReportedKey
touched now r = record r { last_reported = now }

-- The loop updates as the search of Prelude/Search.antt does.
pub mark-update_first :
    (f : Finding) (window now : ℕ) (rs : List ReportedKey)
    → map_some (λ m. m.0) (mark f window now rs) ≡ update_first (same_key f) (touched now) rs
unfolding mark update_first
mark-update_first f window now [] = refl
mark-update_first f window now (r ∷ rs) = elim (Bool-cases (same_key f r)) [
  | inl e ↦ rw e refl
  | inr e ↦ rw e (elim (Option-cases (mark f window now rs)) [
    | inl n ↦ ground (arith, mark-update_first f window now rs)
    | inr (m, n) ↦ ground (arith, mark-update_first f window now rs)
  ])
]

pub mark-Updated :
    (f : Finding) (window now : ℕ) (rs rs' : List ReportedKey) (b : Bool)
    → mark f window now rs ≡ some (rs', b)
    → Updated (same_key f) (touched now) rs rs'
mark-Updated f window now rs rs' b e =
    update_first-Updated (same_key f) (touched now) rs rs'
      (sym (mark-update_first f window now rs) ∙ ap (map_some (λ m. m.0)) e)

pub mark-none :
    (f : Finding) (window now : ℕ) (rs : List ReportedKey)
    → mark f window now rs ≡ none
    → All (λ r. same_key f r ≡ false) rs
mark-none f window now rs e =
    update_first-none (same_key f) (touched now) rs
      (sym (mark-update_first f window now rs) ∙ ap (map_some (λ m. m.0)) e)

-- Only the reported keys and the counters change.
pub record SameTables (c d : Capture) : Type 0 where
  pub opts : d.opts ≡ c.opts
  pub pending : d.pending ≡ c.pending
  pub pending_quic : d.pending_quic ≡ c.pending_quic
  pub pending_dns : d.pending_dns ≡ c.pending_dns

SameTables-refl : (c : Capture) → SameTables c c
SameTables-refl c = record { opts = refl; pending = refl; pending_quic = refl; pending_dns = refl }

marked-SameTables :
    (c : Capture) (f : Finding) (now : ℕ) (o : Option (List ReportedKey × Bool))
    → SameTables c (marked c f now o).0
unfolding marked
marked-SameTables c f now none = record {
  opts = refl;
  pending = refl;
  pending_quic = refl;
  pending_dns = refl;
}
marked-SameTables c f now (some (rs, true)) = record {
  opts = refl;
  pending = refl;
  pending_quic = refl;
  pending_dns = refl;
}
marked-SameTables c f now (some (rs, false)) = record {
  opts = refl;
  pending = refl;
  pending_quic = refl;
  pending_dns = refl;
}

pub dedupe-SameTables :
    (c : Capture) (f : Finding) (now : ℕ) → SameTables c (dedupe_and_mark c f now).0
unfolding dedupe_and_mark
dedupe-SameTables c f now = elim (Bool-cases (leb c.opts.dedup_window_ms 0)) [
  | inl e ↦ rw e (SameTables-refl c)
  | inr e ↦ rw e (marked-SameTables c f now _)
]
