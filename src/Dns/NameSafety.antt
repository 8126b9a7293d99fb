-- ===== src/Dns/NameSafety.antt =====
-- The reading of names in handler.cpp stays inside of the buffer, and its loops end.
use trinetra.Prelude.{
  ℕ, zero, suc, ◌+◌, ◌-◌, ◌*◌, ◌%◌, ◌≤◌, ◌<◌, ◌≡◌, ap, List, arith, ltb, leb, ltb→lt, ◌==◌, length,
  ltb-false, leb-false,
}
use trinetra.Dns.Reader.{
  Reader, done, fault, spent, read_byte, read_bytes, Ends, ends, Ends-bind, Ends-if, read_byte-Ends,
  read_bytes-Ends,
}
use trinetra.Dns.Names.{
  is_pointer, skip_loop, dns_skip_name, Decoding, decode_loop, decode_fuel, dns_decode_name,
}

skip_loop-Ends :
    (fuel : ℕ) (buf : List ℕ) (pos : ℕ)
    → length buf - pos < fuel
    → Ends (λ next. pos ≤ next) (skip_loop fuel buf pos)
unfolding skip_loop
skip_loop-Ends zero buf pos h = elim h [ ]
skip_loop-Ends (suc fuel) buf pos h =
    Ends-if (λ next. pos ≤ next) (ltb pos (length buf)) _ _
      (λ e.
        let inside = ltb→lt _ _ e in
        Ends-bind (λ _. Unit {0}) (λ next. pos ≤ next) (read_byte buf pos) _
          (read_byte-Ends buf pos inside)
          λ b _.
            Ends-if (λ next. pos ≤ next) (b == 0) _ _ (λ _. ends (omega arith))
              λ _.
                Ends-if (λ next. pos ≤ next) (is_pointer b) _ _ (λ _. ends (omega arith))
                  λ _. weaken b _ (skip_loop-Ends fuel buf (pos + 1 + b) (omega arith)))
      (λ _. ends (omega arith))
  where
    weaken :
        (b : ℕ) (m : Reader ℕ) → Ends (λ next. pos + 1 + b ≤ next) m → Ends (λ next. pos ≤ next) m
    weaken b (done next) (ends p) = ends (omega arith)
    weaken b fault h = elim h [ ]
    weaken b spent h = elim h [ ]

-- From any position and in any bytes, the skipping of a name ends, and it never moves back.
pub dns_skip_name-Ends :
    (buf : List ℕ) (pos : ℕ) → Ends (λ next. pos ≤ next) (dns_skip_name buf pos)
unfolding dns_skip_name
dns_skip_name-Ends buf pos = skip_loop-Ends (length buf + 1) buf pos (omega arith)

-- The jumps that are left, with a pass over the buffer for each, and the pass at hand.
abbrev left : List ℕ → Decoding → ℕ
left buf d = (128 - d.hops) * (length buf + 1) + (length buf - d.pos)

jump_falls :
    (h n t p : ℕ)
    → h + 1 ≤ 128
    → (128 - (h + 1)) * (n + 1) + (n - t) < (128 - h) * (n + 1) + (n - p)
jump_falls h n t p fits =
    let e : 128 - h ≡ suc (128 - (h + 1)) = omega arith in
    omega (arith, ap (λ (k : ℕ). k * (n + 1)) e)

decode_loop-Ends :
    (fuel : ℕ) (buf : List ℕ) (d : Decoding)
    → left buf d < fuel
    → Ends (λ (_ : ℕ × List ℕ). Unit {0}) (decode_loop fuel buf d)
unfolding decode_loop
decode_loop-Ends zero buf d h = elim h [ ]
decode_loop-Ends (suc fuel) buf d h =
    Ends-if Any (ltb d.pos (length buf)) _ _
      (λ e.
        Ends-bind (λ _. Unit {0}) Any (read_byte buf d.pos) _
          (read_byte-Ends buf d.pos (ltb→lt _ _ e))
          λ b _.
            Ends-if Any (b == 0) _ _ (λ _. ends tt)
              λ _.
                Ends-if Any (is_pointer b) _ _
                  (λ _.
                    Ends-if Any (leb (length buf) (d.pos + 1)) _ _ (λ _. ends tt)
                      λ near.
                        Ends-bind (λ _. Unit {0}) Any (read_byte buf (d.pos + 1)) _
                          (read_byte-Ends buf (d.pos + 1) (leb-false _ _ near))
                          λ low _.
                            Ends-if Any (ltb 128 (d.hops + 1)) _ _ (λ _. ends tt)
                              λ more. decode_loop-Ends fuel buf _ (
                                omega (
                                  arith,
                                  jump_falls d.hops (length buf) (b % 64 * 256 + low) d.pos
                                      (ltb-false _ _ more),
                                )))
                  (λ _.
                    Ends-if Any (ltb (length buf) (d.pos + 1 + b)) _ _ (λ _. ends tt)
                      λ fits.
                        Ends-bind (λ _. Unit {0}) Any (read_bytes buf (d.pos + 1) b) _
                          (read_bytes-Ends buf (d.pos + 1) b (ltb-false _ _ fits))
                          λ label _.
                            decode_loop-Ends fuel buf _
                              (omega (arith, ltb→lt _ _ e, ltb-false _ _ fits))))
      (λ _. ends tt)
  where
    Any : ℕ × List ℕ → Type 0
    Any _ = Unit {0}

pub dns_decode_name-Ends :
    (buf : List ℕ) (pos : ℕ) → Ends (λ (_ : ℕ × List ℕ). Unit {0}) (dns_decode_name buf pos)
unfolding dns_decode_name
dns_decode_name-Ends buf pos = decode_loop-Ends (decode_fuel buf) buf _ (omega arith)
