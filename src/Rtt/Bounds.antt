-- ===== src/Rtt/Bounds.antt =====
-- The estimates of scan.hpp stay with the measurements, and the timeouts grow with the retries.
use trinetra.Prelude.{
  ℕ, zero, suc, ◌+◌, ◌-◌, ◌*◌, ◌/◌, ◌≤◌, inl, inr, List, [], ◌∷◌, arith, leb, ◌==◌, if◌then◌else◌,
  All, Bool-cases,
}
use trinetra.Rtt.Tracker.{
  CongestionTuneConfig, RttTracker, seeded, distance, update, updates, rto, get_timeout_for_retry,
}

-- Between the bounds, with a variation of the bounds' distance at most, or of half of the upper
-- bound, with which it starts.
pub record IsWithin (lo hi : ℕ) (t : RttTracker) : Type 0 where
  pub above : lo ≤ t.current_rtt_ms
  pub below : t.current_rtt_ms ≤ hi
  pub variation : t.rtt_var_ms ≤ hi

update-IsWithin :
    (lo hi : ℕ) (t : RttTracker) (m : ℕ)
    → IsWithin lo hi t
    → lo ≤ m
    → m ≤ hi
    → IsWithin lo hi (update t m)
unfolding update
update-IsWithin lo hi t m w low high = elim (Bool-cases t.has_measurement) [
  | inr e ↦ rw e (record { above = low; below = high; variation = omega arith })
  | inl e ↦
      let d : distance t.current_rtt_ms m ≤ hi = ground (arith, w.below, high) in
      rw e (record {
        above = omega (arith, w.above);
        below = omega (arith, w.below);
        variation = omega (arith, w.variation, d);
      })
]

-- Whatever the tracker was seeded with: after measurements that all lie between two bounds, the
-- first of which replaces the seed, the estimate lies between the bounds and the variation is no
-- more than the upper one.
pub updates-IsWithin :
    (lo hi seed_rtt first : ℕ) (rest : List ℕ)
    → All (λ m. (lo ≤ m) × (m ≤ hi)) (first ∷ rest)
    → IsWithin lo hi (updates (seeded seed_rtt) (first ∷ rest))
unfolding updates seeded
updates-IsWithin lo hi seed_rtt first rest h =
    run rest _ h.1 (record { above = h.0.0; below = h.0.1; variation = omega (arith, h.0.1) })
  where
    run :
        (ms : List ℕ) (t : RttTracker)
        → All (λ m. (lo ≤ m) × (m ≤ hi)) ms
        → IsWithin lo hi t
        → IsWithin lo hi (updates t ms)
    run [] t k w = w
    run (m ∷ ms) t k w = run ms (update t m) k.1 (update-IsWithin lo hi t m w k.0.0 k.0.1)

scaled_mono : (a b p : ℕ) → a ≤ b → a * p ≤ b * p
scaled_mono zero b p h = omega arith
scaled_mono (suc a) zero p h = elim h [ ]
scaled_mono (suc a) (suc b) p h = omega (arith, scaled_mono a b p (omega arith))

-- The paddings of the retries on a timeout `r`.
abbrev padded : ℕ → ℕ → ℕ → ℕ → ℕ
padded r pad1 pad2 i =
    if leb i 0 then r else if i == 1 then r + pad1 else r + pad2 + (i - 2) * pad2 / 2

padded_mono :
    (r pad1 pad2 i j : ℕ) → pad1 ≤ pad2 → i ≤ j → padded r pad1 pad2 i ≤ padded r pad1 pad2 j
padded_mono r pad1 pad2 i j pads le =
    let scaled = scaled_mono (i - 2) (j - 2) pad2 (omega arith) in ground (arith, scaled)

-- With a first padding that is no more than the second, as in the settings of the program, a
-- later retry never has a shorter timeout.
get_timeout_for_retry_mono :
    (g : CongestionTuneConfig) (t : RttTracker) (i j : ℕ)
    → g.rto_pad1_ms ≤ g.rto_pad2_ms
    → i ≤ j
    → get_timeout_for_retry g t i ≤ get_timeout_for_retry g t j
unfolding get_timeout_for_retry
get_timeout_for_retry_mono g t i j pads le = elim (Bool-cases t.has_measurement) [
  | inr e ↦ rw e (omega arith)
  | inl e ↦ rw e (padded_mono (rto g t) g.rto_pad1_ms g.rto_pad2_ms i j pads le)
]
