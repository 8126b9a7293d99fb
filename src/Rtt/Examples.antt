-- ===== src/Rtt/Examples.antt =====
-- The theorems on the round trip estimate at concrete measurements.
use trinetra.Prelude.{[], ◌∷◌, arith}
use trinetra.Rtt.Tracker.{seeded, updates}
use trinetra.Rtt.Bounds.{IsWithin, updates-IsWithin}

updates-IsWithin_example : IsWithin 20 50 (updates (seeded 200) (30 ∷ 50 ∷ 20 ∷ []))
updates-IsWithin_example =
    updates-IsWithin 20 50 200 30 (50 ∷ 20 ∷ [])
      ((omega arith, omega arith), ((omega arith, omega arith), ((omega arith, omega arith), tt)))
