-- ===== src/Rtt/Tracker.antt =====
-- `RTTTracker` of scan.hpp and the settings that it reads, for updates that come one after the
-- other. The times are natural numbers, and taken to be small enough for `int`.
use trinetra.Prelude.{
  ℕ, ◌+◌, ◌-◌, ◌*◌, ◌/◌, Bool, true, false, List, [], ◌∷◌, ltb, leb, ◌==◌, if◌then◌else◌,
}
use Prim.Native.Nat.{max}

-- The settings that the tracker reads.
pub record CongestionTuneConfig : Type 0 where
  pub rto_mult : ℕ
  pub rto_pad1_ms : ℕ
  pub rto_pad2_ms : ℕ
  pub dispatch_jitter_floor_ms : ℕ

abbrev pub defaults : CongestionTuneConfig
defaults = record {
  rto_mult = 4;
  rto_pad1_ms = 40;
  rto_pad2_ms = 100;
  dispatch_jitter_floor_ms = 60;
}

pub record RttTracker : Type 0 where
  pub current_rtt_ms : ℕ
  pub rtt_var_ms : ℕ
  pub has_measurement : Bool

unfoldable pub seeded : ℕ → RttTracker
seeded seed_rtt = record {
  current_rtt_ms = seed_rtt;
  rtt_var_ms = seed_rtt / 2;
  has_measurement = false;
}

abbrev pub distance : ℕ → ℕ → ℕ
distance current new_rtt_ms =
    if ltb new_rtt_ms current then current - new_rtt_ms else new_rtt_ms - current

unfoldable pub update : RttTracker → ℕ → RttTracker
update t new_rtt_ms =
    if t.has_measurement
    then record t {
      rtt_var_ms = (3 * t.rtt_var_ms + distance t.current_rtt_ms new_rtt_ms) / 4;
      current_rtt_ms = (7 * t.current_rtt_ms + new_rtt_ms) / 8;
    }
    else record { current_rtt_ms = new_rtt_ms; rtt_var_ms = new_rtt_ms / 2; has_measurement = true }

-- A sequence of measurements.
unfoldable pub updates : RttTracker → List ℕ → RttTracker
unfolding update
updates t [] = t
updates t (m ∷ ms) = updates (update t m) ms

abbrev pub rto : CongestionTuneConfig → RttTracker → ℕ
rto g t = max (t.current_rtt_ms + g.rto_mult * t.rtt_var_ms) g.dispatch_jitter_floor_ms

-- A retry count below 0 is as 0.
unfoldable pub get_timeout_for_retry : CongestionTuneConfig → RttTracker → ℕ → ℕ
get_timeout_for_retry g t retry_count =
    if t.has_measurement
    then if leb retry_count 0
      then rto g t
      else if retry_count == 1
      then rto g t + g.rto_pad1_ms
      else rto g t + g.rto_pad2_ms + (retry_count - 2) * g.rto_pad2_ms / 2
    else t.current_rtt_ms

unfoldable pub should_mark_filtered : ℕ → ℕ → Bool
should_mark_filtered retry_count retries_cap = leb retries_cap retry_count
