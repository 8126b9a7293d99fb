-- ===== src/Reactor/Budget.antt =====
-- The times that the worker of async_io.cpp waits at most.
use Prim.Native.Nat.{min, max}
use trinetra.Prelude.{
  ℕ, ◌+◌, ◌*◌, ◌≤◌, ◌≡◌, Bool, true, false, List, ◌∷◌, arith, ltb, if◌then◌else◌, length,
}
use trinetra.Reactor.Types.{Operation, EpollShard}
use trinetra.Reactor.Tables.{clamp, adaptive_connect_budget, next_wait_ms}

clamp_bounds : (v lo hi : ℕ) → lo ≤ hi → (lo ≤ clamp v lo hi) × (clamp v lo hi ≤ hi)
clamp_bounds v lo hi h = ground arith

-- The floor that holds for the connect budget, which is not above the ceiling.
abbrev pub ceiling_ms : Operation → ℕ
ceiling_ms op = max 1 op.timeouts.connect_sec * 1000

abbrev pub floor_ms : Operation → ℕ
floor_ms op =
    min (if ltb 0 op.timeouts.min_connect_ms then op.timeouts.min_connect_ms else 1000)
      (ceiling_ms op)

within_if :
    (b : Bool) (x y lo hi : ℕ)
    → (lo ≤ x) × (x ≤ hi)
    → (lo ≤ y) × (y ≤ hi)
    → (lo ≤ (if b then x else y)) × ((if b then x else y) ≤ hi)
within_if true x y lo hi h k = h
within_if false x y lo hi h k = k

-- Whatever latencies were measured, an operation has at least its floor and at most its ceiling
-- for the connect: the floor is what the operation sets or a second, the ceiling is its timeout
-- and at least a second, and a floor above the ceiling counts as the ceiling.
pub adaptive_connect_budget_bounds :
    (shard : EpollShard) (op : Operation)
    → (floor_ms op ≤ adaptive_connect_budget shard op)
      × (adaptive_connect_budget shard op ≤ ceiling_ms op)
unfolding adaptive_connect_budget
adaptive_connect_budget_bounds shard op =
    within_if (ltb (length shard.rtt_samples_ms) 5) (ceiling_ms op) _ (floor_ms op) (ceiling_ms op)
      (omega arith, omega arith) (clamp_bounds _ (floor_ms op) (ceiling_ms op) (omega arith))

-- A worker with a deadline waits for a millisecond at least and for 250 at most, and it does not
-- oversleep: it wakes up within a millisecond of the first deadline, or of now if that has passed.
next_wait_ms_bounds :
    (now time fd : ℕ) (ds : List (ℕ × ℕ)) (shard : EpollShard)
    → shard.deadlines ≡ (time, fd) ∷ ds
    → (1 ≤ next_wait_ms now shard)
      × (next_wait_ms now shard ≤ 250)
      × (now + next_wait_ms now shard ≤ max now time + 1)
unfolding next_wait_ms
next_wait_ms_bounds now time fd ds shard e = rw e (ground arith)
