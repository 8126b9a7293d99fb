-- ===== src/NetCapture/Run.antt =====
-- `Capture::run` of net_capture.cpp, after the socket is open: one round for each pass of its loop.
use Prim.Native.String.{String}
use trinetra.Prelude.{
  ℕ, ◌+◌, ◌-◌, Bool, ◌&&◌, List, [], ◌∷◌, ◌++◌, Option, none, some, ltb, leb, if◌then◌else◌, length,
}
use trinetra.NetCapture.Types.{Capture, Finding, IpVersion, nanos}
use trinetra.NetCapture.Bytes.{◌>>=◌}
use trinetra.NetCapture.Frame.{handle_packet}
use trinetra.NetCapture.Sweep.{sweep_expired}

-- What the loop meets in a round: the stop flags, the bytes that `recv` delivered (none after an
-- error or its timeout), and its clock readings in order.
pub record Round : Type 0 where
  pub stopped : Bool
  pub deadline_read : ℕ
  pub received : List ℕ
  pub seen : ℕ
  pub marked : ℕ
  pub now : ℕ
  pub sweep_read : ℕ

-- The loop's variables.
pub record Loop : Type 0 where
  pub capture : Capture
  pub last_sweep : ℕ

abbrev pub to_list : Option Finding → List Finding
to_list none = []
to_list (some f) = f ∷ []

-- The test and the sweep that end a round.
unfoldable pub end_round : Loop → Round → Loop
end_round l r =
    if leb (nanos l.capture.opts.sweep_interval_ms) (r.now - l.last_sweep)
    then record { capture = sweep_expired l.capture r.sweep_read; last_sweep = r.now }
    else l

module _ (inet_ntop : IpVersion → List ℕ → String) where
  unfoldable pub do_round : Loop → Round → Option (Loop × List Finding)
  do_round l r =
      if ltb 0 (length r.received)
      then (do
        handled ← handle_packet inet_ntop l.capture r.received r.seen r.marked
        some (end_round (record l { capture = handled.0 }) r, to_list handled.1))
      else some (end_round l r, [])

  -- The findings that the callback gets over a list of rounds. The loop ends at a stop flag or,
  -- with `duration_ms` set, at the deadline.
  unfoldable pub run : ℕ → Loop → List Round → Option (Loop × List Finding)
  run deadline l [] = some (l, [])
  run deadline l (r ∷ rs) =
      let rest = do
        done ← do_round l r
        more ← run deadline done.0 rs
        some (more.0, done.1 ++ more.1)
      in if r.stopped
        then some (l, [])
        else if ltb 0 l.capture.opts.duration_ms && leb deadline r.deadline_read
        then some (l, [])
        else rest

  -- The whole call: the clock is read once for the first sweep and once for the deadline.
  unfoldable pub capture_run : Capture → ℕ → ℕ → List Round → Option (Loop × List Finding)
  unfolding run
  capture_run c swept started rounds =
      run (started + nanos c.opts.duration_ms) (record { capture = c; last_sweep = swept }) rounds
