-- ===== src/NetCapture/Trace.antt =====
-- The rule by which an invariant of the capture goes through the loop of `Capture::run`.
use Prim.Native.String.{String}
use trinetra.Prelude.{
  ℕ, ◌-◌, ◌&&◌, List, [], ◌∷◌, ◌++◌, Option, none, some, inl, inr, ltb, leb, length, All,
  All-append,
}
use trinetra.NetCapture.Types.{Capture, Finding, IpVersion, nanos}
use trinetra.NetCapture.Bytes.{◌>>=◌}
use trinetra.NetCapture.Frame.{count_packet, handle_packet}
use trinetra.NetCapture.Sweep.{sweep_expired}
use trinetra.NetCapture.Run.{Loop, Round, to_list, end_round, do_round, run}
use trinetra.NetCapture.Step.{
  Step, Handled, Yields, nothing, value, Yields-if, if_cases, handle_packet-Handled,
}

-- `P` holds of the capture, `Q` of each finding, and `R` of what a round meets.
module _ (P : Capture → Type 0) (Q : Finding → Type 0) (R : Round → Type 0)
    (count : (c : Capture) → P c → P (count_packet c))
    (sweep : (c : Capture) (r : Round) → R r → P c → P (sweep_expired c r.sweep_read))
    (step : (c : Capture) (r : Round) (result : Capture × Option Finding)
      → R r
      → Step c r.seen r.marked result
      → P c
      → P result.0 × All Q (to_list result.1)) where
  abbrev Kept : Loop × List Finding → Type 0
  Kept result = P result.0.capture × All Q result.1

  end_round-keeps : (l : Loop) (r : Round) → R r → P l.capture → P (end_round l r).capture
  unfolding end_round
  end_round-keeps l r ok h =
      if_cases (λ (m : Loop). P m.capture)
        (leb (nanos l.capture.opts.sweep_interval_ms) (r.now - l.last_sweep)) _ _
        (sweep l.capture r ok h) h

  Handled-keeps :
      (l : Loop) (r : Round) (result : Capture × Option Finding)
      → R r
      → P l.capture
      → Handled l.capture r.seen r.marked result
      → Kept (end_round (record l { capture = result.0 }) r, to_list result.1)
  Handled-keeps l r result ok h (inl s) =
      let k = step l.capture r result ok s h in (end_round-keeps _ r ok k.0, k.1)
  Handled-keeps l r result ok h (inr s) =
      let k = step (count_packet l.capture) r result ok s (count l.capture h) in
      (end_round-keeps _ r ok k.0, k.1)

  module _ (inet_ntop : IpVersion → List ℕ → String) where
    do_round-keeps :
        (l : Loop) (r : Round) → R r → P l.capture → Yields Kept (do_round inet_ntop l r)
    unfolding do_round
    do_round-keeps l r ok h =
        Yields-if Kept (ltb 0 (length r.received)) _ _
          (bind (handle_packet inet_ntop l.capture r.received r.seen r.marked)
            (handle_packet-Handled inet_ntop l.capture r.seen r.marked r.received))
          (value (end_round-keeps l r ok h, tt))
      where
        bind :
            (o : Option (Capture × Option Finding))
            → Yields (Handled l.capture r.seen r.marked) o
            → Yields Kept (
                o >>= λ handled.
                some (end_round (record l { capture = handled.0 }) r, to_list handled.1))
        bind none nothing = nothing
        bind (some result) (value s) = value (Handled-keeps l r result ok h s)

    pub run-keeps :
        (deadline : ℕ) (l : Loop) (rounds : List Round)
        → All R rounds
        → P l.capture
        → Yields Kept (run inet_ntop deadline l rounds)
    unfolding run
    run-keeps deadline l [] ok h = value (h, tt)
    run-keeps deadline l (r ∷ rs) ok h = Yields-if Kept r.stopped _ _ (value (h, tt)) (
        Yields-if Kept (ltb 0 l.capture.opts.duration_ms && leb deadline r.deadline_read) _ _
          (value (h, tt))
          (chain (do_round inet_ntop l r) (do_round-keeps l r ok.0 h)
            λ done k. run-keeps deadline done.0 rs ok.1 k.0))
      where
        chain :
            (o : Option (Loop × List Finding))
            → Yields Kept o
            → ((done : Loop × List Finding)
                → Kept done
                → Yields Kept (run inet_ntop deadline done.0 rs))
            → Yields Kept (
                o >>= λ done.
                run inet_ntop deadline done.0 rs >>= λ more. some (more.0, done.1 ++ more.1))
        chain none nothing k = nothing
        chain (some done) (value d) k = more (run inet_ntop deadline done.0 rs) (k done d)
          where
            more :
                (m : Option (Loop × List Finding))
                → Yields Kept m
                → Yields Kept (m >>= λ more. some (more.0, done.1 ++ more.1))
            more none nothing = nothing
            more (some m) (value e) = value (e.0, All-append Q done.1 m.1 d.1 e.1)
