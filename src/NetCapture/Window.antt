-- ===== src/NetCapture/Window.antt =====
-- The window of `Capture::dedupe_and_mark`: a key that was reported stays suppressed for it.
use Prim.Native.String.{String}
use trinetra.Prelude.{
  ℕ, ◌+◌, ◌≤◌, ◌<◌, ◌≡◌, refl, ap, ◌≢◌, ◌⊎◌, inl, inr, Bool, true, false, List, [], ◌∷◌, ◌++◌,
  Option, none, some, arith, ltb, leb, if◌then◌else◌, All, Updated,
}
use trinetra.NetCapture.Types.{
  Capture, Finding, Flow, IpVersion, Options, Proto, PortState, ReportedKey, nanos,
}
use trinetra.NetCapture.Dedupe.{same_key, mark, marked, new_key, dedupe_and_mark, report}
use trinetra.NetCapture.Reported.{
  key_of, finding_key, same_key_iff, touched, mark-Updated, mark-none, dedupe-SameTables,
}
use trinetra.NetCapture.Frame.{count_packet}
use trinetra.NetCapture.Sweep.{sweep_expired, live_reported}
use trinetra.NetCapture.Run.{Loop, Round, to_list, run}
use trinetra.NetCapture.Step.{Yields, Yields-some, if_cases}
use trinetra.NetCapture.Outcome.{Outcome, silent, reports, Step-Outcome}
use trinetra.NetCapture.Trace.{run-keeps}

abbrev Key : Type 0
Key = Proto × Flow × PortState

-- The first entry with the key was reported at `t` or later.
abbrev pub IsRecent : Key → ℕ → List ReportedKey → Type 0
IsRecent key t [] = ⊥
IsRecent key t (r ∷ rs) =
    (key_of r ≡ key) × (t ≤ r.last_reported) ⊎ (key_of r ≢ key) × IsRecent key t rs

module _ (key : Key) (t : ℕ) where
  Updated-IsRecent :
      {p : ReportedKey → Bool} {now : ℕ} {rs rs' : List ReportedKey}
      → t ≤ now
      → Updated p (touched now) rs rs'
      → IsRecent key t rs
      → IsRecent key t rs'
  Updated-IsRecent h (Updated.here r rs e) (inl k) = inl (k.0, h)
  Updated-IsRecent h (Updated.here r rs e) (inr k) = inr k
  Updated-IsRecent h (Updated.there r e u) (inl k) = inl k
  Updated-IsRecent h (Updated.there r e u) (inr k) = inr (k.0, Updated-IsRecent h u k.1)

  append-IsRecent : (rs ss : List ReportedKey) → IsRecent key t rs → IsRecent key t (rs ++ ss)
  append-IsRecent [] ss h = absurd h
  append-IsRecent (r ∷ rs) ss (inl k) = inl k
  append-IsRecent (r ∷ rs) ss (inr k) = inr (k.0, append-IsRecent rs ss k.1)

  live-IsRecent :
      (now limit : ℕ) (rs : List ReportedKey)
      → now ≤ t + limit
      → IsRecent key t rs
      → IsRecent key t (live_reported now limit rs)
  unfolding live_reported
  live-IsRecent now limit [] h k = k
  live-IsRecent now limit (r ∷ rs) h (inl k) = ground arith
  live-IsRecent now limit (r ∷ rs) h (inr k) = ground (arith, live-IsRecent now limit rs h k.1)

  -- A recent key is found, within the window.
  mark-duplicate :
      (f : Finding) (window now : ℕ) (rs : List ReportedKey)
      → finding_key f ≡ key
      → now ≤ t + window
      → IsRecent key t rs
      → (rs' : List ReportedKey) × (mark f window now rs ≡ some (rs', true))
  unfolding mark
  mark-duplicate f window now [] e h k = absurd k
  mark-duplicate f window now (r ∷ rs) e h (inl k) =
      (touched now r ∷ rs, ground (arith, same_key_iff f r))
  mark-duplicate f window now (r ∷ rs) e h (inr k) =
      let rest = mark-duplicate f window now rs e h k.1 in
      (r ∷ rest.0, ground (arith, same_key_iff f r, rest.1))

-- The capture has the window `window_ms`, and the key is recent.
record IsMarked (key : Key) (t window_ms : ℕ) (c : Capture) : Type 0 where
  window : c.opts.dedup_window_ms ≡ window_ms
  recent : IsRecent key t c.reported

-- The clock readings of a round, from `t` to the end of the window.
pub record InWindow (t window_ms : ℕ) (r : Round) : Type 0 where
  pub after : t ≤ r.marked
  pub within : r.marked ≤ t + nanos window_ms
  pub swept : r.sweep_read ≤ t + nanos window_ms

module _ (key : Key) (t window_ms : ℕ) (on : 0 < window_ms) where
  marked-IsRecent :
      (c : Capture) (f : Finding) (window now : ℕ) (o : Option (List ReportedKey × Bool))
      → mark f window now c.reported ≡ o
      → t ≤ now
      → IsRecent key t c.reported
      → IsRecent key t (marked c f now o).0.reported
  unfolding marked
  marked-IsRecent c f window now none e h k = append-IsRecent key t c.reported _ k
  marked-IsRecent c f window now (some (rs, true)) e h k =
      Updated-IsRecent key t h (mark-Updated f window now c.reported rs true e) k
  marked-IsRecent c f window now (some (rs, false)) e h k =
      Updated-IsRecent key t h (mark-Updated f window now c.reported rs false e) k

  dedupe-IsMarked :
      (c : Capture) (f : Finding) (now : ℕ)
      → t ≤ now
      → IsMarked key t window_ms c
      → IsMarked key t window_ms (dedupe_and_mark c f now).0
  dedupe-IsMarked c f now h k = record {
    window = rw (dedupe-SameTables c f now).opts k.window;
    recent =
        unfold dedupe_and_mark in
        if_cases (λ (r : Capture × Bool). IsRecent key t r.0.reported)
          (leb c.opts.dedup_window_ms 0) _ _ k.recent (marked-IsRecent c f _ now _ refl h k.recent);
  }

  -- A finding with the key is a duplicate.
  dedupe-duplicate :
      (c : Capture) (f : Finding) (now : ℕ)
      → finding_key f ≡ key
      → now ≤ t + nanos window_ms
      → IsMarked key t window_ms c
      → (dedupe_and_mark c f now).1 ≡ true
  unfolding dedupe_and_mark marked
  dedupe-duplicate c f now e h k =
      let found = mark-duplicate key t f (nanos window_ms) now c.reported e h k.recent in
      let same : mark f (nanos c.opts.dedup_window_ms) now c.reported ≡ some (found.0, true) =
        rw k.window found.1 in
      rw same (ground (arith, k.window))

  report-suppresses :
      (c : Capture) (f : Finding) (now : ℕ)
      → now ≤ t + nanos window_ms
      → IsMarked key t window_ms c
      → All (λ g. finding_key g ≢ key) (to_list (report c f now).1)
  unfolding report
  report-suppresses c f now h k = emitted (dedupe_and_mark c f now).1 refl
    where
      emitted :
          (b : Bool)
          → (dedupe_and_mark c f now).1 ≡ b
          → All (λ g. finding_key g ≢ key) (to_list (if b then none else some f))
      emitted true e = tt
      emitted false e = ((λ same. cc (dedupe-duplicate c f now same h k, e)), tt)

  Outcome-keeps :
      (c : Capture) (r : Round) {result : Capture × Option Finding}
      → InWindow t window_ms r
      → Outcome c r.marked result
      → IsMarked key t window_ms c
      → IsMarked key t window_ms result.0 × All (λ g. finding_key g ≢ key) (to_list result.1)
  unfolding report
  Outcome-keeps c r w (silent d o e) k =
      (record { window = rw o k.window; recent = rw e k.recent }, tt)
  Outcome-keeps c r w (reports d f o e) k =
      let k' : IsMarked key t window_ms d = record {
        window = rw o k.window;
        recent = rw e k.recent;
      } in
      (dedupe-IsMarked d f r.marked w.after k', report-suppresses d f r.marked w.within k')

  sweep-IsMarked :
      (c : Capture) (now : ℕ)
      → now ≤ t + nanos window_ms
      → IsMarked key t window_ms c
      → IsMarked key t window_ms (sweep_expired c now)
  unfolding sweep_expired
  sweep-IsMarked c now h k = record {
    window = k.window;
    recent =
        if_cases (IsRecent key t) (ltb 0 c.opts.dedup_window_ms) _ _
          (live-IsRecent key t now _ c.reported (omega (arith, k.window)) k.recent) k.recent;
  }

  IsMarked-run :
      (inet_ntop : IpVersion → List ℕ → String) (deadline : ℕ) (l : Loop) (rounds : List Round)
      → All (InWindow t window_ms) rounds
      → IsMarked key t window_ms l.capture
      → Yields
          (λ (r : Loop × List Finding).
            IsMarked key t window_ms r.0.capture × All (λ g. finding_key g ≢ key) r.1)
          (run inet_ntop deadline l rounds)
  unfolding count_packet
  IsMarked-run inet_ntop deadline l rounds =
      run-keeps (IsMarked key t window_ms) (λ g. finding_key g ≢ key) (InWindow t window_ms)
        (λ c k. record { window = k.window; recent = k.recent })
        (λ c r w k. sweep-IsMarked c r.sweep_read w.swept k)
        (λ c r result w s k. Outcome-keeps c r w (Step-Outcome c r.seen r.marked s) k) inet_ntop
        deadline l rounds

found-IsRecent :
    (f : Finding) (now : ℕ) {rs rs' : List ReportedKey}
    → Updated (same_key f) (touched now) rs rs'
    → IsRecent (finding_key f) now rs'
found-IsRecent f now (Updated.here r rs e) = inl ((same_key_iff f r).0 e, omega arith)
found-IsRecent f now (Updated.there r e u) =
    inr ((λ k. cc ((same_key_iff f r).1 k, e)), found-IsRecent f now u)

new-IsRecent :
    (f : Finding) (now : ℕ) (rs : List ReportedKey)
    → All (λ r. same_key f r ≡ false) rs
    → IsRecent (finding_key f) now (rs ++ new_key f now ∷ [])
unfolding new_key
new-IsRecent f now [] h = inl (refl, omega arith)
new-IsRecent f now (r ∷ rs) h =
    inr ((λ k. cc ((same_key_iff f r).1 k, h.0)), new-IsRecent f now rs h.1)

report-IsMarked :
    (c : Capture) (f : Finding) (now : ℕ)
    → 0 < c.opts.dedup_window_ms
    → IsMarked (finding_key f) now c.opts.dedup_window_ms (report c f now).0
unfolding report
report-IsMarked c f now h = record {
  window = ap (λ (o : Options). o.dedup_window_ms) (dedupe-SameTables c f now).opts;
  recent =
      unfold dedupe_and_mark in
      rw enabled (after (mark f (nanos c.opts.dedup_window_ms) now c.reported) refl);
}
  where
    enabled : leb c.opts.dedup_window_ms 0 ≡ false
    enabled = ground arith

    after :
        (o : Option (List ReportedKey × Bool))
        → mark f (nanos c.opts.dedup_window_ms) now c.reported ≡ o
        → IsRecent (finding_key f) now (marked c f now o).0.reported
    after none e = unfold marked in new-IsRecent f now c.reported (mark-none f _ now c.reported e)
    after (some (rs, true)) e =
        unfold marked in found-IsRecent f now (mark-Updated f _ now c.reported rs true e)
    after (some (rs, false)) e =
        unfold marked in found-IsRecent f now (mark-Updated f _ now c.reported rs false e)

-- Once a finding has gone through `report` at time `t`, with a window set, no run whose clock
-- stays between `t` and the end of the window hands the callback a finding of the same protocol,
-- flow and state, whatever frames arrive and however often the sweep runs.
pub run-after_report :
    (inet_ntop : IpVersion → List ℕ → String) (c : Capture) (f : Finding) (t : ℕ)
    (deadline last_sweep : ℕ) (rounds : List Round) (m : Loop) (findings : List Finding)
    → 0 < c.opts.dedup_window_ms
    → All (InWindow t c.opts.dedup_window_ms) rounds
    → run inet_ntop deadline (record { capture = (report c f t).0; last_sweep = last_sweep }) rounds
      ≡ some (m, findings)
    → All (λ g. finding_key g ≢ finding_key f) findings
run-after_report inet_ntop c f t deadline last_sweep rounds m findings on w e =
    (Yields-some _
      (IsMarked-run (finding_key f) t c.opts.dedup_window_ms on inet_ntop deadline _ rounds w
        (report-IsMarked c f t on))
      e).1
