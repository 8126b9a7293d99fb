-- ===== src/NetCapture/Dedupe.antt =====
-- `Capture::dedupe_and_mark` of net_capture.cpp, and the call that its callers wrap round it.
use trinetra.Prelude.{
  ℕ, ◌-◌, Bool, true, false, ◌&&◌, List, [], ◌∷◌, ◌++◌, Option, none, some, leb, if◌then◌else◌,
  map_some,
}
use trinetra.NetCapture.Types.{
  Capture, Finding, ReportedKey, add64, nanos, proto_eq, state_eq, flow_eq,
}

-- The test on a reported entry.
unfoldable pub same_key : Finding → ReportedKey → Bool
same_key f r = proto_eq r.proto f.proto && flow_eq r.flow f.flow && state_eq r.state f.state

unfoldable pub new_key : Finding → ℕ → ReportedKey
new_key f now = record { proto = f.proto; flow = f.flow; state = f.state; last_reported = now }

-- The loop over the reported keys: the first match is marked, and the flag says whether its last
-- report lies within the window. `none` when no key matches.
unfoldable pub mark : Finding → ℕ → ℕ → List ReportedKey → Option (List ReportedKey × Bool)
mark f window now [] = none
mark f window now (r ∷ rs) =
    if same_key f r
    then some (record r { last_reported = now } ∷ rs, leb (now - r.last_reported) window)
    else map_some (λ m. (r ∷ m.0, m.1)) (mark f window now rs)

-- What the loop's end does to the capture. A new key is remembered.
unfoldable pub marked : Capture → Finding → ℕ → Option (List ReportedKey × Bool) → Capture × Bool
unfolding new_key
marked c f now (some (reported, true)) = (
  record c {
    reported = reported;
    stats = record (c.stats) { duplicates_suppressed = add64 c.stats.duplicates_suppressed 1 };
  },
  true,
)
marked c f now (some (reported, false)) = (record c { reported = reported }, false)
marked c f now none = (record c { reported = c.reported ++ new_key f now ∷ [] }, false)

-- `true` for a duplicate.
unfoldable pub dedupe_and_mark : Capture → Finding → ℕ → Capture × Bool
dedupe_and_mark c f now =
    if leb c.opts.dedup_window_ms 0
    then (c, false)
    else marked c f now (mark f (nanos c.opts.dedup_window_ms) now c.reported)

-- `if (!dedupe_and_mark(f)) on_finding(f);` with the finding that reaches the callback.
unfoldable pub report : Capture → Finding → ℕ → Capture × Option Finding
report c f now =
    let (c', duplicate) = dedupe_and_mark c f now in (c', if duplicate then none else some f)
