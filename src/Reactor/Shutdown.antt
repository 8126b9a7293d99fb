-- ===== src/Reactor/Shutdown.antt =====
-- What a shard of async_io.cpp promises: whoever submits an operation is called back, once.
use trinetra.Prelude.{
  Elem, ℕ, ◌+◌, ◌≤◌, ◌≡◌, refl, Bool, true, false, List, [], ◌∷◌, Option, none, some,
}
use trinetra.Reactor.Types.{Context, System}
use trinetra.Reactor.Tables.{find_op}
use trinetra.Reactor.Connect.{begin_connect, advance}
use trinetra.Reactor.Worker.{
  Worker, ◌>>=◌, context, written, try_op, try_each, Event, any_wake, on_found, on_event, on_events,
  drain_pending, final_cleanup, on_wake, worker_round, shutdown, submit, cancel,
}
use trinetra.Reactor.Begin.{begin_connect-Begins}
use trinetra.Reactor.Accounts.{Accounts, IsWithin, count_of}
use trinetra.Reactor.Once.{
  Keeps, Balanced, IsBalanced, settled, taken, try_op-dequeue, on_event-Keeps, on_events-Keeps,
  drain_pending-Keeps, on_wake-IsBalanced, worker_round-IsBalanced,
}
use trinetra.Reactor.Run.{
  Action, act, run, submitted, IsNew, new-Balanced, submit-Balanced, cancel-Balanced,
  final_cleanup-Balanced, run-IsBalanced, completed_once,
}
use trinetra.Reactor.Ends.{IsQuiet, IsSome, advance_ends, begin_connect_ends}

Keeps-bind_ends :
    {limit : ℕ} {s q p : List ℕ} (m : Option Worker) (f : Worker → Option Worker)
    → Keeps limit s q p m
    → IsSome m
    → ((w : Worker) → Accounts limit s q p w → IsSome (f w))
    → IsSome (m >>= f)
Keeps-bind_ends none f k h g = elim h [ ]
Keeps-bind_ends (some w) f (Keeps.keeps a) h g = g w a

IsBalanced-bind_ends :
    {limit : ℕ} {s : List ℕ} (m : Option Worker) (f : Worker → Option Worker)
    → IsBalanced limit s m
    → IsSome m
    → ((w : Worker) → Balanced limit s w → IsSome (f w))
    → IsSome (m >>= f)
IsBalanced-bind_ends none f k h g = elim h [ ]
IsBalanced-bind_ends (some w) f (IsBalanced.balanced a) h g = g w a

written_ends :
    (id : ℕ) (w : Worker) (m : Option Context)
    → IsSome m
    → IsSome (m >>= (λ c. some (written id w c)))
written_ends id w none h = elim h [ ]
written_ends id w (some c) h = IsSome.is_some

module _ (sys : System) (calm limit fuel : ℕ) (quiet : IsQuiet sys calm)
    (enough : limit + calm ≤ fuel) where
  on_found_ends :
      (found : Option ℕ) (failed writable : Bool) (w : Worker)
      → ((id : ℕ) → IsWithin limit (w.store id))
      → IsSome (on_found sys fuel found failed writable w)
  on_found_ends none failed writable w h = IsSome.is_some
  on_found_ends (some id) failed writable w h =
      written_ends id w (advance sys fuel failed writable (context id w))
        (advance_ends sys calm quiet limit fuel enough failed writable (context id w) (h id))

  on_event_ends :
      (e : Event) (w : Worker)
      → ((id : ℕ) → IsWithin limit (w.store id))
      → IsSome (on_event sys fuel e w)
  unfolding on_event
  on_event_ends Event.wake w h = IsSome.is_some
  on_event_ends (Event.ready fd failed writable) w h =
      on_found_ends (find_op fd w.shard.ops) failed writable w h

  on_events_ends :
      (s q p : List ℕ) (es : List Event) (w : Worker)
      → Accounts limit s q p w
      → IsSome (on_events sys fuel es w)
  unfolding on_events
  on_events_ends s q p [] w a = IsSome.is_some
  on_events_ends s q p (e ∷ es) w a =
      Keeps-bind_ends (on_event sys fuel e w) _ (on_event-Keeps sys fuel e w a)
        (on_event_ends e w a.given) (λ v b. on_events_ends s q p es v b)

  try_each_ends :
      (s p : List ℕ) (ids : List ℕ) (w : Worker)
      → Accounts limit s ids p w
      → IsSome (try_each (λ id. try_op id (begin_connect sys fuel)) ids w)
  unfolding try_each
  try_each_ends s p [] w a = IsSome.is_some
  try_each_ends s p (id ∷ ids) w a =
      Keeps-bind_ends (try_op id (begin_connect sys fuel) w) _
        (try_op-dequeue id w a (begin_connect-Begins sys fuel (context id w)))
        (written_ends id w (begin_connect sys fuel (context id w))
          (begin_connect_ends sys calm quiet limit fuel enough (context id w) (a.given id)))
        (λ v b. try_each_ends s p ids v b)

  on_wake_ends :
      (s : List ℕ) (b : Bool) (w : Worker) → Balanced limit s w → IsSome (on_wake sys fuel b w)
  unfolding drain_pending
  on_wake_ends s false w a = IsSome.is_some
  on_wake_ends s true w a =
      Keeps-bind_ends (drain_pending sys fuel w) _ (drain_pending-Keeps sys fuel w a)
        (try_each_ends s [] w.shard.pending _ (taken w a)) (λ v b. IsSome.is_some)

  worker_round_ends :
      (s : List ℕ) (events : List Event) (now : ℕ) (w : Worker)
      → Balanced limit s w
      → IsSome (worker_round sys fuel events now w)
  unfolding worker_round
  worker_round_ends s events now w a =
      Keeps-bind_ends (on_events sys fuel events w) _ (on_events-Keeps sys fuel events w a)
        (on_events_ends s w.shard.pending w.shard.pending events w a)
        λ v b.
          IsBalanced-bind_ends (on_wake sys fuel (any_wake sys fuel events) v) _
            (on_wake-IsBalanced sys fuel (any_wake sys fuel events) v (settled v b))
            (on_wake_ends s (any_wake sys fuel events) v (settled v b)) (λ u d. IsSome.is_some)

  run_ends :
      (s : List ℕ) (actions : List Action) (w : Worker)
      → Balanced limit s w
      → IsSome (run sys fuel actions w)
  unfolding run act
  run_ends s [] w a = IsSome.is_some
  run_ends s (Action.submission id ∷ rest) w a =
      run_ends (id ∷ s) rest (submit id w) (submit-Balanced id w a)
  run_ends s (Action.cancellation id ∷ rest) w a =
      run_ends s rest (cancel id w) (cancel-Balanced id w a)
  run_ends s (Action.round events now ∷ rest) w a =
      IsBalanced-bind_ends (worker_round sys fuel events now w) _
        (worker_round-IsBalanced sys fuel events now w a) (worker_round_ends s events now w a)
        (λ v b. run_ends s rest v b)
  run_ends s (Action.leave ∷ rest) w a =
      run_ends s rest (final_cleanup w) (final_cleanup-Balanced w a)

-- What it is for every submitted operation to be called back once.
abbrev pub CompletesOnce : List ℕ → Option Worker → Type 0
CompletesOnce s none = ⊥
CompletesOnce s (some w) = (id : ℕ) → Elem id s → count_of id (shutdown w).shard.completed ≡ 1

completes :
    {limit : ℕ} {s : List ℕ} (m : Option Worker)
    → IsSome m
    → IsBalanced limit s m
    → CompletesOnce s m
completes none h b = elim h [ ]
completes (some w) h b = λ id sub. completed_once w id refl b sub

-- A new shard, a system that stops interrupting calls at some call, and fuel for the most that an
-- operation has to write and to read. Whatever is submitted and cancelled, whatever events come
-- and whatever the system answers, also where the worker leaves its loop early: every round of the
-- worker ends, and when the shard is shut down in the end, every operation that was submitted has
-- been called back exactly once.
pub run-CompletesOnce :
    (sys : System) (calm limit fuel : ℕ) (actions : List Action) (w : Worker)
    → IsQuiet sys calm
    → limit + calm ≤ fuel
    → IsNew limit w
    → CompletesOnce (submitted actions []) (run sys fuel actions w)
run-CompletesOnce sys calm limit fuel actions w quiet enough new =
    let a = new-Balanced w new in
    completes (run sys fuel actions w) (run_ends sys calm limit fuel quiet enough [] actions w a)
      (run-IsBalanced sys fuel actions w a)
