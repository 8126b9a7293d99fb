-- ===== src/Reactor/Once.antt =====
-- A run of a worker of async_io.cpp, and the end of it: nothing is left waiting, and nothing is
-- completed twice.
use trinetra.Prelude.{ℕ, refl, subst, sym, Bool, true, false, List, [], ◌∷◌, Option, none, some}
use trinetra.Reactor.Types.{OpResult, Context, System}
use trinetra.Reactor.Tables.{find_op}
use trinetra.Reactor.Connect.{begin_connect}
use trinetra.Reactor.Worker.{
  Worker, ◌>>=◌, context, written, try_op, finish_op, for_each, try_each, Event, expired, expire_op,
  sweep_timeouts, cancelled_ops, process_cancellations, drain_pending, on_found, on_event,
  on_events, any_wake, on_wake, worker_round,
}
use trinetra.Reactor.Effect.{Effect-Books, Closes-Books, finish-Books}
use trinetra.Reactor.Handlers.{Returns, expire_stage-Closes}
use trinetra.Reactor.Advance.{advance-Returns}
use trinetra.Reactor.Begin.{Begins, begin_connect-Begins}
use trinetra.Reactor.Accounts.{
  Accounts, Accounts-Split, Split-Accounts, Books-Split, Entered-Split, dequeue-Split,
}

-- Where a function that may run out of fuel returns.
pub data Keeps (limit : ℕ) (s q p : List ℕ) : Option Worker → Type 0 where
  out_of_fuel : Keeps limit s q p none
  keeps : {w : Worker} → Accounts limit s q p w → Keeps limit s q p (some w)

Keeps-bind :
    {limit : ℕ} {s q p q' p' : List ℕ} (m : Option Worker) (f : Worker → Option Worker)
    → Keeps limit s q p m
    → ((w : Worker) → Accounts limit s q p w → Keeps limit s q' p' (f w))
    → Keeps limit s q' p' (m >>= f)
Keeps-bind none f k g = Keeps.out_of_fuel
Keeps-bind (some w) f (Keeps.keeps a) g = g w a

module _ {limit : ℕ} {s q p : List ℕ} where
  pub finish_op-Accounts :
      (r : OpResult) (id : ℕ) (w : Worker)
      → Accounts limit s q p w
      → Accounts limit s q p (finish_op r id w)
  finish_op-Accounts r id w a =
      let b = finish-Books r (context id w) in
      Split-Accounts w _ (Books-Split w.store _ _ b.0 (Accounts-Split w a))

  pub finish_op-dequeue :
      (r : OpResult) (id : ℕ) (w : Worker)
      → Accounts limit s (id ∷ q) p w
      → Accounts limit s q p (finish_op r id w)
  finish_op-dequeue r id w a =
      let b = finish-Books r (context id w) in
      Split-Accounts w _
        (dequeue-Split w.store _ b.1 (Books-Split w.store _ _ b.0 (Accounts-Split w a)))

  pub finish_each-Accounts :
      (r : OpResult) (ids : List ℕ) (w : Worker)
      → Accounts limit s q p w
      → Accounts limit s q p (for_each (finish_op r) ids w)
  unfolding for_each
  finish_each-Accounts r [] w a = a
  finish_each-Accounts r (id ∷ ids) w a =
      finish_each-Accounts r ids (finish_op r id w) (finish_op-Accounts r id w a)

  expire_each-Accounts :
      (ids : List ℕ) (w : Worker)
      → Accounts limit s q p w
      → Accounts limit s q p (for_each expire_op ids w)
  unfolding for_each
  expire_each-Accounts [] w a = a
  expire_each-Accounts (id ∷ ids) w a =
      let e = expire_stage-Closes (w.store id).stage (context id w) refl in
      expire_each-Accounts ids (expire_op id w)
        (Split-Accounts w _ (Books-Split w.store _ _ (Closes-Books e) (Accounts-Split w a)))

  try_op-Keeps :
      {sys : System} (id : ℕ) (w : Worker) {m : Option Context}
      → Accounts limit s q p w
      → Returns sys (context id w) m
      → Keeps limit s q p (m >>= (λ c. some (written id w c)))
  try_op-Keeps id w a Returns.out_of_fuel = Keeps.out_of_fuel
  try_op-Keeps id w a (Returns.effect {c'} e) = Keeps.keeps (
      Split-Accounts w c'
        (Books-Split w.store (context id w) c' (Effect-Books e) (Accounts-Split w a)))

  pub try_op-dequeue :
      (id : ℕ) (w : Worker) {m : Option Context}
      → Accounts limit s (id ∷ q) p w
      → Begins (context id w) m
      → Keeps limit s q p (m >>= (λ c. some (written id w c)))
  try_op-dequeue id w a Begins.out_of_fuel = Keeps.out_of_fuel
  try_op-dequeue id w a (Begins.ends {c'} b f) = Keeps.keeps (
      Split-Accounts w c'
        (dequeue-Split w.store c' f (Books-Split w.store (context id w) c' b (Accounts-Split w a))))
  try_op-dequeue id w a (Begins.enters {c'} fd d m e) = Keeps.keeps (
      Split-Accounts w c' (
        Books-Split w.store d c' e
          (Entered-Split w.store fd (context id w) d m (Accounts-Split w a))))

  on_found-Keeps :
      (sys : System) (fuel : ℕ) (found : Option ℕ) (failed writable : Bool) (w : Worker)
      → Accounts limit s q p w
      → Keeps limit s q p (on_found sys fuel found failed writable w)
  on_found-Keeps sys fuel none failed writable w a = Keeps.keeps a
  on_found-Keeps sys fuel (some id) failed writable w a =
      try_op-Keeps id w a (advance-Returns sys fuel failed writable (context id w))

  pub on_event-Keeps :
      (sys : System) (fuel : ℕ) (e : Event) (w : Worker)
      → Accounts limit s q p w
      → Keeps limit s q p (on_event sys fuel e w)
  unfolding on_event
  on_event-Keeps sys fuel Event.wake w a = Keeps.keeps a
  on_event-Keeps sys fuel (Event.ready fd failed writable) w a =
      on_found-Keeps sys fuel (find_op fd w.shard.ops) failed writable w a

  pub on_events-Keeps :
      (sys : System) (fuel : ℕ) (es : List Event) (w : Worker)
      → Accounts limit s q p w
      → Keeps limit s q p (on_events sys fuel es w)
  unfolding on_events
  on_events-Keeps sys fuel [] w a = Keeps.keeps a
  on_events-Keeps sys fuel (e ∷ es) w a =
      Keeps-bind (on_event sys fuel e w) _ (on_event-Keeps sys fuel e w a)
        (λ w' b. on_events-Keeps sys fuel es w' b)

  sweep_timeouts-Accounts :
      (now : ℕ) (w : Worker) → Accounts limit s q p w → Accounts limit s q p (sweep_timeouts now w)
  unfolding sweep_timeouts
  sweep_timeouts-Accounts now w a =
      expire_each-Accounts (expired w.store w.shard.ops now w.shard.deadlines).0 _
        (record { own = a.own; once = a.once; kept = a.kept; waiting = a.waiting; given = a.given })

  pub process_cancellations-Accounts :
      (w : Worker) → Accounts limit s q p w → Accounts limit s q p (process_cancellations w)
  unfolding process_cancellations
  process_cancellations-Accounts w a =
      finish_each-Accounts OpResult.cancelled (cancelled_ops w.store w.shard.ops) w a

pub dequeue_each :
    {limit : ℕ} {s p : List ℕ} (r : OpResult) (ids : List ℕ) (w : Worker)
    → Accounts limit s ids p w
    → Accounts limit s [] p (for_each (finish_op r) ids w)
unfolding for_each
dequeue_each r [] w a = a
dequeue_each r (id ∷ ids) w a = dequeue_each r ids (finish_op r id w) (finish_op-dequeue r id w a)

try_each-dequeue :
    {limit : ℕ} {s p : List ℕ} (sys : System) (fuel : ℕ) (ids : List ℕ) (w : Worker)
    → Accounts limit s ids p w
    → Keeps limit s [] p (try_each (λ id. try_op id (begin_connect sys fuel)) ids w)
unfolding try_each
try_each-dequeue sys fuel [] w a = Keeps.keeps a
try_each-dequeue sys fuel (id ∷ ids) w a =
    Keeps-bind (try_op id (begin_connect sys fuel) w) _
      (try_op-dequeue id w a (begin_connect-Begins sys fuel (context id w)))
      (λ w' b. try_each-dequeue sys fuel ids w' b)

-- The queue of the books is the queue of the shard.
abbrev pub Balanced : ℕ → List ℕ → Worker → Type 0
Balanced limit s w = Accounts limit s w.shard.pending w.shard.pending w

pub settled : {limit : ℕ} {s p : List ℕ} (w : Worker) → Accounts limit s p p w → Balanced limit s w
settled {limit} {s} w a = subst (λ t. Accounts limit s t t w) (sym a.waiting) a

-- The queue is taken out of the shard.
pub taken :
    {limit : ℕ} {s : List ℕ} (w : Worker)
    → Balanced limit s w
    → Accounts limit s w.shard.pending [] (record w { shard = record (w.shard) { pending = [] } })
taken w a = record { own = a.own; once = a.once; kept = a.kept; waiting = refl; given = a.given }

pub drain_pending-Keeps :
    {limit : ℕ} {s : List ℕ} (sys : System) (fuel : ℕ) (w : Worker)
    → Balanced limit s w
    → Keeps limit s [] [] (drain_pending sys fuel w)
unfolding drain_pending
drain_pending-Keeps sys fuel w a = try_each-dequeue sys fuel w.shard.pending _ (taken w a)

-- What a round leaves.
pub data IsBalanced (limit : ℕ) (s : List ℕ) : Option Worker → Type 0 where
  out_of_fuel : IsBalanced limit s none
  balanced : {w : Worker} → Balanced limit s w → IsBalanced limit s (some w)

pub Keeps-IsBalanced :
    {limit : ℕ} {s p : List ℕ} {m : Option Worker} → Keeps limit s p p m → IsBalanced limit s m
Keeps-IsBalanced Keeps.out_of_fuel = IsBalanced.out_of_fuel
Keeps-IsBalanced (Keeps.keeps a) = IsBalanced.balanced (settled _ a)

pub IsBalanced-bind :
    {limit : ℕ} {s s' : List ℕ} (m : Option Worker) (f : Worker → Option Worker)
    → IsBalanced limit s m
    → ((w : Worker) → Balanced limit s w → IsBalanced limit s' (f w))
    → IsBalanced limit s' (m >>= f)
IsBalanced-bind none f k g = IsBalanced.out_of_fuel
IsBalanced-bind (some w) f (IsBalanced.balanced a) g = g w a

pub on_wake-IsBalanced :
    {limit : ℕ} {s : List ℕ} (sys : System) (fuel : ℕ) (b : Bool) (w : Worker)
    → Balanced limit s w
    → IsBalanced limit s (on_wake sys fuel b w)
on_wake-IsBalanced sys fuel false w a = IsBalanced.balanced a
on_wake-IsBalanced sys fuel true w a =
    IsBalanced-bind (drain_pending sys fuel w) _
      (Keeps-IsBalanced (drain_pending-Keeps sys fuel w a))
      (λ w' b. IsBalanced.balanced (settled _ (process_cancellations-Accounts w' b)))

pub worker_round-IsBalanced :
    {limit : ℕ} {s : List ℕ} (sys : System) (fuel : ℕ) (events : List Event) (now : ℕ) (w : Worker)
    → Balanced limit s w
    → IsBalanced limit s (worker_round sys fuel events now w)
unfolding worker_round
worker_round-IsBalanced sys fuel events now w a =
    IsBalanced-bind (on_events sys fuel events w) _
      (Keeps-IsBalanced (on_events-Keeps sys fuel events w a))
      λ w' b.
        IsBalanced-bind (on_wake sys fuel (any_wake sys fuel events) w') _
          (on_wake-IsBalanced sys fuel (any_wake sys fuel events) w' b)
          (λ v d. IsBalanced.balanced (settled _ (sweep_timeouts-Accounts now v d)))
