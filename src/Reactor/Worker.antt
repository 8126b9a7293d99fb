-- ===== src/Reactor/Worker.antt =====
-- The worker of async_io.cpp: events, queued operations, cancellations, deadlines and the end.
-- The objects of the operations are kept by their addresses.
use trinetra.Prelude.{
  ℕ, Bool, true, false, not, ◌||◌, List, [], ◌∷◌, ◌++◌, Option, none, some, leb, ◌==◌,
  if◌then◌else◌, map,
}
use trinetra.Reactor.Types.{OpResult, Operation, EpollShard, Context, System}
use trinetra.Reactor.Tables.{find_op, finish}
use trinetra.Reactor.Steps.{expire_stage}
use trinetra.Reactor.Connect.{advance, begin_connect}

pub record Worker : Type 0 where
  pub shard : EpollShard
  pub store : ℕ → Operation

infixl 5 ◌>>=◌
abbrev pub ◌>>=◌ {ℓ κ} : {A : Type ℓ} {B : Type κ} → Option A → (A → Option B) → Option B
none >>= f = none
some a >>= f = f a

abbrev pub context : ℕ → Worker → Context
context id w = record { shard = w.shard; op = w.store id }

-- The handler's operation is written back to its object.
abbrev pub written : ℕ → Worker → Context → Worker
written id w c = record { shard = c.shard; store = λ n. if n == id then c.op else w.store n }

abbrev pub on_op : ℕ → (Context → Context) → Worker → Worker
on_op id f w = written id w (f (context id w))

abbrev pub try_op : ℕ → (Context → Option Context) → Worker → Option Worker
try_op id f w = do c ← f (context id w); some (written id w c)

-- One handler after the other, over a list of operations.
unfoldable pub for_each : (ℕ → Worker → Worker) → List ℕ → Worker → Worker
for_each f [] w = w
for_each f (id ∷ ids) w = for_each f ids (f id w)

unfoldable pub try_each : (ℕ → Worker → Option Worker) → List ℕ → Worker → Option Worker
try_each f [] w = some w
try_each f (id ∷ ids) w = do w' ← f id w; try_each f ids w'

abbrev pub finish_op : OpResult → ℕ → Worker → Worker
finish_op r id = on_op id (finish r)

-- An event that the queue reports: the wake-up, or a descriptor with its flags.
pub data Event : Type 0 where
  wake : Event
  ready : ℕ → Bool → Bool → Event

abbrev pub is_wake : Event → Bool
is_wake Event.wake = true
is_wake (Event.ready fd failed writable) = false

-- An entry is passed over if it is not the current deadline of the operation at its descriptor.
abbrev pub picked : (ℕ → Operation) → ℕ → Option ℕ → List ℕ × List (ℕ × ℕ) → List ℕ × List (ℕ × ℕ)
picked store time none rest = rest
picked store time (some id) rest =
    if (store id).stage_deadline == time then (id ∷ rest.0, rest.1) else rest

-- The operations whose current deadline has passed, and the deadlines that are left.
unfoldable pub expired : (ℕ → Operation) → List (ℕ × ℕ) → ℕ → List (ℕ × ℕ) → List ℕ × List (ℕ × ℕ)
unfolding find_op
expired store ops now [] = ([], [])
expired store ops now ((time, fd) ∷ ds) =
    let rest = expired store ops now ds in
    if leb time now then picked store time (find_op fd ops) rest else ([], (time, fd) ∷ ds)

abbrev pub expire_op : ℕ → Worker → Worker
expire_op id = on_op id (λ c. expire_stage c.op.stage c)

unfoldable pub sweep_timeouts : ℕ → Worker → Worker
unfolding expired for_each expire_stage
sweep_timeouts now w =
    let (ids, left) = expired w.store w.shard.ops now w.shard.deadlines in
    for_each expire_op ids (record w { shard = record (w.shard) { deadlines = left } })

-- The operations of the table that are to be cancelled.
unfoldable pub cancelled_ops : (ℕ → Operation) → List (ℕ × ℕ) → List ℕ
cancelled_ops store [] = []
cancelled_ops store ((fd, id) ∷ ops) =
    let rest = cancelled_ops store ops in if (store id).cancel_requested then id ∷ rest else rest

unfoldable pub process_cancellations : Worker → Worker
unfolding cancelled_ops for_each finish
process_cancellations w =
    for_each (finish_op OpResult.cancelled) (cancelled_ops w.store w.shard.ops) w

module _ (sys : System) (fuel : ℕ) where
  unfoldable pub drain_pending : Worker → Option Worker
  unfolding try_each begin_connect
  drain_pending w =
      try_each (λ id. try_op id (begin_connect sys fuel)) w.shard.pending
        (record w { shard = record (w.shard) { pending = [] } })

  -- An event of a descriptor that is not in the table is passed over.
  abbrev pub on_found : Option ℕ → Bool → Bool → Worker → Option Worker
  on_found none failed writable w = some w
  on_found (some id) failed writable w = try_op id (advance sys fuel failed writable) w

  unfoldable pub on_event : Event → Worker → Option Worker
  unfolding find_op advance
  on_event Event.wake w = some w
  on_event (Event.ready fd failed writable) w = on_found (find_op fd w.shard.ops) failed writable w

  unfoldable pub on_events : List Event → Worker → Option Worker
  unfolding on_event
  on_events [] w = some w
  on_events (e ∷ es) w = do w' ← on_event e w; on_events es w'

  abbrev pub any_wake : List Event → Bool
  any_wake [] = false
  any_wake (e ∷ es) = is_wake e || any_wake es

  abbrev pub on_wake : Bool → Worker → Option Worker
  on_wake false w = some w
  on_wake true w = do w' ← drain_pending w; some (process_cancellations w')

  -- A round of the worker's loop, for the events that came, and the time of its sweep.
  unfoldable pub worker_round : List Event → ℕ → Worker → Option Worker
  unfolding on_events drain_pending process_cancellations sweep_timeouts
  worker_round events now w = do
    w' ← on_events events w
    w'' ← on_wake (any_wake events) w'
    some (sweep_timeouts now w'')

-- The end of the worker's loop: what is queued or in the table is cancelled.
unfoldable pub final_cleanup : Worker → Worker
unfolding for_each finish
final_cleanup w =
    let w' =
      for_each (finish_op OpResult.cancelled) w.shard.pending
        (record w { shard = record (w.shard) { pending = [] } }) in
    for_each (finish_op OpResult.cancelled) (map (λ (e : ℕ × ℕ). e.1) w'.shard.ops) w'

-- What the other threads do: a shard that is closed completes the operation at once.
unfoldable pub submit : ℕ → Worker → Worker
unfolding finish
submit id w =
    if not w.shard.closed
    then record w { shard = record (w.shard) { pending = w.shard.pending ++ id ∷ [] } }
    else finish_op OpResult.cancelled id w

unfoldable pub cancel : ℕ → Worker → Worker
cancel id w =
    written id w (record { shard = w.shard; op = record (w.store id) { cancel_requested = true } })

-- The shard's part of `shutdown`, after the worker is gone.
unfoldable pub shutdown : Worker → Worker
unfolding final_cleanup
shutdown w = final_cleanup (record w { shard = record (w.shard) { closed = true } })
