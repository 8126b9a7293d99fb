-- ===== src/Reactor/Lifecycle.antt =====
-- What the worker of async_io.cpp does with an operation of its table, whatever the cause.
use trinetra.Prelude.{
  ℕ, ◌+◌, ◌≤◌, ◌≡◌, ◌≢◌, refl, inl, inr, ◌∙◌, Bool, true, false, Option, none, some, arith, ◌⊎◌,
  if◌then◌else◌,
}
use trinetra.Reactor.Types.{OpResult, Stage, Context, System}
use trinetra.Reactor.Tables.{called, finish}
use trinetra.Reactor.Steps.{with_errno, expire_stage}
use trinetra.Reactor.Connect.{errno_of, advance_stage, advance}
use trinetra.Reactor.Effect.{
  Allowed, Same, Ended, Effect, Course, Closes, finish-Ended, finish-Books,
}
use trinetra.Reactor.Handlers.{Returns, expire_stage-Closes}
use trinetra.Reactor.Advance.{advance-Returns}
use trinetra.Reactor.Accounts.{IsWithin}
use trinetra.Reactor.Ends.{IsQuiet, IsSome, advance_ends}

-- What may happen to an operation of the table.
pub data Cause : Type 0 where
  ready : Bool → Bool → Cause
  too_late unwanted : Cause

abbrev pub handled : System → ℕ → Cause → Context → Option Context
handled sys fuel (Cause.ready failed writable) c = advance sys fuel failed writable c
handled sys fuel Cause.too_late c = some (expire_stage c.op.stage c)
handled sys fuel Cause.unwanted c = some (finish OpResult.cancelled c)

-- When the operation may go on: after an event, through its stages, but not where the event says
-- that the socket failed and the stage is a connect or a sending; after its deadline only if it
-- is in none of the stages that have one; never when it is cancelled.
abbrev pub GoesOn : System → Cause → Context → Context → Type 0
GoesOn sys (Cause.ready failed writable) c c' =
    Course sys c c'
    × (failed ≡ true → (c.op.stage ≢ Stage.connecting) × (c.op.stage ≢ Stage.sending))
GoesOn sys Cause.too_late c c' = (c.op.stage ≡ Stage.finished) × (c'.op.stage ≡ Stage.finished)
GoesOn sys Cause.unwanted c c' = ⊥

-- Where it may end, and how: after an event, at a point of its course, as the stage at that point
-- allows; after its deadline, at once, as its stage allows; and as cancelled.
abbrev pub EndsAs : System → Cause → Context → Context → OpResult → Type 0
EndsAs sys (Cause.ready failed writable) c d r = Course sys c d × Allowed d.op.stage r
EndsAs sys Cause.too_late c d r = (d ≡ c) × Allowed c.op.stage r
EndsAs sys Cause.unwanted c d r = (d ≡ c) × (r ≡ OpResult.cancelled)

pub data Refines (sys : System) (cause : Cause) (c : Context) : Option Context → Type 0 where
  goes_on : {c' : Context} → Same c c' → GoesOn sys cause c c' → Refines sys cause c (some c')
  is_done :
      {c' : Context} (r : OpResult) (d : Context)
      → Ended r c c'
      → EndsAs sys cause c d r
      → Ended r d c'
      → Refines sys cause c (some c')

abbrev Halts : Option Context → Type 0
Halts none = ⊥
Halts (some c') = c'.op.is_finished ≡ true

advance_stage-Halts :
    (sys : System) (fuel : ℕ) (writable : Bool) (s : Stage) (c : Context)
    → (s ≡ Stage.connecting) ⊎ (s ≡ Stage.sending)
    → Halts (advance_stage sys fuel s true writable c)
unfolding advance_stage
advance_stage-Halts sys fuel writable s c (inl at) =
    let c' = with_errno (errno_of sys (sys.socket_error c.shard.calls)) (called c) in
    rw at (finish-Books OpResult.connect_failed c').1
advance_stage-Halts sys fuel writable s c (inr at) =
    let c' = with_errno (errno_of sys (sys.socket_error c.shard.calls)) (called c) in
    rw at (finish-Books OpResult.send_failed c').1

-- A socket that failed ends a connect and a sending.
advance-Halts :
    (sys : System) (fuel : ℕ) (writable : Bool) (c : Context)
    → c.op.is_finished ≡ false
    → (c.op.stage ≡ Stage.connecting) ⊎ (c.op.stage ≡ Stage.sending)
    → Halts (advance sys fuel true writable c)
unfolding advance
advance-Halts sys fuel writable c alive at = live c.op.is_finished alive
  where
    live :
        (b : Bool)
        → b ≡ false
        → Halts (if b then some c else advance_stage sys fuel c.op.stage true writable c)
    live true e = absurd (ground (arith, e))
    live false e = advance_stage-Halts sys fuel writable c.op.stage c at

Returns-Refines :
    (sys : System) (failed writable : Bool) (c : Context) (m : Option Context)
    → c.op.is_finished ≡ false
    → IsSome m
    → (failed ≡ true → (c.op.stage ≡ Stage.connecting) ⊎ (c.op.stage ≡ Stage.sending) → Halts m)
    → Returns sys c m
    → Refines sys (Cause.ready failed writable) c m
Returns-Refines sys failed writable c none alive h halts r = elim h [ ]
Returns-Refines sys failed writable c (some c') alive h halts
      (Returns.effect (Effect.quiet p way)) =
    let going = p.is_finished ∙ alive in
    Refines.goes_on p (
      way,
      λ f. (
        λ at. let over = halts f (inl at) in absurd (ground (arith, going, over)),
        λ at. let over = halts f (inr at) in absurd (ground (arith, going, over)),
      ),
    )
Returns-Refines sys failed writable c (some c') alive h halts
      (Returns.effect (Effect.ended r d p way l a)) =
    Refines.is_done r d p (way, a) l

Closes-Refines :
    (sys : System) (c c' : Context)
    → c.op.is_finished ≡ false
    → Closes c c'
    → Refines sys Cause.too_late c (some c')
Closes-Refines sys c c' alive (Closes.rests p at (inl over)) = absurd (ground (arith, alive, over))
Closes-Refines sys c c' alive (Closes.rests p at (inr over)) = Refines.goes_on p (over, at ∙ over)
Closes-Refines sys c c' alive (Closes.ended r p a) = Refines.is_done r c p (refl, a) p

unwanted-Refines :
    (sys : System) (c : Context)
    → c.op.is_finished ≡ false
    → Refines sys Cause.unwanted c (some (finish OpResult.cancelled c))
unwanted-Refines sys c alive =
    let ends = finish-Ended OpResult.cancelled c alive in
    Refines.is_done OpResult.cancelled c ends (refl, refl) ends

-- An operation that is not completed and has fewer than `limit` bytes to write and to receive, a
-- system that stops interrupting calls at some call, and fuel for both: the handler returns.
-- After an event, the operation goes through stages, each left for the next one and only for its
-- reason: the socket has no error or the handshake is over, by the report of a call that was made
-- meanwhile, the payload is sent, or data has come. It goes on in the last of them with nothing
-- called back, or it is completed there with a result that this stage allows; it does not go on
-- where the event says that the socket failed during a connect or a sending. After its deadline
-- it is completed with a result that its own stage allows, unless it is in none of the five
-- stages, and a cancellation completes it as cancelled. A completion calls back once, with that
-- result, and forgets no other operation.
pub handled-Refines :
    (sys : System) (calm limit fuel : ℕ) (cause : Cause) (c : Context)
    → IsQuiet sys calm
    → limit + calm ≤ fuel
    → IsWithin limit c.op
    → c.op.is_finished ≡ false
    → Refines sys cause c (handled sys fuel cause c)
handled-Refines sys calm limit fuel (Cause.ready failed writable) c quiet enough w alive =
    Returns-Refines sys failed writable c _ alive
      (advance_ends sys calm quiet limit fuel enough failed writable c w)
      (λ f at. rw f (advance-Halts sys fuel writable c alive at))
      (advance-Returns sys fuel failed writable c)
handled-Refines sys calm limit fuel Cause.too_late c quiet enough w alive =
    Closes-Refines sys c _ alive (expire_stage-Closes c.op.stage c refl)
handled-Refines sys calm limit fuel Cause.unwanted c quiet enough w alive =
    unwanted-Refines sys c alive
