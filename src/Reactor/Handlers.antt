-- ===== src/Reactor/Handlers.antt =====
-- What a handler of async_io.cpp may return, and the effect of the ends of a stage.
use trinetra.Prelude.{
  ℕ, ◌≡◌, refl, inr, Bool, true, false, Option, none, some, arith, if◌then◌else◌,
}
use trinetra.Reactor.Types.{Proto, OpResult, Stage, Context, System}
use trinetra.Reactor.Tables.{called, finish}
use trinetra.Reactor.Steps.{
  is_empty, with_errno, with_stage, with_error, timeout_or_success, fail_stage, expire_stage, armed,
  wait_noted,
}
use trinetra.Reactor.Effect.{
  Same, Effect, Moves, Moves-Effect, IsFurther-from, Closes, Same-Closes, finish-Closes, stays,
  Allowed, Same-refl, Same-from, Same-Effect, finish_at,
}

-- What a handler returns, when it returns.
pub data Returns (sys : System) (c : Context) : Option Context → Type 0 where
  out_of_fuel : Returns sys c none
  effect : {c' : Context} → Effect sys c c' → Returns sys c (some c')

pub Returns-if :
    {sys : System} {c : Context} {x y : Option Context} (b : Bool)
    → (b ≡ true → Returns sys c x)
    → (b ≡ false → Returns sys c y)
    → Returns sys c (if b then x else y)
Returns-if true h k = h refl
Returns-if false h k = k refl

pub Same-Returns :
    {sys : System} {c d : Context} {m : Option Context}
    → Same c d
    → d.op.stage ≡ c.op.stage
    → Returns sys d m
    → Returns sys c m
Same-Returns p at Returns.out_of_fuel = Returns.out_of_fuel
Same-Returns p at (Returns.effect e) = Returns.effect (Same-Effect p at e)

pub Moves-Returns :
    {sys : System} {c d : Context} {m : Option Context}
    → Moves sys c d
    → Returns sys d m
    → Returns sys c m
Moves-Returns p Returns.out_of_fuel = Returns.out_of_fuel
Moves-Returns p (Returns.effect e) = Returns.effect (Moves-Effect p e)

-- The stages in which data is awaited, with the results that both may have.
pub data IsReceiving : Stage → Type 0 where
  recv_first : IsReceiving Stage.recv_first
  recv_idle : IsReceiving Stage.recv_idle

pub success-Allowed : {s : Stage} → IsReceiving s → Allowed s OpResult.success
success-Allowed IsReceiving.recv_first = Allowed.answered
success-Allowed IsReceiving.recv_idle = Allowed.ended

timeout-Allowed : {s : Stage} → IsReceiving s → Allowed s OpResult.timeout
timeout-Allowed IsReceiving.recv_first = Allowed.no_answer
timeout-Allowed IsReceiving.recv_idle = Allowed.nothing_more

pub if-Allowed :
    {s : Stage} (b : Bool)
    → IsReceiving s
    → Allowed s (if b then OpResult.timeout else OpResult.success)
if-Allowed true w = timeout-Allowed w
if-Allowed false w = success-Allowed w

finish_received :
    {sys : System} (s : Stage) (c : Context)
    → c.op.stage ≡ s
    → IsReceiving s
    → Effect sys c (finish (timeout_or_success c) c)
finish_received s c at w =
    finish_at (timeout_or_success c) s c at (if-Allowed (is_empty c.op.recv_data) w)

pub with_errno-Same : (e : ℕ) (c : Context) → Same c (with_errno e c)
with_errno-Same e c =
    Same-from (refl, refl, refl, refl, refl, refl, refl) (omega arith)
      (IsFurther-from refl (omega arith) (omega arith))

fail_stage-Effect :
    {sys : System} (s : Stage) (c : Context) → c.op.stage ≡ s → Effect sys c (fail_stage s c)
unfolding fail_stage
fail_stage-Effect Stage.connecting c at = finish_at _ _ c at Allowed.connect_failed
fail_stage-Effect Stage.tls_handshake c at = finish_at _ _ c at Allowed.tls_failed
fail_stage-Effect Stage.sending c at = finish_at _ _ c at Allowed.send_failed
fail_stage-Effect Stage.recv_first c at = finish_received _ c at IsReceiving.recv_first
fail_stage-Effect Stage.recv_idle c at = finish_received _ c at IsReceiving.recv_idle
fail_stage-Effect Stage.finished c at = stays (Same-refl c) refl

-- A deadline that has passed ends the operation as its stage allows.
pub expire_stage-Closes : (s : Stage) (c : Context) → c.op.stage ≡ s → Closes c (expire_stage s c)
unfolding expire_stage
expire_stage-Closes Stage.connecting c at =
    Same-Closes (with_errno-Same 110 c) refl (finish-Closes _ _ _ at Allowed.connect_failed)
expire_stage-Closes Stage.tls_handshake c at = finish-Closes _ _ c at Allowed.tls_failed
expire_stage-Closes Stage.sending c at = finish-Closes _ _ c at Allowed.send_failed
expire_stage-Closes Stage.recv_first c at =
    finish-Closes _ _ c at (if-Allowed (is_empty c.op.recv_data) IsReceiving.recv_first)
expire_stage-Closes Stage.recv_idle c at = finish-Closes _ _ c at Allowed.ended
expire_stage-Closes Stage.finished c at = Closes.rests (Same-refl c) refl (inr at)

pub armed-Effect :
    {sys : System} (o : Option ℕ) (want_write : Bool) (c : Context)
    → Effect sys c (armed o want_write c)
armed-Effect none want_write c =
    stays
      (Same-from (refl, refl, refl, refl, refl, refl, refl) (omega arith)
        (IsFurther-from refl (omega arith) (omega arith)))
      refl
armed-Effect (some e) want_write c =
    Same-Effect (with_errno-Same e c) refl (fail_stage-Effect c.op.stage (with_errno e c) refl)

pub wait_noted-Same :
    (p : Proto) (e : ℕ) (c : Context)
    → Same c (wait_noted p e c) × ((wait_noted p e c).op.stage ≡ c.op.stage)
wait_noted-Same Proto.tcp e c = (Same-refl c, refl)
wait_noted-Same Proto.tls e c = (
  Same-from (refl, refl, refl, refl, refl, refl, refl) (omega arith)
      (IsFurther-from refl (omega arith) (omega arith)),
  refl,
)

pub with_error-Same :
    (p : Proto) (e : ℕ) (c : Context)
    → Same c (with_error p e c) × ((with_error p e c).op.stage ≡ c.op.stage)
with_error-Same Proto.tcp e c = (with_errno-Same e c, refl)
with_error-Same Proto.tls e c = (
  Same-from (refl, refl, refl, refl, refl, refl, refl) (omega arith)
      (IsFurther-from refl (omega arith) (omega arith)),
  refl,
)

pub called-Same : (c : Context) → Same c (called c)
called-Same c =
    Same-from (refl, refl, refl, refl, refl, refl, refl) (omega arith)
      (IsFurther-from refl (omega arith) (omega arith))

pub with_stage-Same : (s : Stage) (c : Context) → Same c (with_stage s c)
with_stage-Same s c =
    Same-from (refl, refl, refl, refl, refl, refl, refl) (omega arith)
      (IsFurther-from refl (omega arith) (omega arith))
