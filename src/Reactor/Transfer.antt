-- ===== src/Reactor/Transfer.antt =====
-- What the loops of async_io.cpp that write and read do to an operation and to its shard.
use trinetra.Prelude.{
  ℕ, zero, suc, ◌+◌, ◌*◌, ◌/◌, ◌≤◌, ◌≡◌, refl, subst, sym, ◌∙◌, Bool, true, false, ◌∷◌, Option,
  arith, ltb, leb, ltb-false, length-append, ◌<◌, if◌then◌else◌, length,
}
use Prim.Native.Nat.{max}
use trinetra.Reactor.Types.{Proto, OpResult, Stage, Context, WriteResult, ReadResult, System}
use trinetra.Reactor.Tables.{called, set_deadline}
use trinetra.Reactor.Steps.{
  is_empty, with_errno, with_stage, with_error, with_wait, timeout_or_success, arm, with_ssl_error,
  to_recv_first, with_sent, on_write, write_call, step_sending, on_first_data, with_data,
  read_failed, on_read, capacity, read_call, step_recv,
}
use trinetra.Reactor.Effect.{
  Same, Effect, Moves, Moves-Effect, Allowed, IsFurther-from, Same-from, Same-trans, Same-Effect,
  finish_at, set_deadline-Same,
}
use trinetra.Reactor.Handlers.{
  Returns, Returns-if, Same-Returns, IsReceiving, success-Allowed, if-Allowed, with_errno-Same,
  armed-Effect, wait_noted-Same, with_error-Same, called-Same, with_stage-Same, Moves-Returns,
}

module _ (sys : System) where
  pub arm-Effect : (want_write : Bool) (c : Context) → Effect sys c (arm sys want_write c)
  unfolding arm
  arm-Effect want_write c =
      Same-Effect (called-Same c) refl
        (armed-Effect (sys.epoll_ctl c.shard.calls) want_write (called c))

  -- The noting of a wait, and then the arming.
  wait-Effect :
      (want_write : Bool) (e : ℕ) (c : Context) → Effect sys c (arm sys want_write (with_wait e c))
  wait-Effect want_write e c =
      let w = wait_noted-Same c.op.proto e c in
      Same-Effect w.0 w.1 (arm-Effect want_write (with_wait e c))

  -- A new stage with a deadline.
  pub staged-Same :
      (s : Stage) (budget : ℕ) (c : Context)
      → Same c (set_deadline sys budget (with_stage s c))
        × ((set_deadline sys budget (with_stage s c)).op.stage ≡ s)
  staged-Same s budget c =
      let d = set_deadline-Same sys budget (with_stage s c) in
      (Same-trans (with_stage-Same s c) d.0, d.1)

  to_recv_first-Effect :
      (c : Context)
      → c.op.stage ≡ Stage.sending
      → length c.op.send_payload ≤ c.op.sent
      → Effect sys c (to_recv_first sys c)
  unfolding to_recv_first
  to_recv_first-Effect c at all =
      let d = staged-Same Stage.recv_first (max 1 c.op.timeouts.first_byte_sec * 1000) c in
      Moves-Effect (Moves.sent d.0 at all d.1) (arm-Effect false _)

  on_write-Returns :
      (w : WriteResult) (c : Context) (again : Context → Option Context)
      → c.op.stage ≡ Stage.sending
      → ((d : Context) → d.op.stage ≡ Stage.sending → Returns sys d (again d))
      → Returns sys c (on_write sys w c again)
  unfolding on_write
  on_write-Returns (WriteResult.wrote n) c again at next =
      Same-Returns
        (Same-from (refl, refl, refl, refl, refl, refl, refl) (omega arith)
          (IsFurther-from refl (omega arith) (omega arith)))
        refl (next (with_sent sys (n + 1) c) at)
  on_write-Returns WriteResult.interrupted c again at next = next c at
  on_write-Returns WriteResult.want_read c again at next = Returns.effect (wait-Effect false 2 c)
  on_write-Returns WriteResult.want_write c again at next = Returns.effect (wait-Effect true 3 c)
  on_write-Returns (WriteResult.failed e) c again at next =
      let w = with_error-Same c.op.proto e c in
      Returns.effect (
        Same-Effect w.0 w.1
          (finish_at _ _ (with_error c.op.proto e c) (w.1 ∙ at) Allowed.send_failed))

  pub step_sending-Returns :
      (fuel : ℕ) (c : Context)
      → c.op.stage ≡ Stage.sending
      → Returns sys c (step_sending sys fuel c)
  unfolding step_sending
  step_sending-Returns zero c at = Returns.out_of_fuel
  step_sending-Returns (suc fuel) c at =
      Returns-if (ltb c.op.sent (length c.op.send_payload))
        (λ _. Same-Returns (called-Same c) refl (
          on_write-Returns (write_call sys c) (called c) (step_sending sys fuel) at
            (step_sending-Returns fuel)))
        (λ e. Returns.effect (to_recv_first-Effect c at (ltb-false _ _ e)))

  -- The first data moves on to the idle stage, and later data stays there.
  first_data-Returns :
      {s : Stage} {m : Option Context} (c : Context)
      → c.op.stage ≡ s
      → 0 < length c.op.recv_data
      → IsReceiving s
      → Returns sys (on_first_data sys s c) m
      → Returns sys c m
  unfolding on_first_data
  first_data-Returns c at some_data IsReceiving.recv_first more =
      let d =
        staged-Same Stage.recv_idle
          ((if ltb 0 c.op.timeouts.idle_sec
              then c.op.timeouts.idle_sec
              else max 2 (c.op.timeouts.first_byte_sec / 2))
            * 1000)
          c in
      let received = d.0.further.received in
      Moves-Returns (Moves.answered d.0 at (omega (arith, some_data, received)) d.1) more
  first_data-Returns c at some_data IsReceiving.recv_idle more = more

  first_data_stage :
      {s : Stage} (c : Context)
      → c.op.stage ≡ s
      → IsReceiving s
      → (on_first_data sys s c).op.stage ≡ Stage.recv_idle
  unfolding on_first_data
  first_data_stage c at IsReceiving.recv_first =
      (staged-Same Stage.recv_idle
        ((if ltb 0 c.op.timeouts.idle_sec
            then c.op.timeouts.idle_sec
            else max 2 (c.op.timeouts.first_byte_sec / 2))
          * 1000)
        c).1
  first_data_stage c at IsReceiving.recv_idle = at

  read_failed-Effect :
      (p : Proto) (e : ℕ) (s : Stage) (c : Context)
      → c.op.stage ≡ s
      → IsReceiving s
      → Effect sys c (read_failed sys p e c)
  read_failed-Effect Proto.tcp e s c at w = Same-Effect (with_errno-Same e c) refl (
      finish_at (timeout_or_success c) s (with_errno e c) at
        (if-Allowed (is_empty c.op.recv_data) w))
  read_failed-Effect Proto.tls e s c at w =
      Same-Effect
        (Same-from (refl, refl, refl, refl, refl, refl, refl) (omega arith)
          (IsFurther-from refl (omega arith) (omega arith)))
        refl (finish_at OpResult.success s (with_ssl_error e c) at (success-Allowed w))

  on_read-Returns :
      (r : ReadResult) (s : Stage) (c : Context) (again : Context → Option Context)
      → c.op.stage ≡ s
      → IsReceiving s
      → ((s' : Stage) (d : Context) → d.op.stage ≡ s' → IsReceiving s' → Returns sys d (again d))
      → Returns sys c (on_read sys r c again)
  unfolding on_read
  on_read-Returns (ReadResult.got b bs) s c again at w next =
      let c' = with_data sys (b ∷ bs) c in
      let more = length-append c.op.recv_data (b ∷ bs) in
      let data_in : Same c c' =
        Same-from (refl, refl, refl, refl, refl, refl, refl) (omega arith)
          (IsFurther-from refl (omega arith) (omega (arith, more))) in
      let receives = subst IsReceiving (sym at) w in
      Same-Returns data_in refl (
        first_data-Returns c' refl (omega (arith, more)) receives (
          next Stage.recv_idle (on_first_data sys c.op.stage c') (first_data_stage c' refl receives)
            IsReceiving.recv_idle))
  on_read-Returns ReadResult.end_of_stream s c again at w next =
      Returns.effect (finish_at OpResult.success s c at (success-Allowed w))
  on_read-Returns ReadResult.interrupted s c again at w next = next s c at w
  on_read-Returns ReadResult.want_read s c again at w next = Returns.effect (wait-Effect false 2 c)
  on_read-Returns ReadResult.want_write s c again at w next = Returns.effect (wait-Effect true 3 c)
  on_read-Returns (ReadResult.failed e) s c again at w next =
      Returns.effect (read_failed-Effect c.op.proto e s c at w)

  pub step_recv-Returns :
      (fuel : ℕ) (s : Stage) (c : Context)
      → c.op.stage ≡ s
      → IsReceiving s
      → Returns sys c (step_recv sys fuel c)
  unfolding step_recv
  step_recv-Returns zero s c at w = Returns.out_of_fuel
  step_recv-Returns (suc fuel) s c at w =
      Returns-if (leb (capacity c.op.max_response_bytes) (length c.op.recv_data))
        (λ _. Returns.effect (finish_at OpResult.success s c at (success-Allowed w)))
        (λ _. Same-Returns (called-Same c) refl (
          on_read-Returns (read_call sys c) s (called c) (step_recv sys fuel) at w
            (λ s' d. step_recv-Returns fuel s' d)))
