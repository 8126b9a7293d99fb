-- ===== src/Reactor/Advance.antt =====
-- What `advance` and `step_connecting` of async_io.cpp do to an operation and to its shard.
use trinetra.Prelude.{ℕ, ◌*◌, ◌<◌, ◌≡◌, refl, ◌∙◌, Bool, true, false, arith}
use Prim.Native.Nat.{max}
use trinetra.Reactor.Types.{Proto, OpResult, Stage, Context, SocketError, HandshakeResult, System}
use trinetra.Reactor.Tables.{called, finish}
use trinetra.Reactor.Steps.{with_errno, with_ssl_error, step_sending}
use trinetra.Reactor.Connect.{
  send_stage, with_rtt, errno_of, on_handshake, step_tls_handshake, on_connected, on_socket_error,
  step_connecting, advance_stage, advance,
}
use trinetra.Reactor.Effect.{
  Same, Effect, Moves, stays, IsFurther-from, Allowed, Same-refl, Same-from, Same-trans,
  Same-Effect, finish_at,
}
use trinetra.Reactor.Handlers.{Returns, Returns-if, Moves-Returns, IsReceiving, called-Same}
use trinetra.Reactor.Transfer.{arm-Effect, staged-Same, step_sending-Returns, step_recv-Returns}

module _ (sys : System) where
  -- The payload is sent, in the stage for it, after a move to that stage.
  sending-Returns :
      (fuel : ℕ) (c d : Context)
      → (Same d (send_stage sys d)
          → (send_stage sys d).op.stage ≡ Stage.sending
          → Moves sys c (send_stage sys d))
      → Returns sys c (step_sending sys fuel (send_stage sys d))
  sending-Returns fuel c d moves =
      let s = staged-Same sys Stage.sending (max 1 d.op.timeouts.first_byte_sec * 1000) d in
      Moves-Returns (moves s.0 s.1) (step_sending-Returns sys fuel (send_stage sys d) s.1)

  -- `c` is the context before the call of `SSL_connect` that has the report `r`.
  on_handshake-Returns :
      (fuel : ℕ) (r : HandshakeResult) (c : Context)
      → c.op.stage ≡ Stage.tls_handshake
      → sys.ssl_connect c.shard.calls ≡ r
      → Returns sys c (on_handshake sys fuel r (called c))
  unfolding on_handshake
  on_handshake-Returns fuel HandshakeResult.connected c at report =
      sending-Returns fuel c (called c) λ same to.
        let n = same.calls in
        Moves.secured c.shard.calls (Same-trans (called-Same c) same) at (omega arith)
          (omega (arith, n)) report to
  on_handshake-Returns fuel HandshakeResult.want_read c at report = Returns.effect (
      Same-Effect
        (Same-from (refl, refl, refl, refl, refl, refl, refl) (omega arith)
          (IsFurther-from refl (omega arith) (omega arith)))
        refl (arm-Effect sys false (with_ssl_error 2 (called c))))
  on_handshake-Returns fuel HandshakeResult.want_write c at report = Returns.effect (
      Same-Effect
        (Same-from (refl, refl, refl, refl, refl, refl, refl) (omega arith)
          (IsFurther-from refl (omega arith) (omega arith)))
        refl (arm-Effect sys true (with_ssl_error 3 (called c))))
  on_handshake-Returns fuel (HandshakeResult.failed e) c at report = Returns.effect (
      Same-Effect
        (Same-from (refl, refl, refl, refl, refl, refl, refl) (omega arith)
          (IsFurther-from refl (omega arith) (omega arith)))
        refl (finish_at OpResult.tls_failed _ (with_ssl_error e (called c)) at Allowed.tls_failed))

  step_tls_handshake-Returns :
      (fuel : ℕ) (c : Context)
      → c.op.stage ≡ Stage.tls_handshake
      → Returns sys c (step_tls_handshake sys fuel c)
  unfolding step_tls_handshake
  step_tls_handshake-Returns fuel c at =
      on_handshake-Returns fuel (sys.ssl_connect c.shard.calls) c at refl

  -- `c` is the context before the call that reports that the socket has no error, `d` a later one.
  on_connected-Returns :
      (fuel : ℕ) (p : Proto) (c d : Context)
      → c.op.stage ≡ Stage.connecting
      → c.op.proto ≡ p
      → Same c d
      → d.op.stage ≡ c.op.stage
      → c.shard.calls < d.shard.calls
      → sys.socket_error c.shard.calls ≡ SocketError.no_error
      → Returns sys c (on_connected sys fuel p d)
  unfolding on_connected
  on_connected-Returns fuel Proto.tcp c d at proto p stage made report =
      sending-Returns fuel c d λ same to.
        let n = same.calls in
        Moves.connected Proto.tcp c.shard.calls (Same-trans p same) at proto (omega arith)
          (omega (arith, n, made)) report to
  on_connected-Returns fuel Proto.tls c d at proto p stage made report =
      Returns-if (sys.new_ssl d.shard.calls)
        (λ _.
          let s =
            staged-Same sys Stage.tls_handshake (max d.op.timeouts.connect_sec 3 * 1000)
              (called d) in
          let n = s.0.calls in
          Moves-Returns
            (Moves.connected Proto.tls c.shard.calls (Same-trans p (Same-trans (called-Same d) s.0))
              at proto (omega arith) (omega (arith, n, made)) report s.1)
            (step_tls_handshake-Returns fuel _ s.1))
        (λ _. Returns.effect (
          Same-Effect (Same-trans p (called-Same d)) stage
            (finish_at OpResult.tls_failed _ (called d) (stage ∙ at) Allowed.no_tls)))

  not_connected :
      (e : ℕ) (c : Context)
      → c.op.stage ≡ Stage.connecting
      → Effect sys c (finish OpResult.connect_failed (with_errno e (called c)))
  not_connected e c at =
      Same-Effect
        (Same-from (refl, refl, refl, refl, refl, refl, refl) (omega arith)
          (IsFurther-from refl (omega arith) (omega arith)))
        refl (finish_at _ _ (with_errno e (called c)) at Allowed.connect_failed)

  -- `c` is the context before the call of `getsockopt` that has the report `r`.
  on_socket_error-Returns :
      (fuel : ℕ) (r : SocketError) (c : Context)
      → c.op.stage ≡ Stage.connecting
      → sys.socket_error c.shard.calls ≡ r
      → Returns sys c (on_socket_error sys fuel r (called c))
  unfolding on_socket_error
  on_socket_error-Returns fuel SocketError.no_error c at report =
      on_connected-Returns fuel c.op.proto c (with_rtt sys (called c)) at refl
        (Same-from (refl, refl, refl, refl, refl, refl, refl) (omega arith)
          (IsFurther-from refl (omega arith) (omega arith)))
        refl (omega arith) report
  on_socket_error-Returns fuel (SocketError.error e) c at report =
      Returns.effect (not_connected e c at)
  on_socket_error-Returns fuel (SocketError.call_failed e) c at report =
      Returns.effect (not_connected e c at)

  pub step_connecting-Returns :
      (fuel : ℕ) (c : Context)
      → c.op.stage ≡ Stage.connecting
      → Returns sys c (step_connecting sys fuel c)
  unfolding step_connecting
  step_connecting-Returns fuel c at =
      on_socket_error-Returns fuel (sys.socket_error c.shard.calls) c at refl

  -- The errno of a failed socket, and then the end.
  socket_failed :
      (r : OpResult) (s : Stage) (c : Context)
      → c.op.stage ≡ s
      → Allowed s r
      → Effect sys c
          (finish r (with_errno (errno_of sys (sys.socket_error c.shard.calls)) (called c)))
  socket_failed r s c at a =
      Same-Effect
        (Same-from (refl, refl, refl, refl, refl, refl, refl) (omega arith)
          (IsFurther-from refl (omega arith) (omega arith)))
        refl
        (finish_at r s (with_errno (errno_of sys (sys.socket_error c.shard.calls)) (called c)) at a)

  advance_stage-Returns :
      (fuel : ℕ) (s : Stage) (failed writable : Bool) (c : Context)
      → c.op.stage ≡ s
      → Returns sys c (advance_stage sys fuel s failed writable c)
  unfolding advance_stage
  advance_stage-Returns fuel Stage.connecting failed writable c at =
      Returns-if failed (λ _. Returns.effect (socket_failed _ _ c at Allowed.connect_failed))
        λ _.
          Returns-if writable (λ _. step_connecting-Returns fuel c at)
            (λ _. Returns.effect (stays (Same-refl c) refl))
  advance_stage-Returns fuel Stage.tls_handshake failed writable c at =
      step_tls_handshake-Returns fuel c at
  advance_stage-Returns fuel Stage.sending failed writable c at =
      Returns-if failed (λ _. Returns.effect (socket_failed _ _ c at Allowed.send_failed))
        (λ _. step_sending-Returns sys fuel c at)
  advance_stage-Returns fuel Stage.recv_first failed writable c at =
      step_recv-Returns sys fuel _ c at IsReceiving.recv_first
  advance_stage-Returns fuel Stage.recv_idle failed writable c at =
      step_recv-Returns sys fuel _ c at IsReceiving.recv_idle
  advance_stage-Returns fuel Stage.finished failed writable c at =
      Returns.effect (stays (Same-refl c) refl)

  pub advance-Returns :
      (fuel : ℕ) (failed writable : Bool) (c : Context)
      → Returns sys c (advance sys fuel failed writable c)
  unfolding advance
  advance-Returns fuel failed writable c =
      Returns-if c.op.is_finished (λ _. Returns.effect (stays (Same-refl c) refl))
        (λ _. advance_stage-Returns fuel c.op.stage failed writable c refl)
