-- ===== src/Reactor/Connect.antt =====
-- The handlers of async_io.cpp that connect, and `advance`, which picks the handler by the stage.
use Prim.Native.Nat.{max}
use trinetra.Prelude.{
  ℕ, zero, suc, ◌-◌, ◌*◌, Bool, true, false, ◌&&◌, ◌||◌, [], ◌∷◌, ◌++◌, Option, some, ltb, ◌==◌,
  if◌then◌else◌, length, drop, map,
}
use trinetra.Reactor.Types.{
  Proto, OpResult, Stage, Operation, Context, SocketError, ConnectResult, HandshakeResult, System,
}
use trinetra.Reactor.Tables.{called, put_op, set_deadline, adaptive_connect_budget, finish}
use trinetra.Reactor.Steps.{with_errno, with_stage, with_ssl_error, arm, step_sending, step_recv}

module _ (sys : System) where
  abbrev pub send_stage : Context → Context
  send_stage c =
      set_deadline sys (max 1 c.op.timeouts.first_byte_sec * 1000) (with_stage Stage.sending c)

  unfoldable pub on_handshake : ℕ → HandshakeResult → Context → Option Context
  unfolding set_deadline step_sending arm finish
  on_handshake fuel HandshakeResult.connected c = step_sending sys fuel (send_stage c)
  on_handshake fuel HandshakeResult.want_read c = some (arm sys false (with_ssl_error 2 c))
  on_handshake fuel HandshakeResult.want_write c = some (arm sys true (with_ssl_error 3 c))
  on_handshake fuel (HandshakeResult.failed e) c =
      some (finish OpResult.tls_failed (with_ssl_error e c))

  unfoldable pub step_tls_handshake : ℕ → Context → Option Context
  unfolding on_handshake
  step_tls_handshake fuel c = on_handshake fuel (sys.ssl_connect c.shard.calls) (called c)

  -- A sample of the connect latency; the window holds 32 of them.
  abbrev pub with_rtt : Context → Context
  with_rtt c =
      let rtt = sys.now c.shard.calls - c.op.connect_start in
      let samples = c.shard.rtt_samples_ms ++ rtt ∷ [] in
      called (record {
        shard = record (c.shard) {
          rtt_samples_ms = if ltb 32 (length samples) then drop 1 samples else samples;
        };
        op = record (c.op) { connect_rtt = rtt };
      })

  -- `new_ssl` is the making of the context and of the connection's object.
  unfoldable pub on_connected : ℕ → Proto → Context → Option Context
  unfolding set_deadline step_tls_handshake step_sending finish
  on_connected fuel Proto.tls c =
      if sys.new_ssl c.shard.calls
      then step_tls_handshake fuel (
          set_deadline sys (max c.op.timeouts.connect_sec 3 * 1000)
            (with_stage Stage.tls_handshake (called c)))
      else some (finish OpResult.tls_failed (called c))
  on_connected fuel Proto.tcp c = step_sending sys fuel (send_stage c)

  unfoldable pub on_socket_error : ℕ → SocketError → Context → Option Context
  unfolding on_connected finish
  on_socket_error fuel SocketError.no_error c = on_connected fuel c.op.proto (with_rtt c)
  on_socket_error fuel (SocketError.error e) c =
      some (finish OpResult.connect_failed (with_errno e c))
  on_socket_error fuel (SocketError.call_failed e) c =
      some (finish OpResult.connect_failed (with_errno e c))

  unfoldable pub step_connecting : ℕ → Context → Option Context
  unfolding on_socket_error
  step_connecting fuel c = on_socket_error fuel (sys.socket_error c.shard.calls) (called c)

  -- ECONNRESET where the socket has no error of its own.
  abbrev pub errno_of : SocketError → ℕ
  errno_of (SocketError.error e) = if e == 0 then 104 else e
  errno_of _ = 104

  -- An event, by the stage: whether it says that the socket failed, and that it is writable.
  unfoldable pub advance_stage : ℕ → Stage → Bool → Bool → Context → Option Context
  unfolding step_connecting step_tls_handshake step_sending step_recv finish
  advance_stage fuel Stage.connecting failed writable c =
      if failed
      then some (
          finish OpResult.connect_failed
            (with_errno (errno_of (sys.socket_error c.shard.calls)) (called c)))
      else if writable
      then step_connecting fuel c
      else some c
  advance_stage fuel Stage.tls_handshake failed writable c = step_tls_handshake fuel c
  advance_stage fuel Stage.sending failed writable c =
      if failed
      then some (
          finish OpResult.send_failed
            (with_errno (errno_of (sys.socket_error c.shard.calls)) (called c)))
      else step_sending sys fuel c
  advance_stage fuel Stage.recv_first failed writable c = step_recv sys fuel c
  advance_stage fuel Stage.recv_idle failed writable c = step_recv sys fuel c
  advance_stage fuel Stage.finished failed writable c = some c

  unfoldable pub advance : ℕ → Bool → Bool → Context → Option Context
  unfolding advance_stage
  advance fuel failed writable c =
      if c.op.is_finished then some c else advance_stage fuel c.op.stage failed writable c

  -- EADDRINUSE is 98 and EADDRNOTAVAIL is 99.
  abbrev pub retryable : Operation → ℕ → ℕ → Bool
  retryable op bind_errno connect_errno =
      op.fixed_port && (bind_errno == 98 || bind_errno == 0 && connect_errno == 99)

  -- What an attempt to connect leads to: `next` is what a further one gives.
  abbrev pub retry_or : ConnectResult → Context → Context × ConnectResult → Context × ConnectResult
  retry_or (ConnectResult.started fd in_progress) c next = (c, ConnectResult.started fd in_progress)
  retry_or (ConnectResult.refused b e) c next =
      if retryable c.op b e then next else (c, ConnectResult.refused b e)

  abbrev pub connect_call : Context → ConnectResult
  connect_call c = sys.connect c.shard.calls (map (λ (e : ℕ × ℕ). e.0) c.shard.ops)

  -- The number of the retries that are left.
  unfoldable pub connect_loop : ℕ → Context → Context × ConnectResult
  connect_loop zero c = (called c, connect_call c)
  connect_loop (suc retries) c =
      let next = connect_loop retries (called c) in retry_or (connect_call c) (called c) next

  -- The operation with its descriptor, in the table, with a deadline for the connect.
  abbrev pub registered : ℕ → Context → Context
  registered fd c =
      let op = record (c.op) { fd = some fd; stage = Stage.connecting } in
      let shard = record (c.shard) { ops = put_op fd c.op.self c.shard.ops } in
      set_deadline sys (adaptive_connect_budget shard op) (record { shard = shard; op = op })

  unfoldable pub on_connect : ℕ → ConnectResult → Context → Option Context
  unfolding set_deadline adaptive_connect_budget step_connecting arm finish
  on_connect fuel (ConnectResult.started fd in_progress) c =
      let c' = registered fd c in
      if in_progress then some (arm sys true c') else step_connecting fuel c'
  on_connect fuel (ConnectResult.refused b e) c =
      some (finish OpResult.connect_failed (with_errno (if b == 0 then e else b) c))

  unfoldable pub begin_connect : ℕ → Context → Option Context
  unfolding connect_loop on_connect finish
  begin_connect fuel c =
      let start =
        called (record c { op = record (c.op) { connect_start = sys.now c.shard.calls } }) in
      let (c', outcome) = connect_loop 3 start in
      if c.op.cancel_requested
      then some (finish OpResult.cancelled c)
      else on_connect fuel outcome c'
