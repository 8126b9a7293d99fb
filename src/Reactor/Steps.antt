-- ===== src/Reactor/Steps.antt =====
-- The handlers of async_io.cpp that send and receive for one operation. The loops over reads and writes take
-- fuel, and `none` means that it ran out.
use Prim.Native.Nat.{min, max}
use trinetra.Prelude.{
  ℕ, zero, suc, ◌+◌, ◌-◌, ◌*◌, ◌/◌, Bool, true, false, List, [], ◌∷◌, ◌++◌, Option, none, some, ltb,
  leb, if◌then◌else◌, length,
}
use trinetra.Reactor.Types.{Proto, OpResult, Stage, Context, WriteResult, ReadResult, System}
use trinetra.Reactor.Tables.{called, set_deadline, finish}

abbrev pub is_empty : List ℕ → Bool
is_empty [] = true
is_empty (b ∷ bs) = false

abbrev pub with_errno : ℕ → Context → Context
with_errno e c = record c { op = record (c.op) { last_errno = e } }

abbrev pub with_stage : Stage → Context → Context
with_stage s c = record c { op = record (c.op) { stage = s } }

abbrev pub timeout_or_success : Context → OpResult
timeout_or_success c = if is_empty c.op.recv_data then OpResult.timeout else OpResult.success

abbrev pub with_ssl_error : ℕ → Context → Context
with_ssl_error e c = record c { op = record (c.op) { last_ssl_error = e } }

-- The error of a call on the socket or on the TLS connection.
abbrev pub with_error : Proto → ℕ → Context → Context
with_error Proto.tcp e c = with_errno e c
with_error Proto.tls e c = with_ssl_error e c

-- SSL_ERROR_WANT_READ is 2 and SSL_ERROR_WANT_WRITE is 3; a plain socket notes nothing.
abbrev pub wait_noted : Proto → ℕ → Context → Context
wait_noted Proto.tcp e c = c
wait_noted Proto.tls e c = with_ssl_error e c

abbrev pub with_wait : ℕ → Context → Context
with_wait e c = wait_noted c.op.proto e c

-- The result of a failure to arm, by the stage.
unfoldable pub fail_stage : Stage → Context → Context
unfolding finish
fail_stage Stage.connecting c = finish OpResult.connect_failed c
fail_stage Stage.tls_handshake c = finish OpResult.tls_failed c
fail_stage Stage.sending c = finish OpResult.send_failed c
fail_stage Stage.recv_first c = finish (timeout_or_success c) c
fail_stage Stage.recv_idle c = finish (timeout_or_success c) c
fail_stage Stage.finished c = c

-- The result of a deadline that has passed, by the stage.
unfoldable pub expire_stage : Stage → Context → Context
unfolding finish
expire_stage Stage.connecting c = finish OpResult.connect_failed (with_errno 110 c)
expire_stage Stage.tls_handshake c = finish OpResult.tls_failed c
expire_stage Stage.sending c = finish OpResult.send_failed c
expire_stage Stage.recv_first c = finish (timeout_or_success c) c
expire_stage Stage.recv_idle c = finish OpResult.success c
expire_stage Stage.finished c = c

-- The most that is received; 0 stands for the default.
abbrev pub capacity : ℕ → ℕ
capacity max_response_bytes = if ltb 0 max_response_bytes then max_response_bytes else 65536

-- The event queue takes the interest, or refuses.
abbrev pub armed : Option ℕ → Bool → Context → Context
armed none want_write c = record c {
  op = record (c.op) { epoll_registered = true; wants_write = want_write };
}
armed (some e) want_write c = fail_stage c.op.stage (with_errno e c)

module _ (sys : System) where
  unfoldable pub arm : Bool → Context → Context
  unfolding fail_stage
  arm want_write c = armed (sys.epoll_ctl c.shard.calls) want_write (called c)

  -- The stage of a response, with its deadline.
  unfoldable pub to_recv_first : Context → Context
  unfolding set_deadline arm
  to_recv_first c =
      arm false (
        set_deadline sys (max 1 c.op.timeouts.first_byte_sec * 1000)
          (with_stage Stage.recv_first c))

  abbrev pub with_sent : ℕ → Context → Context
  with_sent n c = record c { op = record (c.op) { sent = c.op.sent + n } }

  -- What the loop does with the report of a write. `again` is its next round.
  unfoldable pub on_write : WriteResult → Context → (Context → Option Context) → Option Context
  unfolding arm finish
  on_write (WriteResult.wrote n) c again = again (with_sent (n + 1) c)
  on_write WriteResult.interrupted c again = again c
  on_write WriteResult.want_read c again = some (arm false (with_wait 2 c))
  on_write WriteResult.want_write c again = some (arm true (with_wait 3 c))
  on_write (WriteResult.failed e) c again =
      some (finish OpResult.send_failed (with_error c.op.proto e c))

  abbrev pub write_call : Context → WriteResult
  write_call c = elim c.op.proto [
    | Proto.tcp ↦ sys.send c.shard.calls
    | Proto.tls ↦ sys.ssl_write c.shard.calls
  ]

  unfoldable pub step_sending : ℕ → Context → Option Context
  unfolding to_recv_first on_write
  step_sending zero c = none
  step_sending (suc fuel) c =
      let round = on_write (write_call c) (called c) (step_sending fuel) in
      if ltb c.op.sent (length c.op.send_payload) then round else some (to_recv_first c)

  -- The first data begins the idle stage.
  unfoldable pub on_first_data : Stage → Context → Context
  unfolding set_deadline
  on_first_data Stage.recv_first c =
      let t = c.op.timeouts in
      set_deadline sys
        ((if ltb 0 t.idle_sec then t.idle_sec else max 2 (t.first_byte_sec / 2)) * 1000)
        (with_stage Stage.recv_idle c)
  on_first_data s c = c

  abbrev pub with_data : List ℕ → Context → Context
  with_data bytes c = record c { op = record (c.op) { recv_data = c.op.recv_data ++ bytes } }

  -- A TLS stream that cannot be read on is reported with what there is.
  abbrev pub read_failed : Proto → ℕ → Context → Context
  read_failed Proto.tcp e c = finish (timeout_or_success c) (with_errno e c)
  read_failed Proto.tls e c = finish OpResult.success (with_ssl_error e c)

  unfoldable pub on_read : ReadResult → Context → (Context → Option Context) → Option Context
  unfolding on_first_data arm finish
  on_read (ReadResult.got b bs) c again = again (on_first_data c.op.stage (with_data (b ∷ bs) c))
  on_read ReadResult.end_of_stream c again = some (finish OpResult.success c)
  on_read ReadResult.interrupted c again = again c
  on_read ReadResult.want_read c again = some (arm false (with_wait 2 c))
  on_read ReadResult.want_write c again = some (arm true (with_wait 3 c))
  on_read (ReadResult.failed e) c again = some (read_failed c.op.proto e c)

  abbrev pub read_call : Context → ReadResult
  read_call c =
      let want = min 4096 (capacity c.op.max_response_bytes - length c.op.recv_data) in
      elim c.op.proto [
        | Proto.tcp ↦ sys.recv c.shard.calls want
        | Proto.tls ↦ sys.ssl_read c.shard.calls want
      ]

  unfoldable pub step_recv : ℕ → Context → Option Context
  unfolding on_read finish
  step_recv zero c = none
  step_recv (suc fuel) c =
      let round = on_read (read_call c) (called c) (step_recv fuel) in
      if leb (capacity c.op.max_response_bytes) (length c.op.recv_data)
      then some (finish OpResult.success c)
      else round
