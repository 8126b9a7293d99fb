-- ===== src/Reactor/Ends.antt =====
-- The loops of async_io.cpp come to an end, for a system that stops interrupting its calls.
use trinetra.Prelude.{
  ℕ, zero, suc, ◌+◌, ◌-◌, ◌*◌, ◌/◌, ◌≤◌, ◌<◌, ◌≡◌, ◌≢◌, refl, ap, inl, inr, Bool, true, false, List,
  ◌∷◌, Option, none, some, arith, ltb, leb, ltb-false, ltb→lt, leb-false, if◌then◌else◌, length,
  length-append, Bool-cases,
}
use Prim.Native.Nat.{max}
use trinetra.Reactor.Types.{
  Proto, Stage, Context, SocketError, ConnectResult, WriteResult, ReadResult, HandshakeResult,
  System,
}
use trinetra.Reactor.Tables.{called, set_deadline, with_deadline}
use trinetra.Reactor.Steps.{
  with_stage, with_sent, on_write, write_call, step_sending, on_first_data, with_data, on_read,
  capacity, read_call, step_recv,
}
use trinetra.Reactor.Connect.{
  send_stage, on_handshake, step_tls_handshake, on_connected, with_rtt, on_socket_error,
  step_connecting, advance_stage, advance, registered, connect_loop, on_connect, begin_connect,
}
use trinetra.Reactor.Effect.{set_deadline-Same}
use trinetra.Reactor.Begin.{connect_loop_lem, registered-inputs}
use trinetra.Reactor.Accounts.{IsWithin, IsWithin-inputs_of}

-- From a certain call on no call is interrupted.
pub record IsQuiet (sys : System) (calm : ℕ) : Type 0 where
  pub send : (n : ℕ) → calm ≤ n → sys.send n ≢ WriteResult.interrupted
  pub ssl_write : (n : ℕ) → calm ≤ n → sys.ssl_write n ≢ WriteResult.interrupted
  pub recv : (n want : ℕ) → calm ≤ n → sys.recv n want ≢ ReadResult.interrupted
  pub ssl_read : (n want : ℕ) → calm ≤ n → sys.ssl_read n want ≢ ReadResult.interrupted

pub data IsSome {A : Type 0} : Option A → Type 0 where
  is_some : {a : A} → IsSome (some a)

IsSome-if :
    {A : Type 0} {x y : Option A} (b : Bool)
    → (b ≡ true → IsSome x)
    → (b ≡ false → IsSome y)
    → IsSome (if b then x else y)
IsSome-if true h k = h refl
IsSome-if false h k = k refl

module _ (sys : System) (calm : ℕ) (quiet : IsQuiet sys calm) where
  write_quiet :
      (p : Proto) (n : ℕ)
      → calm ≤ n
      → (elim p as (λ _. WriteResult) [ Proto.tcp ↦ sys.send n | Proto.tls ↦ sys.ssl_write n ])
        ≢ WriteResult.interrupted
  write_quiet Proto.tcp n h = quiet.send n h
  write_quiet Proto.tls n h = quiet.ssl_write n h

  read_quiet :
      (p : Proto) (n want : ℕ)
      → calm ≤ n
      → (elim p as (λ _. ReadResult) [
        | Proto.tcp ↦ sys.recv n want
        | Proto.tls ↦ sys.ssl_read n want
      ])
        ≢ ReadResult.interrupted
  read_quiet Proto.tcp n want h = quiet.recv n want h
  read_quiet Proto.tls n want h = quiet.ssl_read n want h

  on_write_ends :
      (w : WriteResult) (c : Context) (again : Context → Option Context)
      → (w ≡ WriteResult.interrupted → IsSome (again c))
      → ((n : ℕ) → IsSome (again (with_sent sys (n + 1) c)))
      → IsSome (on_write sys w c again)
  unfolding on_write
  on_write_ends (WriteResult.wrote n) c again h k = k n
  on_write_ends WriteResult.interrupted c again h k = h refl
  on_write_ends WriteResult.want_read c again h k = IsSome.is_some
  on_write_ends WriteResult.want_write c again h k = IsSome.is_some
  on_write_ends (WriteResult.failed e) c again h k = IsSome.is_some

  -- A round sends a byte or uses up one of the calls that may be interrupted.
  step_sending_ends :
      (fuel : ℕ) (c : Context)
      → (length c.op.send_payload - c.op.sent) + (calm - c.shard.calls) < fuel
      → IsSome (step_sending sys fuel c)
  unfolding step_sending
  step_sending_ends zero c enough = elim enough [ ]
  step_sending_ends (suc fuel) c enough =
      IsSome-if (ltb c.op.sent (length c.op.send_payload))
        (λ more.
          let left = ltb→lt _ _ more in
          on_write_ends (write_call sys c) (called c) (step_sending sys fuel)
            (λ e. elim (Bool-cases (ltb c.shard.calls calm)) [
              | inl early ↦
                  let before = ltb→lt _ _ early in
                  step_sending_ends fuel (called c) (omega (arith, before))
              | inr late ↦ absurd (write_quiet c.op.proto c.shard.calls (ltb-false _ _ late) e)
            ])
            (λ n. step_sending_ends fuel (with_sent sys (n + 1) (called c)) (omega (arith, left))))
        (λ _. IsSome.is_some)

  on_read_ends :
      (r : ReadResult) (c : Context) (again : Context → Option Context)
      → (r ≡ ReadResult.interrupted → IsSome (again c))
      → ((b : ℕ) (bs : List ℕ)
          → IsSome (again (on_first_data sys c.op.stage (with_data sys (b ∷ bs) c))))
      → IsSome (on_read sys r c again)
  unfolding on_read
  on_read_ends (ReadResult.got b bs) c again h k = k b bs
  on_read_ends ReadResult.end_of_stream c again h k = IsSome.is_some
  on_read_ends ReadResult.interrupted c again h k = h refl
  on_read_ends ReadResult.want_read c again h k = IsSome.is_some
  on_read_ends ReadResult.want_write c again h k = IsSome.is_some
  on_read_ends (ReadResult.failed e) c again h k = IsSome.is_some

  -- What a deadline leaves of the loop's variables.
  record Going (c d : Context) : Type 0 where
    calls : c.shard.calls ≤ d.shard.calls
    recv_data : d.op.recv_data ≡ c.op.recv_data
    cap : d.op.max_response_bytes ≡ c.op.max_response_bytes

  with_deadline-Going :
      (fd : Option ℕ) (deadline : ℕ) (c : Context) → Going c (called (with_deadline fd deadline c))
  with_deadline-Going none deadline c = record { calls = omega arith; recv_data = refl; cap = refl }
  with_deadline-Going (some fd) deadline c = record {
    calls = omega arith;
    recv_data = refl;
    cap = refl;
  }

  on_first_data-Going : (s : Stage) (c : Context) → Going c (on_first_data sys s c)
  unfolding on_first_data set_deadline
  on_first_data-Going Stage.recv_first c =
      let t = c.op.timeouts in
      let budget = (if ltb 0 t.idle_sec then t.idle_sec else max 2 (t.first_byte_sec / 2)) * 1000 in
      let g =
        with_deadline-Going c.op.fd (sys.now c.shard.calls + budget)
          (with_stage Stage.recv_idle c) in
      record { calls = g.calls; recv_data = g.recv_data; cap = g.cap }
  on_first_data-Going Stage.connecting c = record {
    calls = omega arith;
    recv_data = refl;
    cap = refl;
  }
  on_first_data-Going Stage.tls_handshake c = record {
    calls = omega arith;
    recv_data = refl;
    cap = refl;
  }
  on_first_data-Going Stage.sending c = record { calls = omega arith; recv_data = refl; cap = refl }
  on_first_data-Going Stage.recv_idle c = record {
    calls = omega arith;
    recv_data = refl;
    cap = refl;
  }
  on_first_data-Going Stage.finished c = record {
    calls = omega arith;
    recv_data = refl;
    cap = refl;
  }

  -- A round receives a byte or uses up one of the calls that may be interrupted.
  pub step_recv_ends :
      (fuel : ℕ) (c : Context)
      → (capacity c.op.max_response_bytes - length c.op.recv_data) + (calm - c.shard.calls) < fuel
      → IsSome (step_recv sys fuel c)
  unfolding step_recv
  step_recv_ends zero c enough = elim enough [ ]
  step_recv_ends (suc fuel) c enough =
      IsSome-if (leb (capacity c.op.max_response_bytes) (length c.op.recv_data))
        (λ _. IsSome.is_some)
        (λ more.
          let left = leb-false _ _ more in
          on_read_ends (read_call sys c) (called c) (step_recv sys fuel)
            (λ e. elim (Bool-cases (ltb c.shard.calls calm)) [
              | inl early ↦
                  let before = ltb→lt _ _ early in
                  step_recv_ends fuel (called c) (omega (arith, before))
              | inr late ↦ absurd (read_quiet c.op.proto c.shard.calls _ (ltb-false _ _ late) e)
            ])
            (λ b bs.
              let c' = with_data sys (b ∷ bs) (called c) in
              let g = on_first_data-Going c.op.stage c' in
              let longer = length-append c.op.recv_data (b ∷ bs) in
              let size = ap (λ (l : List ℕ). length l) g.recv_data in
              let same = ap (λ (n : ℕ). capacity n) g.cap in
              step_recv_ends fuel (on_first_data sys c.op.stage c')
                (omega (arith, left, g.calls, size, same, longer))))

  -- For an operation with at most so much to do, this fuel is enough whatever the call.
  module _ (limit fuel : ℕ) (enough : limit + calm ≤ fuel) where
    sending_ends : (c : Context) → IsWithin limit c.op → IsSome (step_sending sys fuel c)
    sending_ends c w = step_sending_ends fuel c (omega (arith, w, enough))

    receiving_ends : (c : Context) → IsWithin limit c.op → IsSome (step_recv sys fuel c)
    receiving_ends c w = step_recv_ends fuel c (omega (arith, w, enough))

    -- The operation has as much to do after a deadline is set.
    staged_room :
        (s : Stage) (budget : ℕ) (c : Context)
        → IsWithin limit c.op
        → IsWithin limit (set_deadline sys budget (with_stage s c)).op
    staged_room s budget c w =
        IsWithin-inputs_of limit c.op (set_deadline sys budget (with_stage s c)).op
          (set_deadline-Same sys budget (with_stage s c)).0.inputs w

    send_stage_ends :
        (c : Context) → IsWithin limit c.op → IsSome (step_sending sys fuel (send_stage sys c))
    send_stage_ends c w =
        sending_ends (send_stage sys c)
          (staged_room Stage.sending (max 1 c.op.timeouts.first_byte_sec * 1000) c w)

    on_handshake_ends :
        (r : HandshakeResult) (c : Context)
        → IsWithin limit c.op
        → IsSome (on_handshake sys fuel r c)
    unfolding on_handshake
    on_handshake_ends HandshakeResult.connected c w = send_stage_ends c w
    on_handshake_ends HandshakeResult.want_read c w = IsSome.is_some
    on_handshake_ends HandshakeResult.want_write c w = IsSome.is_some
    on_handshake_ends (HandshakeResult.failed e) c w = IsSome.is_some

    step_tls_handshake_ends :
        (c : Context) → IsWithin limit c.op → IsSome (step_tls_handshake sys fuel c)
    unfolding step_tls_handshake
    step_tls_handshake_ends c w = on_handshake_ends (sys.ssl_connect c.shard.calls) (called c) w

    on_connected_ends :
        (p : Proto) (c : Context) → IsWithin limit c.op → IsSome (on_connected sys fuel p c)
    unfolding on_connected
    on_connected_ends Proto.tcp c w = send_stage_ends c w
    on_connected_ends Proto.tls c w =
        IsSome-if (sys.new_ssl c.shard.calls)
          (λ _.
            step_tls_handshake_ends _ (
              staged_room Stage.tls_handshake (max c.op.timeouts.connect_sec 3 * 1000) (called c)
                w))
          (λ _. IsSome.is_some)

    on_socket_error_ends :
        (r : SocketError) (c : Context)
        → IsWithin limit c.op
        → IsSome (on_socket_error sys fuel r c)
    unfolding on_socket_error
    on_socket_error_ends SocketError.no_error c w = on_connected_ends c.op.proto (with_rtt sys c) w
    on_socket_error_ends (SocketError.error e) c w = IsSome.is_some
    on_socket_error_ends (SocketError.call_failed e) c w = IsSome.is_some

    pub step_connecting_ends :
        (c : Context) → IsWithin limit c.op → IsSome (step_connecting sys fuel c)
    unfolding step_connecting
    step_connecting_ends c w = on_socket_error_ends (sys.socket_error c.shard.calls) (called c) w

    advance_stage_ends :
        (s : Stage) (failed writable : Bool) (c : Context)
        → IsWithin limit c.op
        → IsSome (advance_stage sys fuel s failed writable c)
    unfolding advance_stage
    advance_stage_ends Stage.connecting failed writable c w =
        IsSome-if failed (λ _. IsSome.is_some)
          λ _. IsSome-if writable (λ _. step_connecting_ends c w) (λ _. IsSome.is_some)
    advance_stage_ends Stage.tls_handshake failed writable c w = step_tls_handshake_ends c w
    advance_stage_ends Stage.sending failed writable c w =
        IsSome-if failed (λ _. IsSome.is_some) (λ _. sending_ends c w)
    advance_stage_ends Stage.recv_first failed writable c w = receiving_ends c w
    advance_stage_ends Stage.recv_idle failed writable c w = receiving_ends c w
    advance_stage_ends Stage.finished failed writable c w = IsSome.is_some

    pub advance_ends :
        (failed writable : Bool) (c : Context)
        → IsWithin limit c.op
        → IsSome (advance sys fuel failed writable c)
    unfolding advance
    advance_ends failed writable c w =
        IsSome-if c.op.is_finished (λ _. IsSome.is_some)
          (λ _. advance_stage_ends c.op.stage failed writable c w)

    on_connect_ends :
        (r : ConnectResult) (c : Context) → IsWithin limit c.op → IsSome (on_connect sys fuel r c)
    unfolding on_connect
    on_connect_ends (ConnectResult.started fd in_progress) c w =
        IsSome-if in_progress (λ _. IsSome.is_some)
          (λ _.
            step_connecting_ends (registered sys fd c) (
              IsWithin-inputs_of limit c.op (registered sys fd c).op (registered-inputs sys fd c)
                w))
    on_connect_ends (ConnectResult.refused b e) c w = IsSome.is_some

    pub begin_connect_ends : (c : Context) → IsWithin limit c.op → IsSome (begin_connect sys fuel c)
    unfolding begin_connect
    begin_connect_ends c w =
        let start =
          called (record c { op = record (c.op) { connect_start = sys.now c.shard.calls } }) in
        IsSome-if c.op.cancel_requested (λ _. IsSome.is_some)
          (λ _. on_connect_ends (connect_loop sys 3 start).1 (connect_loop sys 3 start).0 (
            IsWithin-inputs_of limit c.op (connect_loop sys 3 start).0.op
              (connect_loop_lem sys 3 start).0.inputs w))
