-- ===== src/Reactor/Examples.antt =====
-- The theorems on the reactor at a concrete system, operation and shard, and a run of it.
use trinetra.Prelude.{
  ℕ, zero, suc, ◌+◌, ◌*◌, ◌≤◌, ◌≡◌, ◌≢◌, refl, inl, inr, Bool, true, false, not, List, [], ◌∷◌,
  Option, none, some, arith, ltb, ◌==◌, if◌then◌else◌, All,
}
use trinetra.Reactor.Types.{
  Proto, OpResult, Stage, Operation, EpollShard, Context, SocketError, ConnectResult, WriteResult,
  ReadResult, HandshakeResult, FitsRead, FreshFd, System,
}
use trinetra.Reactor.Tables.{find_op, adaptive_connect_budget, set_deadline}
use trinetra.Reactor.Steps.{step_recv}
use trinetra.Reactor.Worker.{Worker, Event, sweep_timeouts, shutdown}
use trinetra.Reactor.Ends.{IsQuiet}
use trinetra.Reactor.Run.{Action, IsNew, run, submitted}
use trinetra.Reactor.Shutdown.{CompletesOnce, run-CompletesOnce}
use trinetra.Reactor.Lifecycle.{Cause, Refines, handled, handled-Refines}
use trinetra.Reactor.Budget.{floor_ms, ceiling_ms, adaptive_connect_budget_bounds}
use trinetra.Reactor.Deadlines.{Replaces, set_deadline-Replaces}
use trinetra.Reactor.Sweep.{sweep_timeouts_spares, sweep_timeouts_completes}
use trinetra.Reactor.Response.{Gains, step_recv-Gains}

-- A descriptor above all that are taken.
abbrev above : List ℕ → ℕ
above [] = 5
above (n ∷ taken) = n + 1 + above taken

above_fresh : (fd : ℕ) (taken : List ℕ) → above taken ≤ fd → All (λ n. not (n == fd) ≡ true) taken
above_fresh fd [] h = tt
above_fresh fd (n ∷ taken) h = (ground (arith, h), above_fresh fd taken (omega (arith, h)))

-- A byte comes with every read until call 20, and then the end.
abbrev read_answer : ℕ → ℕ → ReadResult
read_answer call zero = ReadResult.end_of_stream
read_answer call (suc want) = if ltb call 20 then ReadResult.got 72 [] else ReadResult.end_of_stream

read_answer_fits : (call want : ℕ) → FitsRead want (read_answer call want)
read_answer_fits call zero = FitsRead.end_of_stream
read_answer_fits call (suc want) = fits (ltb call 20)
  where
    fits :
        (b : Bool)
        → FitsRead (suc want) (if b then ReadResult.got 72 [] else ReadResult.end_of_stream)
    fits true = FitsRead.got (omega arith)
    fits false = FitsRead.end_of_stream

read_answer_quiet : (call want : ℕ) → read_answer call want ≢ ReadResult.interrupted
read_answer_quiet call zero e = ground (arith, e)
read_answer_quiet call (suc want) e = quiet (ltb call 20) e
  where
    quiet :
        (b : Bool)
        → (if b then ReadResult.got 72 [] else ReadResult.end_of_stream) ≢ ReadResult.interrupted
    quiet true e = ground (arith, e)
    quiet false e = ground (arith, e)

-- The first writes are interrupted.
abbrev write_answer : ℕ → WriteResult
write_answer call = if ltb call 9 then WriteResult.interrupted else WriteResult.wrote 1

abbrev demo : System
demo = record {
  now = λ n. n * 10;
  connect = λ call taken. ConnectResult.started (above taken) true;
  socket_error = λ call. SocketError.no_error;
  epoll_ctl = λ call. none;
  new_ssl = λ call. true;
  ssl_connect = λ call. HandshakeResult.connected;
  send = write_answer;
  ssl_write = write_answer;
  recv = read_answer;
  ssl_read = read_answer;
  connect_fresh = λ call taken. FreshFd.started (above_fresh (above taken) taken (omega arith));
  recv_fits = read_answer_fits;
  ssl_read_fits = read_answer_fits;
}

write_answer_quiet : (n : ℕ) → 9 ≤ n → write_answer n ≢ WriteResult.interrupted
write_answer_quiet n h e = ground (arith, h, e)

demo-IsQuiet : IsQuiet demo 9
demo-IsQuiet = record {
  send = write_answer_quiet;
  ssl_write = write_answer_quiet;
  recv = λ n want h. read_answer_quiet n want;
  ssl_read = λ n want h. read_answer_quiet n want;
}

abbrev fetch : Proto → ℕ → Operation
fetch proto self = record {
  self = self;
  proto = proto;
  send_payload = 71 ∷ 69 ∷ 84 ∷ [];
  timeouts = record { connect_sec = 3; first_byte_sec = 5; idle_sec = 0; min_connect_ms = 0 };
  fixed_port = false;
  max_response_bytes = 4;
  result = OpResult.pending;
  recv_data = [];
  last_errno = 0;
  last_ssl_error = 0;
  connect_rtt = 0;
  fd = none;
  stage = Stage.connecting;
  sent = 0;
  epoll_registered = false;
  wants_write = false;
  stage_deadline = 0;
  connect_start = 0;
  is_finished = false;
  cancel_requested = false;
}

abbrev no_work : EpollShard
no_work = record {
  pending = [];
  closed = false;
  ops = [];
  deadlines = [];
  rtt_samples_ms = [];
  calls = 0;
  completed = [];
}

abbrev fresh : Worker
fresh = record { shard = no_work; store = fetch Proto.tcp }

fresh-IsNew : IsNew 8 fresh
fresh-IsNew = record {
  own = λ id. refl;
  live = λ id. refl;
  nothing_waits = refl;
  nothing_completed = refl;
  given = λ id. omega arith;
}

abbrev story : List Action
story =
    Action.submission 7
    ∷ Action.submission 9
    ∷ Action.round (Event.wake ∷ []) 100
    ∷ Action.round (Event.ready 5 false true ∷ []) 120
    ∷ Action.cancellation 9
    ∷ Action.round (Event.wake ∷ Event.ready 5 false false ∷ []) 140
    ∷ Action.submission 11
    ∷ []

run-CompletesOnce_example : CompletesOnce (submitted story []) (run demo 20 story fresh)
run-CompletesOnce_example =
    run-CompletesOnce demo 9 8 20 story fresh demo-IsQuiet (omega arith) fresh-IsNew

abbrev sending : Context
sending = record {
  shard = record no_work {
    ops = (5, 7) ∷ [];
    deadlines = (300, 5) ∷ [];
    rtt_samples_ms = 40 ∷ 20 ∷ 30 ∷ 900 ∷ 10 ∷ [];
  };
  op = record (fetch Proto.tcp 7) { fd = some 5; stage = Stage.sending; stage_deadline = 300 };
}

handled-Refines_example :
    Refines demo (Cause.ready false true) sending (handled demo 20 (Cause.ready false true) sending)
handled-Refines_example =
    handled-Refines demo 9 8 20 (Cause.ready false true) sending demo-IsQuiet (omega arith)
      (omega arith) refl

adaptive_connect_budget_bounds_example :
    (floor_ms sending.op ≤ adaptive_connect_budget sending.shard sending.op)
    × (adaptive_connect_budget sending.shard sending.op ≤ ceiling_ms sending.op)
adaptive_connect_budget_bounds_example = adaptive_connect_budget_bounds sending.shard sending.op

set_deadline-Replaces_example :
    Replaces (demo.now sending.shard.calls + 2000) 5 sending (set_deadline demo 2000 sending)
set_deadline-Replaces_example =
    set_deadline-Replaces demo 2000 5 sending refl (inr (inl refl)) (omega arith, tt)

abbrev waiting : Worker
waiting = record {
  shard = sending.shard;
  store = λ id. record (fetch Proto.tcp id) {
    fd = some 5;
    stage = Stage.recv_first;
    stage_deadline = 300;
  };
}

sweep_timeouts_spares_example : (sweep_timeouts 299 waiting).store 7 ≡ waiting.store 7
sweep_timeouts_spares_example = sweep_timeouts_spares 299 7 waiting (omega arith)

recv_first_live : Stage.recv_first ≢ Stage.finished
recv_first_live e = ground (arith, e)

waiting_found : find_op 5 waiting.shard.ops ≡ some 7
unfolding find_op
waiting_found = refl

sweep_timeouts_completes_example : ((sweep_timeouts 300 waiting).store 7).is_finished ≡ true
sweep_timeouts_completes_example =
    sweep_timeouts_completes 300 5 7 waiting (omega arith, tt) (inl refl) waiting_found
      recv_first_live (omega arith)

abbrev receiving : Context
receiving = record {
  shard = sending.shard;
  op = record (fetch Proto.tls 7) { fd = some 5; stage = Stage.recv_first; stage_deadline = 300 };
}

step_recv-Gains_example : Gains receiving (step_recv demo 20 receiving)
step_recv-Gains_example =
    step_recv-Gains demo 9 20 receiving demo-IsQuiet (omega arith) (omega arith)

-- What is called back in the end: 7 has its answer, 9 and 11 are cancelled.
abbrev outcome : Option Worker → List (ℕ × OpResult)
outcome none = []
outcome (some w) = (shutdown w).shard.completed

story_is_told :
    outcome (run demo 20 story fresh)
    ≡ (11, OpResult.cancelled) ∷ (9, OpResult.cancelled) ∷ (7, OpResult.success) ∷ []
unfolding run shutdown
story_is_told = refl
