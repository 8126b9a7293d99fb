-- ===== src/Reactor/Response.antt =====
-- What `step_recv` of async_io.cpp has received when it returns.
use Prim.Native.Nat.{min}
use trinetra.Prelude.{
  ℕ, zero, suc, ◌+◌, ◌-◌, ◌≤◌, ◌<◌, ◌≡◌, refl, sym, ap, ◌∙◌, inl, inr, Bool, true, false, List, [],
  ◌∷◌, ◌++◌, Option, none, some, arith, leb, if◌then◌else◌, length, length-append, append_assoc,
  append_nil, Bool-cases,
}
use trinetra.Reactor.Types.{Proto, OpResult, Stage, Context, ReadResult, FitsRead, System}
use trinetra.Reactor.Tables.{called, with_deadline, set_deadline, finish}
use trinetra.Reactor.Steps.{
  with_errno, with_ssl_error, with_wait, wait_noted, with_stage, timeout_or_success, fail_stage,
  armed, arm, on_first_data, with_data, read_failed, on_read, capacity, read_call, step_recv,
}
use trinetra.Reactor.Ends.{IsQuiet, IsSome, step_recv_ends}

abbrev buffer_of : Context → List ℕ × ℕ
buffer_of c = (c.op.recv_data, c.op.max_response_bytes)

finish_buffer : (r : OpResult) (c : Context) → buffer_of (finish r c) ≡ buffer_of c
unfolding finish
finish_buffer r c = elim (Bool-cases c.op.is_finished) [ inl e ↦ rw e refl | inr e ↦ rw e refl ]

fail_stage_buffer : (s : Stage) (c : Context) → buffer_of (fail_stage s c) ≡ buffer_of c
unfolding fail_stage
fail_stage_buffer Stage.connecting c = finish_buffer _ c
fail_stage_buffer Stage.tls_handshake c = finish_buffer _ c
fail_stage_buffer Stage.sending c = finish_buffer _ c
fail_stage_buffer Stage.recv_first c = finish_buffer _ c
fail_stage_buffer Stage.recv_idle c = finish_buffer _ c
fail_stage_buffer Stage.finished c = refl

armed_buffer :
    (m : Option ℕ) (want_write : Bool) (c : Context)
    → buffer_of (armed m want_write c) ≡ buffer_of c
armed_buffer none want_write c = refl
armed_buffer (some e) want_write c = fail_stage_buffer c.op.stage (with_errno e c)

with_deadline_buffer :
    (fd : Option ℕ) (deadline : ℕ) (c : Context)
    → buffer_of (with_deadline fd deadline c) ≡ buffer_of c
with_deadline_buffer none deadline c = refl
with_deadline_buffer (some fd) deadline c = refl

wait_buffer : (p : Proto) (e : ℕ) (c : Context) → buffer_of (wait_noted p e c) ≡ buffer_of c
wait_buffer Proto.tcp e c = refl
wait_buffer Proto.tls e c = refl

read_failed_buffer :
    (sys : System) (p : Proto) (e : ℕ) (c : Context)
    → buffer_of (read_failed sys p e c) ≡ buffer_of c
read_failed_buffer sys Proto.tcp e c = finish_buffer (timeout_or_success c) (with_errno e c)
read_failed_buffer sys Proto.tls e c = finish_buffer OpResult.success (with_ssl_error e c)

-- What came is behind what there was, and it is not more than fits.
pub data Received (c : Context) : Option Context → Type 0 where
  out_of_fuel : Received c none
  received :
      {c' : Context} (more : List ℕ)
      → c'.op.recv_data ≡ c.op.recv_data ++ more
      → length c'.op.recv_data ≤ capacity c.op.max_response_bytes
      → Received c (some c')

nothing_more :
    (c c' : Context)
    → buffer_of c' ≡ buffer_of c
    → length c.op.recv_data ≤ capacity c.op.max_response_bytes
    → Received c (some c')
nothing_more c c' e h =
    let same = ap (λ (d : List ℕ × ℕ). d.0) e in
    Received.received [] (same ∙ sym (append_nil c.op.recv_data)) (rw same h)

Received-if :
    {c : Context} (b : Bool) {x y : Option Context}
    → Received c x
    → (b ≡ false → Received c y)
    → Received c (if b then x else y)
Received-if true h k = h
Received-if false h k = k refl

module _ (sys : System) where
  arm_buffer : (want_write : Bool) (c : Context) → buffer_of (arm sys want_write c) ≡ buffer_of c
  unfolding arm
  arm_buffer want_write c = armed_buffer (sys.epoll_ctl c.shard.calls) want_write (called c)

  wait_arm_buffer :
      (want_write : Bool) (e : ℕ) (c : Context)
      → buffer_of (arm sys want_write (with_wait e c)) ≡ buffer_of c
  wait_arm_buffer want_write e c =
      arm_buffer want_write (with_wait e c) ∙ wait_buffer c.op.proto e c

  first_data_buffer : (s : Stage) (c : Context) → buffer_of (on_first_data sys s c) ≡ buffer_of c
  unfolding on_first_data set_deadline
  first_data_buffer Stage.recv_first c =
      with_deadline_buffer c.op.fd _ (with_stage Stage.recv_idle c)
  first_data_buffer Stage.connecting c = refl
  first_data_buffer Stage.tls_handshake c = refl
  first_data_buffer Stage.sending c = refl
  first_data_buffer Stage.recv_idle c = refl
  first_data_buffer Stage.finished c = refl

  -- What the next rounds add comes behind the bytes of this one.
  after_bytes :
      (c d : Context) (bytes : List ℕ) (m : Option Context)
      → buffer_of d ≡ (c.op.recv_data ++ bytes, c.op.max_response_bytes)
      → Received d m
      → Received c m
  after_bytes c d bytes none e Received.out_of_fuel = Received.out_of_fuel
  after_bytes c d bytes (some c') e (Received.received more behind fits) =
      let same = ap (λ (d : List ℕ × ℕ). d.0) e in
      let cap = ap (λ (d : List ℕ × ℕ). capacity d.1) e in
      Received.received (bytes ++ more)
        (behind ∙ ap (λ (l : List ℕ). l ++ more) same ∙ append_assoc c.op.recv_data bytes more)
        (omega (arith, fits, cap))

  on_read-Received :
      (r : ReadResult) (c : Context) (want : ℕ) (again : Context → Option Context)
      → FitsRead want r
      → length c.op.recv_data + want ≤ capacity c.op.max_response_bytes
      → ((d : Context)
          → length d.op.recv_data ≤ capacity d.op.max_response_bytes
          → Received d (again d))
      → Received c (on_read sys r c again)
  unfolding on_read
  on_read-Received (ReadResult.got b bs) c want again (FitsRead.got small) room next =
      let d = on_first_data sys c.op.stage (with_data sys (b ∷ bs) c) in
      let e = first_data_buffer c.op.stage (with_data sys (b ∷ bs) c) in
      let size = ap (λ (d : List ℕ × ℕ). length d.0) e ∙ length-append c.op.recv_data (b ∷ bs) in
      let cap = ap (λ (d : List ℕ × ℕ). capacity d.1) e in
      after_bytes c d (b ∷ bs) (again d) e (next d (omega (arith, size, cap, room, small)))
  on_read-Received ReadResult.end_of_stream c want again f room next =
      nothing_more c _ (finish_buffer OpResult.success c) (omega (arith, room))
  on_read-Received ReadResult.interrupted c want again f room next = next c (omega (arith, room))
  on_read-Received ReadResult.want_read c want again f room next =
      nothing_more c _ (wait_arm_buffer false 2 c) (omega (arith, room))
  on_read-Received ReadResult.want_write c want again f room next =
      nothing_more c _ (wait_arm_buffer true 3 c) (omega (arith, room))
  on_read-Received (ReadResult.failed e) c want again f room next =
      nothing_more c _ (read_failed_buffer sys c.op.proto e c) (omega (arith, room))

  called-Received : (c : Context) (m : Option Context) → Received (called c) m → Received c m
  called-Received c none Received.out_of_fuel = Received.out_of_fuel
  called-Received c (some c') (Received.received more e fits) = Received.received more e fits

  read_call_fits :
      (p : Proto) (n want : ℕ)
      → FitsRead want (elim p as (λ _. ReadResult) [
        | Proto.tcp ↦ sys.recv n want
        | Proto.tls ↦ sys.ssl_read n want
      ])
  read_call_fits Proto.tcp n want = sys.recv_fits n want
  read_call_fits Proto.tls n want = sys.ssl_read_fits n want

  step_recv-Received :
      (fuel : ℕ) (c : Context)
      → length c.op.recv_data ≤ capacity c.op.max_response_bytes
      → Received c (step_recv sys fuel c)
  unfolding step_recv
  step_recv-Received zero c h = Received.out_of_fuel
  step_recv-Received (suc fuel) c h =
      let want = min 4096 (capacity c.op.max_response_bytes - length c.op.recv_data) in
      Received-if (leb (capacity c.op.max_response_bytes) (length c.op.recv_data))
        (nothing_more c _ (finish_buffer OpResult.success c) h)
        (λ more. called-Received c _ (
          on_read-Received (read_call sys c) (called c) want (step_recv sys fuel)
            (read_call_fits c.op.proto c.shard.calls want) (omega (arith, h))
            (λ d h'. step_recv-Received fuel d h')))

abbrev pub Gains : Context → Option Context → Type 0
Gains c none = ⊥
Gains c (some c') =
    (more : List ℕ) × (c'.op.recv_data ≡ c.op.recv_data ++ more)
    × (length c'.op.recv_data ≤ capacity c.op.max_response_bytes)

Received-Gains : (c : Context) (m : Option Context) → IsSome m → Received c m → Gains c m
Received-Gains c none h r = elim h [ ]
Received-Gains c (some c') h (Received.received more e fits) = (more, e, fits)

-- An operation with a response that fits, a system that stops interrupting calls at some call, and
-- fuel for the bytes that may still come and the calls until then. The receiving loop comes to an
-- end, the response it leaves is the one that was there with bytes behind it, and it is never
-- larger than the operation's limit, or than 64 KiB where it sets none.
pub step_recv-Gains :
    (sys : System) (calm fuel : ℕ) (c : Context)
    → IsQuiet sys calm
    → length c.op.recv_data ≤ capacity c.op.max_response_bytes
    → (capacity c.op.max_response_bytes - length c.op.recv_data) + (calm - c.shard.calls) < fuel
    → Gains c (step_recv sys fuel c)
step_recv-Gains sys calm fuel c quiet fits enough =
    Received-Gains c (step_recv sys fuel c) (step_recv_ends sys calm quiet fuel c enough)
      (step_recv-Received sys fuel c fits)
