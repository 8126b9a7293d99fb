-- ===== src/Reactor/Begin.antt =====
-- `begin_connect` of async_io.cpp enters the operation in the table, or completes it.
use trinetra.Prelude.{
  ℕ, zero, suc, ◌≡◌, refl, subst, sym, ◌∙◌, inl, inr, Bool, true, false, not, List, Option, none,
  some, arith, ◌==◌, if◌then◌else◌, All, map, Bool-cases,
}
use trinetra.Reactor.Types.{OpResult, Stage, Context, ConnectResult, FreshFd, System}
use trinetra.Reactor.Tables.{called, put_op, adaptive_connect_budget}
use trinetra.Reactor.Steps.{with_errno}
use trinetra.Reactor.Connect.{
  retryable, retry_or, connect_call, connect_loop, registered, on_connect, begin_connect,
}
use trinetra.Reactor.Effect.{
  inputs_of, Same, Effect-Books, IsFurther-from, Same-from, Same-trans, Same-Ended, Books,
  finish-Books, set_deadline-Same,
}
use trinetra.Reactor.Handlers.{Returns}
use trinetra.Reactor.Transfer.{arm-Effect}
use trinetra.Reactor.Advance.{step_connecting-Returns}

abbrev pub Fresh : ℕ → List ℕ → Type 0
Fresh fd taken = All (λ n. not (n == fd) ≡ true) taken

-- The books with a new entry.
pub record Entered (fd : ℕ) (c c' : Context) : Type 0 where
  pub self : c'.op.self ≡ c.op.self
  pub is_finished : c'.op.is_finished ≡ c.op.is_finished
  pub ops : c'.shard.ops ≡ put_op fd c.op.self c.shard.ops
  pub fresh : Fresh fd (map (λ (e : ℕ × ℕ). e.0) c.shard.ops)
  pub completed : c'.shard.completed ≡ c.shard.completed
  pub pending : c'.shard.pending ≡ c.shard.pending
  pub closed : c'.shard.closed ≡ c.shard.closed
  pub inputs : inputs_of c'.op ≡ inputs_of c.op

-- What `begin_connect` returns, when it returns.
pub data Begins (c : Context) : Option Context → Type 0 where
  out_of_fuel : Begins c none
  ends : {c' : Context} → Books c c' → c'.op.is_finished ≡ true → Begins c (some c')
  enters : {c' : Context} (fd : ℕ) (d : Context) → Entered fd c d → Books d c' → Begins c (some c')

Begins-if :
    {c : Context} {x y : Option Context} (b : Bool)
    → (b ≡ true → Begins c x)
    → (b ≡ false → Begins c y)
    → Begins c (if b then x else y)
Begins-if true h k = h refl
Begins-if false h k = k refl

Same-Books : {c d e : Context} → Same c d → Books d e → Books c e
Same-Books p (Books.same q) = Books.same (Same-trans p q)
Same-Books p (Books.ended r q) = Books.ended r (Same-Ended p q)

Same-Entered : {fd : ℕ} {c d e : Context} → Same c d → Entered fd d e → Entered fd c e
Same-Entered {fd} p q = record {
  self = q.self ∙ p.self;
  is_finished = q.is_finished ∙ p.is_finished;
  ops = q.ops ∙ (λ i. put_op fd (p.self i) (p.ops i));
  fresh = subst (λ t. Fresh fd (map (λ (e : ℕ × ℕ). e.0) t)) p.ops q.fresh;
  completed = q.completed ∙ p.completed;
  pending = q.pending ∙ p.pending;
  closed = q.closed ∙ p.closed;
  inputs = q.inputs ∙ p.inputs;
}

Returns-Begins :
    {sys : System} {c : Context} {m : Option Context} (fd : ℕ) (d : Context)
    → Entered fd c d
    → Returns sys d m
    → Begins c m
Returns-Begins fd d entered Returns.out_of_fuel = Begins.out_of_fuel
Returns-Begins fd d entered (Returns.effect e) = Begins.enters fd d entered (Effect-Books e)

module _ (sys : System) where
  retry_or_lem :
      (r : ConnectResult) (c d : Context) (next : Context × ConnectResult) (taken : List ℕ)
      → Same c d
      → FreshFd taken r
      → Same c next.0 × FreshFd taken next.1
      → Same c (retry_or sys r d next).0 × FreshFd taken (retry_or sys r d next).1
  retry_or_lem (ConnectResult.started fd in_progress) c d next taken p fresh more = (p, fresh)
  retry_or_lem (ConnectResult.refused b e) c d next taken p fresh more =
      elim (Bool-cases (retryable sys d.op b e)) [ inl t ↦ rw t more | inr f ↦ rw f (p, fresh) ]

  pub connect_loop_lem :
      (retries : ℕ) (c : Context)
      → Same c (connect_loop sys retries c).0
        × FreshFd (map (λ (e : ℕ × ℕ). e.0) c.shard.ops) (connect_loop sys retries c).1
  unfolding connect_loop
  connect_loop_lem zero c = (
    Same-from (refl, refl, refl, refl, refl, refl, refl) (omega arith)
        (IsFurther-from refl (omega arith) (omega arith)),
    sys.connect_fresh c.shard.calls _,
  )
  connect_loop_lem (suc retries) c =
      let more = connect_loop_lem retries (called c) in
      let step : Same c (called c) =
        Same-from (refl, refl, refl, refl, refl, refl, refl) (omega arith)
          (IsFurther-from refl (omega arith) (omega arith)) in
      retry_or_lem (connect_call sys c) c (called c) (connect_loop sys retries (called c)) _ step
        (sys.connect_fresh c.shard.calls _) (Same-trans step more.0, more.1)

  registered-Entered :
      (fd : ℕ) (c : Context)
      → Fresh fd (map (λ (e : ℕ × ℕ). e.0) c.shard.ops)
      → Entered fd c (registered sys fd c) × ((registered sys fd c).op.stage ≡ Stage.connecting)
  registered-Entered fd c fresh =
      let op = record (c.op) { fd = some fd; stage = Stage.connecting } in
      let shard = record (c.shard) { ops = put_op fd c.op.self c.shard.ops } in
      let d =
        set_deadline-Same sys (adaptive_connect_budget shard op)
          (record { shard = shard; op = op }) in
      (
        record {
          self = d.0.self;
          is_finished = d.0.is_finished;
          ops = d.0.ops;
          fresh = fresh;
          completed = d.0.completed;
          pending = d.0.pending;
          closed = d.0.closed;
          inputs = d.0.inputs;
        },
        d.1,
      )

  pub registered-inputs :
      (fd : ℕ) (c : Context) → inputs_of (registered sys fd c).op ≡ inputs_of c.op
  registered-inputs fd c =
      let op = record (c.op) { fd = some fd; stage = Stage.connecting } in
      let shard = record (c.shard) { ops = put_op fd c.op.self c.shard.ops } in
      (set_deadline-Same sys (adaptive_connect_budget shard op)
        (record { shard = shard; op = op })).0.inputs

  on_connect-Begins :
      (fuel : ℕ) (r : ConnectResult) (c : Context)
      → FreshFd (map (λ (e : ℕ × ℕ). e.0) c.shard.ops) r
      → Begins c (on_connect sys fuel r c)
  unfolding on_connect
  on_connect-Begins fuel (ConnectResult.started fd in_progress) c (FreshFd.started fresh) =
      let e = registered-Entered fd c fresh in
      Begins-if in_progress
        (λ _.
          Begins.enters fd (registered sys fd c) e.0
            (Effect-Books (arm-Effect sys true (registered sys fd c))))
        (λ _.
          Returns-Begins fd (registered sys fd c) e.0
            (step_connecting-Returns sys fuel (registered sys fd c) e.1))
  on_connect-Begins fuel (ConnectResult.refused b e) c fresh =
      let f = finish-Books OpResult.connect_failed (with_errno (if b == 0 then e else b) c) in
      Begins.ends
        (Same-Books
          (Same-from (refl, refl, refl, refl, refl, refl, refl) (omega arith)
            (IsFurther-from refl (omega arith) (omega arith)))
          f.0)
        f.1

  Same-Begins : {c d : Context} {m : Option Context} → Same c d → Begins d m → Begins c m
  Same-Begins p Begins.out_of_fuel = Begins.out_of_fuel
  Same-Begins p (Begins.ends b f) = Begins.ends (Same-Books p b) f
  Same-Begins p (Begins.enters fd d e f) = Begins.enters fd d (Same-Entered p e) f

  -- The operation is completed, or it is in the table under a descriptor of its own.
  pub begin_connect-Begins : (fuel : ℕ) (c : Context) → Begins c (begin_connect sys fuel c)
  unfolding begin_connect
  begin_connect-Begins fuel c =
      let start =
        called (record c { op = record (c.op) { connect_start = sys.now c.shard.calls } }) in
      let l = connect_loop_lem 3 start in
      let begun : Same c start =
        Same-from (refl, refl, refl, refl, refl, refl, refl) (omega arith)
          (IsFurther-from refl (omega arith) (omega arith)) in
      let p = Same-trans begun l.0 in
      Begins-if c.op.cancel_requested
        (λ _. let f = finish-Books OpResult.cancelled c in Begins.ends f.0 f.1)
        (λ _. Same-Begins p (
          on_connect-Begins fuel (connect_loop sys 3 start).1 (connect_loop sys 3 start).0 (
            subst (λ t. FreshFd (map (λ (e : ℕ × ℕ). e.0) t) (connect_loop sys 3 start).1)
              (sym l.0.ops) l.1)))
