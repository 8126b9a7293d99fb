-- ===== src/Reactor/Effect.antt =====
-- What a handler of async_io.cpp does to its operation and to the shard: it leaves the books as
-- they are, or it completes the operation.
use trinetra.Prelude.{
  ℕ, ◌+◌, ◌≤◌, ◌<◌, length, ◌≡◌, ◌≢◌, refl, subst, sym, ap, ◌∙◌, ◌⊎◌, inl, inr, Bool, true, false,
  ◌&&◌, List, [], ◌∷◌, Option, none, some, arith, ◌==◌, if◌then◌else◌, Bool-cases,
}
use trinetra.Reactor.Types.{
  Proto, SocketError, HandshakeResult, OpResult, Stage, Operation, EpollShard, Context, System,
}
use trinetra.Reactor.Tables.{
  called, erase_op, forget, with_deadline, set_deadline, completed_with, finish,
}

-- The table has an entry of the operation.
abbrev pub Holds : ℕ → List (ℕ × ℕ) → Type 0
Holds id [] = ⊥
Holds id (e ∷ ops) = (e.1 ≡ id) ⊎ Holds id ops

-- The results with which an operation may end in a stage.
pub data Allowed : Stage → OpResult → Type 0 where
  connect_failed : Allowed Stage.connecting OpResult.connect_failed
  no_tls : Allowed Stage.connecting OpResult.tls_failed
  tls_failed : Allowed Stage.tls_handshake OpResult.tls_failed
  send_failed : Allowed Stage.sending OpResult.send_failed
  no_answer : Allowed Stage.recv_first OpResult.timeout
  nothing_more : Allowed Stage.recv_idle OpResult.timeout
  answered : Allowed Stage.recv_first OpResult.success
  ended : Allowed Stage.recv_idle OpResult.success

-- What an operation is given to do.
abbrev pub inputs_of : Operation → List ℕ × ℕ
inputs_of op = (op.send_payload, op.max_response_bytes)

-- The protocol is the same, and nothing that was sent or received is taken back.
pub record IsFurther (o o' : Operation) : Type 0 where
  pub proto : o'.proto ≡ o.proto
  pub sent : o.sent ≤ o'.sent
  pub received : length o.recv_data ≤ length o'.recv_data

pub IsFurther-from :
    {o o' : Operation}
    → o'.proto ≡ o.proto
    → o.sent ≤ o'.sent
    → length o.recv_data ≤ length o'.recv_data
    → IsFurther o o'
IsFurther-from p n l = record { proto = p; sent = n; received = l }

IsFurther-refl : (o : Operation) → IsFurther o o
IsFurther-refl o = IsFurther-from refl (omega arith) (omega arith)

IsFurther-trans : {o p q : Operation} → IsFurther o p → IsFurther p q → IsFurther o q
IsFurther-trans h k =
    IsFurther-from (k.proto ∙ h.proto) (omega (arith, h.sent, k.sent))
      (omega (arith, h.received, k.received))

-- What both outcomes leave alone.
pub record Same (c c' : Context) : Type 0 where
  pub self : c'.op.self ≡ c.op.self
  pub is_finished : c'.op.is_finished ≡ c.op.is_finished
  pub ops : c'.shard.ops ≡ c.shard.ops
  pub completed : c'.shard.completed ≡ c.shard.completed
  pub pending : c'.shard.pending ≡ c.shard.pending
  pub closed : c'.shard.closed ≡ c.shard.closed
  pub inputs : inputs_of c'.op ≡ inputs_of c.op
  pub calls : c.shard.calls ≤ c'.shard.calls
  pub further : IsFurther c.op c'.op

pub record Ended (r : OpResult) (c c' : Context) : Type 0 where
  pub self : c'.op.self ≡ c.op.self
  pub was_live : c.op.is_finished ≡ false
  pub is_finished : c'.op.is_finished ≡ true
  pub result : c'.op.result ≡ r
  pub completed : c'.shard.completed ≡ (c.op.self, r) ∷ c.shard.completed
  pub others : (id : ℕ) → id ≢ c.op.self → Holds id c.shard.ops → Holds id c'.shard.ops
  pub pending : c'.shard.pending ≡ c.shard.pending
  pub closed : c'.shard.closed ≡ c.shard.closed
  pub inputs : inputs_of c'.op ≡ inputs_of c.op
  pub calls : c.shard.calls ≤ c'.shard.calls
  pub further : IsFurther c.op c'.op

-- The stage behind the connect.
abbrev pub first_stage : Proto → Stage
first_stage Proto.tls = Stage.tls_handshake
first_stage Proto.tcp = Stage.sending

-- A stage is left for the next one, for a reason: the socket has no error, by a call that was made
-- meanwhile, the handshake is over, the payload is sent, or data has come.
pub data Moves (sys : System) (c d : Context) : Type 0 where
  connected :
      (p : Proto) (call : ℕ)
      → Same c d
      → c.op.stage ≡ Stage.connecting
      → c.op.proto ≡ p
      → c.shard.calls ≤ call
      → call < d.shard.calls
      → sys.socket_error call ≡ SocketError.no_error
      → d.op.stage ≡ first_stage p
      → Moves sys c d
  secured :
      (call : ℕ)
      → Same c d
      → c.op.stage ≡ Stage.tls_handshake
      → c.shard.calls ≤ call
      → call < d.shard.calls
      → sys.ssl_connect call ≡ HandshakeResult.connected
      → d.op.stage ≡ Stage.sending
      → Moves sys c d
  sent :
      Same c d
      → c.op.stage ≡ Stage.sending
      → length c.op.send_payload ≤ c.op.sent
      → d.op.stage ≡ Stage.recv_first
      → Moves sys c d
  answered :
      Same c d
      → c.op.stage ≡ Stage.recv_first
      → 0 < length d.op.recv_data
      → d.op.stage ≡ Stage.recv_idle
      → Moves sys c d

-- The stages that are gone through, one after the other.
pub data Course (sys : System) : Context → Context → Type 0 where
  arrived : {c d : Context} → Same c d → d.op.stage ≡ c.op.stage → Course sys c d
  waits : {c d e : Context} → Same c d → d.op.stage ≡ c.op.stage → Course sys d e → Course sys c e
  onward : {c d e : Context} → Moves sys c d → Course sys d e → Course sys c e

-- The operation goes on, or it ends as the stage that it has come to allows.
pub data Effect (sys : System) (c c' : Context) : Type 0 where
  quiet : Same c c' → Course sys c c' → Effect sys c c'
  ended :
      (r : OpResult) (d : Context)
      → Ended r c c'
      → Course sys c d
      → Ended r d c'
      → Allowed d.op.stage r
      → Effect sys c c'

pub Moves-Same : {sys : System} {c d : Context} → Moves sys c d → Same c d
Moves-Same (Moves.connected p call same a b l m e f) = same
Moves-Same (Moves.secured call same a l m e f) = same
Moves-Same (Moves.sent same a e f) = same
Moves-Same (Moves.answered same a e f) = same

pub Same-trans : {c d e : Context} → Same c d → Same d e → Same c e
Same-trans p q = record {
  self = q.self ∙ p.self;
  is_finished = q.is_finished ∙ p.is_finished;
  ops = q.ops ∙ p.ops;
  completed = q.completed ∙ p.completed;
  pending = q.pending ∙ p.pending;
  closed = q.closed ∙ p.closed;
  inputs = q.inputs ∙ p.inputs;
  calls = omega (arith, p.calls, q.calls);
  further = IsFurther-trans p.further q.further;
}

pub Same-Ended : {r : OpResult} {c d e : Context} → Same c d → Ended r d e → Ended r c e
Same-Ended {r} p q = record {
  self = q.self ∙ p.self;
  was_live = sym p.is_finished ∙ q.was_live;
  is_finished = q.is_finished;
  result = q.result;
  completed = q.completed ∙ (λ i. (p.self i, r) ∷ p.completed i);
  others =
      λ id other h. q.others id (λ e. other (e ∙ p.self)) (subst (λ t. Holds id t) (sym p.ops) h);
  pending = q.pending ∙ p.pending;
  closed = q.closed ∙ p.closed;
  inputs = q.inputs ∙ p.inputs;
  calls = omega (arith, p.calls, q.calls);
  further = IsFurther-trans p.further q.further;
}

-- A handler goes on after a quiet part, and never after an end.
pub Same-Effect :
    {sys : System} {c d e : Context}
    → Same c d
    → d.op.stage ≡ c.op.stage
    → Effect sys d e
    → Effect sys c e
Same-Effect p at (Effect.quiet q way) = Effect.quiet (Same-trans p q) (Course.waits p at way)
Same-Effect p at (Effect.ended r x q way l a) =
    Effect.ended r x (Same-Ended p q) (Course.waits p at way) l a

pub Moves-Effect :
    {sys : System} {c d e : Context} → Moves sys c d → Effect sys d e → Effect sys c e
Moves-Effect m (Effect.quiet q way) =
    Effect.quiet (Same-trans (Moves-Same m) q) (Course.onward m way)
Moves-Effect m (Effect.ended r x q way l a) =
    Effect.ended r x (Same-Ended (Moves-Same m) q) (Course.onward m way) l a

pub stays : {sys : System} {c c' : Context} → Same c c' → c'.op.stage ≡ c.op.stage → Effect sys c c'
stays p at = Effect.quiet p (Course.arrived p at)

Holds-erase :
    (id fd self : ℕ) (ops : List (ℕ × ℕ))
    → id ≢ self
    → Holds id ops
    → Holds id (erase_op fd self ops)
Holds-erase id fd self [] other h = h
Holds-erase id fd self (e ∷ ops) other h = elim (Bool-cases (e.0 == fd && e.1 == self)) [
  | inl t ↦ rw t (elim h [
    | inl here ↦ absurd (other (sym here ∙ (ground (arith, t))))
    | inr there ↦ Holds-erase id fd self ops other there
  ])
  | inr f ↦
      rw f
        (elim h [ inl here ↦ inl here | inr there ↦ inr (Holds-erase id fd self ops other there) ])
]

forget_others :
    (fd : Option ℕ) (op : Operation) (shard : EpollShard) (id : ℕ)
    → id ≢ op.self
    → Holds id shard.ops
    → Holds id (forget fd op shard).ops
forget_others none op shard id other h = h
forget_others (some fd) op shard id other h = Holds-erase id fd op.self shard.ops other h

forget_books :
    (fd : Option ℕ) (op : Operation) (shard : EpollShard)
    → ((forget fd op shard).completed ≡ shard.completed)
      × ((forget fd op shard).pending ≡ shard.pending)
      × ((forget fd op shard).closed ≡ shard.closed)
      × ((forget fd op shard).calls ≡ shard.calls)
forget_books none op shard = (refl, refl, refl, refl)
forget_books (some fd) op shard = (refl, refl, refl, refl)

pub Same-refl : (c : Context) → Same c c
Same-refl c = record {
  self = refl;
  is_finished = refl;
  ops = refl;
  completed = refl;
  pending = refl;
  closed = refl;
  inputs = refl;
  calls = omega arith;
  further = IsFurther-from refl (omega arith) (omega arith);
}

-- For a context that differs in nothing that counts, by computation.
pub Same-from :
    {c c' : Context}
    → (c'.op.self ≡ c.op.self)
      × (c'.op.is_finished ≡ c.op.is_finished)
      × (c'.shard.ops ≡ c.shard.ops)
      × (c'.shard.completed ≡ c.shard.completed)
      × (c'.shard.pending ≡ c.shard.pending)
      × (c'.shard.closed ≡ c.shard.closed)
      × (inputs_of c'.op ≡ inputs_of c.op)
    → c.shard.calls ≤ c'.shard.calls
    → IsFurther c.op c'.op
    → Same c c'
Same-from h calls further = record {
  self = h.0;
  is_finished = h.1;
  ops = h.2;
  completed = h.3;
  pending = h.4;
  closed = h.5;
  inputs = h.6;
  calls = calls;
  further = further;
}

-- The same two outcomes, with no word about the stages.
pub data Books (c c' : Context) : Type 0 where
  same : Same c c' → Books c c'
  ended : (r : OpResult) → Ended r c c' → Books c c'

pub Effect-Books : {sys : System} {c c' : Context} → Effect sys c c' → Books c c'
Effect-Books (Effect.quiet p way) = Books.same p
Effect-Books (Effect.ended r d p way l a) = Books.ended r p

finish_live :
    (r : OpResult) (c : Context)
    → c.op.is_finished ≡ false
    → Ended r c (completed_with r (forget c.op.fd c.op c.shard) c.op)
finish_live r c live =
    let books = forget_books c.op.fd c.op c.shard in
    record {
      self = refl;
      was_live = live;
      is_finished = refl;
      result = refl;
      completed = ap (λ l. (c.op.self, r) ∷ l) books.0;
      others = forget_others c.op.fd c.op c.shard;
      pending = books.1;
      closed = books.2;
      inputs = refl;
      calls = let n = books.3 in omega (arith, n);
      further = IsFurther-from refl (omega arith) (omega arith);
    }

-- The operation is at its end already, or it ends as its stage allows.
pub data Closes (c c' : Context) : Type 0 where
  rests :
      Same c c'
      → c'.op.stage ≡ c.op.stage
      → (c.op.is_finished ≡ true) ⊎ (c.op.stage ≡ Stage.finished)
      → Closes c c'
  ended : (r : OpResult) → Ended r c c' → Allowed c.op.stage r → Closes c c'

pub Same-Closes : {c d e : Context} → Same c d → d.op.stage ≡ c.op.stage → Closes d e → Closes c e
Same-Closes p at (Closes.rests q at' (inl over)) =
    Closes.rests (Same-trans p q) (at' ∙ at) (inl (sym p.is_finished ∙ over))
Same-Closes p at (Closes.rests q at' (inr over)) =
    Closes.rests (Same-trans p q) (at' ∙ at) (inr (sym at ∙ over))
Same-Closes p at (Closes.ended r q a) =
    Closes.ended r (Same-Ended p q) (subst (λ s. Allowed s r) at a)

pub Closes-Books : {c c' : Context} → Closes c c' → Books c c'
Closes-Books (Closes.rests p at over) = Books.same p
Closes-Books (Closes.ended r p a) = Books.ended r p

Closes-Effect : {sys : System} {c c' : Context} → Closes c c' → Effect sys c c'
Closes-Effect (Closes.rests p at over) = stays p at
Closes-Effect {sys} {c} (Closes.ended r p a) =
    Effect.ended r c p (Course.arrived (Same-refl c) refl) p a

-- In a stage that is known.
pub finish-Closes :
    (r : OpResult) (s : Stage) (c : Context) → c.op.stage ≡ s → Allowed s r → Closes c (finish r c)
unfolding finish
finish-Closes r s c at a = closes c.op.is_finished refl
  where
    closes :
        (b : Bool)
        → c.op.is_finished ≡ b
        → Closes c (if b then c else completed_with r (forget c.op.fd c.op c.shard) c.op)
    closes true e = Closes.rests (Same-refl c) refl (inl e)
    closes false e = Closes.ended r (finish_live r c e) (subst (λ t. Allowed t r) (sym at) a)

pub finish_at :
    {sys : System} (r : OpResult) (s : Stage) (c : Context)
    → c.op.stage ≡ s
    → Allowed s r
    → Effect sys c (finish r c)
finish_at r s c at a = Closes-Effect (finish-Closes r s c at a)

-- An operation that is not completed ends with the result, whatever its stage.
pub finish-Ended : (r : OpResult) (c : Context) → c.op.is_finished ≡ false → Ended r c (finish r c)
unfolding finish
finish-Ended r c live = subst (Ended r c) (at c.op.is_finished live) (finish_live r c live)
  where
    at :
        (b : Bool)
        → b ≡ false
        → completed_with r (forget c.op.fd c.op c.shard) c.op
          ≡ (if b then c else completed_with r (forget c.op.fd c.op c.shard) c.op)
    at true e = absurd (ground (arith, e))
    at false e = refl

-- In any stage, the books are closed afterwards.
pub finish-Books :
    (r : OpResult) (c : Context) → Books c (finish r c) × ((finish r c).op.is_finished ≡ true)
unfolding finish
finish-Books r c = closes c.op.is_finished refl
  where
    closes :
        (b : Bool)
        → c.op.is_finished ≡ b
        → Books c (if b then c else completed_with r (forget c.op.fd c.op c.shard) c.op)
          × ((if b then c else completed_with r (forget c.op.fd c.op c.shard) c.op).op.is_finished
              ≡ true)
    closes true e = (Books.same (Same-refl c), e)
    closes false e = (Books.ended r (finish_live r c e), refl)

with_deadline-Same :
    (fd : Option ℕ) (deadline : ℕ) (c : Context)
    → Same c (with_deadline fd deadline c) × ((with_deadline fd deadline c).op.stage ≡ c.op.stage)
with_deadline-Same none deadline c = (Same-refl c, refl)
with_deadline-Same (some fd) deadline c = (
  record {
    self = refl;
    is_finished = refl;
    ops = refl;
    completed = refl;
    pending = refl;
    closed = refl;
    inputs = refl;
    calls = omega arith;
    further = IsFurther-from refl (omega arith) (omega arith);
  },
  refl,
)

called-Same : {c d : Context} → Same c d → Same c (called d)
called-Same p = record {
  self = p.self;
  is_finished = p.is_finished;
  ops = p.ops;
  completed = p.completed;
  pending = p.pending;
  closed = p.closed;
  inputs = p.inputs;
  calls = omega (arith, p.calls);
  further = p.further;
}

pub set_deadline-Same :
    (sys : System) (budget : ℕ) (c : Context)
    → Same c (set_deadline sys budget c) × ((set_deadline sys budget c).op.stage ≡ c.op.stage)
unfolding set_deadline
set_deadline-Same sys budget c =
    let w = with_deadline-Same c.op.fd (sys.now c.shard.calls + budget) c in (called-Same w.0, w.1)
