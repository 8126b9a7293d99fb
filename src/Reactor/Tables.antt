-- ===== src/Reactor/Tables.antt =====
-- The tables of a shard in async_io.cpp, deadlines and budgets, and `Reactor::finish`.
-- Times are milliseconds.
use Prim.Native.Nat.{min, max}
use trinetra.Prelude.{
  ℕ, ◌+◌, ◌-◌, ◌*◌, ◌/◌, true, not, ◌&&◌, List, [], ◌∷◌, Option, none, some, ltb, leb, ◌==◌,
  if◌then◌else◌, length, get_elem?, keep_if,
}
use trinetra.Ports.File.{sort}
use trinetra.Reactor.Types.{OpResult, Stage, Operation, EpollShard, Context, System}

-- Every call of the system has the next number.
abbrev pub called : Context → Context
called c = record c { shard = record (c.shard) { calls = c.shard.calls + 1 } }

-- `ops[fd] = op` and `ops.erase`, for the entry that is the operation's.
abbrev pub put_op : ℕ → ℕ → List (ℕ × ℕ) → List (ℕ × ℕ)
put_op fd op ops = (fd, op) ∷ keep_if (λ e. not (e.0 == fd)) ops

abbrev pub erase_op : ℕ → ℕ → List (ℕ × ℕ) → List (ℕ × ℕ)
erase_op fd op ops = keep_if (λ e. not (e.0 == fd && e.1 == op)) ops

unfoldable pub find_op : ℕ → List (ℕ × ℕ) → Option ℕ
find_op fd [] = none
find_op fd ((n, op) ∷ ops) = if n == fd then some op else find_op fd ops

-- The deadlines are in the order of their times.
unfoldable pub insert_deadline : ℕ → ℕ → List (ℕ × ℕ) → List (ℕ × ℕ)
insert_deadline time fd [] = (time, fd) ∷ []
insert_deadline time fd ((t, n) ∷ ds) =
    let rest = insert_deadline time fd ds in
    if leb t time then (t, n) ∷ rest else (time, fd) ∷ (t, n) ∷ ds

-- The first of the entries at the time that has the descriptor.
unfoldable pub erase_deadline : ℕ → ℕ → List (ℕ × ℕ) → List (ℕ × ℕ)
erase_deadline time fd [] = []
erase_deadline time fd ((t, n) ∷ ds) =
    let rest = erase_deadline time fd ds in if t == time && n == fd then ds else (t, n) ∷ rest

-- The entry of the operation's current deadline, if it has one.
abbrev pub without_deadline : Operation → ℕ → List (ℕ × ℕ) → List (ℕ × ℕ)
without_deadline op fd ds =
    if op.stage_deadline == 0 then ds else erase_deadline op.stage_deadline fd ds

-- A descriptor is set wherever a deadline is.
abbrev pub with_deadline : Option ℕ → ℕ → Context → Context
with_deadline none deadline c = c
with_deadline (some fd) deadline c = record {
  shard = record (c.shard) {
    deadlines = insert_deadline deadline fd (without_deadline c.op fd c.shard.deadlines);
  };
  op = record (c.op) { stage_deadline = deadline };
}

unfoldable pub set_deadline : System → ℕ → Context → Context
unfolding insert_deadline erase_deadline
set_deadline sys budget c = called (with_deadline c.op.fd (sys.now c.shard.calls + budget) c)

-- `std::clamp`, for bounds in their order.
abbrev pub clamp : ℕ → ℕ → ℕ → ℕ
clamp v lo hi = if ltb v lo then lo else if ltb hi v then hi else v

abbrev middle : List ℕ → ℕ
middle samples = elim (get_elem? samples (length samples / 2)) [ none ↦ 0 | some m ↦ m ]

unfoldable pub adaptive_connect_budget : EpollShard → Operation → ℕ
unfolding sort
adaptive_connect_budget shard op =
    let fixed_ms = max 1 op.timeouts.connect_sec * 1000 in
    let floor_ms = if ltb 0 op.timeouts.min_connect_ms then op.timeouts.min_connect_ms else 1000 in
    if ltb (length shard.rtt_samples_ms) 5
    then fixed_ms
    else clamp (middle (sort shard.rtt_samples_ms) * 4) (min floor_ms fixed_ms) fixed_ms

unfoldable pub next_wait_ms : ℕ → EpollShard → ℕ
next_wait_ms now shard = elim shard.deadlines [
  | [] ↦ 250
  | ◌∷◌ d ds ↦ if leb d.0 now then 1 else clamp (d.0 - now + 1) 1 250
]

-- The tables without the operation, if it has a descriptor.
abbrev pub forget : Option ℕ → Operation → EpollShard → EpollShard
forget none op shard = shard
forget (some fd) op shard = record shard {
  ops = erase_op fd op.self shard.ops;
  deadlines = without_deadline op fd shard.deadlines;
}

abbrev pub completed_with : OpResult → EpollShard → Operation → Context
completed_with r tables op = record {
  shard = record tables { completed = (op.self, r) ∷ tables.completed };
  op = record op { is_finished = true; stage = Stage.finished; result = r; fd = none };
}

-- The first call closes the descriptor and calls back; a further one does nothing.
unfoldable pub finish : OpResult → Context → Context
unfolding erase_deadline
finish r c = if c.op.is_finished then c else completed_with r (forget c.op.fd c.op c.shard) c.op
