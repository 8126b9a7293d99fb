-- ===== src/Reactor/Run.antt =====
-- What goes on at a shard of async_io.cpp: submissions, cancellations, rounds of its worker,
-- and the end of the worker's loop, in any order.
use trinetra.Prelude.{
  Elem, ℕ, ◌≡◌, ◌≢◌, refl, subst, sym, ap, ◌∙◌, ◌⊎◌, inl, inr, Bool, true, false, List, [], ◌∷◌,
  ◌++◌, Option, some, arith, ◌==◌, if◌then◌else◌, not, map, Bool-cases,
}
use trinetra.Reactor.Types.{OpResult, System}
use trinetra.Reactor.Worker.{
  Worker, ◌>>=◌, context, finish_op, for_each, Event, worker_round, final_cleanup, submit, cancel,
  shutdown,
}
use trinetra.Reactor.Effect.{Holds, Books, IsFurther-from, Same-from, finish-Books}
use trinetra.Reactor.Accounts.{
  Accounts, IsWithin, count_of, flag, Accounts-Split, Split-Accounts, Books-Split,
}
use trinetra.Reactor.Once.{
  finish_op-dequeue, Balanced, IsBalanced, IsBalanced-bind, settled, taken, worker_round-IsBalanced,
  dequeue_each, finish_each-Accounts,
}

pub data Action : Type 0 where
  submission : ℕ → Action
  cancellation : ℕ → Action
  round : List Event → ℕ → Action
  leave : Action

unfoldable pub act : System → ℕ → Action → Worker → Option Worker
unfolding submit cancel worker_round final_cleanup
act sys fuel (Action.submission id) w = some (submit id w)
act sys fuel (Action.cancellation id) w = some (cancel id w)
act sys fuel (Action.round events now) w = worker_round sys fuel events now w
act sys fuel Action.leave w = some (final_cleanup w)

unfoldable pub run : System → ℕ → List Action → Worker → Option Worker
unfolding act
run sys fuel [] w = some w
run sys fuel (a ∷ rest) w = do w' ← act sys fuel a w; run sys fuel rest w'

-- What has been submitted by then.
abbrev pub submitted : List Action → List ℕ → List ℕ
submitted [] s = s
submitted (Action.submission id ∷ rest) s = submitted rest (id ∷ s)
submitted (Action.cancellation id ∷ rest) s = submitted rest s
submitted (Action.round events now ∷ rest) s = submitted rest s
submitted (Action.leave ∷ rest) s = submitted rest s

Elem-last : (n id : ℕ) (xs : List ℕ) → n ≡ id → Elem n (xs ++ id ∷ [])
Elem-last n id [] e = inl e
Elem-last n id (x ∷ xs) e = inr (Elem-last n id xs e)

Elem-before : (n id : ℕ) (xs : List ℕ) → Elem n xs → Elem n (xs ++ id ∷ [])
Elem-before n id (x ∷ xs) (inl e) = inl e
Elem-before n id (x ∷ xs) (inr t) = inr (Elem-before n id xs t)
Elem-before n id [] h = elim h [ ]

enlisted :
    {limit : ℕ} {s q p : List ℕ} (id : ℕ) (w : Worker)
    → Accounts limit s q p w
    → Accounts limit (id ∷ s) (id ∷ q) p w
enlisted id w a = record {
  own = a.own;
  once = a.once;
  kept = λ n sub. elim sub [
    | inl e ↦ inr (inr (inl e))
    | inr t ↦ elim (a.kept n t) [
      | inl f ↦ inl f
      | inr (inl h) ↦ inr (inl h)
      | inr (inr e) ↦ inr (inr (inr e))
    ]
  ];
  waiting = a.waiting;
  given = a.given;
}

queued :
    {limit : ℕ} {s : List ℕ} (id : ℕ) (w : Worker)
    → Balanced limit s w
    → Balanced limit
        (id ∷ s)
        (record w { shard = record (w.shard) { pending = w.shard.pending ++ id ∷ [] } })
queued id w a = record {
  own = a.own;
  once = a.once;
  kept = λ n sub. elim sub [
    | inl e ↦ inr (inr (Elem-last n id w.shard.pending e))
    | inr t ↦ elim (a.kept n t) [
      | inl f ↦ inl f
      | inr (inl h) ↦ inr (inl h)
      | inr (inr e) ↦ inr (inr (Elem-before n id w.shard.pending e))
    ]
  ];
  waiting = refl;
  given = a.given;
}

if-Balanced :
    {limit : ℕ} {s : List ℕ} {v w : Worker} (b : Bool)
    → Balanced limit s v
    → Balanced limit s w
    → Balanced limit s (if b then v else w)
if-Balanced true h k = h
if-Balanced false h k = k

pub submit-Balanced :
    {limit : ℕ} {s : List ℕ} (id : ℕ) (w : Worker)
    → Balanced limit s w
    → Balanced limit (id ∷ s) (submit id w)
unfolding submit
submit-Balanced id w a =
    if-Balanced (not w.shard.closed) (queued id w a)
      (settled _ (finish_op-dequeue OpResult.cancelled id w (enlisted id w a)))

pub cancel-Balanced :
    {limit : ℕ} {s : List ℕ} (id : ℕ) (w : Worker)
    → Balanced limit s w
    → Balanced limit s (cancel id w)
unfolding cancel
cancel-Balanced id w a = Split-Accounts w _ (
    Books-Split w.store (context id w) _
      (Books.same (
        Same-from (refl, refl, refl, refl, refl, refl, refl) (omega arith)
          (IsFurther-from refl (omega arith) (omega arith))))
      (Accounts-Split w a))

-- What is queued or in the table is completed, and nothing twice.
pub final_cleanup-Balanced :
    {limit : ℕ} {s : List ℕ} (w : Worker) → Balanced limit s w → Balanced limit s (final_cleanup w)
unfolding final_cleanup
final_cleanup-Balanced w a =
    let taken_w = record w { shard = record (w.shard) { pending = [] } } in
    let drained = for_each (finish_op OpResult.cancelled) w.shard.pending taken_w in
    settled _ (
      finish_each-Accounts OpResult.cancelled (map (λ (e : ℕ × ℕ). e.1) drained.shard.ops) drained
        (dequeue_each OpResult.cancelled w.shard.pending taken_w (taken w a)))

pub run-IsBalanced :
    {limit : ℕ} {s : List ℕ} (sys : System) (fuel : ℕ) (actions : List Action) (w : Worker)
    → Balanced limit s w
    → IsBalanced limit (submitted actions s) (run sys fuel actions w)
unfolding run act
run-IsBalanced sys fuel [] w a = IsBalanced.balanced a
run-IsBalanced sys fuel (Action.submission id ∷ rest) w a =
    run-IsBalanced sys fuel rest (submit id w) (submit-Balanced id w a)
run-IsBalanced sys fuel (Action.cancellation id ∷ rest) w a =
    run-IsBalanced sys fuel rest (cancel id w) (cancel-Balanced id w a)
run-IsBalanced sys fuel (Action.round events now ∷ rest) w a =
    IsBalanced-bind (worker_round sys fuel events now w) _
      (worker_round-IsBalanced sys fuel events now w a) (λ v b. run-IsBalanced sys fuel rest v b)
run-IsBalanced sys fuel (Action.leave ∷ rest) w a =
    run-IsBalanced sys fuel rest (final_cleanup w) (final_cleanup-Balanced w a)

-- All but some of the operations are completed.
FinishedBut : List ℕ → List ℕ → Worker → Type 0
FinishedBut s ids w = (n : ℕ) → Elem n s → ((w.store n).is_finished ≡ true) ⊎ Elem n ids

finish_op-FinishedBut :
    (s ids : List ℕ) (r : OpResult) (id : ℕ) (w : Worker)
    → FinishedBut s (id ∷ ids) w
    → FinishedBut s ids (finish_op r id w)
unfolding FinishedBut
finish_op-FinishedBut s ids r id w h n sub = elim (Bool-cases (n == id)) [
  | inl e ↦ rw e (inl (finish-Books r (context id w)).1)
  | inr e ↦
      let other : n ≢ id = ground (arith, e) in
      rw e (elim (h n sub) [ inl f ↦ inl f | inr (inl i) ↦ absurd (other i) | inr (inr t) ↦ inr t ])
]

finish_each-FinishedBut :
    (s : List ℕ) (r : OpResult) (ids : List ℕ) (w : Worker)
    → FinishedBut s ids w
    → FinishedBut s [] (for_each (finish_op r) ids w)
unfolding for_each
finish_each-FinishedBut s r [] w h = h
finish_each-FinishedBut s r (id ∷ ids) w h =
    finish_each-FinishedBut s r ids (finish_op r id w) (finish_op-FinishedBut s ids r id w h)

Holds-Elem : (n : ℕ) (ops : List (ℕ × ℕ)) → Holds n ops → Elem n (map (λ (e : ℕ × ℕ). e.1) ops)
Holds-Elem n [] h = h
Holds-Elem n (e ∷ ops) (inl h) = inl (sym h)
Holds-Elem n (e ∷ ops) (inr h) = inr (Holds-Elem n ops h)

-- In the table or not, what is left is completed.
cleaned :
    {limit : ℕ} {s : List ℕ} (w : Worker) (id : ℕ)
    → Accounts limit s [] [] w
    → Elem id s
    → count_of id
        (for_each
          (finish_op OpResult.cancelled)
          (map (λ (e : ℕ × ℕ). e.1) w.shard.ops)
          w).shard.completed
      ≡ 1
unfolding FinishedBut
cleaned {s} w id a sub =
    let ids = map (λ (e : ℕ × ℕ). e.1) w.shard.ops in
    let b = finish_each-Accounts OpResult.cancelled ids w a in
    let left : FinishedBut s ids w = λ n t. elim (a.kept n t) [
      | inl f ↦ inl f
      | inr (inl h) ↦ inr (Holds-Elem n w.shard.ops h)
      | inr (inr e) ↦ elim e [ ]
    ] in
    elim (finish_each-FinishedBut s OpResult.cancelled ids w left id sub) [
      | inl f ↦ b.once id ∙ ap flag f
      | inr e ↦ elim e [ ]
    ]

final_cleanup_lem :
    {limit : ℕ} {s : List ℕ} (w : Worker) (id : ℕ)
    → Balanced limit s w
    → Elem id s
    → count_of id (final_cleanup w).shard.completed ≡ 1
unfolding final_cleanup
final_cleanup_lem w id a sub =
    cleaned _ id (dequeue_each OpResult.cancelled w.shard.pending _ (taken w a)) sub

shutdown_lem :
    {limit : ℕ} {s : List ℕ} (w : Worker) (id : ℕ)
    → Balanced limit s w
    → Elem id s
    → count_of id (shutdown w).shard.completed ≡ 1
unfolding shutdown
shutdown_lem w id a sub =
    final_cleanup_lem (record w { shard = record (w.shard) { closed = true } }) id
      (record { own = a.own; once = a.once; kept = a.kept; waiting = a.waiting; given = a.given })
      sub

-- A shard with nothing in it, and objects that are not yet completed.
pub record IsNew (limit : ℕ) (w : Worker) : Type 0 where
  pub own : (id : ℕ) → (w.store id).self ≡ id
  pub live : (id : ℕ) → (w.store id).is_finished ≡ false
  pub nothing_waits : w.shard.pending ≡ []
  pub nothing_completed : w.shard.completed ≡ []
  pub given : (id : ℕ) → IsWithin limit (w.store id)

pub new-Balanced : {limit : ℕ} (w : Worker) → IsNew limit w → Balanced limit [] w
new-Balanced w n = record {
  own = n.own;
  once = λ id. ap (λ l. count_of id l) n.nothing_completed ∙ ap flag (sym (n.live id));
  kept = λ id sub. elim sub [ ];
  waiting = refl;
  given = n.given;
}

pub completed_once :
    {limit : ℕ} {s : List ℕ} {m : Option Worker} (w : Worker) (id : ℕ)
    → m ≡ some w
    → IsBalanced limit s m
    → Elem id s
    → count_of id (shutdown w).shard.completed ≡ 1
completed_once w id e IsBalanced.out_of_fuel sub = absurd (ground (arith, e))
completed_once w id e (IsBalanced.balanced {w = v} b) sub =
    let same : v ≡ w = ground (arith, e) in
    subst (λ t. count_of id (shutdown t).shard.completed ≡ 1) same (shutdown_lem v id b sub)
