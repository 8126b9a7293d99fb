-- ===== src/Reactor/Sweep.antt =====
-- What the sweep of async_io.cpp does with the deadlines that have passed.
use trinetra.Prelude.{
  ℕ, ◌≤◌, ◌<◌, ◌≡◌, ◌≢◌, refl, sym, ap, ◌∙◌, inl, inr, Bool, true, false, List, [], ◌∷◌, Option,
  none, some, arith, leb, leb→le, ◌==◌, if◌then◌else◌, All, Elem, Bool-cases,
}
use trinetra.Reactor.Types.{OpResult, Stage, Operation, Context}
use trinetra.Reactor.Tables.{find_op}
use trinetra.Reactor.Steps.{with_errno, timeout_or_success, expire_stage}
use trinetra.Reactor.Worker.{Worker, context, for_each, picked, expired, expire_op, sweep_timeouts}
use trinetra.Reactor.Effect.{Closes, finish-Books}
use trinetra.Reactor.Handlers.{expire_stage-Closes}
use trinetra.Reactor.Deadlines.{Ascending}

-- An operation that is due later, or that is completed, does not change.
abbrev pub Without : ℕ → List ℕ → Type 0
Without id ids = All (λ n. n ≢ id) ids

Without-if :
    (b : Bool) (id : ℕ) (x y : List ℕ × List (ℕ × ℕ))
    → (b ≡ true → Without id x.0)
    → Without id y.0
    → Without id (if b then x else y).0
Without-if true id x y h k = h refl
Without-if false id x y h k = k

picked-Without :
    (store : ℕ → Operation) (time id : ℕ) (m : Option ℕ) (rest : List ℕ × List (ℕ × ℕ))
    → time < (store id).stage_deadline
    → Without id rest.0
    → Without id (picked store time m rest).0
picked-Without store time id none rest h k = k
picked-Without store time id (some n) rest h k =
    Without-if ((store n).stage_deadline == time) id _ rest
      (λ due. (
        λ same.
            let at = ap (λ (k : ℕ). (store k).stage_deadline) same in
            absurd (ground (arith, at, due, h)),
        k,
      ))
      k

expired-Without :
    (store : ℕ → Operation) (ops ds : List (ℕ × ℕ)) (now id : ℕ)
    → now < (store id).stage_deadline
    → Without id (expired store ops now ds).0
unfolding expired
expired-Without store ops [] now id h = tt
expired-Without store ops ((time, fd) ∷ ds) now id h =
    let rest = expired-Without store ops ds now id h in
    Without-if (leb time now) id _ ([], (time, fd) ∷ ds)
      (λ e.
        let passed = leb→le _ _ e in
        picked-Without store time id (find_op fd ops) _ (omega (arith, passed, h)) rest)
      tt

for_each-Without :
    (ids : List ℕ) (w : Worker) (id : ℕ)
    → Without id ids
    → (for_each expire_op ids w).store id ≡ w.store id
unfolding for_each
for_each-Without [] w id h = refl
for_each-Without (n ∷ ids) w id h = elim (Bool-cases (id == n)) [
  | inl e ↦ absurd (h.0 (sym (ground (arith, e))))
  | inr e ↦ for_each-Without ids (expire_op n w) id h.1 ∙ rw e refl
]

-- An operation whose own deadline is after the time of the sweep is left as it is, whatever
-- entries of the table of deadlines still name its descriptor.
pub sweep_timeouts_spares :
    (now id : ℕ) (w : Worker)
    → now < (w.store id).stage_deadline
    → (sweep_timeouts now w).store id ≡ w.store id
unfolding sweep_timeouts
sweep_timeouts_spares now id w h =
    let (ids, left) = expired w.store w.shard.ops now w.shard.deadlines in
    for_each-Without ids (record w { shard = record (w.shard) { deadlines = left } }) id
      (expired-Without w.store w.shard.ops w.shard.deadlines now id h)

Elem-if :
    (b : Bool) (id : ℕ) (x y : List ℕ × List (ℕ × ℕ))
    → b ≡ true
    → Elem id x.0
    → Elem id (if b then x else y).0
Elem-if b id x y e h = rw e h

picked_finds :
    (store : ℕ → Operation) (time id : ℕ) (m : Option ℕ) (rest : List ℕ × List (ℕ × ℕ))
    → m ≡ some id
    → (store id).stage_deadline ≡ time
    → Elem id (picked store time m rest).0
picked_finds store time id m rest e at =
    rw e (Elem-if ((store id).stage_deadline == time) id _ rest (ground (arith, at)) (inl refl))

picked_keeps :
    (store : ℕ → Operation) (time id : ℕ) (m : Option ℕ) (rest : List ℕ × List (ℕ × ℕ))
    → Elem id rest.0
    → Elem id (picked store time m rest).0
picked_keeps store time id none rest h = h
picked_keeps store time id (some n) rest h = elim (Bool-cases ((store n).stage_deadline == time)) [
  | inl e ↦ rw e (inr h)
  | inr e ↦ rw e h
]

Ascending-least :
    (lo : ℕ) (ds : List (ℕ × ℕ)) (time fd : ℕ) → Ascending lo ds → Elem (time, fd) ds → lo ≤ time
Ascending-least lo [] time fd a h = elim h [ ]
Ascending-least lo (d ∷ ds) time fd a (inl here) =
    let at = ap (λ (p : ℕ × ℕ). p.0) here in omega (arith, at, a.0)
Ascending-least lo (d ∷ ds) time fd a (inr there) =
    let later = Ascending-least d.0 ds time fd a.1 there in omega (arith, later, a.0)

-- An entry that has passed and is current is found by the sweep, since those before it have passed.
expired_finds :
    (store : ℕ → Operation) (ops ds : List (ℕ × ℕ)) (now lo fd id : ℕ)
    → Ascending lo ds
    → Elem ((store id).stage_deadline, fd) ds
    → (store id).stage_deadline ≤ now
    → find_op fd ops ≡ some id
    → Elem id (expired store ops now ds).0
unfolding expired
expired_finds store ops [] now lo fd id a h le e = elim h [ ]
expired_finds store ops (d ∷ ds) now lo fd id a (inl here) le e =
    let at = ap (λ (p : ℕ × ℕ). p.0) here in
    let same = ap (λ (p : ℕ × ℕ). p.1) here in
    Elem-if (leb d.0 now) id _ _ (ground (arith, at, le))
      (picked_finds store d.0 id (find_op d.1 ops) _ (ap (λ n. find_op n ops) (sym same) ∙ e) at)
expired_finds store ops (d ∷ ds) now lo fd id a (inr there) le e =
    let first = Ascending-least d.0 ds (store id).stage_deadline fd a.1 there in
    Elem-if (leb d.0 now) id _ _ (ground (arith, first, le)) (
      picked_keeps store d.0 id (find_op d.1 ops) _
        (expired_finds store ops ds now d.0 fd id a.1 there le e))

-- A deadline ends an operation that is in one of the five stages.
expire_stage_finishes :
    (s : Stage) (c : Context) → s ≢ Stage.finished → (expire_stage s c).op.is_finished ≡ true
unfolding expire_stage
expire_stage_finishes Stage.connecting c h =
    (finish-Books OpResult.connect_failed (with_errno 110 c)).1
expire_stage_finishes Stage.tls_handshake c h = (finish-Books OpResult.tls_failed c).1
expire_stage_finishes Stage.sending c h = (finish-Books OpResult.send_failed c).1
expire_stage_finishes Stage.recv_first c h = (finish-Books (timeout_or_success c) c).1
expire_stage_finishes Stage.recv_idle c h = (finish-Books OpResult.success c).1
expire_stage_finishes Stage.finished c h = absurd (h refl)

Closes-stays : (c c' : Context) → Closes c c' → c.op.is_finished ≡ true → c'.op.is_finished ≡ true
Closes-stays c c' (Closes.rests p at over) f = p.is_finished ∙ f
Closes-stays c c' (Closes.ended r p a) f = p.is_finished

for_each_finished :
    (ids : List ℕ) (w : Worker) (id : ℕ)
    → (w.store id).is_finished ≡ true
    → ((for_each expire_op ids w).store id).is_finished ≡ true
unfolding for_each
for_each_finished [] w id f = f
for_each_finished (n ∷ ids) w id f =
    for_each_finished ids (expire_op n w) id (elim (Bool-cases (id == n)) [
      | inl e ↦
          let same : id ≡ n = ground (arith, e) in
          rw e (
            Closes-stays (context n w) _ (expire_stage-Closes (w.store n).stage (context n w) refl)
              (ap (λ k. (w.store k).is_finished) (sym same) ∙ f))
      | inr e ↦ rw e f
    ])

for_each_finishes :
    (ids : List ℕ) (w : Worker) (id : ℕ)
    → Elem id ids
    → (w.store id).stage ≢ Stage.finished
    → ((for_each expire_op ids w).store id).is_finished ≡ true
unfolding for_each
for_each_finishes [] w id h live = elim h [ ]
for_each_finishes (n ∷ ids) w id h live = elim (Bool-cases (id == n)) [
  | inl e ↦
      let same : id ≡ n = ground (arith, e) in
      for_each_finished ids (expire_op n w) id (
        rw e (
          expire_stage_finishes (w.store n).stage (context n w)
            (λ over. live (ap (λ k. (w.store k).stage) same ∙ over))))
  | inr e ↦
      for_each_finishes ids (expire_op n w) id
        (elim h [ inl here ↦ absurd (ground (arith, e, here)) | inr there ↦ there ])
        (λ over. live ((rw e refl) ∙ over))
]

-- An operation in one of the five stages, the table has it under a descriptor, and an entry of the
-- deadlines, which are in order, is its own. If that deadline has passed, the sweep completes it.
pub sweep_timeouts_completes :
    (now fd id : ℕ) (w : Worker)
    → Ascending 0 w.shard.deadlines
    → Elem ((w.store id).stage_deadline, fd) w.shard.deadlines
    → find_op fd w.shard.ops ≡ some id
    → (w.store id).stage ≢ Stage.finished
    → (w.store id).stage_deadline ≤ now
    → ((sweep_timeouts now w).store id).is_finished ≡ true
unfolding sweep_timeouts
sweep_timeouts_completes now fd id w order entry held live passed =
    let (ids, left) = expired w.store w.shard.ops now w.shard.deadlines in
    for_each_finishes ids (record w { shard = record (w.shard) { deadlines = left } }) id
      (expired_finds w.store w.shard.ops w.shard.deadlines now 0 fd id order entry passed held) live
