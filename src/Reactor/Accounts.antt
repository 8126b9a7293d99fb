-- ===== src/Reactor/Accounts.antt =====
-- The books of a shard in async_io.cpp: every operation that was submitted is waiting, in the
-- table, or completed, and a completed one was completed once.
use trinetra.Prelude.{
  Elem, ◌<◌, length, ℕ, suc, ◌+◌, ◌≡◌, ◌≢◌, refl, subst, sym, ap, ◌∙◌, ◌⊎◌, inl, inr, Bool, true,
  false, List, [], ◌∷◌, arith, ◌==◌, if◌then◌else◌, not, map, keep_if, Bool-cases,
}
use trinetra.Reactor.Types.{OpResult, Operation, Context}
use trinetra.Reactor.Steps.{capacity}
use trinetra.Reactor.Worker.{Worker, context, written}
use trinetra.Reactor.Effect.{Holds, inputs_of, Same, Ended, Books}
use trinetra.Reactor.Begin.{Entered, Fresh}

-- The calls of `on_complete` for an operation.
abbrev pub count_of : ℕ → List (ℕ × OpResult) → ℕ
count_of id [] = 0
count_of id (e ∷ l) = let rest = count_of id l in if e.0 == id then suc rest else rest

abbrev pub flag : Bool → ℕ
flag true = 1
flag false = 0

-- What there is to write and to read, in bytes, is below a limit.
abbrev pub IsWithin : ℕ → Operation → Type 0
IsWithin limit op = length op.send_payload + capacity op.max_response_bytes < limit

pub IsWithin-inputs_of :
    (limit : ℕ) (c d : Operation) → inputs_of d ≡ inputs_of c → IsWithin limit c → IsWithin limit d
IsWithin-inputs_of limit c d e h = subst (λ i. length i.0 + capacity i.1 < limit) (sym e) h

pub record Accounts (limit : ℕ) (submitted queue pending : List ℕ) (w : Worker) : Type 0 where
  pub own : (id : ℕ) → (w.store id).self ≡ id
  pub once : (id : ℕ) → count_of id w.shard.completed ≡ flag (w.store id).is_finished
  pub kept :
      (id : ℕ)
      → Elem id submitted
      → ((w.store id).is_finished ≡ true) ⊎ (Holds id w.shard.ops ⊎ Elem id queue)
  pub waiting : w.shard.pending ≡ pending
  pub given : (id : ℕ) → IsWithin limit (w.store id)

count_of_same :
    (id k : ℕ) (r : OpResult) (l : List (ℕ × OpResult))
    → k ≡ id
    → count_of id ((k, r) ∷ l) ≡ suc (count_of id l)
count_of_same id k r l e = let t : (k == id) ≡ true = ground (arith, e) in rw t refl

count_of_other :
    (id k : ℕ) (r : OpResult) (l : List (ℕ × OpResult))
    → k ≢ id
    → count_of id ((k, r) ∷ l) ≡ count_of id l
count_of_other id k r l e = let t : (k == id) ≡ false = ground (arith, e) in rw t refl

-- The same about one operation, in the hands of a handler, and the others.
pub record Split (limit : ℕ) (s q p : List ℕ) (id : ℕ) (store : ℕ → Operation) (c : Context)
    : Type 0 where
  pub self : c.op.self ≡ id
  pub once : count_of id c.shard.completed ≡ flag c.op.is_finished
  pub kept : Elem id s → (c.op.is_finished ≡ true) ⊎ (Holds id c.shard.ops ⊎ Elem id q)
  pub own_others : (n : ℕ) → n ≢ id → (store n).self ≡ n
  pub once_others : (n : ℕ) → n ≢ id → count_of n c.shard.completed ≡ flag (store n).is_finished
  pub kept_others :
      (n : ℕ)
      → n ≢ id
      → Elem n s
      → ((store n).is_finished ≡ true) ⊎ (Holds n c.shard.ops ⊎ Elem n q)
  pub waiting : c.shard.pending ≡ p
  pub given : IsWithin limit c.op
  pub given_others : (n : ℕ) → n ≢ id → IsWithin limit (store n)

Holds-put :
    (n fd self : ℕ) (ops : List (ℕ × ℕ))
    → Fresh fd (map (λ (e : ℕ × ℕ). e.0) ops)
    → Holds n ops
    → Holds n (keep_if (λ e. not (e.0 == fd)) ops)
Holds-put n fd self [] fresh h = h
Holds-put n fd self (e ∷ ops) fresh h =
    rw fresh.0
      (elim h [ inl here ↦ inl here | inr there ↦ inr (Holds-put n fd self ops fresh.1 there) ])

module _ {limit : ℕ} {s q p : List ℕ} {id : ℕ} where
  pub Accounts-Split :
      (w : Worker) → Accounts limit s q p w → Split limit s q p id w.store (context id w)
  Accounts-Split w a = record {
    self = a.own id;
    once = a.once id;
    kept = a.kept id;
    own_others = λ n other. a.own n;
    once_others = λ n other. a.once n;
    kept_others = λ n other. a.kept n;
    waiting = a.waiting;
    given = a.given id;
    given_others = λ n other. a.given n;
  }

  pub Split-Accounts :
      (w : Worker) (c : Context)
      → Split limit s q p id w.store c
      → Accounts limit s q p (written id w c)
  Split-Accounts w c h = record {
    own = λ n. elim (Bool-cases (n == id)) [
      | inl e ↦ let same : n ≡ id = ground (arith, e) in rw e (h.self ∙ sym same)
      | inr e ↦ let other : n ≢ id = ground (arith, e) in rw e (h.own_others n other)
    ];
    once = λ n. elim (Bool-cases (n == id)) [
      | inl e ↦
          let same : n ≡ id = ground (arith, e) in
          rw e (ap (λ k. count_of k c.shard.completed) same ∙ h.once)
      | inr e ↦ let other : n ≢ id = ground (arith, e) in rw e (h.once_others n other)
    ];
    kept = λ n sub. elim (Bool-cases (n == id)) [
      | inl e ↦
          let same : n ≡ id = ground (arith, e) in
          rw e (
            subst (λ k. (c.op.is_finished ≡ true) ⊎ (Holds k c.shard.ops ⊎ Elem k q)) (sym same)
              (h.kept (subst (λ k. Elem k s) same sub)))
      | inr e ↦ let other : n ≢ id = ground (arith, e) in rw e (h.kept_others n other sub)
    ];
    waiting = h.waiting;
    given = λ n. elim (Bool-cases (n == id)) [
      | inl e ↦ rw e h.given
      | inr e ↦ let other : n ≢ id = ground (arith, e) in rw e (h.given_others n other)
    ];
  }

  Same-Split :
      (store : ℕ → Operation) (c d : Context)
      → Same c d
      → Split limit s q p id store c
      → Split limit s q p id store d
  Same-Split store c d m h = record {
    self = m.self ∙ h.self;
    once = ap (λ l. count_of id l) m.completed ∙ h.once ∙ ap flag (sym m.is_finished);
    kept = λ sub.
        subst (λ o. (d.op.is_finished ≡ true) ⊎ (Holds id o ⊎ Elem id q)) (sym m.ops)
          (subst (λ b. (b ≡ true) ⊎ (Holds id c.shard.ops ⊎ Elem id q)) (sym m.is_finished)
            (h.kept sub));
    own_others = h.own_others;
    once_others = λ n other. ap (λ l. count_of n l) m.completed ∙ h.once_others n other;
    kept_others = λ n other sub.
        subst (λ o. ((store n).is_finished ≡ true) ⊎ (Holds n o ⊎ Elem n q)) (sym m.ops)
          (h.kept_others n other sub);
    waiting = m.pending ∙ h.waiting;
    given = IsWithin-inputs_of limit c.op d.op m.inputs h.given;
    given_others = h.given_others;
  }

  Ended-Split :
      (r : OpResult) (store : ℕ → Operation) (c d : Context)
      → Ended r c d
      → Split limit s q p id store c
      → Split limit s q p id store d
  Ended-Split r store c d m h = record {
    self = m.self ∙ h.self;
    once =
        ap (λ l. count_of id l) m.completed
        ∙ count_of_same id c.op.self r c.shard.completed h.self
        ∙ ap suc (h.once ∙ ap flag m.was_live)
        ∙ ap flag (sym m.is_finished);
    kept = λ sub. inl m.is_finished;
    own_others = h.own_others;
    once_others = λ n other.
        ap (λ l. count_of n l) m.completed
        ∙ count_of_other n c.op.self r c.shard.completed (λ e. other (sym e ∙ h.self))
        ∙ h.once_others n other;
    kept_others = λ n other sub. elim (h.kept_others n other sub) [
      | inl f ↦ inl f
      | inr (inl t) ↦ inr (inl (m.others n (λ e. other (e ∙ h.self)) t))
      | inr (inr t) ↦ inr (inr t)
    ];
    waiting = m.pending ∙ h.waiting;
    given = IsWithin-inputs_of limit c.op d.op m.inputs h.given;
    given_others = h.given_others;
  }

  pub Books-Split :
      (store : ℕ → Operation) (c d : Context)
      → Books c d
      → Split limit s q p id store c
      → Split limit s q p id store d
  Books-Split store c d (Books.same m) h = Same-Split store c d m h
  Books-Split store c d (Books.ended r m) h = Ended-Split r store c d m h

  -- An entry takes the place in the queue.
  pub Entered-Split :
      (store : ℕ → Operation) (fd : ℕ) (c d : Context)
      → Entered fd c d
      → Split limit s (id ∷ q) p id store c
      → Split limit s q p id store d
  Entered-Split store fd c d m h = record {
    self = m.self ∙ h.self;
    once = ap (λ l. count_of id l) m.completed ∙ h.once ∙ ap flag (sym m.is_finished);
    kept = λ sub.
        subst (λ o. (d.op.is_finished ≡ true) ⊎ (Holds id o ⊎ Elem id q)) (sym m.ops)
          (inr (inl (inl h.self)));
    own_others = h.own_others;
    once_others = λ n other. ap (λ l. count_of n l) m.completed ∙ h.once_others n other;
    kept_others = λ n other sub.
        subst (λ o. ((store n).is_finished ≡ true) ⊎ (Holds n o ⊎ Elem n q)) (sym m.ops)
          (elim (h.kept_others n other sub) [
            | inl f ↦ inl f
            | inr (inl t) ↦ inr (inl (inr (Holds-put n fd c.op.self c.shard.ops m.fresh t)))
            | inr (inr (inl e)) ↦ absurd (other e)
            | inr (inr (inr t)) ↦ inr (inr t)
          ]);
    waiting = m.pending ∙ h.waiting;
    given = IsWithin-inputs_of limit c.op d.op m.inputs h.given;
    given_others = h.given_others;
  }

  -- So does the end.
  pub dequeue-Split :
      (store : ℕ → Operation) (c : Context)
      → c.op.is_finished ≡ true
      → Split limit s (id ∷ q) p id store c
      → Split limit s q p id store c
  dequeue-Split store c f h = record {
    self = h.self;
    once = h.once;
    kept = λ sub. inl f;
    own_others = h.own_others;
    once_others = h.once_others;
    kept_others = λ n other sub. elim (h.kept_others n other sub) [
      | inl g ↦ inl g
      | inr (inl t) ↦ inr (inl t)
      | inr (inr (inl e)) ↦ absurd (other e)
      | inr (inr (inr t)) ↦ inr (inr t)
    ];
    waiting = h.waiting;
    given = h.given;
    given_others = h.given_others;
  }
