-- ===== src/Reactor/Deadlines.antt =====
-- The order of the deadlines of async_io.cpp.
use trinetra.Prelude.{
  ℕ, ◌+◌, ◌≤◌, ◌≡◌, refl, sym, subst, ap, ◌⊎◌, inl, inr, Elem, Bool-cases, Bool, true, false, ◌&&◌,
  List, [], ◌∷◌, Option, none, some, arith, leb, leb-false, leb→le, ◌==◌, if◌then◌else◌,
}
use trinetra.Reactor.Types.{Operation, Context, System}
use trinetra.Reactor.Tables.{
  called, insert_deadline, erase_deadline, without_deadline, with_deadline, set_deadline,
}

-- The times do not go down, from a lower bound.
abbrev pub Ascending : ℕ → List (ℕ × ℕ) → Type 0
Ascending lo [] = Unit
Ascending lo (d ∷ ds) = (lo ≤ d.0) × Ascending d.0 ds

Ascending-if :
    (b : Bool) (lo : ℕ) (x y : List (ℕ × ℕ))
    → (b ≡ true → Ascending lo x)
    → (b ≡ false → Ascending lo y)
    → Ascending lo (if b then x else y)
Ascending-if true lo x y h k = h refl
Ascending-if false lo x y h k = k refl

Ascending-below : (lo m : ℕ) (ds : List (ℕ × ℕ)) → lo ≤ m → Ascending m ds → Ascending lo ds
Ascending-below lo m [] h a = tt
Ascending-below lo m (d ∷ ds) h a = (omega (arith, h, a.0), a.1)

insert_deadline-Ascending :
    (time fd lo : ℕ) (ds : List (ℕ × ℕ))
    → lo ≤ time
    → Ascending lo ds
    → Ascending lo (insert_deadline time fd ds)
unfolding insert_deadline
insert_deadline-Ascending time fd lo [] h a = (h, tt)
insert_deadline-Ascending time fd lo (d ∷ ds) h a =
    Ascending-if (leb d.0 time) lo _ _
      (λ e. (a.0, insert_deadline-Ascending time fd d.0 ds (leb→le _ _ e) a.1))
      (λ e. let later = leb-false _ _ e in (h, (omega (arith, later), a.1)))

erase_deadline-Ascending :
    (time fd lo : ℕ) (ds : List (ℕ × ℕ))
    → Ascending lo ds
    → Ascending lo (erase_deadline time fd ds)
unfolding erase_deadline
erase_deadline-Ascending time fd lo [] a = a
erase_deadline-Ascending time fd lo (d ∷ ds) a =
    Ascending-if (d.0 == time && d.1 == fd) lo _ _ (λ e. Ascending-below lo d.0 ds a.0 a.1)
      (λ e. (a.0, erase_deadline-Ascending time fd d.0 ds a.1))

without_deadline-Ascending :
    (op : Operation) (fd : ℕ) (ds : List (ℕ × ℕ))
    → Ascending 0 ds
    → Ascending 0 (without_deadline op fd ds)
without_deadline-Ascending op fd ds a =
    Ascending-if (op.stage_deadline == 0) 0 _ _ (λ e. a)
      (λ e. erase_deadline-Ascending op.stage_deadline fd 0 ds a)

with_deadline-Ascending :
    (fd : Option ℕ) (deadline : ℕ) (c : Context)
    → Ascending 0 c.shard.deadlines
    → Ascending 0 (with_deadline fd deadline c).shard.deadlines
with_deadline-Ascending none deadline c a = a
with_deadline-Ascending (some fd) deadline c a =
    insert_deadline-Ascending deadline fd 0 _ (omega arith)
      (without_deadline-Ascending c.op fd c.shard.deadlines a)

-- How often an entry is in the table.
abbrev pub one : Bool → ℕ
one true = 1
one false = 0

unfoldable pub count : ℕ → ℕ → List (ℕ × ℕ) → ℕ
count time fd [] = 0
count time fd (d ∷ ds) = one (d.0 == time && d.1 == fd) + count time fd ds

count-insert_deadline :
    (t n time fd : ℕ) (ds : List (ℕ × ℕ))
    → count t n (insert_deadline time fd ds) ≡ one (time == t && fd == n) + count t n ds
unfolding count insert_deadline
count-insert_deadline t n time fd [] = refl
count-insert_deadline t n time fd (d ∷ ds) = elim (Bool-cases (leb d.0 time)) [
  | inl e ↦ let rest = count-insert_deadline t n time fd ds in rw e (omega (arith, rest))
  | inr e ↦ rw e refl
]

count-erase_deadline :
    (t n time fd : ℕ) (ds : List (ℕ × ℕ))
    → Elem (time, fd) ds
    → count t n (erase_deadline time fd ds) + one (time == t && fd == n) ≡ count t n ds
unfolding count erase_deadline
count-erase_deadline t n time fd [] h = absurd h
count-erase_deadline t n time fd (d ∷ ds) h = elim (Bool-cases (d.0 == time && d.1 == fd)) [
  | inl e ↦
      let at : d.0 ≡ time = ground (arith, e) in
      let of : d.1 ≡ fd = ground (arith, e) in
      rw e (
        omega
          (arith, ap (λ k. one (k == t && d.1 == n)) at, ap (λ k. one (time == t && k == n)) of))
  | inr e ↦ rw e (elim h [
    | inl same ↦
        let at = ap (λ (k : ℕ × ℕ). k.0) same in
        let of = ap (λ (k : ℕ × ℕ). k.1) same in absurd (ground (arith, e, at, of))
    | inr there ↦ let rest = count-erase_deadline t n time fd ds there in omega (arith, rest)
  ])
]

-- What counts for the entry of the operation's current deadline, if it has one.
abbrev pub own : Operation → ℕ → ℕ → ℕ → ℕ
own op fd t n = if op.stage_deadline == 0 then 0 else one (op.stage_deadline == t && fd == n)

abbrev pub IsListed : Operation → ℕ → List (ℕ × ℕ) → Type 0
IsListed op fd ds = ((op.stage_deadline == 0) ≡ true) ⊎ Elem (op.stage_deadline, fd) ds

count-without_deadline :
    (t n fd : ℕ) (op : Operation) (ds : List (ℕ × ℕ))
    → IsListed op fd ds
    → count t n (without_deadline op fd ds) + own op fd t n ≡ count t n ds
count-without_deadline t n fd op ds h = elim (Bool-cases (op.stage_deadline == 0)) [
  | inl e ↦ rw e (omega arith)
  | inr e ↦ rw e (elim h [
    | inl none_set ↦ cc
    | inr there ↦ count-erase_deadline t n op.stage_deadline fd ds there
  ])
]

-- The operation has the new deadline, in the table its old entry gives way to the new one and
-- every other entry stays, as often as it is there, and the times are in order.
pub record Replaces (deadline fd : ℕ) (c c' : Context) : Type 0 where
  pub is_set : c'.op.stage_deadline ≡ deadline
  pub entries :
      (t n : ℕ)
      → count t n c'.shard.deadlines + own c.op fd t n
        ≡ count t n c.shard.deadlines + one (deadline == t && fd == n)
  pub ascending : Ascending 0 c'.shard.deadlines

with_deadline-Replaces :
    (deadline fd : ℕ) (c : Context)
    → IsListed c.op fd c.shard.deadlines
    → Ascending 0 c.shard.deadlines
    → Replaces deadline fd c (called (with_deadline (some fd) deadline c))
with_deadline-Replaces deadline fd c h a = record {
  is_set = refl;
  entries = λ t n.
      let left = without_deadline c.op fd c.shard.deadlines in
      let put = count-insert_deadline t n deadline fd left in
      let gone = count-without_deadline t n fd c.op c.shard.deadlines h in omega (arith, put, gone);
  ascending = with_deadline-Ascending (some fd) deadline c a;
}

-- An operation with a descriptor, whose deadline is in the table unless it has none, and a table in
-- the order of its times. When its deadline is set, it is a budget behind the time that the clock
-- gives, the old entry of the operation is replaced by one at the new time under its descriptor,
-- every other entry is there as often as before, and the times are in order.
pub set_deadline-Replaces :
    (sys : System) (budget fd : ℕ) (c : Context)
    → c.op.fd ≡ some fd
    → IsListed c.op fd c.shard.deadlines
    → Ascending 0 c.shard.deadlines
    → Replaces (sys.now c.shard.calls + budget) fd c (set_deadline sys budget c)
unfolding set_deadline
set_deadline-Replaces sys budget fd c at h a =
    let deadline = sys.now c.shard.calls + budget in
    subst (λ o. Replaces deadline fd c (called (with_deadline o deadline c))) (sym at)
      (with_deadline-Replaces deadline fd c h a)
