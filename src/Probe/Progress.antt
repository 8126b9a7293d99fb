-- ===== src/Probe/Progress.antt =====
-- How a property goes through the steps of `matchResponse`.
use trinetra.Prelude.{
  ℕ, Bool, true, false, Option, none, some, List, [], ◌∷◌, Elem, All, ◌≡◌, ◌⊎◌, inl, inr, refl, sym,
  subst, if◌then◌else◌,
}
use trinetra.Probe.Types.{ServiceProbe, ServiceNfo}
use trinetra.Probe.Match.{Progress}
use trinetra.Probe.Engine.{and_then, for_each, if_possible, service_is_possible}

-- What holds while matching goes on, and when it is over: no null pointer was read.
abbrev pub Holds : (ServiceNfo → Type 0) → (ServiceNfo → Type 0) → Progress → Type 0
Holds P Q (Progress.going svc) = P svc
Holds P Q (Progress.done_hard svc) = Q svc
Holds P Q Progress.fault = ⊥

pub and_then-Holds :
    (P P' Q : ServiceNfo → Type 0) (r : Progress) (k : ServiceNfo → Progress)
    → Holds P Q r
    → ((svc : ServiceNfo) → P svc → Holds P' Q (k svc))
    → Holds P' Q (and_then r k)
and_then-Holds P P' Q (Progress.going svc) k h next = next svc h
and_then-Holds P P' Q (Progress.done_hard svc) k h next = h
and_then-Holds P P' Q Progress.fault k h next = absurd h

pub for_each-Holds :
    (P Q : ServiceNfo → Type 0) (step : ServiceProbe → ServiceNfo → Progress)
    (probes : List ServiceProbe)
    → ((p : ServiceProbe) → Elem p probes → (svc : ServiceNfo) → P svc → Holds P Q (step p svc))
    → (svc : ServiceNfo) → P svc
    → Holds P Q (for_each step probes svc)
unfolding for_each
for_each-Holds P Q step [] h svc k = k
for_each-Holds P Q step (p ∷ probes) h svc k =
    and_then-Holds P P Q (step p svc) (for_each step probes) (h p (inl refl) svc k)
      (for_each-Holds P Q step probes (λ q e. h q (inr e)))

-- What holds where matching goes on.
abbrev pub Leads : (ServiceNfo → Type 0) → Progress → Type 0
Leads P (Progress.going svc) = P svc
Leads P (Progress.done_hard svc) = Unit
Leads P Progress.fault = Unit

pub and_then-Leads :
    (P P' : ServiceNfo → Type 0) (r : Progress) (k : ServiceNfo → Progress)
    → Leads P r
    → ((svc : ServiceNfo) → P svc → Leads P' (k svc))
    → Leads P' (and_then r k)
and_then-Leads P P' (Progress.going svc) k h next = next svc h
and_then-Leads P P' (Progress.done_hard svc) k h next = tt
and_then-Leads P P' Progress.fault k h next = tt

pub for_each-Leads :
    (P : ServiceNfo → Type 0) (step : ServiceProbe → ServiceNfo → Progress)
    → ((p : ServiceProbe) (svc : ServiceNfo) → P svc → Leads P (step p svc))
    → (probes : List ServiceProbe) (svc : ServiceNfo) → P svc
    → Leads P (for_each step probes svc)
unfolding for_each
for_each-Leads P step h [] svc k = k
for_each-Leads P step h (p ∷ probes) svc k =
    and_then-Leads P P (step p svc) (for_each step probes) (h p svc k)
      (for_each-Leads P step h probes)

pub Leads-map :
    (P Q : ServiceNfo → Type 0) (r : Progress)
    → ((svc : ServiceNfo) → P svc → Q svc)
    → Leads P r
    → Leads Q r
Leads-map P Q (Progress.going svc) f h = f svc h
Leads-map P Q (Progress.done_hard svc) f h = tt
Leads-map P Q Progress.fault f h = tt

-- Nothing has happened since a start, and a fact is known, or something has.
abbrev pub Course : ServiceNfo → (ServiceNfo → Type 0) → Type 0 → ServiceNfo → Type 0
Course start Moved C svc = ((svc ≡ start) × C) ⊎ Moved svc

module _ (start : ServiceNfo) (Moved : ServiceNfo → Type 0) where
  pub and_then-Course :
      (C D : Type 0) (r : Progress) (k : ServiceNfo → Progress)
      → Leads (Course start Moved C) r
      → Leads (Course start Moved D) (k start)
      → ((svc : ServiceNfo) → Moved svc → Leads Moved (k svc))
      → Leads (Course start Moved (C × D)) (and_then r k)
  and_then-Course C D r k h now later =
      and_then-Leads (Course start Moved C) (Course start Moved (C × D)) r k h next
    where
      known :
          (q : Progress) → C → Leads (Course start Moved D) q → Leads (Course start Moved (C × D)) q
      known (Progress.going svc) c (inl (e, d)) = inl (e, (c, d))
      known (Progress.going svc) c (inr m) = inr m
      known (Progress.done_hard svc) c l = tt
      known Progress.fault c l = tt

      moved : (q : Progress) → Leads Moved q → Leads (Course start Moved (C × D)) q
      moved (Progress.going svc) m = inr m
      moved (Progress.done_hard svc) m = tt
      moved Progress.fault m = tt

      next :
          (svc : ServiceNfo) → Course start Moved C svc → Leads (Course start Moved (C × D)) (k svc)
      next svc (inl (e, c)) =
          subst (λ s. Leads (Course start Moved (C × D)) (k s)) (sym e) (known (k start) c now)
      next svc (inr m) = moved (k svc) (later svc m)

  pub for_each-Course :
      (D : ServiceProbe → Type 0) (step : ServiceProbe → ServiceNfo → Progress)
      → ((p : ServiceProbe) → Leads (Course start Moved (D p)) (step p start))
      → ((p : ServiceProbe) (svc : ServiceNfo) → Moved svc → Leads Moved (step p svc))
      → (probes : List ServiceProbe)
      → Leads (Course start Moved (All D probes)) (for_each step probes start)
  unfolding for_each
  for_each-Course D step now later [] = inl (refl, tt)
  for_each-Course D step now later (p ∷ probes) =
      and_then-Course (D p) (All D probes) (step p start) (for_each step probes) (now p)
        (for_each-Course D step now later probes) (for_each-Leads Moved step later probes)

  Course-map :
      (C D : Type 0)
      → (C → D)
      → (svc : ServiceNfo) → Course start Moved C svc
      → Course start Moved D svc
  Course-map C D f svc (inl (e, c)) = inl (e, f c)
  Course-map C D f svc (inr m) = inr m

  -- Under a condition, a step tells what it tells.
  pub Course-step :
      (C : Type 0) (r : Progress)
      → Leads (Course start Moved C) r
      → (go : Bool)
      → Leads (Course start Moved (go ≡ true → C)) (if go then r else Progress.going start)
  Course-step C r h true =
      Leads-map (Course start Moved C) (Course start Moved (true ≡ true → C)) r
        (Course-map C (true ≡ true → C) (λ c e. c)) h
  Course-step C r h false = inl (refl, λ e. cc)

  pub Course-skip :
      (C : Type 0) (r : Progress)
      → Leads (Course start Moved C) r
      → (skip : Bool)
      → Leads (Course start Moved (skip ≡ false → C)) (if skip then Progress.going start else r)
  Course-skip C r h true = inl (refl, λ e. cc)
  Course-skip C r h false =
      Leads-map (Course start Moved C) (Course start Moved (false ≡ false → C)) r
        (Course-map C (false ≡ false → C) (λ c e. c)) h

module _ (P : ServiceNfo → Type 0) (r : Progress) (svc : ServiceNfo) (h : P svc)
    (k : Leads P r) where
  pub Leads-step : (go : Bool) → Leads P (if go then r else Progress.going svc)
  Leads-step true = k
  Leads-step false = h

  pub Leads-skip : (skip : Bool) → Leads P (if skip then Progress.going svc else r)
  Leads-skip true = h
  Leads-skip false = k

  pub Leads-possible :
      (p : ServiceProbe) (name : Option (List ℕ))
      → Leads P (if_possible p name r (Progress.going svc))
  Leads-possible p none = tt
  Leads-possible p (some name) = Leads-step (service_is_possible p.detected_services name)
