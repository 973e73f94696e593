-- ===== src/Submit/Steps.antt =====
-- What it means for a step of `submit_probes` to end well.
use saimiris_gateway.Prelude.{
  ℕ, String, Bool, true, false, Option, none, some, List, ◌≡◌, refl, sym, ap, not, Result, ok, err,
}
use saimiris_gateway.Http.{Failure}
use saimiris_gateway.Probe.Validation.{ValidationError}
use saimiris_gateway.Probe.Batch.{Outcome, returned, panicked}
use saimiris_gateway.Submit.{
  Reason, World, unless, end_with, settle, or_500, batches_of, validation, when,
}

module _ {S : Type 0} where
  pub unless_ok :
      (o : Option (ℕ × Reason)) (w w' : World S) (u : Unit {0})
      → unless o w ≡ (ok u, w')
      → (o ≡ none) × (w ≡ w')
  unless_ok none w w' u h = (refl, cc)
  unless_ok (some (s, r)) w w' u h = absurd cc

  pub end_with_ok :
      (o : Option (Failure Reason)) (w w' : World S) (u : Unit {0})
      → end_with o w ≡ (ok u, w')
      → (o ≡ none) × (w ≡ w')
  end_with_ok none w w' u h = (refl, cc)
  end_with_ok (some x) w w' u h = absurd cc

  answer_eq :
      (E A : Type 0) (b a : A) (s s' : S)
      → b ≡ a
      → s ≡ s'
      → ◌≡◌ {A = Result E A × S} (ok b, s) (ok a, s')
  answer_eq E A b a s s' e k = rw (e, k)

  settle_ok :
      (E A : Type 0) (reason : E → Reason) (w w' : World S) (r : Result E A) (s : S) (a : A)
      → settle E A reason w (r, s) ≡ (ok a, w')
      → (◌≡◌ {A = Result E A × S} (r, s) (ok a, w'.database)) × (w'.sent ≡ w.sent)
  settle_ok E A reason w w' (ok b) s a h =
      let moved : record w { database = s } ≡ w' = cc in
      let stored : s ≡ w'.database = ap (λ (v : World S). v.database) moved in
      let value : b ≡ a = cc in
      (answer_eq E A b a s w'.database value stored, sym (ap (λ (v : World S). v.sent) moved))
  settle_ok E A reason w w' (err e) s a h = absurd cc

  pub or_500_ok :
      (E A : Type 0) (call : S → Result E A × S) (reason : E → Reason) (w w' : World S) (a : A)
      → or_500 E A call reason w ≡ (ok a, w')
      → (call w.database ≡ (ok a, w'.database)) × (w'.sent ≡ w.sent)
  or_500_ok E A call reason w w' a h =
      settle_ok E A reason w w' (call w.database).0 (call w.database).1 a h

  pub batches_of_ok :
      (o : Outcome) (w w' : World S) (bs : List (List ℕ))
      → batches_of o w ≡ (ok bs, w')
      → (o ≡ returned (ok bs)) × (w ≡ w')
  batches_of_ok (returned (ok bs')) w w' bs h = (cc, cc)
  batches_of_ok (returned (err e)) w w' bs h = absurd cc
  batches_of_ok panicked w w' bs h = absurd cc

  pub allowed :
      (p : Result String Bool × S) (can : Bool) (s : S)
      → ◌≡◌ {A = Result String Bool × S} p (ok can, s)
      → not can ≡ false
      → ◌≡◌ {A = Result String Bool × S} p (ok true, s)
  allowed p true s h k = h
  allowed p false s h k = absurd cc

pub when-none : (b : Bool) (status : ℕ) (reason : Reason) → when b status reason ≡ none → b ≡ false
when-none false status reason h = refl
when-none true status reason h = absurd cc

pub validation-none :
    (r : Result (ℕ × ValidationError) (Unit {0})) → validation r ≡ none → r ≡ ok tt
validation-none (ok tt) h = refl
validation-none (err e) h = absurd cc
