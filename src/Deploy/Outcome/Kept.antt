-- ===== src/Deploy/Outcome/Kept.antt =====
-- A predicate on the state that holds behind an action, however the action ends.
use dockpal_agent.Base.{List, [], ◌∷◌, ◌≡◌, refl, ap}
use dockpal_agent.Base.Bytes.{Bytes}
use dockpal_agent.Deploy.Outcome.{
  Outcome, M, done, fail, panic, then_do, wrapped, on_failure, forget, for_each,
}

-- The predicate as one name, by which the rules below are found.
pub data Holds {S : Type 0} (P : S → Type 0) (s : S) : Type 0 where
  holds : P s → Holds P s

module _ {S : Type 0} {P : S → Type 0} where
  pub Kept-then_do :
      {A B : Type 0} (x : Outcome A × S) (f : A → M S B)
      → Holds P x.1
      → ((a : A) (s : S) → Holds P s → Holds P (f a s).1)
      → Holds P (then_do x f).1
  Kept-then_do (done a, s) f h k = k a s h
  Kept-then_do (fail e, s) f h k = h
  Kept-then_do (panic, s) f h k = h

  pub Kept-wrapped :
      {A : Type 0} (text : Bytes → Bytes) (x : Outcome A × S)
      → Holds P x.1
      → Holds P (wrapped text x).1
  Kept-wrapped text (done a, s) h = h
  Kept-wrapped text (fail e, s) h = h
  Kept-wrapped text (panic, s) h = h

  pub Kept-forget : {A : Type 0} (x : Outcome A × S) → Holds P x.1 → Holds P (forget x).1
  Kept-forget (done a, s) h = h
  Kept-forget (fail e, s) h = h
  Kept-forget (panic, s) h = h

  pub Kept-on_failure :
      {A : Type 0} (handle : Bytes → S → S) (x : Outcome A × S)
      → Holds P x.1
      → ((e : Bytes) (s : S) → Holds P s → Holds P (handle e s))
      → Holds P (on_failure handle x).1
  Kept-on_failure handle (done a, s) h k = h
  Kept-on_failure handle (fail e, s) h k = k e s h
  Kept-on_failure handle (panic, s) h k = h

  pub Kept-for_each :
      {A : Type 0} (f : A → M S (Unit {0})) (xs : List A) (s : S)
      → Holds P s
      → ((x : A) (s' : S) → Holds P s' → Holds P (f x s').1)
      → Holds P (for_each f xs s).1
  unfolding for_each
  Kept-for_each f [] s h k = h
  Kept-for_each f (x ∷ xs) s h k =
      Kept-then_do (f x s) (λ _ s'. for_each f xs s') (k x s h)
        (λ _ s' h'. Kept-for_each f xs s' h' k)

pub ruleset kept = (Kept-then_do, Kept-wrapped, Kept-forget, Kept-on_failure, Kept-for_each)

-- A chain that succeeds has two halves that do.
pub then_do-eq-done :
    {S A B : Type 0} (x : Outcome A × S) (f : A → M S B) {b : B} {s : S}
    → then_do x f ≡ (done b, s)
    → (a : A) × (t : S) × (x ≡ (done a, t)) × (f a t ≡ (done b, s))
then_do-eq-done (done a, t) f h = (a, t, refl, h)
then_do-eq-done (fail e, t) f h = cc (ap (λ x. x.0) h)
then_do-eq-done (panic, t) f h = cc (ap (λ x. x.0) h)

pub wrapped-eq-done :
    {S A : Type 0} (text : Bytes → Bytes) (x : Outcome A × S) {a : A} {s : S}
    → wrapped text x ≡ (done a, s)
    → x ≡ (done a, s)
wrapped-eq-done text (done a, t) h = h
wrapped-eq-done text (fail e, t) h = cc (ap (λ x. x.0) h)
wrapped-eq-done text (panic, t) h = cc (ap (λ x. x.0) h)
