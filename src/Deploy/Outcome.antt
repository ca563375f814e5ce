-- ===== src/Deploy/Outcome.antt =====
-- What a function of package docker comes to: a result, an error, or a panic. The state is passed on
-- in each case, since what has been asked of the daemon is not undone.
pub mod Kept
use dockpal_agent.Base.{List, [], ◌∷◌, Result, ok, err}
use dockpal_agent.Base.Bytes.{Bytes}

pub data Outcome (A : Type 0) : Type 0 where
  done : A → Outcome A
  fail : Bytes → Outcome A
  panic : Outcome A

abbrev pub M : Type 0 → Type 0 → Type 0
M S A = S → Outcome A × S

abbrev pub then_do : {S A B : Type 0} → Outcome A × S → (A → M S B) → Outcome B × S
then_do (done a, s) f = f a s
then_do (fail e, s) f = (fail e, s)
then_do (panic, s) f = (panic, s)

infixl 5 ◌>>=◌
abbrev pub ◌>>=◌ : {S A B : Type 0} → M S A → (A → M S B) → M S B
(m >>= f) s = then_do (m s) f

abbrev pub of_result : {A : Type 0} → Result A → Outcome A
of_result (ok a) = done a
of_result (err e) = fail e

-- `return fmt.Errorf("…: %w", err)`
abbrev pub wrapped : {S A : Type 0} → (Bytes → Bytes) → Outcome A × S → Outcome A × S
wrapped text (done a, s) = (done a, s)
wrapped text (fail e, s) = (fail (text e), s)
wrapped text (panic, s) = (panic, s)

-- `if err := m; err != nil { …; return err }`: what is done behind a failure
abbrev pub on_failure : {S A : Type 0} → (Bytes → S → S) → Outcome A × S → Outcome A × S
on_failure handle (done a, s) = (done a, s)
on_failure handle (fail e, s) = (fail e, handle e s)
on_failure handle (panic, s) = (panic, s)

-- only whether it succeeds
abbrev pub forget : {S A : Type 0} → Outcome A × S → Outcome (Unit {0}) × S
forget (done a, s) = (done tt, s)
forget (fail e, s) = (fail e, s)
forget (panic, s) = (panic, s)

-- `for … { if err := f(x); err != nil { return err } }`
unfoldable pub for_each : {S A : Type 0} → (A → M S (Unit {0})) → List A → M S (Unit {0})
for_each f [] s = (done tt, s)
for_each f (x ∷ xs) s = then_do (f x s) (λ _ s'. for_each f xs s')
