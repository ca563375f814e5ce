-- ===== src/Containers/Edit/Replaced.antt =====
-- What `recreateContainer` of internal/docker/containers.go leaves of the old and the new container.
use mathlib.Core.Path.{subst}
use dockpal_agent.Base.{
  Bool, true, false, [], ◌∷◌, ◌++◌, ◌≡◌, ◌≢◌, refl, Option, none, some, Result, ok, err,
  append_assoc, if◌then◌else◌,
}
use dockpal_agent.Base.Bytes.{Bytes, codes}
use dockpal_agent.Deploy.Outcome.{Outcome, done, fail, panic, then_do, wrapped, of_result}
use dockpal_agent.Deploy.Outcome.Kept.{Holds, kept}
use dockpal_agent.Deploy.Log.{Adds, Adds-refl, Adds-one, added, Holds-none, Holds-add}
use dockpal_agent.Containers.{
  Container, CreateOptions, Ask, Log, Daemon, ask, look, try, inspect, rename, stop, remove, create,
}
use dockpal_agent.Containers.Edit.{
  replace_container, rename_step, stop_if, start_if, is_running, prefixed,
}

-- Calls that leave every container where it is, under this or another name.
pub IsMild : Ask → Type 0
IsMild (remove id force) = ⊥
IsMild (create opts) = ⊥
IsMild _ = Unit

module _ {P : Ask → Type 0} {log0 : Log} (daemon : Daemon) where
  pub Holds-ask :
      (a : Ask) (log : Log)
      → P a
      → Holds (Adds P log0) log
      → Holds (Adds P log0) (ask daemon a log).1
  unfolding ask
  Holds-ask a log h k = Holds-add a log h k

  pub Holds-look :
      (id : Bytes) (log : Log)
      → P (inspect id)
      → Holds (Adds P log0) log
      → Holds (Adds P log0) (look daemon id log).1
  unfolding look
  Holds-look id log h k = Holds-add (inspect id) log h k

  Holds-if :
      {A : Type 0} (b : Bool) (x y : Outcome A × Log)
      → Holds (Adds P log0) x.1
      → Holds (Adds P log0) y.1
      → Holds (Adds P log0) (if b then x else y).1
  Holds-if true x y h k = h
  Holds-if false x y h k = k

  pub Holds-rename :
      (id : Bytes) (name : Option Bytes) (log : Log)
      → ((n : Bytes) → P (rename id n))
      → Holds (Adds P log0) log
      → Holds (Adds P log0) (rename_step daemon id name log).1
  unfolding rename_step
  Holds-rename id none log h k = k
  Holds-rename id (some n) log h k = search (kept, Holds-ask, h)

ruleset rules = (kept, Holds-none, Holds-ask, Holds-look, Holds-if)

-- What a replacement of a container comes to, behind a log: the old one is kept, since the daemon
-- refuses to remove it; it is lost, removed while the new one is refused; or the new one is there.
pub data Replaced (daemon : Daemon) (opts : CreateOptions) (id : Bytes) (log : Log)
    : Outcome (Unit {0}) × Log → Type 0 where
  retained :
      {r : Outcome (Unit {0})} {log' : Log} (mid : Log) (e : Bytes)
      → r ≢ done tt
      → daemon.answer mid (remove id true) ≡ err e
      → Adds IsMild log mid
      → log' ≡ mid ++ remove id true ∷ []
      → Replaced daemon opts id log (r, log')
  lost :
      {r : Outcome (Unit {0})} {log' : Log} (mid : Log) (v e : Bytes)
      → r ≢ done tt
      → daemon.answer mid (remove id true) ≡ ok v
      → daemon.answer (mid ++ remove id true ∷ []) (create opts) ≡ err e
      → Adds IsMild log mid
      → log' ≡ mid ++ remove id true ∷ create opts ∷ []
      → Replaced daemon opts id log (r, log')
  fresh :
      {r : Outcome (Unit {0})} {log' : Log} (mid : Log) (v new : Bytes)
      → daemon.answer mid (remove id true) ≡ ok v
      → daemon.answer (mid ++ remove id true ∷ []) (create opts) ≡ ok new
      → Adds IsMild log mid
      → Adds IsMild (mid ++ remove id true ∷ create opts ∷ []) log'
      → Replaced daemon opts id log (r, log')

module _ (daemon : Daemon) where
  stop_if-IsMild : (b : Bool) (id : Bytes) (log : Log) → Adds IsMild log (stop_if daemon b id log)
  unfolding try IsMild
  stop_if-IsMild true id log = Adds-one log (stop id 10) tt
  stop_if-IsMild false id log = Adds-refl log

  start_if-IsMild :
      (b : Bool) (id : Bytes) (log : Log) → Adds IsMild log (start_if daemon b id log).1
  unfolding IsMild
  start_if-IsMild true id log = added (search (rules, Holds-ask daemon))
  start_if-IsMild false id log = Adds-refl log

  after_create :
      (b : Bool) (id : Bytes) (opts : CreateOptions) (log mid : Log) (v : Bytes) (r : Result Bytes)
      → daemon.answer mid (remove id true) ≡ ok v
      → daemon.answer (mid ++ remove id true ∷ []) (create opts) ≡ r
      → Adds IsMild log mid
      → Replaced daemon opts id log (
          then_do
            (wrapped
              (prefixed daemon (codes "failed to create new container: "))
              (of_result r, (mid ++ remove id true ∷ []) ++ create opts ∷ []))
            (λ new l. start_if daemon b new l))
  after_create b id opts log mid v (err e) removed refused a =
      lost mid v e (λ q. cc) removed refused a
        (append_assoc mid (remove id true ∷ []) (create opts ∷ []))
  after_create b id opts log mid v (ok new) removed made a =
      let l = (mid ++ remove id true ∷ []) ++ create opts ∷ [] in
      fresh mid v new removed made a (
        subst (λ k. Adds IsMild k (start_if daemon b new l).1)
          (append_assoc mid (remove id true ∷ []) (create opts ∷ [])) (start_if-IsMild b new l))

  after_remove :
      (b : Bool) (id : Bytes) (opts : CreateOptions) (log mid : Log) (r : Result Bytes)
      → daemon.answer mid (remove id true) ≡ r
      → Adds IsMild log mid
      → Replaced daemon opts id log (
          then_do
            (wrapped
              (prefixed daemon (codes "failed to remove old container: "))
              (of_result r, mid ++ remove id true ∷ []))
            λ _ l1.
              then_do
                (wrapped
                  (prefixed daemon (codes "failed to create new container: "))
                  (ask daemon (create opts) l1))
                λ new l2. start_if daemon b new l2)
  unfolding ask
  after_remove b id opts log mid (err e) refused a = retained mid e (λ q. cc) refused a refl
  after_remove b id opts log mid (ok v) removed a =
      after_create b id opts log mid v (daemon.answer (mid ++ remove id true ∷ []) (create opts))
        removed refl a

  pub replace_container-Replaced :
      (id : Bytes) (old : Container) (opts : CreateOptions) (log : Log)
      → Replaced daemon opts id log (replace_container daemon id old opts log)
  unfolding replace_container ask
  replace_container-Replaced id old opts log =
      let b = is_running daemon old.status in
      let mid = stop_if daemon b id log in
      after_remove b id opts log mid (daemon.answer mid (remove id true)) refl
        (stop_if-IsMild b id log)

  pub wrapped-Replaced :
      {opts : CreateOptions} {id : Bytes} {log : Log} (text : Bytes → Bytes)
      (y : Outcome (Unit {0}) × Log)
      → Replaced daemon opts id log y
      → Replaced daemon opts id log (wrapped text y)
  wrapped-Replaced text (done u, l) h = h
  wrapped-Replaced text (panic, l) h = h
  wrapped-Replaced text (fail e, l) (retained mid e1 n x a q) = retained mid e1 (λ q. cc) x a q
  wrapped-Replaced text (fail e, l) (lost mid v e1 n x y a q) = lost mid v e1 (λ q. cc) x y a q
  wrapped-Replaced text (fail e, l) (fresh mid v new x y a b) = fresh mid v new x y a b
