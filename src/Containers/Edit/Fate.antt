-- ===== src/Containers/Edit/Fate.antt =====
-- What becomes of a container that is edited (internal/docker/containers.go).
use dockpal_agent.Base.{
  Bool, true, false, [], ◌∷◌, ◌++◌, ◌≡◌, ◌≢◌, ◌⊎◌, ◌||◌, refl, Result, ok, err, Bool-cases, inl,
  inr, if◌then◌else◌,
}
use dockpal_agent.Base.Bytes.{Bytes, codes}
use dockpal_agent.Deploy.Outcome.{Outcome, done, fail, panic, then_do, wrapped, forget, of_result}
use dockpal_agent.Deploy.Outcome.Kept.{Holds, holds, kept, Kept-wrapped}
use dockpal_agent.Deploy.Log.{Adds, Adds-refl, Adds-trans, Adds-one, added, Holds-none}
use dockpal_agent.Containers.{
  Container, Ask, Log, Daemon, ask, look, without_slash, inspect, rename, update,
}
use dockpal_agent.Containers.Edit.{
  ContainerEditRequest, needs_recreate, replace_container, recreate_container, rename_step,
  update_step, recreate_step, edit_container, new_options, prefixed, not_inspected, or_old, given,
  update_options,
}
use dockpal_agent.Containers.Edit.Replaced.{
  Replaced, Holds-ask, Holds-look, Holds-rename, replace_container-Replaced, wrapped-Replaced,
}

-- Calls that do not touch the life of a container.
pub IsInPlace : Ask → Type 0
IsInPlace (inspect id) = Unit
IsInPlace (rename id name) = Unit
IsInPlace (update id opts) = Unit
IsInPlace _ = ⊥

-- What the part of an edit that may recreate comes to.
data Step (daemon : Daemon) (req : ContainerEditRequest) (id : Bytes) (log : Log)
    : Outcome (Unit {0}) × Log → Type 0 where
  skipped :
      {r : Outcome (Unit {0})} {log' : Log}
      → (needs_recreate req ≡ false) ⊎ (r ≢ done tt)
      → Adds IsInPlace log log'
      → Step daemon req id log (r, log')
  replaced :
      {r : Outcome (Unit {0})} {log' : Log} (old : Container) (mid : Log)
      → needs_recreate req ≡ true
      → Adds IsInPlace log mid
      → daemon.inspected mid id ≡ ok old
      → Replaced daemon (new_options daemon old req) id (mid ++ inspect id ∷ []) (r, log')
      → Step daemon req id log (r, log')

-- What an edit of the container `id` comes to: only changes in place, which is a success only if nothing
-- asks for more; or, behind them and an inspection of that container, its replacement by what the
-- request and the inspected container give and, if it succeeds, an inspection of the new one. The
-- edit succeeds only if the replacement does.
pub data Course (daemon : Daemon) (req : ContainerEditRequest) (id : Bytes) (log : Log)
    : Outcome Container × Log → Type 0 where
  in_place :
      {r : Outcome Container} {log' : Log}
      → (needs_recreate req ≡ false) ⊎ ((c : Container) → r ≢ done c)
      → Adds IsInPlace log log'
      → Course daemon req id log (r, log')
  recreated :
      {r : Outcome Container} {log' : Log} (old : Container) (mid : Log)
      (y : Outcome (Unit {0}) × Log)
      → needs_recreate req ≡ true
      → Adds IsInPlace log mid
      → daemon.inspected mid id ≡ ok old
      → Replaced daemon (new_options daemon old req) id (mid ++ inspect id ∷ []) y
      → ((c : Container) → r ≡ done c → y.0 ≡ done tt)
      → Adds IsInPlace y.1 log'
      → Course daemon req id log (r, log')

-- The same by the name or id that EditContainer is given: the container is not found, and then nothing
-- else is asked; or it is, and the edit is one of its full id.
pub data Fate (daemon : Daemon) (req : ContainerEditRequest) (ref : Bytes) (log : Log)
    : Outcome Container × Log → Type 0 where
  unseen :
      {r : Outcome Container} (e : Bytes)
      → daemon.inspected log ref ≡ err e
      → ((c : Container) → r ≢ done c)
      → Fate daemon req ref log (r, log ++ inspect ref ∷ [])
  seen :
      {x : Outcome Container × Log} (found : Container)
      → daemon.inspected log ref ≡ ok found
      → Course daemon req found.id (log ++ inspect ref ∷ []) x
      → Fate daemon req ref log x

module _ (daemon : Daemon) (req : ContainerEditRequest) where
  from_complete :
      (id : Bytes) (log l : Log) (old : Container) (b : Bool)
      → needs_recreate req ≡ true
      → Adds IsInPlace log l
      → daemon.inspected l id ≡ ok old
      → Step daemon req id log (
          wrapped (prefixed daemon (codes "failed to recreate container: ")) (
            if b
            then replace_container daemon id old (new_options daemon old req) (l ++ inspect id ∷ [])
            else (fail (codes "container inspect returned incomplete data"), l ++ inspect id ∷ [])))
  unfolding IsInPlace
  from_complete id log l old false needs a found =
      skipped (inr (λ q. cc)) (Adds-trans a (Adds-one l (inspect id) tt))
  from_complete id log l old true needs a found = replaced old l needs a found (
      wrapped-Replaced daemon _ _ (
        replace_container-Replaced daemon id old (new_options daemon old req)
          (l ++ inspect id ∷ [])))

  from_look :
      (id : Bytes) (log l : Log) (r : Result Container)
      → needs_recreate req ≡ true
      → Adds IsInPlace log l
      → daemon.inspected l id ≡ r
      → Step daemon req id log (
          wrapped (prefixed daemon (codes "failed to recreate container: ")) (
            then_do
              (wrapped
                (prefixed daemon (codes "failed to inspect container for recreation: "))
                (of_result r, l ++ inspect id ∷ []))
              λ old l1.
                if old.complete
                then replace_container daemon id old (new_options daemon old req) l1
                else (fail (codes "container inspect returned incomplete data"), l1)))
  unfolding IsInPlace
  from_look id log l (err e) needs a missing =
      skipped (inr (λ q. cc)) (Adds-trans a (Adds-one l (inspect id) tt))
  from_look id log l (ok old) needs a found = from_complete id log l old old.complete needs a found

  recreate_step-Step :
      (id : Bytes) (log0 log : Log)
      → Adds IsInPlace log0 log
      → Step daemon req id log0 (recreate_step daemon id req log)
  unfolding recreate_step recreate_container look
  recreate_step-Step id log0 log a = elim (Bool-cases (needs_recreate req)) [
    | inr stays ↦ rw stays (skipped (inl stays) a)
    | inl needs ↦ rw needs (from_look id log0 log (daemon.inspected log id) needs a refl)
  ]

  update_step-IsInPlace :
      (id : Bytes) (log0 log : Log)
      → Holds (Adds IsInPlace log0) log
      → Holds (Adds IsInPlace log0) (update_step daemon id req log).1
  unfolding update_step IsInPlace
  update_step-IsInPlace id log0 log a =
      go (given req.restart_policy || given req.memory_limit || given req.cpu_limit)
    where
      go :
          (b : Bool)
          → Holds
              (Adds IsInPlace log0)
              (if b
                then forget (
                    wrapped
                      (prefixed daemon (codes "failed to update container: "))
                      (ask daemon (update id (update_options req)) log))
                else (done tt, log)).1
      go true = search (kept, Holds-ask daemon)
      go false = a

  still :
      (r : Outcome Container)
      → (needs_recreate req ≡ false) ⊎ (done tt ≢ done tt)
      → (needs_recreate req ≡ false) ⊎ ((c : Container) → r ≢ done c)
  still r (inl stays) = inl stays
  still r (inr n) = elim (n refl) [ ]

  last_look :
      (id name : Bytes) (log : Log) (x : Outcome (Unit {0}) × Log)
      → Step daemon req id log x
      → Course daemon req id log
          (then_do x (λ _ l. wrapped (not_inspected daemon) (look daemon name l)))
  unfolding IsInPlace
  last_look id name log (fail e, l) (skipped why a) = in_place (inr (λ c q. cc)) a
  last_look id name log (panic, l) (skipped why a) = in_place (inr (λ c q. cc)) a
  last_look id name log (done u, l) (skipped why a) =
      in_place (still _ why) (added (Kept-wrapped _ _ (Holds-look daemon name l tt (holds a))))
  last_look id name log (fail e, l) (replaced old mid needs a found y) =
      recreated old mid _ needs a found y (λ c q. cc) (Adds-refl l)
  last_look id name log (panic, l) (replaced old mid needs a found y) =
      recreated old mid _ needs a found y (λ c q. cc) (Adds-refl l)
  last_look id name log (done u, l) (replaced old mid needs a found y) =
      recreated old mid _ needs a found y (λ c q. refl)
        (added (Kept-wrapped _ _ (Holds-look daemon name l tt (holds (Adds-refl l)))))

  after_update :
      (id name : Bytes) (log : Log) (x : Outcome (Unit {0}) × Log)
      → Holds (Adds IsInPlace log) x.1
      → Course daemon req id log (
          then_do x λ _ l3.
            then_do
              (recreate_step daemon id req l3)
              λ _ l4. wrapped (not_inspected daemon) (look daemon name l4))
  after_update id name log (fail e, l) (holds a) = in_place (inr (λ c q. cc)) a
  after_update id name log (panic, l) (holds a) = in_place (inr (λ c q. cc)) a
  after_update id name log (done u, l) (holds a) =
      last_look id name log (recreate_step daemon id req l) (recreate_step-Step id log l a)

  after_rename :
      (id name : Bytes) (log : Log) (x : Outcome (Unit {0}) × Log)
      → Holds (Adds IsInPlace log) x.1
      → Course daemon req id log (
          then_do x λ _ l2. then_do (update_step daemon id req l2) λ _ l3.
            then_do
              (recreate_step daemon id req l3)
              λ _ l4. wrapped (not_inspected daemon) (look daemon name l4))
  after_rename id name log (fail e, l) (holds a) = in_place (inr (λ c q. cc)) a
  after_rename id name log (panic, l) (holds a) = in_place (inr (λ c q. cc)) a
  after_rename id name log (done u, l) h =
      after_update id name log (update_step daemon id req l) (update_step-IsInPlace id log l h)

  after_look :
      (ref : Bytes) (log : Log) (r : Result Container)
      → daemon.inspected log ref ≡ r
      → Fate daemon req ref log (
          then_do (wrapped (not_inspected daemon) (of_result r, log ++ inspect ref ∷ [])) λ old l1.
            then_do (rename_step daemon old.id req.name l1) λ _ l2.
              then_do (update_step daemon old.id req l2) λ _ l3.
                then_do (recreate_step daemon old.id req l3) λ _ l4.
                  wrapped
                    (not_inspected daemon)
                    (look daemon (or_old (without_slash old.name) req.name) l4))
  unfolding IsInPlace
  after_look ref log (err e) missing = unseen e missing (λ c q. cc)
  after_look ref log (ok old) found =
      let l = log ++ inspect ref ∷ [] in
      seen old found (
        after_rename old.id (or_old (without_slash old.name) req.name) l
          (rename_step daemon old.id req.name l)
          (Holds-rename daemon old.id req.name l (λ n. tt) (Holds-none l)))

  -- Whatever the daemon answers, EditContainer first inspects the container that it is given. If it finds
  -- it, it only inspects, renames and updates containers, and fails if the request has an image, an
  -- environment, ports or volumes; or, if it has, there comes behind that, once, a replacement of the
  -- container that was found by what the request and another inspection of it give. Apart from calls
  -- that remove and create nothing, the replacement is the removal alone, refused; the removal and a
  -- creation that is refused, which leaves neither container; or the removal and the creation, both
  -- accepted. An edit with a replacement succeeds only in the last case.
  pub edit_container-Fate :
      (ref : Bytes) (log : Log) → Fate daemon req ref log (edit_container daemon ref req log)
  unfolding edit_container look
  edit_container-Fate ref log = after_look ref log (daemon.inspected log ref) refl
