-- ===== src/Deploy/Streamed/Cleaned.antt =====
-- The loop of DeployComposeStreamed that creates the containers, and its cleanup
-- (internal/docker/deploy_stream.go).
use dockpal_agent.Base.{
  ◌⊎◌, inl, inr, List, [], ◌∷◌, ◌++◌, map, ◌≡◌, refl, sym, ap, ◌∙◌, append-nil, append_assoc, true,
}
use dockpal_agent.Base.Bytes.{Bytes, codes}
use dockpal_agent.Deploy.Outcome.{Outcome, done, fail, panic, for_each, then_do, on_failure}
use dockpal_agent.Deploy.Outcome.Kept.{holds, kept}
use dockpal_agent.Deploy.Project.{ComposeFile, service_of}
use dockpal_agent.Deploy.Daemon.{
  Log, Op, Outside, container_create, container_start, container_remove, try,
}
use dockpal_agent.Deploy.Log.{Adds, added, Adds-refl, Adds-trans}
use dockpal_agent.Deploy.Asks.{Holds-create_and_start_service}
use dockpal_agent.Deploy.Service.{container_name, create_and_start_service}
use dockpal_agent.Deploy.Service.Created.{
  created_names, Made, made, unmade, create_and_start_service-Made,
}
use dockpal_agent.Deploy.Projects.{each}
use dockpal_agent.Deploy.Streamed.Diagnosis.{diagnose_deploy_error}
use dockpal_agent.Deploy.Streamed.{
  State, Around, error, running, with_log, say, hint, cleanup_of, cleanup, create_failed,
  created_container, create_step,
}

pub IsCreation : Op → Type 0
IsCreation (container_create opts) = Unit
IsCreation (container_start id) = Unit
IsCreation _ = ⊥

-- the forced removals of cleanup()
abbrev removals : List Bytes → List Op
removals names = map (λ name. container_remove name true) names

-- The end of the loop that creates the containers `names`, behind the log `l` and the containers `c`
-- that have been created: all of them; or an error at one, which may have been created, and the
-- removal of those before it; or a panic.
pub data Ends (l : Log) (c names : List Bytes) : Outcome (Unit {0}) × State → Type 0 where
  all_created :
      {st : State}
      → Adds IsCreation l st.log
      → created_names st.log ≡ created_names l ++ names
      → st.created ≡ c ++ names
      → Ends l c names (done tt, st)
  cleaned :
      {st : State} (e : Bytes) (before : List Bytes) (name : Bytes) (after last : List Bytes)
      (mid : Log)
      → names ≡ before ++ name ∷ after
      → (last ≡ []) ⊎ (last ≡ name ∷ [])
      → Adds IsCreation l mid
      → created_names mid ≡ created_names l ++ (before ++ last)
      → st.log ≡ mid ++ removals (c ++ before)
      → Ends l c names (fail e, st)
  panicked : {st : State} → Adds IsCreation l st.log → Ends l c names (panic, st)

each-append :
    (xs : List Bytes) (log : Log)
    → each (λ name. container_remove name true) xs log ≡ log ++ removals xs
unfolding each try
each-append [] log = sym (append-nil log)
each-append (x ∷ xs) log =
    each-append xs (log ++ container_remove x true ∷ [])
    ∙ append_assoc log (container_remove x true ∷ []) (removals xs)

-- One more creation before a loop.
Ends-cons :
    {l l' : Log} (c : List Bytes) (n : Bytes) (names : List Bytes) (x : Outcome (Unit {0}) × State)
    → Adds IsCreation l l'
    → created_names l' ≡ created_names l ++ n ∷ []
    → Ends l' (c ++ n ∷ []) names x
    → Ends l c (n ∷ names) x
Ends-cons {l} c n names x a m (all_created b ns e) =
    all_created (Adds-trans a b)
      (ns ∙ ap (λ l. l ++ names) m ∙ append_assoc (created_names l) (n ∷ []) names)
      (e ∙ append_assoc c (n ∷ []) names)
Ends-cons {l} c n names x a m (cleaned e before name after last mid split few b ns r) =
    cleaned e (n ∷ before) name after last mid (ap (◌∷◌ n) split) few (Adds-trans a b)
      (ns
        ∙ ap (λ l. l ++ (before ++ last)) m
        ∙ append_assoc (created_names l) (n ∷ []) (before ++ last))
      (r ∙ ap (λ ns. mid ++ removals ns) (append_assoc c (n ∷ []) before))
Ends-cons c n names x a m (panicked b) = panicked (Adds-trans a b)

module _ (o : Outside) (around : Around) where
  hint_state :
      (text : Bytes) (st : State)
      → ((hint o around text st).log ≡ st.log) × ((hint o around text st).created ≡ st.created)
  unfolding hint say
  hint_state [] st = (refl, refl)
  hint_state (c ∷ text) st = (refl, refl)

  cleanup_of-log :
      (names : List Bytes) (st : State)
      → (cleanup_of o around names st).log ≡ st.log ++ removals names
  unfolding say
  cleanup_of-log [] st = sym (append-nil st.log)
  cleanup_of-log (c ∷ cs) st = each-append (c ∷ cs) st.log

  create_failed-log :
      (e : Bytes) (st : State) → (create_failed o around e st).log ≡ st.log ++ removals st.created
  unfolding create_failed cleanup say
  create_failed-log e st =
      let st1 = say o around (codes "create") (codes "Failed: " ++ e) error st in
      let st2 = hint o around (diagnose_deploy_error e) st1 in
      let (same, kept) = hint_state (diagnose_deploy_error e) st1 in
      cleanup_of-log st2.created st2
      ∙ ap (λ l. l ++ removals st2.created) same
      ∙ ap (λ c. st.log ++ removals c) kept

  removed :
      (log : Log) (e : Bytes) (st : State) (c : List Bytes)
      → st.created ≡ c
      → (create_failed o around e (record st { log = log })).log ≡ log ++ removals (c ++ [])
  removed log e st c h =
      create_failed-log e (record st { log = log })
      ∙ ap (λ x. log ++ removals x) (h ∙ sym (append-nil c))

  -- one round of the loop, by what became of the container
  round-Ends :
      (l : Log) (c : List Bytes) (n : Bytes) (names : List Bytes) (st : State)
      (next : State → Outcome (Unit {0}) × State) (x : Outcome (Unit {0}) × Log)
      → st.created ≡ c
      → Adds IsCreation l x.1
      → Made n l x
      → ((s : State) → s.created ≡ c ++ n ∷ [] → Ends s.log (c ++ n ∷ []) names (next s))
      → Ends l c (n ∷ names) (
          then_do
            (then_do
              (on_failure (create_failed o around) (with_log st x))
              (λ _ s. (done tt, created_container o around n s)))
            (λ _ s. next s))
  round-Ends l c n names st next (done u, log) e a (made m) k =
      unfold created_container say in Ends-cons c n names _ a m (k _ (ap (λ x. x ++ n ∷ []) e))
  round-Ends l c n names st next (done u, log) e a (unmade ne m) k = absurd (ne refl)
  round-Ends l c n names st next (fail t, log) e a (made m) k =
      cleaned t [] n names (n ∷ []) log refl (inr refl) a m (removed log t st c e)
  round-Ends l c n names st next (fail t, log) e a (unmade ne m) k =
      cleaned t [] n names [] log refl (inl refl) a (m ∙ sym (append-nil _)) (removed log t st c e)
  round-Ends l c n names st next (panic, log) e a m k = panicked a

  pub create_loop-Ends :
      (c : List Bytes) (project : Bytes) (cf : ComposeFile) (order : List Bytes) (st : State)
      → st.created ≡ c
      → Ends st.log c
          (map (container_name project) order)
          (for_each (create_step o around project cf) order st)
  unfolding for_each create_step say IsCreation
  create_loop-Ends c project cf [] st e =
      all_created (Adds-refl st.log) (sym (append-nil _)) (e ∙ sym (append-nil c))
  create_loop-Ends c project cf (svc ∷ order) st e =
      let n = container_name project svc in
      round-Ends st.log c n (map (container_name project) order)
        (say o around (codes "create") (codes "Creating container " ++ (n ++ codes "...")) running
          st)
        (λ s. for_each (create_step o around project cf) order s)
        (create_and_start_service o project svc (service_of cf svc) st.log) e
        (added (
          Holds-create_and_start_service o project svc (service_of cf svc) st.log (λ _. tt)
            (λ _. tt) (holds (Adds-refl st.log))))
        (create_and_start_service-Made o project svc (service_of cf svc) st.log)
        (λ s e'. create_loop-Ends (c ++ n ∷ []) project cf order s e')
