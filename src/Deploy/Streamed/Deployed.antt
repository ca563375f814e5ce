-- ===== src/Deploy/Streamed/Deployed.antt =====
-- DeployComposeStreamed as a whole (internal/docker/deploy_stream.go): its phases in their order.
use mathlib.Core.Path.{subst}
use dockpal_agent.Base.{List, [], ◌++◌, map, ◌≡◌, ◌≢◌, refl, Result, ok, err}
use dockpal_agent.Base.Bytes.{Bytes, codes}
use dockpal_agent.Deploy.Outcome.{Outcome, done, fail, panic, for_each, then_do}
use dockpal_agent.Deploy.Outcome.Kept.{Holds, holds}
use dockpal_agent.Deploy.Project.{ComposeFile, service_of, parse_compose_file, resolve_start_order}
use dockpal_agent.Deploy.Daemon.{Log, Outside}
use dockpal_agent.Deploy.Log.{Adds, Adds-refl}
use dockpal_agent.Deploy.Service.{container_name}
use dockpal_agent.Deploy.Projects.{Auths}
use dockpal_agent.Deploy.Session.{close}
use dockpal_agent.Deploy.Streamed.{
  State, initial, Around, running, finished, say, pull_step, create_step, parse_ended, parse_phase,
  resolve_ended, resolve_phase, write_phase, deployment, deploy_compose_streamed,
}
use dockpal_agent.Deploy.Streamed.Phases.{IsPull, IsWrite, At, At-say, At-pulls, At-write_phase}
use dockpal_agent.Deploy.Streamed.Pulled.{
  Pulled, Fetches, all_there, pulls-Fetches, file_written, Writes, all_written, write_phase-Writes,
}
use dockpal_agent.Deploy.Streamed.Cleaned.{Ends, all_created, cleaned, panicked, create_loop-Ends}

-- The images of a start order.
abbrev images_of : ComposeFile → List Bytes → List Bytes
images_of cf order = map (λ svc. (service_of cf svc).image) order

-- A deployment fails before its pulls are through, and then it has written nothing; or it fails at its
-- file, behind the pulls of all images; or behind these and the file it goes through the loop over the
-- start order.
pub data Deployed (o : Outside) (project text : Bytes) (auths : Auths) (log : Log)
    : Outcome (Unit {0}) × State → Type 0 where
  unpulled :
      {r : Outcome (Unit {0})} {st : State}
      → r ≢ done tt
      → Adds IsPull log st.log
      → Deployed o project text auths log (r, st)
  unwritten :
      {r : Outcome (Unit {0})} {st : State} (cf : ComposeFile) (order : List Bytes) (pulled : Log)
      → r ≢ done tt
      → parse_compose_file o.unmarshal text ≡ ok cf
      → resolve_start_order cf ≡ ok order
      → Pulled o auths (images_of cf order) log pulled
      → Adds IsWrite pulled st.log
      → Deployed o project text auths log (r, st)
  ran :
      {x : Outcome (Unit {0}) × State} (cf : ComposeFile) (order : List Bytes) (pulled : Log)
      → parse_compose_file o.unmarshal text ≡ ok cf
      → resolve_start_order cf ≡ ok order
      → Pulled o auths (images_of cf order) log pulled
      → Ends (pulled ++ file_written o project text) [] (map (container_name project) order) x
      → Deployed o project text auths log x

module _ (o : Outside) (around : Around) (project text : Bytes) (auths : Auths) (log : Log) where
  finish : Outcome (Unit {0}) × State → Outcome (Unit {0}) × State
  finish x =
      then_do x λ _ st.
        (done tt, say o around (codes "complete") (codes "Deployment complete!") finished st)

  finish-Ends :
      {l : Log} {c names : List Bytes} (x : Outcome (Unit {0}) × State)
      → Ends l c names x
      → Ends l c names (finish x)
  unfolding finish say
  finish-Ends x (all_created a ns e) = all_created a ns e
  finish-Ends x (cleaned e before name after last mid split few a ns r) =
      cleaned e before name after last mid split few a ns r
  finish-Ends x (panicked a) = panicked a

  module _ (cf : ComposeFile) (order : List Bytes)
      (parses : parse_compose_file o.unmarshal text ≡ ok cf)
      (resolves : resolve_start_order cf ≡ ok order) where
    create_phase : State → Outcome (Unit {0}) × State
    create_phase st = finish (for_each (create_step o around project cf) order st)

    from_write :
        (pulled : Log) (x : Outcome (Unit {0}) × State)
        → Pulled o auths (images_of cf order) log pulled
        → Writes o project text pulled x
        → Holds (At IsWrite pulled []) x.1
        → Deployed o project text auths log (then_do x (λ _ st. create_phase st))
    unfolding create_phase
    from_write pulled (done u, st) a (all_written w) (holds h) =
        ran cf order pulled parses resolves a (
          subst (λ l. Ends l [] (map (container_name project) order) (create_phase st)) w
            (finish-Ends _ (create_loop-Ends o around [] project cf order st h.created)))
    from_write pulled (fail e, st) a w (holds h) =
        unwritten cf order pulled (λ q. cc) parses resolves a h.asked
    from_write pulled (panic, st) a w (holds h) =
        unwritten cf order pulled (λ q. cc) parses resolves a h.asked

    from_pulls :
        (x : Outcome (Unit {0}) × State)
        → Fetches o auths (images_of cf order) log x
        → Holds (At IsPull log []) x.1
        → Deployed o project text auths log (
            then_do x
              λ _ st. then_do (write_phase o around project text st) λ _ st'. create_phase st')
    from_pulls (done u, st) (all_there a) (holds h) =
        from_write st.log (write_phase o around project text st) a
          (write_phase-Writes o around project text st)
          (At-write_phase o around st.log project text st
            (holds (record { asked = Adds-refl st.log; created = h.created })))
    from_pulls (fail e, st) f (holds h) = unpulled (λ q. cc) h.asked
    from_pulls (panic, st) f (holds h) = unpulled (λ q. cc) h.asked

  from_resolve :
      (cf : ComposeFile) (r : Result (List Bytes)) (st : State)
      → st.log ≡ log
      → parse_compose_file o.unmarshal text ≡ ok cf
      → resolve_start_order cf ≡ r
      → Holds (At IsPull log []) st
      → Deployed o project text auths log (
          then_do (resolve_ended o around r st) λ order st1.
            then_do (for_each (pull_step o around auths cf) order st1) λ _ st2.
              then_do
                (write_phase o around project text st2)
                λ _ st3. finish (for_each (create_step o around project cf) order st3))
  unfolding say create_phase
  from_resolve cf (err e) st same p q (holds h) = unpulled (λ q. cc) h.asked
  from_resolve cf (ok order) st same p q h =
      let st1 = (resolve_ended o around (ok order) st).1 in
      let loop = for_each (pull_step o around auths cf) order st1 in
      from_pulls cf order p q loop
        (subst (λ l. Fetches o auths (images_of cf order) l loop) same
          (pulls-Fetches o auths around cf order st1))
        (At-pulls o around log auths cf order st1 (At-say o around _ _ _ st h))

  from_parse :
      (r : Result ComposeFile) (st : State)
      → st.log ≡ log
      → parse_compose_file o.unmarshal text ≡ r
      → Holds (At IsPull log []) st
      → Deployed o project text auths log (
          then_do (parse_ended o around r st) λ cf st1.
            then_do (resolve_phase o around cf st1) λ order st2.
              then_do (for_each (pull_step o around auths cf) order st2) λ _ st3.
                then_do
                  (write_phase o around project text st3)
                  λ _ st4. finish (for_each (create_step o around project cf) order st4))
  unfolding say resolve_phase
  from_parse (err e) st same p (holds h) = unpulled (λ q. cc) h.asked
  from_parse (ok cf) st same p h =
      from_resolve cf (resolve_start_order cf) _ same p refl
        (At-say o around _ _ _ _ (At-say o around _ _ _ st h))

  deployment-Deployed :
      (id : Bytes)
      → Deployed o project text auths log (deployment o around project text auths (initial id log))
  unfolding deployment parse_phase finish say
  deployment-Deployed id =
      from_parse (parse_compose_file o.unmarshal text)
        (say o around (codes "parse") (codes "Parsing compose file...") running (initial id log))
        refl refl
        (At-say o around _ _ _ (initial id log)
          (holds (record { asked = Adds-refl log; created = refl })))

closed-Deployed :
    {o : Outside} {project text : Bytes} {auths : Auths} {log : Log}
    (x : Outcome (Unit {0}) × State)
    → Deployed o project text auths log x
    → Deployed o project text auths log (x.0, record x.1 { session = close x.1.session })
closed-Deployed x (unpulled n a) = unpulled n a
closed-Deployed x (unwritten cf order pulled n p q a b) = unwritten cf order pulled n p q a b
closed-Deployed x (ran cf order pulled p q a ends) = ran cf order pulled p q a (closed ends)
  where
    closed :
        {l : Log} {c names : List Bytes} {y : Outcome (Unit {0}) × State}
        → Ends l c names y
        → Ends l c names (y.0, record y.1 { session = close y.1.session })
    closed (all_created a ns e) = all_created a ns e
    closed (cleaned e before name after last mid split few a ns r) =
        cleaned e before name after last mid split few a ns r
    closed (panicked a) = panicked a

-- Whatever the daemon answers, a streamed deployment inspects the image of each service in the start
-- order, and pulls each that is missing, before it makes its directory and writes its file, and does
-- both before it creates a container. It creates the containers of all services in that order; if one
-- fails, those created before it, and no other container, are removed, each once and in that order; a
-- panic leaves them. It may also fail before, at a pull with nothing written, or at its file.
pub deploy_compose_streamed-Deployed :
    (o : Outside) (around : Around) (id project text : Bytes) (auths : Auths) (log : Log)
    → Deployed o project text auths log
        (deploy_compose_streamed o around project text auths (initial id log))
unfolding deploy_compose_streamed
deploy_compose_streamed-Deployed o around id project text auths log =
    closed-Deployed (deployment o around project text auths (initial id log))
      (deployment-Deployed o around project text auths log id)
