-- ===== src/Deploy/Streamed/Told.antt =====
-- What a streamed deployment tells the reader of its session (internal/docker/deploy_stream.go).
use dockpal_agent.Base.{ℕ, zero, suc, List, [], ◌∷◌, ◌≡◌, refl, true, Result-cases, inl, inr}
use dockpal_agent.Base.Bytes.{Bytes}
use dockpal_agent.Deploy.Outcome.{Outcome}
use dockpal_agent.Deploy.Outcome.Kept.{Holds, holds, kept}
use dockpal_agent.Deploy.Project.{ComposeFile, parse_compose_file, resolve_start_order}
use dockpal_agent.Deploy.Daemon.{Log, Outside}
use dockpal_agent.Deploy.Projects.{Auths}
use dockpal_agent.Deploy.Session.{DeployEvent, DeploySession, new_session, receive, close}
use dockpal_agent.Deploy.Session.Channel.{
  Runs, start, emits, receives, closes, Orderly, Runs-Orderly,
}
use dockpal_agent.Deploy.Streamed.Steady.{Holds-hint, Holds-pull_failed}
use dockpal_agent.Deploy.Streamed.{
  State, initial, Around, receive_many, with_log, say, cleanup_of, cleanup, pull_step,
  create_failed, created_container, create_step, parse_phase, resolve_phase, write_phase,
  deployment, deploy_compose_streamed,
}

-- The session has come from `s` by the events emitted so far.
abbrev Told : DeploySession → State → Type 0
Told s st = Runs s st.emitted st.session

module _ (o : Outside) (around : Around) (s : DeploySession) where
  Runs-receive_many :
      {es : List DeployEvent} (n : ℕ) (t : DeploySession)
      → Runs s es t
      → Runs s es (receive_many n t)
  unfolding receive_many
  Runs-receive_many zero t r = r
  Runs-receive_many (suc n) t r = Runs-receive_many n (receive t) (receives r)

  Told-say :
      (step message status : Bytes) (st : State)
      → Holds (Told s) st
      → Holds (Told s) (say o around step message status st)
  unfolding say
  Told-say step message status st (holds r) =
      holds (emits _ (Runs-receive_many (around.reads st.emitted) st.session r))

  Told-set_log :
      (log : Log) (st : State) → Holds (Told s) st → Holds (Told s) (record st { log = log })
  Told-set_log log st (holds r) = holds r

  Told-set_created :
      (created : List Bytes) (st : State)
      → Holds (Told s) st
      → Holds (Told s) (record st { created = created })
  Told-set_created created st (holds r) = holds r

  Told-cleanup_of :
      (names : List Bytes) (st : State)
      → Holds (Told s) st
      → Holds (Told s) (cleanup_of o around names st)
  Told-cleanup_of [] st r = r
  Told-cleanup_of (c ∷ cs) st r = Told-say _ _ _ _ (Told-set_log _ _ (Told-say _ _ _ st r))

  Told-cleanup : (st : State) → Holds (Told s) st → Holds (Told s) (cleanup o around st)
  unfolding cleanup
  Told-cleanup st r = Told-cleanup_of st.created st r

  Told-with_log :
      {A : Type 0} (st : State) (x : Outcome A × Log)
      → Holds (Told s) st
      → Holds (Told s) (with_log st x).1
  Told-with_log st (r, log) (holds h) = holds h

  ruleset told = (kept, Told-set_created, Told-say, Told-with_log)

  Told-pull_step :
      (auths : Auths) (cf : ComposeFile) (svc : Bytes) (st : State)
      → Holds (Told s) st
      → Holds (Told s) (pull_step o around auths cf svc st).1
  unfolding pull_step
  Told-pull_step auths cf svc st r = search (told, Holds-pull_failed o around Told-say) depth 12

  Told-create_step :
      (project : Bytes) (cf : ComposeFile) (svc : Bytes) (st : State)
      → Holds (Told s) st
      → Holds (Told s) (create_step o around project cf svc st).1
  unfolding create_step create_failed created_container
  Told-create_step project cf svc st r =
      search (told, Holds-hint o around Told-say, Told-cleanup) depth 12

  Told-parse_phase :
      (text : Bytes) (st : State)
      → Holds (Told s) st
      → Holds (Told s) (parse_phase o around text st).1
  unfolding parse_phase
  Told-parse_phase text st r = elim (Result-cases (parse_compose_file o.unmarshal text)) [
    | inl (cf, e) ↦ rw (e, parse_phase) (search Told-say)
    | inr (m, e) ↦ rw (e, parse_phase) (search Told-say)
  ]

  Told-resolve_phase :
      (cf : ComposeFile) (st : State)
      → Holds (Told s) st
      → Holds (Told s) (resolve_phase o around cf st).1
  unfolding resolve_phase
  Told-resolve_phase cf st r = elim (Result-cases (resolve_start_order cf)) [
    | inl (order, e) ↦ rw (e, resolve_phase) (search Told-say)
    | inr (m, e) ↦ rw (e, resolve_phase) (search Told-say)
  ]

  Told-write_phase :
      (project text : Bytes) (st : State)
      → Holds (Told s) st
      → Holds (Told s) (write_phase o around project text st).1
  unfolding write_phase
  Told-write_phase project text st r = search told depth 12

  Told-deployment :
      (project text : Bytes) (auths : Auths) (st : State)
      → Holds (Told s) st
      → Holds (Told s) (deployment o around project text auths st).1
  unfolding deployment
  Told-deployment project text auths st r =
      search
        (
          kept, Told-say, Told-parse_phase, Told-resolve_phase, Told-pull_step, Told-write_phase,
          Told-create_step,
        )
        depth 14

-- However a streamed deployment of a new session ends, by success, error or panic, and whenever its
-- reader receives: Done is closed, the channel holds at most 50 events, what went through it is a
-- subsequence of the emitted events in their order, and nothing of at most 50 events is lost.
pub deploy_compose_streamed-Orderly :
    (o : Outside) (around : Around) (id project text : Bytes) (auths : Auths) (log : Log)
    → let st = (deploy_compose_streamed o around project text auths (initial id log)).1 in
      (st.session.done ≡ true) × Orderly st.emitted st.session
unfolding deploy_compose_streamed close
deploy_compose_streamed-Orderly o around id project text auths log =
    let st = (deployment o around project text auths (initial id log)).1 in
    let told : Holds (Told (new_session id)) st =
      Told-deployment o around (new_session id) project text auths (initial id log) (holds start) in
    (refl, Runs-Orderly id st.emitted (close st.session) (closed told))
  where
    closed :
        {st : State}
        → Holds (Told (new_session id)) st
        → Runs (new_session id) st.emitted (close st.session)
    closed (holds r) = closes r
