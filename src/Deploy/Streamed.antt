-- ===== src/Deploy/Streamed.antt =====
-- `DeployComposeStreamed` of internal/docker/deploy_stream.go. The reader of the session is another
-- goroutine: before each event it receives as many as `reads` says, which may depend on all before.
pub mod Diagnosis
pub mod Told
pub mod Steady
pub mod Phases
pub mod Pulled
pub mod Cleaned
pub mod Deployed
use dockpal_agent.Base.{
  ℕ, zero, suc, Bool, true, false, not, ◌||◌, List, [], ◌∷◌, ◌++◌, length, Option, none, some,
  Result, ok, err, if◌then◌else◌,
}
use dockpal_agent.Base.Bytes.{Bytes, codes, equal, contains, join}
use dockpal_agent.Base.Decimal.{decimal}
use dockpal_agent.Deploy.Outcome.{
  Outcome, M, done, fail, panic, then_do, on_failure, wrapped, for_each,
}
use dockpal_agent.Deploy.Project.{ComposeFile, parse_compose_file, resolve_start_order, service_of}
use dockpal_agent.Deploy.Daemon.{Log, Op, Outside, container_remove}
use dockpal_agent.Deploy.Images.{dash, extract_image_domain, pull_image_if_needed}
use dockpal_agent.Deploy.Service.{container_name, create_and_start_service}
use dockpal_agent.Deploy.Projects.{
  Auths, registry_auth, each, parsed, start_order, pull_service, write_compose_file,
}
use dockpal_agent.Deploy.Session.{DeployEvent, DeploySession, new_session, emit, receive, close}
use dockpal_agent.Deploy.Streamed.Diagnosis.{diagnose_deploy_error}

-- `emitted` are the events that were given to Emit, kept or dropped; `created` is the variable
-- createdContainers.
pub record State : Type 0 where
  pub log : Log
  pub session : DeploySession
  pub emitted : List DeployEvent
  pub created : List Bytes

-- the state in which handleDeployStream starts a deployment
abbrev pub initial : Bytes → Log → State
initial id log = record { log = log; session = new_session id; emitted = []; created = [] }

-- the clock at an event, and how many events the reader receives before it
pub record Around : Type 0 where
  pub clock : List DeployEvent → Bytes
  pub reads : List DeployEvent → ℕ

unfoldable pub receive_many : ℕ → DeploySession → DeploySession
receive_many zero s = s
receive_many (suc n) s = receive_many n (receive s)

abbrev pub running : Bytes
running = codes "running"

abbrev pub finished : Bytes
finished = codes "done"

abbrev pub error : Bytes
error = codes "error"

-- a step of package docker, on the log of the state
abbrev pub with_log : {A : Type 0} → State → Outcome A × Log → Outcome A × State
with_log st (r, log) = (r, record st { log = log })

-- `[a b]`, as `%v` prints a slice
abbrev show_list : List Bytes → Bytes
show_list names = codes "[" ++ (join (codes " ") names ++ codes "]")

-- the hint for a pull that was refused, with credentials and without
abbrev auth_hint : Bytes → Bytes → Bytes
auth_hint domain auth =
    if not (equal auth [])
    then codes "Authentication failed for "
      ++ (domain
          ++ (dash ++ codes "credentials may be expired. Update them in Settings > Registry."))
    else codes "No credentials found for "
      ++ (domain ++ codes ". Add a registry credential in Settings > Registry.")

module _ (o : Outside) (around : Around) where
  -- session.Emit(step, message, status)
  unfoldable pub say : Bytes → Bytes → Bytes → State → State
  say step message status st =
      let e : DeployEvent = record {
        step = step;
        message = message;
        status = status;
        time = around.clock st.emitted;
      } in
      record st {
        session = emit e (receive_many (around.reads st.emitted) st.session);
        emitted = st.emitted ++ e ∷ [];
      }

  -- a hint, where there is one
  unfoldable pub hint : Bytes → State → State
  hint [] st = st
  hint (c ∷ text) st = say (codes "hint") (c ∷ text) error st

  unfoldable pub hint_auth : Bytes → Bytes → Bytes → State → State
  hint_auth image auth e st =
      if contains e (codes "unauthorized") || contains e (codes "denied")
      then say (codes "hint") (auth_hint (extract_image_domain image) auth) error st
      else st

  -- cleanup(): what has been created is removed, by name; an error of a removal is dropped
  abbrev pub cleanup_of : List Bytes → State → State
  cleanup_of [] st = st
  cleanup_of (c ∷ cs) st =
      let st' = say (codes "cleanup") (codes "Cleaning up partial deployment...") running st in
      say (codes "cleanup") (codes "Removed partial containers") finished
        (record st' { log = each (λ name. container_remove name true) (c ∷ cs) st'.log })

  unfoldable pub cleanup : State → State
  cleanup st = cleanup_of st.created st

  unfoldable pub pull_failed : Bytes → Bytes → Bytes → State → State
  pull_failed image auth e st = hint_auth image auth e (
      hint (diagnose_deploy_error e)
        (say (codes "pull") (codes "Failed to pull " ++ (image ++ (codes ": " ++ e))) error st))

  -- the body of the first loop
  unfoldable pub pull_step : Auths → ComposeFile → Bytes → M State (Unit {0})
  pull_step auths cf svc st =
      let image = (service_of cf svc).image in
      let auth = registry_auth auths image in
      let st1 = say (codes "pull") (codes "Pulling " ++ (image ++ codes "...")) running st in
      wrapped (λ e. codes "failed to pull image for " ++ (svc ++ (codes ": " ++ e)))
        (then_do
          (on_failure (pull_failed image auth)
            (with_log st1 (pull_image_if_needed o image auth st1.log)))
          (λ _ st2. (
            done tt,
            say (codes "pull") (codes "Image " ++ (image ++ codes " ready")) finished st2,
          )))

  unfoldable pub create_failed : Bytes → State → State
  create_failed e st =
      cleanup
        (hint (diagnose_deploy_error e) (say (codes "create") (codes "Failed: " ++ e) error st))

  unfoldable pub created_container : Bytes → State → State
  created_container name st =
      say (codes "create") (codes "Container " ++ (name ++ codes " started")) finished
        (record st { created = st.created ++ name ∷ [] })

  -- the body of the second loop
  unfoldable pub create_step : Bytes → ComposeFile → Bytes → M State (Unit {0})
  create_step project cf svc st =
      let name = container_name project svc in
      let st1 =
        say (codes "create") (codes "Creating container " ++ (name ++ codes "...")) running st in
      then_do
        (on_failure create_failed
          (with_log st1 (create_and_start_service o project svc (service_of cf svc) st1.log)))
        (λ _ st2. (done tt, created_container name st2))

  -- the event behind ParseComposeFile, and behind ResolveStartOrder
  abbrev pub parse_ended : Result ComposeFile → M State ComposeFile
  parse_ended (err e) st = (
    fail (codes "failed to parse compose: " ++ e),
    say (codes "parse") (codes "Parse error: " ++ e) error st,
  )
  parse_ended (ok cf) st = (
    done cf,
    say (codes "parse") (codes "Found " ++ (decimal (length cf.services) ++ codes " service(s)"))
        finished st,
  )

  unfoldable pub parse_phase : Bytes → M State ComposeFile
  parse_phase text st =
      parse_ended (parse_compose_file o.unmarshal text)
        (say (codes "parse") (codes "Parsing compose file...") running st)

  abbrev pub resolve_ended : Result (List Bytes) → M State (List Bytes)
  resolve_ended (err e) st = (
    fail (codes "failed to resolve service start order: " ++ e),
    say (codes "resolve") (codes "Dependency error: " ++ e) error st,
  )
  resolve_ended (ok order) st =
      (done order, say (codes "resolve") (codes "Start order: " ++ show_list order) finished st)

  unfoldable pub resolve_phase : ComposeFile → M State (List Bytes)
  resolve_phase cf st =
      resolve_ended (resolve_start_order cf)
        (say (codes "resolve") (codes "Resolving dependency order...") running st)

  unfoldable pub write_phase : Bytes → Bytes → M State (Unit {0})
  write_phase project text st =
      let st1 = say (codes "write") (codes "Saving compose file...") running st in
      then_do
        (on_failure (λ e. say (codes "write") (codes "Write error: " ++ e) error)
          (with_log st1 (write_compose_file o project text st1.log)))
        (λ _ st2. (done tt, say (codes "write") (codes "Compose file saved") finished st2))

  unfoldable pub deployment : Bytes → Bytes → Auths → M State (Unit {0})
  deployment project text auths st = then_do (parse_phase text st) λ cf st1.
      then_do (resolve_phase cf st1) λ order st2.
        then_do (for_each (pull_step auths cf) order st2) λ _ st3.
          then_do (write_phase project text st3) λ _ st4.
            then_do (for_each (create_step project cf) order st4)
              λ _ st5. (done tt, say (codes "complete") (codes "Deployment complete!") finished st5)

  -- `defer close(session.Done)`, which runs on a panic too
  unfoldable pub deploy_compose_streamed : Bytes → Bytes → Auths → M State (Unit {0})
  deploy_compose_streamed project text auths st =
      let (r, st') = deployment project text auths st in
      (r, record st' { session = close st'.session })
