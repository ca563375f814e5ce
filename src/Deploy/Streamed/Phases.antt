-- ===== src/Deploy/Streamed/Phases.antt =====
-- What DeployComposeStreamed asks of the daemon and the disk, in its order, and what its cleanup
-- removes (internal/docker/deploy_stream.go).
use dockpal_agent.Base.{List, [], ◌≡◌}
use dockpal_agent.Base.Bytes.{Bytes}
use dockpal_agent.Deploy.Outcome.{Outcome, for_each}
use dockpal_agent.Deploy.Outcome.Kept.{Holds, holds, kept}
use dockpal_agent.Deploy.Project.{ComposeFile}
use dockpal_agent.Deploy.Daemon.{Log, Op, Outside, image_inspect, image_pull, mkdir_all, write_file}
use dockpal_agent.Deploy.Log.{Adds, adds}
use dockpal_agent.Deploy.Asks.{Holds-pull_image_if_needed}
use dockpal_agent.Deploy.Images.{pull_image_if_needed}
use dockpal_agent.Deploy.Projects.{Auths, write_compose_file}
use dockpal_agent.Deploy.Streamed.Steady.{Holds-pull_failed}
use dockpal_agent.Deploy.Streamed.{State, Around, with_log, say, pull_step, write_phase}

pub IsPull : Op → Type 0
IsPull (image_inspect image) = Unit
IsPull (image_pull image auth) = Unit
IsPull _ = ⊥

pub IsWrite : Op → Type 0
IsWrite (mkdir_all dir) = Unit
IsWrite (write_file path text) = Unit
IsWrite _ = ⊥

-- the log and the containers of a state
pub record At (P : Op → Type 0) (l : Log) (c : List Bytes) (st : State) : Type 0 where
  pub asked : Adds P l st.log
  pub created : st.created ≡ c

module _ (o : Outside) (around : Around) {P : Op → Type 0} {l : Log} {c : List Bytes} where
  pub At-say :
      (step message status : Bytes) (st : State)
      → Holds (At P l c) st
      → Holds (At P l c) (say o around step message status st)
  unfolding say
  At-say step message status st (holds h) = holds (record { asked = h.asked; created = h.created })

  At-with_log :
      {A : Type 0} (st : State) (f : Log → Outcome A × Log)
      → ((log : Log) → Holds (Adds P l) log → Holds (Adds P l) (f log).1)
      → Holds (At P l c) st
      → Holds (At P l c) (with_log st (f st.log)).1
  At-with_log st f k (holds h) = elim (k st.log (holds h.asked)) [
    | holds a ↦ holds (record { asked = a; created = h.created })
  ]

module _ (o : Outside) (around : Around) where
  At-IsPull :
      (l : Log) (image auth : Bytes) (st : State)
      → Holds (At IsPull l []) st
      → Holds (At IsPull l []) (with_log st (pull_image_if_needed o image auth st.log)).1
  unfolding IsPull
  At-IsPull l image auth st h =
      At-with_log o around st (pull_image_if_needed o image auth)
        (λ log a. Holds-pull_image_if_needed o image auth log tt (λ _. tt) a) h

  At-IsWrite :
      (l : Log) (project text : Bytes) (st : State)
      → Holds (At IsWrite l []) st
      → Holds (At IsWrite l []) (with_log st (write_compose_file o project text st.log)).1
  unfolding IsWrite
  At-IsWrite l project text st h =
      At-with_log o around st (write_compose_file o project text)
        (λ log a. unfold write_compose_file in search (kept, adds)) h

  At-pull_step :
      (l : Log) (auths : Auths) (cf : ComposeFile) (svc : Bytes) (st : State)
      → Holds (At IsPull l []) st
      → Holds (At IsPull l []) (pull_step o around auths cf svc st).1
  unfolding pull_step
  At-pull_step l auths cf svc st h =
      search (kept, At-say, Holds-pull_failed o around (At-say o around), At-IsPull) depth 12

  -- the loop over the pulls
  pub At-pulls :
      (l : Log) (auths : Auths) (cf : ComposeFile) (order : List Bytes) (st : State)
      → Holds (At IsPull l []) st
      → Holds (At IsPull l []) (for_each (pull_step o around auths cf) order st).1
  At-pulls l auths cf order st h = search (kept, At-pull_step)

  pub At-write_phase :
      (l : Log) (project text : Bytes) (st : State)
      → Holds (At IsWrite l []) st
      → Holds (At IsWrite l []) (write_phase o around project text st).1
  unfolding write_phase
  At-write_phase l project text st h = search (kept, At-say, At-IsWrite) depth 12
