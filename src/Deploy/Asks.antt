-- ===== src/Deploy/Asks.antt =====
-- What pulling an image, and creating and starting a container, asks of the daemon.
use dockpal_agent.Base.{[], ◌∷◌}
use dockpal_agent.Base.Bytes.{Bytes, equal}
use dockpal_agent.Deploy.Outcome.{Outcome, done, fail, panic}
use dockpal_agent.Deploy.Outcome.Kept.{Holds, kept}
use dockpal_agent.Deploy.Project.{ComposeService}
use dockpal_agent.Deploy.Daemon.{
  Log, Op, Outside, CreateOptions, ask, image_inspect, image_pull, container_create,
  container_start,
}
use dockpal_agent.Deploy.Images.{
  pull_missing, pull_image, pull_image_with_auth, pull_image_if_needed,
}
use dockpal_agent.Deploy.Service.{create_and_start, create_and_start_service}
use dockpal_agent.Deploy.Log.{Adds, adds, Holds-ask}

module _ {P : Op → Type 0} {log0 : Log} (o : Outside) where
  Holds-pull_missing :
      (image auth : Bytes) (x : Outcome Bytes × Log)
      → ((a : Bytes) → P (image_pull image a))
      → Holds (Adds P log0) x.1
      → Holds (Adds P log0) (pull_missing o image auth x).1
  unfolding pull_image pull_image_with_auth equal
  Holds-pull_missing image auth (done found, log) p h = h
  Holds-pull_missing image auth (panic, log) p h = h
  Holds-pull_missing image [] (fail e, log) p h = search (kept, adds, p)
  Holds-pull_missing image (c ∷ auth) (fail e, log) p h = search (kept, adds, p)

  pub Holds-pull_image_if_needed :
      (image auth : Bytes) (log : Log)
      → P (image_inspect image)
      → ((a : Bytes) → P (image_pull image a))
      → Holds (Adds P log0) log
      → Holds (Adds P log0) (pull_image_if_needed o image auth log).1
  unfolding pull_image_if_needed
  Holds-pull_image_if_needed image auth log i p h =
      Holds-pull_missing image auth (ask o (image_inspect image) log) p (Holds-ask o _ log i h)

  pub Holds-create_and_start_service :
      (project name : Bytes) (svc : ComposeService) (log : Log)
      → ((opts : CreateOptions) → P (container_create opts))
      → ((id : Bytes) → P (container_start id))
      → Holds (Adds P log0) log
      → Holds (Adds P log0) (create_and_start_service o project name svc log).1
  unfolding create_and_start_service create_and_start
  Holds-create_and_start_service project name svc log c s h = search (kept, adds, c, s) depth 12

pub ruleset asks = (Holds-pull_image_if_needed, Holds-create_and_start_service)
