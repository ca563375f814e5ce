-- ===== src/Deploy/Projects.antt =====
-- DeployCompose, StopCompose and RemoveCompose of internal/docker/compose.go.
pub mod Below
pub mod Ordered
use dockpal_agent.Base.{ℕ, true, List, [], ◌∷◌, ◌++◌, Option, none, some, Result, ok, err}
use dockpal_agent.Base.Bytes.{Bytes, codes}
use dockpal_agent.FilePath.{join_path}
use dockpal_agent.Deploy.Outcome.{
  Outcome, M, done, fail, panic, then_do, wrapped, of_result, forget, for_each,
}
use dockpal_agent.Deploy.Project.{
  ComposeFile, validate_project_name, parse_compose_file, resolve_start_order, service_of,
}
use dockpal_agent.Deploy.Daemon.{
  Log, Op, Outside, ask, try, mkdir_all, write_file, remove_all, container_list, container_stop,
  container_remove,
}
use dockpal_agent.Deploy.Images.{pull_image_if_needed}
use dockpal_agent.Deploy.Service.{compose_file_path, create_and_start_service}

-- AuthHeaderFunc, or nil
abbrev pub Auths : Type 0
Auths = Option (Bytes → Result Bytes)

abbrev auth_or_empty : Result Bytes → Bytes
auth_or_empty (ok auth) = auth
auth_or_empty (err e) = []

unfoldable pub registry_auth : Auths → Bytes → Bytes
registry_auth none image = []
registry_auth (some f) image = auth_or_empty (f image)

-- a loop whose body drops its errors
unfoldable pub each : (Bytes → Op) → List Bytes → Log → Log
each op [] log = log
each op (x ∷ xs) log = each op xs (try (op x) log).1

abbrev pub prefixed : Bytes → Bytes → Bytes
prefixed text e = text ++ e

module _ (o : Outside) where
  unfoldable pub write_compose_file : Bytes → Bytes → M Log (Unit {0})
  write_compose_file project text log =
      then_do
        (wrapped (prefixed (codes "failed to create compose directory: "))
          (ask o (mkdir_all (join_path o.compose_base_path project)) log))
        (λ _ log'. forget (
          wrapped (prefixed (codes "failed to write compose file: "))
            (ask o (write_file (compose_file_path o.compose_base_path project) text) log')))

  unfoldable pub pull_service : Auths → Bytes → Bytes → M Log (Unit {0})
  pull_service auths svc image log =
      wrapped (λ e. codes "failed to pull image for " ++ (svc ++ (codes ": " ++ e)))
        (pull_image_if_needed o image (registry_auth auths image) log)

  -- the body of the loop over the start order
  unfoldable pub deploy_service : Auths → Bytes → ComposeFile → Bytes → M Log (Unit {0})
  deploy_service auths project cf svc log =
      then_do (pull_service auths svc (service_of cf svc).image log)
        (λ _ log'. create_and_start_service o project svc (service_of cf svc) log')

  unfoldable pub parsed : Bytes → Log → Outcome ComposeFile × Log
  parsed text log =
      wrapped (prefixed (codes "failed to parse compose: "))
        (of_result (parse_compose_file o.unmarshal text), log)

  unfoldable pub start_order : ComposeFile → Log → Outcome (List Bytes) × Log
  start_order cf log =
      wrapped (prefixed (codes "failed to resolve service start order: "))
        (of_result (resolve_start_order cf), log)

  unfoldable pub deploy_compose : Bytes → Bytes → Auths → M Log (Unit {0})
  deploy_compose project text auths log =
      then_do (of_result (validate_project_name project), log)
        λ _ l1. then_do (write_compose_file project text l1) λ _ l2.
          then_do (parsed text l2) λ cf l3.
            then_do (start_order cf l3)
              λ order l4. for_each (deploy_service auths project cf) order l4

  abbrev project_label : Bytes → Bytes
  project_label project = codes "dockpal.project=" ++ project

  -- ContainerList, by a label
  unfoldable pub list_project : Bytes → M Log (List Bytes)
  list_project project log = (
    of_result (o.listed log (project_label project)),
    log ++ container_list (project_label project) ∷ [],
  )

  unfoldable pub stop_compose : Bytes → M Log (Unit {0})
  stop_compose project log =
      then_do (of_result (validate_project_name project), log)
        λ _ l1.
          then_do (list_project project l1)
            λ ids l2. (done tt, each (λ id. container_stop id 10) ids l2)

  -- os.RemoveAll is called last, and its error is dropped
  unfoldable pub remove_compose : Bytes → M Log (Unit {0})
  remove_compose project log =
      then_do (of_result (validate_project_name project), log)
        λ _ l1. then_do (list_project project l1) λ ids l2.
          try (remove_all (join_path o.compose_base_path project))
            (each (λ id. container_remove id true) ids l2)
