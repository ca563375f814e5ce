-- ===== src/Deploy/Examples.antt =====
-- Deployments of two services, one of which needs the other.
use dockpal_agent.Base.{
  ℕ, All, true, false, List, [], ◌∷◌, ◌++◌, ◌≡◌, refl, Option, none, some, Result, ok, err, map,
}
use dockpal_agent.Base.Bytes.{Bytes, codes}
use dockpal_agent.FilePath.{render}
use dockpal_agent.FilePath.Clean.{IsPlain}
use dockpal_agent.Compose.Spec.{Field, other, seq, str}
use dockpal_agent.Deploy.Outcome.{Outcome, done}
use dockpal_agent.Deploy.Project.{ComposeFile, ComposeService, no_service, parse_compose_file}
use dockpal_agent.Deploy.Daemon.{Log, Op, Outside, image_inspect, container_remove, mkdir_all}
use dockpal_agent.Deploy.Log.{Adds}
use dockpal_agent.Deploy.Service.{container_name}
use dockpal_agent.Deploy.Service.Created.{created_names}
use dockpal_agent.Deploy.Projects.{deploy_compose, stop_compose, remove_compose, write_compose_file}
use dockpal_agent.Deploy.Projects.Below.{Below, projects-Below}
use dockpal_agent.Deploy.Projects.Ordered.{Start, deploy_compose-Start}
use dockpal_agent.Deploy.Session.{
  DeployEvent, DeploySession, new_session, emit, receive, get_session,
}
use dockpal_agent.Deploy.Session.Channel.{start, emits, receives, Orderly, Runs-Orderly}
use dockpal_agent.Deploy.Session.Manager.{
  Command, create, remove, get, answers, specified_answers, answers-specified,
}
use dockpal_agent.Deploy.Streamed.{State, Around, initial, deploy_compose_streamed}
use dockpal_agent.Deploy.Streamed.Told.{deploy_compose_streamed-Orderly}
use dockpal_agent.Deploy.Streamed.Deployed.{Deployed, deploy_compose_streamed-Deployed}

abbrev web : ComposeService
web = record no_service { image = codes "web"; depends_on = seq (str (codes "db") ∷ []) }

abbrev db : ComposeService
db = record no_service { image = codes "db" }

abbrev two_services : ComposeFile
two_services = record { version = []; services = (codes "web", web) ∷ (codes "db", db) ∷ [] }

abbrev outside : Outside
outside = record {
  compose_base_path = codes "/opt/compose";
  unmarshal = λ text. ok two_services;
  must_parse_port = λ text. some text;
  answer = λ log op. ok (codes "c0");
  listed = λ log label. ok (codes "c0" ∷ []);
}

abbrev around : Around
around = record { clock = λ es. codes "12:00:00"; reads = λ es. 1 }

abbrev event : DeployEvent
event = record {
  step = codes "parse";
  message = codes "Parsing compose file...";
  status = codes "running";
  time = codes "12:00:00";
}

Runs-Orderly_example : Orderly (event ∷ []) (receive (emit event (new_session (codes "deploy-1"))))
Runs-Orderly_example =
    Runs-Orderly (codes "deploy-1") (event ∷ [])
      (receive (emit event (new_session (codes "deploy-1")))) (receives (emits event start))

abbrev session_calls : List Command
session_calls =
    create (some (codes "ab")) []
    ∷ get (codes "deploy-ab")
    ∷ remove (codes "deploy-ab")
    ∷ get (codes "deploy-ab")
    ∷ []

answers-specified_example : answers session_calls [] ≡ specified_answers session_calls (λ id. none)
unfolding dockpal_agent.Deploy.Session.Manager.Represents get_session
    dockpal_agent.Base.Bytes.lookup
answers-specified_example = answers-specified session_calls [] (λ id. none) (λ id. refl)

-- the session is there until it is removed
found_then_gone :
    answers session_calls []
    ≡ some (new_session (codes "deploy-ab"))
      ∷ some (new_session (codes "deploy-ab"))
      ∷ none
      ∷ none
      ∷ []
unfolding answers dockpal_agent.Deploy.Session.Manager.perform new_session
    dockpal_agent.Deploy.Session.create_session get_session dockpal_agent.Deploy.Session.session_id
    dockpal_agent.Base.Bytes.lookup dockpal_agent.Base.Bytes.insert
    dockpal_agent.Deploy.Session.remove_session
found_then_gone = refl

abbrev streamed : State
streamed =
    (deploy_compose_streamed outside around (codes "shop") (codes "services:") none
      (initial (codes "deploy-1") [])).1

deploy_compose_streamed-Orderly_example :
    (streamed.session.done ≡ true) × Orderly streamed.emitted streamed.session
deploy_compose_streamed-Orderly_example =
    deploy_compose_streamed-Orderly outside around (codes "deploy-1") (codes "shop")
      (codes "services:") none []

deploy_compose_streamed-Deployed_example :
    Deployed outside (codes "shop") (codes "services:") none [] (
      deploy_compose_streamed outside around
        (codes "shop")
        (codes "services:")
        none
        (initial (codes "deploy-1") []))
deploy_compose_streamed-Deployed_example =
    deploy_compose_streamed-Deployed outside around (codes "deploy-1") (codes "shop")
      (codes "services:") none []

abbrev base : List Bytes
base = codes "opt" ∷ codes "compose" ∷ []

IsPlain-base : All IsPlain (codes "opt" ∷ codes "compose" ∷ [])
unfolding dockpal_agent.Base.Bytes.contains_byte dockpal_agent.Base.Bytes.equal
IsPlain-base = (
  record { no_slash = refl; not_empty = refl; not_dot = refl; not_dot_dot = refl },
  (record { no_slash = refl; not_empty = refl; not_dot = refl; not_dot_dot = refl }, tt),
)

projects-Below_example :
    Adds
      (Below (codes "/opt/compose/shop") (codes "shop"))
      []
      (deploy_compose outside (codes "shop") (codes "services:") none []).1
    × Adds
        (Below (codes "/opt/compose/shop") (codes "shop"))
        []
        (stop_compose outside (codes "shop") []).1
    × Adds
        (Below (codes "/opt/compose/shop") (codes "shop"))
        []
        (remove_compose outside (codes "shop") []).1
unfolding dockpal_agent.Base.Bytes.join
projects-Below_example =
    projects-Below outside (codes "opt") (codes "compose" ∷ []) (codes "shop") (codes "services:")
      none [] IsPlain-base refl

abbrev deployed : Log
deployed = (deploy_compose outside (codes "shop") (codes "services:") none []).1

-- the database is created first
created_in_order : created_names deployed ≡ codes "shop_db" ∷ codes "shop_web" ∷ []
unfolding created_names deploy_compose dockpal_agent.Deploy.Project.validate_project_name
    write_compose_file dockpal_agent.Deploy.Daemon.ask dockpal_agent.Deploy.Projects.parsed
    parse_compose_file dockpal_agent.Deploy.Projects.start_order
    dockpal_agent.Deploy.Project.resolve_start_order dockpal_agent.Compose.Order.topological_sort
    dockpal_agent.Compose.Order.visit_all dockpal_agent.Base.Bytes.keys
    dockpal_agent.Compose.Order.visit dockpal_agent.Base.Bytes.mem dockpal_agent.Base.Bytes.lookup
    dockpal_agent.Compose.Spec.parse_depends_on dockpal_agent.Compose.Spec.strings
    dockpal_agent.Base.Bytes.cons_head dockpal_agent.Base.Bytes.contains
    dockpal_agent.Base.Bytes.contains_byte dockpal_agent.Base.Bytes.equal
    dockpal_agent.Base.Bytes.has_prefix dockpal_agent.Base.Bytes.insert
    dockpal_agent.Base.Bytes.join dockpal_agent.Base.Bytes.split
    dockpal_agent.Base.Bytes.split_first dockpal_agent.Base.Bytes.split_last
    dockpal_agent.Base.Decimal.decimal dockpal_agent.Base.Decimal.digits
    dockpal_agent.Compose.Order.remove dockpal_agent.Compose.Spec.atoi
    dockpal_agent.Compose.Spec.bind_of dockpal_agent.Compose.Spec.digits_value
    dockpal_agent.Compose.Spec.env_entry dockpal_agent.Compose.Spec.label_entry
    dockpal_agent.Compose.Spec.labels_from_map dockpal_agent.Compose.Spec.labels_from_seq
    dockpal_agent.Compose.Spec.parse_environment dockpal_agent.Compose.Spec.parse_labels
    dockpal_agent.Compose.Spec.parse_port dockpal_agent.Compose.Spec.parse_volume
    dockpal_agent.Compose.Spec.render dockpal_agent.Compose.Spec.resolve_command
    dockpal_agent.Compose.Spec.unsigned dockpal_agent.Deploy.Images.auth_failure_text
    dockpal_agent.Deploy.Images.extract_image_domain dockpal_agent.Deploy.Images.pull_image
    dockpal_agent.Deploy.Images.pull_image_if_needed
    dockpal_agent.Deploy.Images.pull_image_with_auth dockpal_agent.Deploy.Outcome.for_each
    dockpal_agent.Deploy.Project.service_of dockpal_agent.Deploy.Projects.deploy_service
    dockpal_agent.Deploy.Projects.pull_service dockpal_agent.Deploy.Projects.registry_auth
    dockpal_agent.Deploy.Service.add_key dockpal_agent.Deploy.Service.base_labels
    dockpal_agent.Deploy.Service.bind_port dockpal_agent.Deploy.Service.bind_ports
    dockpal_agent.Deploy.Service.create_and_start
    dockpal_agent.Deploy.Service.create_and_start_service
    dockpal_agent.Deploy.Service.create_options dockpal_agent.Deploy.Service.itoa
    dockpal_agent.Deploy.Service.keyed dockpal_agent.Deploy.Service.next_port
    dockpal_agent.Deploy.Service.override dockpal_agent.Deploy.Service.service_binds
    dockpal_agent.Deploy.Service.service_options dockpal_agent.FilePath.clean
    dockpal_agent.FilePath.clean_onto dockpal_agent.FilePath.clean_step
    dockpal_agent.FilePath.join_path dockpal_agent.FilePath.parent dockpal_agent.FilePath.parts
created_in_order = refl

deploys : deploy_compose outside (codes "shop") (codes "services:") none [] ≡ (done tt, deployed)
unfolding deploy_compose dockpal_agent.Deploy.Project.validate_project_name write_compose_file
    dockpal_agent.Deploy.Daemon.ask dockpal_agent.Deploy.Projects.parsed parse_compose_file
    dockpal_agent.Deploy.Projects.start_order dockpal_agent.Deploy.Project.resolve_start_order
    dockpal_agent.Compose.Order.topological_sort dockpal_agent.Compose.Order.visit_all
    dockpal_agent.Base.Bytes.keys dockpal_agent.Compose.Order.visit dockpal_agent.Base.Bytes.mem
    dockpal_agent.Base.Bytes.lookup dockpal_agent.Compose.Spec.parse_depends_on
    dockpal_agent.Compose.Spec.strings dockpal_agent.Compose.Order.remove
    dockpal_agent.Base.Bytes.cons_head dockpal_agent.Base.Bytes.contains
    dockpal_agent.Base.Bytes.contains_byte dockpal_agent.Base.Bytes.equal
    dockpal_agent.Base.Bytes.has_prefix dockpal_agent.Base.Bytes.insert
    dockpal_agent.Base.Bytes.join dockpal_agent.Base.Bytes.split
    dockpal_agent.Base.Bytes.split_first dockpal_agent.Base.Bytes.split_last
    dockpal_agent.Base.Decimal.decimal dockpal_agent.Base.Decimal.digits
    dockpal_agent.Compose.Spec.atoi dockpal_agent.Compose.Spec.bind_of
    dockpal_agent.Compose.Spec.digits_value dockpal_agent.Compose.Spec.env_entry
    dockpal_agent.Compose.Spec.label_entry dockpal_agent.Compose.Spec.labels_from_map
    dockpal_agent.Compose.Spec.labels_from_seq dockpal_agent.Compose.Spec.parse_environment
    dockpal_agent.Compose.Spec.parse_labels dockpal_agent.Compose.Spec.parse_port
    dockpal_agent.Compose.Spec.parse_volume dockpal_agent.Compose.Spec.render
    dockpal_agent.Compose.Spec.resolve_command dockpal_agent.Compose.Spec.unsigned
    dockpal_agent.Deploy.Images.auth_failure_text dockpal_agent.Deploy.Images.extract_image_domain
    dockpal_agent.Deploy.Images.pull_image dockpal_agent.Deploy.Images.pull_image_if_needed
    dockpal_agent.Deploy.Images.pull_image_with_auth dockpal_agent.Deploy.Outcome.for_each
    dockpal_agent.Deploy.Project.service_of dockpal_agent.Deploy.Projects.deploy_service
    dockpal_agent.Deploy.Projects.pull_service dockpal_agent.Deploy.Projects.registry_auth
    dockpal_agent.Deploy.Service.add_key dockpal_agent.Deploy.Service.base_labels
    dockpal_agent.Deploy.Service.bind_port dockpal_agent.Deploy.Service.bind_ports
    dockpal_agent.Deploy.Service.create_and_start
    dockpal_agent.Deploy.Service.create_and_start_service
    dockpal_agent.Deploy.Service.create_options dockpal_agent.Deploy.Service.itoa
    dockpal_agent.Deploy.Service.keyed dockpal_agent.Deploy.Service.next_port
    dockpal_agent.Deploy.Service.override dockpal_agent.Deploy.Service.service_binds
    dockpal_agent.Deploy.Service.service_options dockpal_agent.FilePath.clean
    dockpal_agent.FilePath.clean_onto dockpal_agent.FilePath.clean_step
    dockpal_agent.FilePath.join_path dockpal_agent.FilePath.parent dockpal_agent.FilePath.parts
deploys = refl

deploy_compose-Start_example :
    (cf : ComposeFile) × (order : List Bytes) × (parse_compose_file outside.unmarshal
        (codes "services:")
      ≡ ok cf)
    × Start cf order
    × (created_names deployed ≡ created_names [] ++ map (container_name (codes "shop")) order)
deploy_compose-Start_example =
    deploy_compose-Start outside (codes "shop") (codes "services:") none [] deployed deploys

-- The streamed deployment does not look at the project's name: its directory may lie anywhere.
escapes :
    (write_compose_file outside (codes "../evil") (codes "services:") []).1
    ≡ mkdir_all (codes "/opt/evil")
      ∷ dockpal_agent.Deploy.Daemon.write_file
          (codes "/opt/evil/docker-compose.yml")
          (codes "services:")
      ∷ []
unfolding write_compose_file dockpal_agent.Deploy.Daemon.ask dockpal_agent.FilePath.join_path
    dockpal_agent.FilePath.clean dockpal_agent.Base.Bytes.equal dockpal_agent.Base.Bytes.join
    dockpal_agent.FilePath.parts dockpal_agent.FilePath.clean_onto dockpal_agent.Base.Bytes.split
    dockpal_agent.FilePath.clean_step dockpal_agent.FilePath.parent
escapes = refl
