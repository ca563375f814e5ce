-- ===== src/Server/Deploys.antt =====
-- The handlers of internal/server/routes.go for deployments, apps and images.
use dockpal_agent.Base.{List, [], Option, none, some, Result, ok, if◌then◌else◌}
use dockpal_agent.Base.Bytes.{Bytes, codes, equal, lookup, to_lower}
use dockpal_agent.Edge.Protocol.{Call}
use dockpal_agent.Edge.Json.{DeployRequest, PullRequest}
use dockpal_agent.Deploy.Images.{extract_image_domain}
use dockpal_agent.Server.Http.{
  HttpRequest, Reply, M, Backend, attempt, write_json, read_json, or_internal, done_text,
}

abbrev or_no_auth : Option Bytes → Result Bytes
or_no_auth none = ok []
or_no_auth (some auth) = ok auth

unfoldable pub build_auth_header_func : List (Bytes × Bytes) → Bytes → Result Bytes
build_auth_header_func auths image =
    or_no_auth (lookup (to_lower (extract_image_domain image)) auths)

module _ (docker : Backend) where
  unfoldable pub handle_deploy_compose : Option DeployRequest → M (Unit {0})
  handle_deploy_compose req = read_json req λ d.
      or_internal docker (Call.deploy_compose d.name d.compose d.registry_auths)
        (done_text (codes "deployed"))

  -- CreateSession does not fail; the deployment is started in the background
  unfoldable pub handle_deploy_stream : Option DeployRequest → M (Unit {0})
  handle_deploy_stream req = read_json req λ d.
      attempt docker Call.create_session
        (λ id.
          attempt docker (Call.start_deployment id d.name)
            (λ _. write_json 200 (Reply.deploy_id id)) (λ _. write_json 200 (Reply.deploy_id id)))
        (λ _. write_json 200 (Reply.deploy_id []))

  unfoldable pub handle_stop_compose : Option Bytes → M (Unit {0})
  handle_stop_compose req =
      read_json req
        λ name. or_internal docker (Call.stop_compose name) (done_text (codes "stopped"))

  unfoldable pub handle_remove_compose : Option Bytes → M (Unit {0})
  handle_remove_compose req =
      read_json req
        λ name. or_internal docker (Call.remove_compose name) (done_text (codes "removed"))

  -- a nil list is written as an empty one, which the encoding of the result holds already
  unfoldable pub handle_list_apps : M (Unit {0})
  handle_list_apps = or_internal docker Call.list_apps Reply.value

  unfoldable pub handle_list_images : M (Unit {0})
  handle_list_images = or_internal docker Call.list_images Reply.value

  unfoldable pub handle_pull_image : Option PullRequest → M (Unit {0})
  handle_pull_image req = read_json req λ p.
      or_internal docker
        (if equal p.registry_auth []
          then Call.pull_image p.image
          else Call.pull_image_with_auth p.image p.registry_auth)
        (done_text (codes "pulled"))

  unfoldable pub handle_remove_image : HttpRequest → M (Unit {0})
  handle_remove_image r = or_internal docker (Call.remove_image r.id) (done_text (codes "removed"))
