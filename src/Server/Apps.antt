-- ===== src/Server/Apps.antt =====
-- internal/server/apps.go: the automatic update of an app, and its update by hand. `SetServiceLabel` of
-- package docker is a parameter here; its model is in ServiceLabel.
use dockpal_agent.Base.{Bool, [], ◌++◌, Option, none, some, Result, ok, err, if◌then◌else◌}
use dockpal_agent.Base.Bytes.{Bytes, codes, equal}
use dockpal_agent.Edge.Protocol.{Call}
use dockpal_agent.Server.Http.{
  HttpRequest, Reply, M, Backend, attempt, write_json, internal_error, bad_request, read_json,
}

abbrev pub not_found : Bytes → M (Unit {0})
not_found e = write_json 404 (Reply.error e)

-- What the list of an app's containers gives: the label dockpal.compose of the first one, "" where it
-- has none; `none` where there is no container.
abbrev pub FirstLabel : Type 0
FirstLabel = Bytes → Option Bytes

module _ (docker : Backend) (first_label : FirstLabel) where
  abbrev pub compose_at : Bytes → Option Bytes → (Bytes → Bytes → M (Unit {0})) → M (Unit {0})
  compose_at name none next = not_found (codes "no containers found for app " ++ name)
  compose_at name (some path) next =
      if equal path []
      then not_found (codes "app " ++ (name ++ codes " has no dockpal.compose label"))
      else attempt docker (Call.read_compose path) (λ text. next path text) (λ e. not_found e)

  -- resolveAppCompose, whose errors both handlers answer with 404
  unfoldable pub resolve_app_compose : Bytes → (Bytes → Bytes → M (Unit {0})) → M (Unit {0})
  resolve_app_compose name next =
      attempt docker (Call.compose_label (codes "dockpal.project=" ++ name))
        (λ containers. compose_at name (first_label containers) next) (λ e. not_found e)

  abbrev pub named : Bytes → M (Unit {0}) → M (Unit {0})
  named name next = if equal name [] then bad_request (codes "missing app name") else next

  unfoldable pub label_value : Bool → Bytes
  label_value enabled = if enabled then codes "true" else []

  unfoldable pub redeploy : Bytes → Bytes → M (Unit {0})
  redeploy name text =
      attempt docker (Call.deploy_compose name text []) (λ _. write_json 200 Reply.ok_true)
        (λ e. internal_error e)

  -- a failed write of the file is only logged
  unfoldable pub store_and_redeploy : Bytes → Bytes → Result Bytes → M (Unit {0})
  store_and_redeploy name path (err e) = internal_error e
  store_and_redeploy name path (ok text) =
      attempt docker (Call.write_compose path text) (λ _. redeploy name text)
        (λ _. redeploy name text)

  unfoldable pub handle_set_app_auto_update :
      (Bytes → Bytes → Bytes → Result Bytes) → Option Bool → HttpRequest → M (Unit {0})
  handle_set_app_auto_update set_service_label req r = named r.name (
      read_json req λ enabled. resolve_app_compose r.name λ path text.
        store_and_redeploy r.name path
          (set_service_label text (codes "dockpal.auto-update") (label_value enabled)))

  -- the deployment runs in the background, and its result is only logged
  unfoldable pub handle_trigger_app_update : HttpRequest → M (Unit {0})
  handle_trigger_app_update r = named r.name (
      resolve_app_compose r.name λ path text.
        attempt docker Call.attempt_id
          (λ id.
            attempt docker (Call.deploy_compose r.name text [])
              (λ _. write_json 202 (Reply.attempt_id id))
              (λ _. write_json 202 (Reply.attempt_id id)))
          (λ _. write_json 202 (Reply.attempt_id [])))
