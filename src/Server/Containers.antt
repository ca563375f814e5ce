-- ===== src/Server/Containers.antt =====
-- The handlers of internal/server/routes.go for containers that answer with one response.
use dockpal_agent.Base.{◌||◌, List, [], ◌∷◌, Option, if◌then◌else◌}
use dockpal_agent.Base.Bytes.{Bytes, codes, equal, contains}
use dockpal_agent.Edge.Protocol.{Call}
use dockpal_agent.Server.Http.{
  HttpRequest, Reply, M, Backend, attempt, write_json, internal_error, bad_request, read_json,
  query_get, or_internal, done_text,
}

module _ (docker : Backend) where
  unfoldable pub handle_ping : HttpRequest → M (Unit {0})
  handle_ping r =
      attempt docker Call.ping (λ _. write_json 200 (Reply.status (codes "ok")))
        (λ _. write_json 503 (Reply.status_error (codes "error") (codes "docker unreachable")))

  unfoldable pub handle_list_containers : HttpRequest → M (Unit {0})
  handle_list_containers r =
      let all = equal (query_get (codes "all") r.query) (codes "true") in
      or_internal docker (Call.list_containers all) Reply.value

  unfoldable pub handle_inspect_container : HttpRequest → M (Unit {0})
  handle_inspect_container r = or_internal docker (Call.inspect_container r.id) Reply.value

  unfoldable pub handle_start_container : HttpRequest → M (Unit {0})
  handle_start_container r =
      or_internal docker (Call.start_container r.id) (done_text (codes "started"))

  unfoldable pub handle_stop_container : HttpRequest → M (Unit {0})
  handle_stop_container r =
      or_internal docker (Call.stop_container r.id) (done_text (codes "stopped"))

  unfoldable pub handle_restart_container : HttpRequest → M (Unit {0})
  handle_restart_container r =
      or_internal docker (Call.restart_container r.id) (done_text (codes "restarted"))

  unfoldable pub handle_remove_container : HttpRequest → M (Unit {0})
  handle_remove_container r =
      let force = equal (query_get (codes "force") r.query) (codes "true") in
      or_internal docker (Call.remove_container r.id force) (done_text (codes "removed"))

  -- the body decodes to an edit request
  unfoldable pub handle_edit_container : Option Bytes → HttpRequest → M (Unit {0})
  handle_edit_container req r =
      read_json req λ edit. or_internal docker (Call.edit_container r.id edit) Reply.updated

  abbrev exec_failed : Bytes → M (Unit {0})
  exec_failed e =
      if contains e (codes "is not running") || contains e (codes "No such container")
      then write_json 404 (Reply.error e)
      else internal_error e

  abbrev pub exec_cmd : Bytes → List Bytes → M (Unit {0})
  exec_cmd id [] = bad_request (codes "cmd is required")
  exec_cmd id (c ∷ cmd) =
      attempt docker (Call.exec_command id (c ∷ cmd)) (λ v. write_json 200 (Reply.value v))
        (λ e. exec_failed e)

  -- the body decodes to a command
  unfoldable pub handle_container_exec : Option (List Bytes) → HttpRequest → M (Unit {0})
  handle_container_exec req r = read_json req λ cmd. exec_cmd r.id cmd

  unfoldable pub handle_get_container_stats : HttpRequest → M (Unit {0})
  handle_get_container_stats r = or_internal docker (Call.container_stats r.id) Reply.value
