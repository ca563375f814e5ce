-- ===== src/Edge/Dispatch.antt =====
-- `handleRequest` of internal/edge/client.go: the switch over path and method, one function for
-- each group of clauses. Package docker and package host are the backend; what a stream delivers
-- is in `Streaming`.
pub mod Containers
pub mod Single
use dockpal_agent.Base.{
  Bool, true, false, not, ◌&&◌, ◌||◌, List, [], ◌∷◌, ◌++◌, Option, none, some, Result, ok, err,
  if◌then◌else◌,
}
use dockpal_agent.Base.Bytes.{Bytes, codes, equal, has_prefix, has_suffix, contains}
use dockpal_agent.Edge.Protocol.{AgentRequest, Body, Call}
use dockpal_agent.Edge.Conn.{
  M, ◌>>=◌, ◌>>◌, Backend, attempt, decoded, send_stream_end, reply, internal_error, invalid_body,
}
use dockpal_agent.Edge.Json.{Json, DeployRequest, PullRequest, WriteRequest}
use dockpal_agent.Edge.Route.{extract_path_param}
use dockpal_agent.Edge.Stacks.{handle_stack_request}
use dockpal_agent.Edge.Streams.{
  pure, LogStep, Tick, Pick, event_loop, handle_container_logs, handle_stats_stream,
}

pub record Streaming : Type 0 where
  pub logs : List LogStep
  pub ticks : List Tick
  pub picks : List Pick

-- msg.Query[key], "" where it is missing
unfoldable pub query : Bytes → List (Bytes × Bytes) → Bytes
query key [] = []
query key ((k, v) ∷ rest) = if equal k key then v else query key rest

unfoldable pub is_get : AgentRequest → Bytes → Bool
is_get msg path = equal msg.path path && equal msg.method (codes "GET")

unfoldable pub is_post : AgentRequest → Bytes → Bool
is_post msg path = equal msg.path path && equal msg.method (codes "POST")

-- strings.HasPrefix(msg.Path, prefix) && msg.Method == method
unfoldable pub under : AgentRequest → Bytes → Bytes → Bool
under msg prefix method = has_prefix msg.path prefix && equal msg.method method

module _ (docker : Backend) where
  -- resp.Status = 500 with "internal error", or 200 with what the call returned
  unfoldable pub or_internal : AgentRequest → Call → (Bytes → Body) → M (Unit {0})
  or_internal msg k body =
      attempt docker k (λ (v : Bytes). reply msg 200 (body v))
        (λ (e : Bytes). reply msg 500 internal_error)

  -- resp.Status = 500 with err.Error(), or 200
  unfoldable pub or_text : AgentRequest → Call → (Bytes → Body) → M (Unit {0})
  or_text msg k body =
      attempt docker k (λ (v : Bytes). reply msg 200 (body v))
        (λ (e : Bytes). reply msg 500 (Body.error e))

  abbrev done_text : Bytes → Bytes → Body
  done_text word _ = Body.status word

  -- GET /docker/containers/…
  unfoldable pub get_container : Streaming → AgentRequest → M (Unit {0})
  get_container s msg =
      let id = extract_path_param msg.path 3 in
      if has_suffix msg.path (codes "/stats") && not (contains msg.path (codes "/stats/ws"))
      then or_internal msg (Call.container_stats id) Body.value
      else if has_suffix msg.path (codes "/logs")
      then handle_container_logs docker s.logs msg id
      else if has_suffix msg.path (codes "/stats/ws")
      then handle_stats_stream docker s.ticks msg id
      else or_internal msg (Call.inspect_container id) Body.value

  -- the switch on `action`; `none` is its default clause
  unfoldable pub container_action : Bytes → Bytes → Option Call
  container_action action id =
      if equal action (codes "start")
      then some (Call.start_container id)
      else if equal action (codes "stop")
      then some (Call.stop_container id)
      else if equal action (codes "restart")
      then some (Call.restart_container id)
      else none

  unfoldable pub post_action : AgentRequest → Bytes → Option Call → M (Unit {0})
  post_action msg action none = reply msg 400 (Body.error (codes "unknown action"))
  post_action msg action (some k) = or_internal msg k (done_text (action ++ codes "ed"))

  -- POST /docker/containers/…
  unfoldable pub post_container : AgentRequest → M (Unit {0})
  post_container msg =
      let id = extract_path_param msg.path 3 in
      let action = extract_path_param msg.path 4 in
      post_action msg action (container_action action id)

  unfoldable pub delete_container : AgentRequest → M (Unit {0})
  delete_container msg =
      let id = extract_path_param msg.path 3 in
      let force = equal (query (codes "force") msg.query) (codes "true") in
      or_internal msg (Call.remove_container id force) (done_text (codes "removed"))

  unfoldable pub put_container : Json → AgentRequest → M (Unit {0})
  put_container json msg =
      decoded msg (json.edit msg.body)
        λ req. or_internal msg (Call.edit_container (extract_path_param msg.path 3) req) Body.value

  unfoldable pub deploy_compose : Json → AgentRequest → M (Unit {0})
  deploy_compose json msg = decoded msg (json.deploy msg.body) λ req.
      or_text msg (Call.deploy_compose req.name req.compose req.registry_auths)
        (done_text (codes "deployed"))

  -- handleDeployStream: each way out of its loop ends the stream and removes the session
  unfoldable pub end_session : AgentRequest → Bytes → M (Unit {0})
  end_session msg id = send_stream_end msg.request_id 200 >>= λ _.
      attempt docker (Call.remove_session id) (λ _. pure tt) (λ _. pure tt)

  unfoldable pub handle_deploy_stream : Json → Streaming → AgentRequest → M (Unit {0})
  handle_deploy_stream json s msg = decoded msg (json.deploy msg.body) λ req.
      attempt docker Call.create_session
        (λ id. reply msg 200 (Body.deploy_id id) >>= λ _.
          event_loop (end_session msg id) msg.request_id 0 s.picks)
        (λ _. pure tt)

  unfoldable pub pull_image : Json → AgentRequest → M (Unit {0})
  pull_image json msg = decoded msg (json.pull msg.body) λ req.
      or_text msg
        (if equal req.registry_auth []
          then Call.pull_image req.image
          else Call.pull_image_with_auth req.image req.registry_auth)
        (done_text (codes "pulled"))

  unfoldable pub write_file : Json → AgentRequest → M (Unit {0})
  write_file json msg = decoded msg (json.write msg.body) λ req.
      or_text msg (Call.write_file req.container req.path req.content) (done_text (codes "written"))

  -- a version that cannot be read is ""; package host returns no error
  unfoldable pub host_info : AgentRequest → M (Unit {0})
  host_info msg =
      let info : Bytes → M (Unit {0}) = λ v.
        attempt docker (Call.host_info v) (λ i. reply msg 200 (Body.value i))
          (λ _. reply msg 200 (Body.value [])) in
      attempt docker Call.server_version info (λ _. info [])

  unfoldable pub host_stats : AgentRequest → M (Unit {0})
  host_stats msg =
      attempt docker Call.host_stats (λ (v : Bytes). reply msg 200 (Body.value v))
        (λ (_ : Bytes). reply msg 200 (Body.value []))

  -- the clauses from "Files" on
  unfoldable pub files_and_host : Json → AgentRequest → M (Unit {0})
  files_and_host json msg =
      let container = query (codes "container") msg.query in
      let path = query (codes "path") msg.query in
      if is_get msg (codes "/docker/files")
      then or_text msg (Call.list_files container path) Body.value
      else if is_get msg (codes "/docker/files/read")
      then or_text msg (Call.read_file container path) Body.content
      else if is_post msg (codes "/docker/files/write")
      then write_file json msg
      else if equal msg.path (codes "/docker/files") && equal msg.method (codes "DELETE")
      then or_text msg (Call.delete_file container path) (done_text (codes "deleted"))
      else if is_get msg (codes "/host/info")
      then host_info msg
      else if is_get msg (codes "/host/stats")
      then host_stats msg
      else reply msg 404 (Body.error (codes "not found"))

  -- the clauses from "Deploy" to "Images"
  unfoldable pub deploy_and_images : Json → Streaming → AgentRequest → M (Unit {0})
  deploy_and_images json s msg =
      if is_post msg (codes "/docker/deploy/compose")
      then deploy_compose json msg
      else if is_post msg (codes "/docker/deploy/stream")
      then handle_deploy_stream json s msg
      else if is_post msg (codes "/compose/stop")
      then decoded msg (json.name msg.body)
          (λ name. or_internal msg (Call.stop_compose name) (done_text (codes "stopped")))
      else if is_post msg (codes "/compose/remove")
      then decoded msg (json.name msg.body)
          (λ name. or_internal msg (Call.remove_compose name) (done_text (codes "removed")))
      else if is_get msg (codes "/docker/images")
      then or_internal msg Call.list_images Body.value
      else if is_post msg (codes "/docker/images/pull")
      then pull_image json msg
      else if under msg (codes "/docker/images/") (codes "DELETE")
      then or_internal msg (Call.remove_image (extract_path_param msg.path 3))
          (done_text (codes "removed"))
      else files_and_host json msg

  unfoldable pub handle_request : Json → Streaming → AgentRequest → M (Unit {0})
  handle_request json s msg =
      if has_prefix msg.path (codes "/docker/stacks")
      then handle_stack_request docker json s.picks msg
      else if is_get msg (codes "/docker/containers")
      then or_internal msg
          (Call.list_containers (equal (query (codes "all") msg.query) (codes "true"))) Body.value
      else if under msg (codes "/docker/containers/") (codes "GET")
      then get_container s msg
      else if under msg (codes "/docker/containers/") (codes "POST")
      then post_container msg
      else if under msg (codes "/docker/containers/") (codes "DELETE")
      then delete_container msg
      else if under msg (codes "/docker/containers/") (codes "PUT")
      then put_container json msg
      else deploy_and_images json s msg
