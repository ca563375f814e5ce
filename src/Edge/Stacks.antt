-- ===== src/Edge/Stacks.antt =====
-- internal/edge/stacks.go: the dispatch of /docker/stacks* requests. The clauses of the switch are
-- grouped by `len(sub)`, which all of them test; `sub[0] == "stacks"` is tested in each of them too.
pub mod Errors
pub mod Single
pub mod Unreachable
use dockpal_agent.Base.{
  Bool, true, false, ◌&&◌, ◌||◌, List, [], ◌∷◌, ◌++◌, Option, none, some, Result, ok, err,
  if◌then◌else◌,
}
use dockpal_agent.Base.Bytes.{Bytes, codes, equal, contains_byte}
use dockpal_agent.Edge.Protocol.{AgentRequest, Body, Call}
use dockpal_agent.Edge.Conn.{
  M, ◌>>=◌, Backend, call, attempt, decoded, panic, send_stream_end, reply, internal_error,
  invalid_body,
}
use dockpal_agent.Edge.Json.{Json, CreateRequest, UpdateRequest, StackDeployRequest}
use dockpal_agent.Edge.Route.{path_parts}
use dockpal_agent.Edge.Stacks.Errors.{edge_stack_error}
use dockpal_agent.Edge.Streams.{pure, Pick, event_loop}

abbrev pub text : Bytes → Body
text = Body.error

-- status, text := edgeStackError(err), and the reply with them
unfoldable pub reply_stack_error : AgentRequest → Bytes → M (Unit {0})
reply_stack_error msg e = reply msg (edge_stack_error e).0 (text (edge_stack_error e).1)

unfoldable pub unknown_stack_path : AgentRequest → M (Unit {0})
unknown_stack_path msg = reply msg 404 (text (codes "unknown stack path"))

module _ (docker : Backend) where
  -- A call whose failure is an internal error, or one of the stack taxonomy.
  unfoldable pub or_internal : AgentRequest → Call → (Bytes → Body) → M (Unit {0})
  or_internal msg k body =
      attempt docker k (λ (v : Bytes). reply msg 200 (body v))
        (λ (e : Bytes). reply msg 500 internal_error)

  unfoldable pub or_taxonomy : AgentRequest → Call → (Bytes → Body) → M (Unit {0})
  or_taxonomy msg k body =
      attempt docker k (λ (v : Bytes). reply msg 200 (body v))
        (λ (e : Bytes). reply_stack_error msg e)

  -- sendEdgeStackFull
  unfoldable pub send_edge_stack_full : AgentRequest → Bytes → Bytes → M (Unit {0})
  send_edge_stack_full msg name action =
      attempt docker (Call.get_stack_full name) (λ (v : Bytes). reply msg 200 (Body.value v))
        (λ (e : Bytes). reply msg 200 (Body.message (action ++ codes " ok")))

  -- SaveStack, then GetStack for the reply
  unfoldable pub save_and_show : AgentRequest → Call → Bytes → (Bytes → M (Unit {0})) → M (Unit {0})
  save_and_show msg save name shown =
      attempt docker save
        (λ (_ : Bytes).
          attempt docker (Call.get_stack name) (λ (v : Bytes). shown v)
            (λ (e : Bytes). reply msg 500 internal_error))
        (λ (e : Bytes). reply_stack_error msg e)

  -- handleEdgeStackDeploy: what is saved or looked up before the session
  unfoldable pub deploy_check : Bytes → StackDeployRequest → Call
  deploy_check name req =
      if equal req.compose []
      then Call.get_stack name
      else Call.save_stack name req.compose req.env req.is_add

  -- a body that does not decode leaves the request empty
  unfoldable pub deploy_request : Option StackDeployRequest → StackDeployRequest
  deploy_request none = record { compose = []; env = []; is_add = false }
  deploy_request (some req) = req

  unfoldable pub handle_edge_stack_deploy : Json → List Pick → AgentRequest → Bytes → M (Unit {0})
  handle_edge_stack_deploy json picks msg name =
      attempt docker (deploy_check name (deploy_request (json.stack_deploy msg.body)))
        (λ _.
          attempt docker Call.create_session
            (λ id. reply msg 200 (Body.deploy_id id) >>= λ _.
              event_loop (send_stream_end msg.request_id 200) msg.request_id 0 picks)
            (λ _. pure tt))
        (λ e. reply_stack_error msg e)

  unfoldable pub stacks_one : Json → AgentRequest → M (Unit {0})
  stacks_one json msg =
      if equal msg.method (codes "GET")
      then or_internal msg Call.list_stacks Body.stacks
      else if equal msg.method (codes "POST")
      then decoded msg (json.create msg.body) (λ r.
        save_and_show msg (Call.save_stack r.name r.compose r.env true) r.name
          (λ v. reply msg 201 (Body.value v)))
      else unknown_stack_path msg

  unfoldable pub stacks_two : Json → AgentRequest → Bytes → M (Unit {0})
  stacks_two json msg name =
      if equal msg.method (codes "GET")
      then or_taxonomy msg (Call.get_stack_full name) Body.value
      else if equal msg.method (codes "PUT")
      then decoded msg (json.update msg.body) (λ r.
        save_and_show msg (Call.save_stack name r.compose r.env false) name
          (λ v. reply msg 200 (Body.value v)))
      else if equal msg.method (codes "DELETE")
      then or_taxonomy msg (Call.stack_delete name) (λ _. Body.message (codes "deleted"))
      else unknown_stack_path msg

  -- the switch on `action` of /docker/stacks/{name}/{action}
  unfoldable pub stack_action : Bytes → Bytes → Option Call
  stack_action name action =
      if equal action (codes "up") || equal action (codes "start")
      then some (Call.stack_up name)
      else if equal action (codes "stop")
      then some (Call.stack_stop name)
      else if equal action (codes "restart")
      then some (Call.stack_restart name)
      else if equal action (codes "down")
      then some (Call.stack_down name)
      else if equal action (codes "update")
      then some (Call.stack_update name)
      else none

  unfoldable pub service_action : Bytes → Bytes → Bytes → Option Call
  service_action name svc action =
      if equal action (codes "up")
      then some (Call.service_up name svc)
      else if equal action (codes "stop")
      then some (Call.service_stop name svc)
      else if equal action (codes "restart")
      then some (Call.service_restart name svc)
      else none

  unfoldable pub run_action : AgentRequest → Bytes → Bytes → Option Call → M (Unit {0})
  run_action msg name action none = reply msg 400 (text (codes "unknown action"))
  run_action msg name action (some k) =
      attempt docker k (λ (_ : Bytes). send_edge_stack_full msg name action)
        (λ (e : Bytes). reply_stack_error msg e)

  unfoldable pub stacks_three : Json → List Pick → AgentRequest → Bytes → Bytes → M (Unit {0})
  stacks_three json picks msg name last =
      if equal name (codes "meta")
        && equal last (codes "networks")
        && equal msg.method (codes "GET")
      then or_internal msg Call.list_docker_networks Body.networks
      else if equal name (codes "meta")
          && equal last (codes "globalenv")
          && equal msg.method (codes "GET")
      then or_internal msg Call.get_global_env Body.content
      else if equal name (codes "meta")
          && equal last (codes "globalenv")
          && equal msg.method (codes "PUT")
      then decoded msg (json.content msg.body) (λ content.
        or_taxonomy msg (Call.set_global_env content) (λ _. Body.message (codes "saved")))
      else if equal last (codes "deploy") && equal msg.method (codes "POST")
      then handle_edge_stack_deploy json picks msg name
      else if equal msg.method (codes "POST")
      then run_action msg name last (stack_action name last)
      else unknown_stack_path msg

  -- svc == "" || strings.ContainsAny(svc, "/\\ ")
  unfoldable pub bad_service : Bytes → Bool
  bad_service [] = true
  bad_service svc = contains_byte svc b'/' || contains_byte svc b'\\' || contains_byte svc b' '

  unfoldable pub stacks_five : AgentRequest → Bytes → Bytes → Bytes → Bytes → M (Unit {0})
  stacks_five msg name services svc action =
      if equal services (codes "services") && equal msg.method (codes "POST")
      then if bad_service svc
        then reply msg 400 (text (codes "invalid service name"))
        else run_action msg name action (service_action name svc action)
      else unknown_stack_path msg

  unfoldable pub stack_switch : Json → List Pick → AgentRequest → List Bytes → M (Unit {0})
  stack_switch json picks msg (s0 ∷ []) =
      if equal s0 (codes "stacks") then stacks_one json msg else unknown_stack_path msg
  stack_switch json picks msg (s0 ∷ name ∷ []) =
      if equal s0 (codes "stacks") then stacks_two json msg name else unknown_stack_path msg
  stack_switch json picks msg (s0 ∷ name ∷ last ∷ []) =
      if equal s0 (codes "stacks")
      then stacks_three json picks msg name last
      else unknown_stack_path msg
  stack_switch json picks msg (s0 ∷ name ∷ s2 ∷ svc ∷ action ∷ []) =
      if equal s0 (codes "stacks")
      then stacks_five msg name s2 svc action
      else unknown_stack_path msg
  stack_switch json picks msg _ = unknown_stack_path msg

  -- parts[2:]: a slice bound out of range where there are fewer than two parts
  unfoldable pub from_two : Json → List Pick → AgentRequest → List Bytes → M (Unit {0})
  from_two json picks msg (a ∷ b ∷ sub) = stack_switch json picks msg sub
  from_two json picks msg _ = panic

  unfoldable pub handle_stack_request : Json → List Pick → AgentRequest → M (Unit {0})
  handle_stack_request json picks msg = from_two json picks msg (path_parts msg.path)
