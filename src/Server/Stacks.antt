-- ===== src/Server/Stacks.antt =====
-- internal/server/stacks.go: the handlers of compose stacks.
use dockpal_agent.Base.{Bool, true, false, ◌||◌, [], ◌++◌, Option, none, some, if◌then◌else◌}
use dockpal_agent.Base.Bytes.{Bytes, codes, equal, contains, contains_byte}
use dockpal_agent.Edge.Protocol.{Call}
use dockpal_agent.Edge.Json.{CreateRequest, UpdateRequest, StackDeployRequest}
use dockpal_agent.Server.Http.{
  HttpRequest, Reply, M, Backend, attempt, write_json, internal_error, bad_request, read_json,
  or_internal,
}

-- composecli's busyError, for which IsBusy tests the type, has the message of the first test
unfoldable pub stack_error : Bytes → M (Unit {0})
stack_error msg =
    if contains msg (codes "another operation is already running")
    then write_json 409 (Reply.error msg)
    else if contains msg (codes "not found")
    then write_json 404 (Reply.error msg)
    else if contains msg (codes "already exists")
    then write_json 409 (Reply.error msg)
    else write_json 400 (Reply.error msg)

module _ (docker : Backend) (available : Bool) where
  -- `if s.stackCLIUnavailable(w) { return }`
  unfoldable pub with_cli : M (Unit {0}) → M (Unit {0})
  with_cli next =
      if available
      then next
      else write_json 501 (Reply.error (codes "docker compose CLI not available on this host"))

  unfoldable pub or_stack_error : Call → (Bytes → Reply) → M (Unit {0})
  or_stack_error k body = attempt docker k (λ v. write_json 200 (body v)) (λ e. stack_error e)

  unfoldable pub handle_list_stacks : M (Unit {0})
  handle_list_stacks = with_cli (or_internal docker Call.list_stacks Reply.stacks)

  unfoldable pub handle_list_docker_networks : M (Unit {0})
  handle_list_docker_networks =
      with_cli (or_internal docker Call.list_docker_networks Reply.networks)

  unfoldable pub handle_get_global_env : M (Unit {0})
  handle_get_global_env = or_internal docker Call.get_global_env Reply.content

  unfoldable pub handle_set_global_env : Option Bytes → M (Unit {0})
  handle_set_global_env req =
      read_json req
        λ content. or_stack_error (Call.set_global_env content) (λ _. Reply.message (codes "saved"))

  unfoldable pub handle_get_stack : HttpRequest → M (Unit {0})
  handle_get_stack r = with_cli (or_stack_error (Call.get_stack_full r.name) Reply.value)

  -- SaveStack, then GetStack for the response
  unfoldable pub save_and_show : Call → Bytes → (Bytes → M (Unit {0})) → M (Unit {0})
  save_and_show save name shown =
      attempt docker save (λ _. attempt docker (Call.get_stack name) shown (λ e. internal_error e))
        (λ e. stack_error e)

  unfoldable pub handle_create_stack : Option CreateRequest → M (Unit {0})
  handle_create_stack req = read_json req λ c.
      save_and_show (Call.save_stack c.name c.compose c.env true) c.name
        (λ v. write_json 201 (Reply.value v))

  unfoldable pub handle_update_stack : Option UpdateRequest → HttpRequest → M (Unit {0})
  handle_update_stack req r = read_json req λ u.
      save_and_show (Call.save_stack r.name u.compose u.env false) r.name
        (λ v. write_json 200 (Reply.value v))

  unfoldable pub handle_delete_stack : HttpRequest → M (Unit {0})
  handle_delete_stack r =
      with_cli (or_stack_error (Call.stack_delete r.name) (λ _. Reply.message (codes "deleted")))

  -- a body that does not decode leaves the request empty
  abbrev pub or_empty : Option StackDeployRequest → StackDeployRequest
  or_empty none = record { compose = []; env = []; is_add = false }
  or_empty (some d) = d

  unfoldable pub deploy_check : Bytes → StackDeployRequest → Call
  deploy_check name d =
      if equal d.compose []
      then Call.get_stack name
      else Call.save_stack name d.compose d.env d.is_add

  -- CreateSession does not fail, and the deployment is started in the background
  unfoldable pub handle_deploy_stack : Option StackDeployRequest → HttpRequest → M (Unit {0})
  handle_deploy_stack req r = with_cli (
      attempt docker (deploy_check r.name (or_empty req))
        (λ _.
          attempt docker Call.create_session
            (λ id.
              attempt docker (Call.start_stack_deployment id r.name)
                (λ _. write_json 200 (Reply.deploy_id id))
                (λ _. write_json 200 (Reply.deploy_id id)))
            (λ _. write_json 200 (Reply.deploy_id [])))
        (λ e. stack_error e))

  -- the switch on `action`; `none` is its default clause
  unfoldable pub stack_action : Bytes → Bytes → Option Call
  stack_action name action =
      if equal action (codes "up") || equal action (codes "start")
      then some (Call.stack_up name)
      else if equal action (codes "stop")
      then some (Call.stack_stop name)
      else if equal action (codes "restart")
      then some (Call.stack_restart name)
      else if equal action (codes "recreate")
      then some (Call.stack_recreate name)
      else if equal action (codes "down")
      then some (Call.stack_down name)
      else if equal action (codes "update")
      then some (Call.stack_update name)
      else none

  unfoldable pub service_action : Bytes → Bytes → Bytes → Option Call
  service_action name svc action =
      if equal action (codes "up")
      then some (Call.service_up name svc)
      else if equal action (codes "stop")
      then some (Call.service_stop name svc)
      else if equal action (codes "restart")
      then some (Call.service_restart name svc)
      else if equal action (codes "recreate")
      then some (Call.service_recreate name svc)
      else none

  -- what follows the switch
  unfoldable pub run_action : Bytes → Bytes → Option Call → M (Unit {0})
  run_action name action none = bad_request (codes "unknown action")
  run_action name action (some k) =
      attempt docker k
        (λ _.
          attempt docker (Call.get_stack_full name) (λ v. write_json 200 (Reply.value v))
            (λ _. write_json 200 (Reply.message (action ++ codes " ok"))))
        (λ e. stack_error e)

  unfoldable pub handle_stack_action : Bytes → HttpRequest → M (Unit {0})
  handle_stack_action action r = with_cli (run_action r.name action (stack_action r.name action))

  unfoldable pub bad_service : Bytes → Bool
  bad_service svc =
      equal svc [] || contains_byte svc b'/' || contains_byte svc b'\\' || contains_byte svc b' '

  unfoldable pub handle_stack_service_action : Bytes → HttpRequest → M (Unit {0})
  handle_stack_service_action action r = with_cli (
      if bad_service r.service
      then bad_request (codes "invalid service name")
      else run_action r.name action (service_action r.name r.service action))
