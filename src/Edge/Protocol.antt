-- ===== src/Edge/Protocol.antt =====
-- internal/edge/protocol.go, and the calls that the handlers make of package docker.
use dockpal_agent.Base.{ℕ, Bool, List}
use dockpal_agent.Base.Bytes.{Bytes}

pub record AgentRequest : Type 0 where
  pub request_id : Bytes
  pub method : Bytes
  pub path : Bytes
  pub query : List (Bytes × Bytes)
  pub body : Bytes

-- The JSON objects that a handler marshals. `value` is the encoding of what a call returned.
pub data Body : Type 0 where
  none : Body
  error : Bytes → Body
  status : Bytes → Body
  message : Bytes → Body
  content : Bytes → Body
  deploy_id : Bytes → Body
  stacks : Bytes → Body
  networks : Bytes → Body
  value : Bytes → Body

pub record AgentResponse : Type 0 where
  pub request_id : Bytes
  pub status : ℕ
  pub body : Body
  pub stream : Bool
  pub chunk : ℕ
  pub done : Bool

-- One call of package docker or of package host, with its arguments.
pub data Call : Type 0 where
  list_containers : Bool → Call
  container_stats inspect_container start_container stop_container restart_container : Bytes → Call
  remove_container : Bytes → Bool → Call
  edit_container : Bytes → Bytes → Call
  container_logs : Bytes → Call
  deploy_compose : Bytes → Bytes → List (Bytes × Bytes) → Call
  stop_compose remove_compose : Bytes → Call
  list_images : Call
  pull_image : Bytes → Call
  pull_image_with_auth : Bytes → Bytes → Call
  remove_image : Bytes → Call
  list_files read_file delete_file : Bytes → Bytes → Call
  write_file : Bytes → Bytes → Bytes → Call
  server_version : Call
  host_info : Bytes → Call
  host_stats : Call
  list_stacks list_docker_networks get_global_env : Call
  set_global_env : Bytes → Call
  get_stack get_stack_full stack_delete : Bytes → Call
  save_stack : Bytes → Bytes → Bytes → Bool → Call
  stack_up stack_stop stack_restart stack_down stack_update : Bytes → Call
  service_up service_stop service_restart : Bytes → Bytes → Call
  create_session : Call
  remove_session : Bytes → Call
  ping list_apps : Call
  exec_command : Bytes → List Bytes → Call
  container_state : Bytes → Call
  stack_recreate : Bytes → Call
  service_recreate : Bytes → Bytes → Call
  upgrade : Call
  get_session : Bytes → Call
  start_deployment start_stack_deployment : Bytes → Bytes → Call
  compose_label read_compose : Bytes → Call
  write_compose : Bytes → Bytes → Call
  attempt_id : Call
