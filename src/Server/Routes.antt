-- ===== src/Server/Routes.antt =====
-- registerRoutes of internal/server/routes.go and registerStackRoutes of internal/server/stacks.go:
-- the route that the router has chosen for a request, and the handler that serves it. Which route the
-- router chooses is not modelled.
use dockpal_agent.Base.{Bool, true, false, List, Option, Result}
use dockpal_agent.Base.Bytes.{Bytes}
use dockpal_agent.Auth.{Verdict, next, unauthorized, token_middleware}
use dockpal_agent.Edge.Json.{
  DeployRequest, PullRequest, WriteRequest, CreateRequest, UpdateRequest, StackDeployRequest,
}
use dockpal_agent.Server.Http.{HttpRequest, Reply, M, Backend, write_json}
use dockpal_agent.Server.Containers.{
  handle_ping, handle_list_containers, handle_inspect_container, handle_start_container,
  handle_stop_container, handle_restart_container, handle_remove_container, handle_edit_container,
  handle_container_exec, handle_get_container_stats,
}
use dockpal_agent.Server.Deploys.{
  handle_deploy_compose, handle_deploy_stream, handle_stop_compose, handle_remove_compose,
  handle_list_apps, handle_list_images, handle_pull_image, handle_remove_image,
}
use dockpal_agent.Server.Sockets.{
  Read, Tick, Pick, handle_container_logs, handle_stats_stream, handle_deploy_stream_ws,
  handle_stack_deploy_stream_ws,
}
use dockpal_agent.Server.FileRoutes.{
  Form, handle_list_files, handle_read_file, handle_write_file, handle_upload_file,
  handle_download_file, handle_delete_file, handle_container_file_write, handle_host_info,
  handle_host_stats,
}
use dockpal_agent.Server.Stacks.{
  handle_list_stacks, handle_list_docker_networks, handle_get_global_env, handle_set_global_env,
  handle_get_stack, handle_create_stack, handle_update_stack, handle_delete_stack,
  handle_deploy_stack, handle_stack_action, handle_stack_service_action,
}
use dockpal_agent.Server.Apps.{FirstLabel, handle_set_app_auto_update, handle_trigger_app_update}

-- The routes, in the order of their registration. Those of stack actions carry the action.
pub data Route : Type 0 where
  ping enroll : Route
  containers inspect start stop restart remove edit stats logs stats_ws exec : Route
  apps auto_update app_update : Route
  deploy_compose deploy_stream deploy_stream_ws compose_stop compose_remove : Route
  stacks stacks_networks stacks_get_env stacks_set_env stack : Route
  stack_create stack_update stack_delete stack_deploy stack_stream_ws : Route
  stack_action service_action : Bytes → Route
  images image_pull image_remove : Route
  files file_read file_write file_upload file_download file_delete container_file_write : Route
  host_info host_stats : Route

-- every route but /agent/ping is in the group with the token middleware
unfoldable pub guarded : Route → Bool
guarded ping = false
guarded _ = true

-- The decoders of the request bodies, `none` where json does not decode or the form has no file.
pub record Decoders : Type 0 where
  pub edit : Bytes → Option Bytes
  pub exec : Bytes → Option (List Bytes)
  pub enabled : Bytes → Option Bool
  pub deploy : Bytes → Option DeployRequest
  pub name : Bytes → Option Bytes
  pub content : Bytes → Option Bytes
  pub create : Bytes → Option CreateRequest
  pub update : Bytes → Option UpdateRequest
  pub stack_deploy : Bytes → Option StackDeployRequest
  pub pull : Bytes → Option PullRequest
  pub write : Bytes → Option WriteRequest
  pub form : Bytes → Option Form
  pub file : Bytes → Option (Bytes × Bytes)

-- What the handlers take from their surroundings: whether a compose CLI is there, what the sockets'
-- loops are delivered, the label of a list of containers, SetServiceLabel, and the enrolment.
pub record Outside : Type 0 where
  pub available : Bool
  pub reads : List Read
  pub first_write : Bool
  pub ticks : List Tick
  pub picks : List Pick
  pub first_label : FirstLabel
  pub set_service_label : Bytes → Bytes → Bytes → Result Bytes
  pub handle_enroll : HttpRequest → M (Unit {0})

abbrev pub socket : M Bool → M (Unit {0})
socket m x = (tt, (m x).1)

module _ (docker : Backend) (json : Decoders) (o : Outside) where
  -- the handler of a route
  unfoldable pub handle : Route → HttpRequest → M (Unit {0})
  handle ping r = handle_ping docker r
  handle enroll r = o.handle_enroll r
  handle containers r = handle_list_containers docker r
  handle inspect r = handle_inspect_container docker r
  handle start r = handle_start_container docker r
  handle stop r = handle_stop_container docker r
  handle restart r = handle_restart_container docker r
  handle remove r = handle_remove_container docker r
  handle edit r = handle_edit_container docker (json.edit r.body) r
  handle stats r = handle_get_container_stats docker r
  handle logs r = socket (handle_container_logs docker o.reads r)
  handle stats_ws r = socket (handle_stats_stream docker o.first_write o.ticks r)
  handle exec r = handle_container_exec docker (json.exec r.body) r
  handle apps r = handle_list_apps docker
  handle auto_update r =
      handle_set_app_auto_update docker o.first_label o.set_service_label (json.enabled r.body) r
  handle app_update r = handle_trigger_app_update docker o.first_label r
  handle deploy_compose r = handle_deploy_compose docker (json.deploy r.body)
  handle deploy_stream r = handle_deploy_stream docker (json.deploy r.body)
  handle deploy_stream_ws r = socket (handle_deploy_stream_ws docker o.picks r)
  handle compose_stop r = handle_stop_compose docker (json.name r.body)
  handle compose_remove r = handle_remove_compose docker (json.name r.body)
  handle stacks r = handle_list_stacks docker o.available
  handle stacks_networks r = handle_list_docker_networks docker o.available
  handle stacks_get_env r = handle_get_global_env docker o.available
  handle stacks_set_env r = handle_set_global_env docker o.available (json.content r.body)
  handle stack r = handle_get_stack docker o.available r
  handle stack_create r = handle_create_stack docker o.available (json.create r.body)
  handle stack_update r = handle_update_stack docker o.available (json.update r.body) r
  handle stack_delete r = handle_delete_stack docker o.available r
  handle stack_deploy r = handle_deploy_stack docker o.available (json.stack_deploy r.body) r
  handle stack_stream_ws r = socket (handle_stack_deploy_stream_ws docker o.picks r)
  handle (stack_action action) r = handle_stack_action docker o.available action r
  handle (service_action action) r = handle_stack_service_action docker o.available action r
  handle images r = handle_list_images docker
  handle image_pull r = handle_pull_image docker (json.pull r.body)
  handle image_remove r = handle_remove_image docker r
  handle files r = handle_list_files docker r
  handle file_read r = handle_read_file docker r
  handle file_write r = handle_write_file docker (json.write r.body)
  handle file_upload r = handle_upload_file docker (json.form r.body)
  handle file_download r = handle_download_file docker r
  handle file_delete r = handle_delete_file docker r
  handle container_file_write r = handle_container_file_write docker (json.file r.body) r
  handle host_info r = handle_host_info docker
  handle host_stats r = handle_host_stats docker

  -- what the middleware does with a request
  unfoldable pub behind_token : Verdict → Route → HttpRequest → M (Unit {0})
  behind_token next route r = handle route r
  behind_token (unauthorized text) route r = write_json 401 (Reply.error text)

  abbrev pub if_guarded : Bool → Bytes → Bytes → Bytes → Route → HttpRequest → M (Unit {0})
  if_guarded true token header query_token route r =
      behind_token (token_middleware token header query_token) route r
  if_guarded false token header query_token route r = handle route r

  -- a request with its Authorization header and its token in the query
  unfoldable pub serve : Bytes → Bytes → Bytes → Route → HttpRequest → M (Unit {0})
  serve token header query_token route r =
      if_guarded (guarded route) token header query_token route r
