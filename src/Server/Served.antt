-- ===== src/Server/Served.antt =====
-- The responses of all routes of internal/server, with the token middleware before them.
use dockpal_agent.Base.{
  Bool, true, false, List, [], ◌∷◌, ◌++◌, ◌≡◌, ◌≢◌, refl, ap, Option, none, some, Result, ok, err,
}
use dockpal_agent.Base.Bytes.{Bytes}
use dockpal_agent.Auth.{Verdict, next, unauthorized, token_middleware}
use dockpal_agent.Auth.Served.{Allowed, token_middleware_iff}
use dockpal_agent.Edge.Protocol.{Call}
use dockpal_agent.Server.Http.{Exchange, HttpRequest, Reply, M, Backend, write_json}
use dockpal_agent.Server.Containers.{
  exec_cmd, handle_ping, handle_list_containers, handle_inspect_container, handle_start_container,
  handle_stop_container, handle_restart_container, handle_remove_container, handle_edit_container,
  handle_container_exec, handle_get_container_stats,
}
use dockpal_agent.Server.Deploys.{
  handle_deploy_compose, handle_deploy_stream, handle_stop_compose, handle_remove_compose,
  handle_list_apps, handle_list_images, handle_pull_image, handle_remove_image,
}
use dockpal_agent.Server.FileRoutes.{
  Form, upload, limited, handle_list_files, handle_read_file, handle_write_file, handle_upload_file,
  handle_download_file, handle_delete_file, handle_container_file_write, handle_host_info,
  handle_host_stats,
}
use dockpal_agent.Server.Stacks.{
  stack_error, with_cli, or_stack_error, handle_list_stacks, handle_list_docker_networks,
  handle_get_global_env, handle_set_global_env, handle_get_stack, save_and_show,
  handle_create_stack, handle_update_stack, handle_delete_stack, handle_deploy_stack, run_action,
  handle_stack_action, handle_stack_service_action,
}
use dockpal_agent.Server.Apps.{
  FirstLabel, compose_at, resolve_app_compose, redeploy, store_and_redeploy,
  handle_set_app_auto_update, handle_trigger_app_update,
}
use dockpal_agent.Server.Routes.{
  Route, Decoders, Outside, guarded, handle, behind_token, if_guarded, serve,
}
use dockpal_agent.Server.Single.{Answers, Answers-write_json, answer_rules}

-- The routes whose handlers answer with one response: not the websockets, nor the enrolment.
unfoldable pub is_plain : Route → Bool
is_plain Route.enroll = false
is_plain Route.logs = false
is_plain Route.stats_ws = false
is_plain Route.deploy_stream_ws = false
is_plain Route.stack_stream_ws = false
is_plain _ = true

module _ (docker : Backend) where
  Answers-exec_cmd :
      (id : Bytes) (cmd : List Bytes) (x : Exchange) → Answers (exec_cmd docker id cmd) x
  Answers-exec_cmd id [] x = search answer_rules
  Answers-exec_cmd id (c ∷ cmd) x = search answer_rules

  Answers-upload : (form : Option Form) (x : Exchange) → Answers (handle_upload_file docker form) x
  unfolding handle_upload_file
  Answers-upload none x = search answer_rules
  Answers-upload (some f) x = go f.file
    where
      go : (r : Result Bytes) → Answers (upload docker f.container f.path (limited docker r)) x
      go (ok content) = search answer_rules
      go (err e) = search answer_rules

  Answers-run_action :
      (available : Bool) (name action : Bytes) (k : Option Call) (x : Exchange)
      → Answers (run_action docker available name action k) x
  unfolding run_action stack_error
  Answers-run_action available name action none x = search answer_rules
  Answers-run_action available name action (some k) x = search answer_rules

  module _ (first_label : FirstLabel) where
    Answers-compose_at :
        (name : Bytes) (o : Option Bytes) (next : Bytes → Bytes → M (Unit {0})) (x : Exchange)
        → ((path text : Bytes) (x' : Exchange) → Answers (next path text) x')
        → Answers (compose_at docker first_label name o next) x
    Answers-compose_at name none onward x h = search answer_rules
    Answers-compose_at name (some path) onward x h = search (answer_rules, h)

    Answers-store :
        (name path : Bytes) (r : Result Bytes) (x : Exchange)
        → Answers (store_and_redeploy docker first_label name path r) x
    unfolding store_and_redeploy redeploy
    Answers-store name path (ok text) x = search answer_rules
    Answers-store name path (err e) x = search answer_rules

ruleset handler_rules = (
  answer_rules, Answers-exec_cmd, Answers-upload, Answers-run_action, Answers-compose_at,
  Answers-store,
)

module _ (docker : Backend) (json : Decoders) (o : Outside) where
  Answers-handle :
      (route : Route) (r : HttpRequest) (x : Exchange)
      → is_plain route ≡ true
      → Answers (handle docker json o route r) x
  unfolding is_plain handle handle_ping handle_list_containers handle_inspect_container
      handle_start_container handle_stop_container handle_restart_container handle_remove_container
      handle_edit_container handle_container_exec handle_get_container_stats handle_deploy_compose
      handle_deploy_stream handle_stop_compose handle_remove_compose handle_list_apps
      handle_list_images handle_pull_image handle_remove_image handle_list_files handle_read_file
      handle_write_file handle_download_file handle_delete_file handle_container_file_write
      handle_host_info handle_host_stats stack_error with_cli or_stack_error handle_list_stacks
      handle_list_docker_networks handle_get_global_env handle_set_global_env handle_get_stack
      save_and_show handle_create_stack handle_update_stack handle_delete_stack handle_deploy_stack
      handle_stack_action handle_stack_service_action resolve_app_compose handle_set_app_auto_update
      handle_trigger_app_update
  Answers-handle Route.ping r x h = search handler_rules depth 14
  Answers-handle Route.enroll r x h = cc
  Answers-handle Route.containers r x h = search handler_rules depth 14
  Answers-handle Route.inspect r x h = search handler_rules depth 14
  Answers-handle Route.start r x h = search handler_rules depth 14
  Answers-handle Route.stop r x h = search handler_rules depth 14
  Answers-handle Route.restart r x h = search handler_rules depth 14
  Answers-handle Route.remove r x h = search handler_rules depth 14
  Answers-handle Route.edit r x h = search handler_rules depth 14
  Answers-handle Route.stats r x h = search handler_rules depth 14
  Answers-handle Route.logs r x h = cc
  Answers-handle Route.stats_ws r x h = cc
  Answers-handle Route.exec r x h = search handler_rules depth 14
  Answers-handle Route.apps r x h = search handler_rules depth 14
  Answers-handle Route.auto_update r x h = search handler_rules depth 14
  Answers-handle Route.app_update r x h = search handler_rules depth 14
  Answers-handle Route.deploy_compose r x h = search handler_rules depth 14
  Answers-handle Route.deploy_stream r x h = search handler_rules depth 14
  Answers-handle Route.deploy_stream_ws r x h = cc
  Answers-handle Route.compose_stop r x h = search handler_rules depth 14
  Answers-handle Route.compose_remove r x h = search handler_rules depth 14
  Answers-handle Route.stacks r x h = search handler_rules depth 14
  Answers-handle Route.stacks_networks r x h = search handler_rules depth 14
  Answers-handle Route.stacks_get_env r x h = search handler_rules depth 14
  Answers-handle Route.stacks_set_env r x h = search handler_rules depth 14
  Answers-handle Route.stack r x h = search handler_rules depth 14
  Answers-handle Route.stack_create r x h = search handler_rules depth 14
  Answers-handle Route.stack_update r x h = search handler_rules depth 14
  Answers-handle Route.stack_delete r x h = search handler_rules depth 14
  Answers-handle Route.stack_deploy r x h = search handler_rules depth 14
  Answers-handle Route.stack_stream_ws r x h = cc
  Answers-handle (Route.stack_action action) r x h = search handler_rules depth 14
  Answers-handle (Route.service_action action) r x h = search handler_rules depth 14
  Answers-handle Route.images r x h = search handler_rules depth 14
  Answers-handle Route.image_pull r x h = search handler_rules depth 14
  Answers-handle Route.image_remove r x h = search handler_rules depth 14
  Answers-handle Route.files r x h = search handler_rules depth 14
  Answers-handle Route.file_read r x h = search handler_rules depth 14
  Answers-handle Route.file_write r x h = search handler_rules depth 14
  Answers-handle Route.file_upload r x h = search handler_rules depth 14
  Answers-handle Route.file_download r x h = search handler_rules depth 14
  Answers-handle Route.file_delete r x h = search handler_rules depth 14
  Answers-handle Route.container_file_write r x h = search handler_rules depth 14
  Answers-handle Route.host_info r x h = search handler_rules depth 14
  Answers-handle Route.host_stats r x h = search handler_rules depth 14

-- Whatever the calls return, a request for a route that opens no websocket, and is not the enrolment,
-- is answered with exactly one response, with and without a valid token.
pub serve-Answers :
    (docker : Backend) (json : Decoders) (o : Outside) (token header query_token : Bytes)
    (route : Route) (r : HttpRequest) (x : Exchange)
    → is_plain route ≡ true
    → Answers (serve docker json o token header query_token route r) x
unfolding serve
serve-Answers docker json o token header query_token route r x h = go (guarded route)
  where
    verdict : (v : Verdict) → Answers (behind_token docker json o v route r) x
    verdict next = unfold behind_token in Answers-handle docker json o route r x h
    verdict (unauthorized text) = unfold behind_token in Answers-write_json 401 _ x

    go : (b : Bool) → Answers (if_guarded docker json o b token header query_token route r) x
    go true = verdict (token_middleware token header query_token)
    go false = Answers-handle docker json o route r x h

guarded_lem : (route : Route) → route ≢ Route.ping → guarded route ≡ true
unfolding guarded
guarded_lem Route.ping h = absurd (h refl)
guarded_lem _ h = refl

-- behind a refusal
serve_unauthorized :
    (docker : Backend) (json : Decoders) (o : Outside) (token header query_token text : Bytes)
    (route : Route) (r : HttpRequest) (x : Exchange)
    → token_middleware token header query_token ≡ unauthorized text
    → route ≢ Route.ping
    → (serve docker json o token header query_token route r x).1
      ≡ record x { responses = x.responses ++ record { code = 401; body = Reply.error text } ∷ [] }
unfolding serve behind_token write_json
serve_unauthorized docker json o token header query_token text route r x h ne =
    rw (guarded_lem route ne) (rw h refl)

-- A request that makes any call, on a route other than the ping, carries the agent's token: in its
-- Authorization header, behind the scheme Bearer, or, without a header, in its query.
pub serve-Allowed :
    (docker : Backend) (json : Decoders) (o : Outside) (token header query_token : Bytes)
    (route : Route) (r : HttpRequest) (x : Exchange)
    → route ≢ Route.ping
    → (serve docker json o token header query_token route r x).1.calls ≢ x.calls
    → Allowed token header query_token
serve-Allowed docker json o token header query_token route r x ne asks =
    go (token_middleware token header query_token) refl
  where
    go :
        (v : Verdict)
        → token_middleware token header query_token ≡ v
        → Allowed token header query_token
    go next h = (token_middleware_iff token header query_token).0 h
    go (unauthorized text) h = absurd (
        asks (
          ap (λ (y : Exchange). y.calls)
            (serve_unauthorized docker json o token header query_token text route r x h ne)))
