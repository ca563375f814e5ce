-- ===== src/Edge/Examples.antt =====
-- Runs of the edge client's handlers on single requests.
use dockpal_agent.Base.{
  ℕ, true, false, List, [], ◌∷◌, ◌++◌, ◌≡◌, ◌≢◌, refl, Result, ok, err, All, none,
}
use dockpal_agent.Base.Bytes.{
  Bytes, codes, equal, has_prefix, has_suffix, contains_byte, contains, join,
}
use dockpal_agent.Edge.Protocol.{AgentRequest, Call}
use dockpal_agent.Edge.Conn.{fresh, M, Backend, returns, send_stream_end}
use dockpal_agent.Edge.Json.{Json}
use dockpal_agent.Edge.Route.{extract_path_param, get_or_empty}
use dockpal_agent.Edge.Replies.{Sends, OneReply, Replies}
use dockpal_agent.Edge.Stacks.Unreachable.{not_found}
use dockpal_agent.Edge.Streams.{event, session_done, context_done, events_closed, event_loop}
use dockpal_agent.Edge.Streams.Drain.{IsStream, Sends-end, event_loop-IsStream}
use dockpal_agent.Edge.Streams.Hang.{chunks, event_loop_hangs}
use dockpal_agent.Edge.Dispatch.{Streaming, handle_request}
use dockpal_agent.Edge.Dispatch.Single.{handle_request-OneReply}
use dockpal_agent.Edge.Dispatch.Containers.{
  unknown_action, handle_request_stacks_unknown, handle_request_post_container,
  handle_request_delete_image,
}

abbrev docker : Backend
docker calls k = returns (ok (codes "{}"))

abbrev json : Json
json = record {
  edit = λ b. none;
  deploy = λ b. none;
  name = λ b. none;
  pull = λ b. none;
  write = λ b. none;
  content = λ b. none;
  create = λ b. none;
  update = λ b. none;
  stack_deploy = λ b. none;
}

abbrev streaming : Streaming
streaming = record { logs = []; ticks = []; picks = [] }

abbrev request : Bytes → Bytes → AgentRequest
request method path = record {
  request_id = codes "r1";
  method = method;
  path = path;
  query = [];
  body = [];
}

handle_request-OneReply_example :
    Replies docker
      (OneReply (codes "r1"))
      (handle_request docker json streaming (request (codes "GET") (codes "/docker/images")))
      fresh
unfolding has_suffix equal extract_path_param dockpal_agent.Edge.Route.path_parts
    dockpal_agent.Base.Bytes.split dockpal_agent.Base.Bytes.trim
handle_request-OneReply_example =
    handle_request-OneReply docker json streaming (request (codes "GET") (codes "/docker/images"))
      fresh refl

handle_request_stacks_unknown_example :
    handle_request docker json streaming (request (codes "GET") (codes "/docker/stacks/web")) fresh
    ≡ (tt, not_found fresh (request (codes "GET") (codes "/docker/stacks/web")))
unfolding contains_byte join
handle_request_stacks_unknown_example =
    handle_request_stacks_unknown docker json streaming
      (request (codes "GET") (codes "/docker/stacks/web")) fresh (codes "web" ∷ [])
      (((λ e. cc), refl), tt) (λ e. cc) refl

handle_request_post_container_example :
    handle_request docker json streaming
      (request (codes "POST") (codes "/docker/containers/web/stop"))
      fresh
    ≡ (tt, unknown_action fresh (request (codes "POST") (codes "/docker/containers/web/stop")))
unfolding contains_byte join
handle_request_post_container_example =
    handle_request_post_container docker json streaming
      (request (codes "POST") (codes "/docker/containers/web/stop")) fresh (codes "web")
      (codes "stop") ((λ e. cc), refl) ((λ e. cc), refl) refl refl

handle_request_delete_image_example :
    (handle_request docker json streaming
      (request (codes "DELETE") (codes "/docker/images/nginx"))
      fresh).1.calls
    ≡ Call.remove_image [] ∷ []
unfolding contains_byte join
handle_request_delete_image_example =
    handle_request_delete_image docker json streaming
      (request (codes "DELETE") (codes "/docker/images/nginx")) fresh (codes "nginx")
      ((λ e. cc), refl) refl refl

abbrev finish : M (Unit {0})
finish = send_stream_end (codes "r1") 200

event_loop-IsStream_example :
    Sends
      (IsStream (codes "r1") 0)
      (event_loop finish
        (codes "r1")
        0
        (event (codes "a") ∷ session_done ∷ event (codes "b") ∷ events_closed ∷ []))
      fresh
event_loop-IsStream_example =
    event_loop-IsStream finish (codes "r1") (λ n c. Sends-end (codes "r1") n 200 c) 0
      (event (codes "a") ∷ session_done ∷ event (codes "b") ∷ events_closed ∷ []) fresh

event_loop_hangs_example :
    event_loop finish (codes "r1") 2 (session_done ∷ event (codes "b") ∷ context_done ∷ []) fresh
    ≡ (tt, record fresh { sent = chunks (codes "r1") 2 (event (codes "b") ∷ context_done ∷ []) })
event_loop_hangs_example =
    event_loop_hangs finish (codes "r1") 2 (event (codes "b") ∷ context_done ∷ []) fresh tt
