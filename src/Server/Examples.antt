-- ===== src/Server/Examples.antt =====
-- Requests of a server whose docker daemon answers every call.
use dockpal_agent.Base.{
  ℕ, true, false, List, [], ◌∷◌, ◌++◌, ◌≡◌, refl, sym, ◌∙◌, Option, none, some, Result, ok, err,
}
use dockpal_agent.Base.Bytes.{Bytes, codes}
use dockpal_agent.Auth.Served.{Allowed}
use dockpal_agent.Edge.Protocol.{AgentRequest, Call}
use dockpal_agent.Edge.Conn.{fresh}
use dockpal_agent.Edge.Json.{Json}
use dockpal_agent.Server.Http.{HttpRequest, Reply, Backend, unanswered}
use dockpal_agent.Server.Stacks.{handle_get_stack}
use dockpal_agent.Server.FileRoutes.{download_name, sanitize_filename}
use dockpal_agent.Server.Deploys.{build_auth_header_func}
use dockpal_agent.Server.Sockets.{session_done, event_loop}
use dockpal_agent.Server.Sockets.Delivered.{written, shown, with_messages, event_loop_returns}
use dockpal_agent.Server.Routes.{Route, Decoders, Outside, serve}
use dockpal_agent.Server.Single.{Answers}
use dockpal_agent.Server.Served.{serve-Answers, serve-Allowed}
use dockpal_agent.Edge.Dispatch.{Streaming, handle_request}
use dockpal_agent.Server.Agreement.{Agrees, returning}
use dockpal_agent.Server.Agreement.Requests.{get, methods_agree}

abbrev docker : Backend
docker calls k = ok (codes "{}")

abbrev decoders : Decoders
decoders = record {
  edit = λ b. none;
  exec = λ b. some (codes "ls" ∷ []);
  enabled = λ b. some true;
  deploy = λ b. none;
  name = λ b. some b;
  content = λ b. some b;
  create = λ b. none;
  update = λ b. none;
  stack_deploy = λ b. none;
  pull = λ b. none;
  write = λ b. none;
  form = λ b. none;
  file = λ b. none;
}

abbrev json : Json
json = record {
  edit = λ b. none;
  deploy = λ b. none;
  name = λ b. none;
  pull = λ b. none;
  write = λ b. none;
  content = λ b. none;
  create = λ b. none;
  update = λ b. none;
  stack_deploy = λ b. none;
}

abbrev outside : Outside
outside = record {
  available = true;
  reads = [];
  first_write = true;
  ticks = [];
  picks = [];
  first_label = λ b. none;
  set_service_label = λ text label value. ok text;
  handle_enroll = λ r x. (tt, x);
}

abbrev request : HttpRequest
request = record { id = codes "c0"; name = codes "shop"; service = []; query = []; body = [] }

abbrev streaming : Streaming
streaming = record { logs = []; ticks = []; picks = [] }

abbrev message : Bytes → Bytes → AgentRequest
message method rest = record {
  request_id = codes "r1";
  method = method;
  path = codes "/docker/stacks/stacks/shop" ++ rest;
  query = [];
  body = [];
}

serve-Answers_example :
    Answers
      (serve docker decoders outside (codes "s3cret") (codes "Bearer s3cret") [] Route.exec request)
      unanswered
unfolding dockpal_agent.Server.Served.is_plain
serve-Answers_example =
    serve-Answers docker decoders outside (codes "s3cret") (codes "Bearer s3cret") [] Route.exec
      request unanswered refl

asked :
    (serve docker decoders outside
      (codes "s3cret")
      (codes "bearer s3cret")
      []
      Route.remove
      request
      unanswered).1.calls
    ≡ Call.remove_container (codes "c0") false ∷ []
unfolding serve dockpal_agent.Server.Routes.guarded dockpal_agent.Server.Routes.behind_token
    dockpal_agent.Auth.token_middleware dockpal_agent.Auth.check_header
    dockpal_agent.Base.Bytes.split_first dockpal_agent.Auth.is_bearer dockpal_agent.Base.Bytes.equal
    dockpal_agent.Base.Bytes.to_lower dockpal_agent.Server.Routes.handle
    dockpal_agent.Server.Containers.handle_remove_container dockpal_agent.Server.Http.or_internal
    dockpal_agent.Server.Http.attempt dockpal_agent.Server.Http.write_json
    dockpal_agent.Server.Http.query_get
asked = refl

not_empty : {c : Call} {cs : List Call} → c ∷ cs ≡ [] → ⊥
not_empty h = cc

serve-Allowed_example : Allowed (codes "s3cret") (codes "bearer s3cret") []
serve-Allowed_example =
    serve-Allowed docker decoders outside (codes "s3cret") (codes "bearer s3cret") [] Route.remove
      request unanswered (λ e. cc) (λ e. not_empty (sym asked ∙ e))

event_loop_returns_example :
    event_loop (written (codes "a" ∷ []) ++ session_done (codes "b" ∷ []) ∷ []) unanswered
    ≡ (true, with_messages unanswered (shown (codes "a" ∷ codes "b" ∷ [])))
event_loop_returns_example = event_loop_returns (codes "a" ∷ []) (codes "b" ∷ []) [] unanswered

methods_agree_example :
    Agrees
      (handle_request (returning docker) json streaming (message (codes "GET") []))
      (handle_get_stack docker true request)
      fresh
      unanswered
unfolding dockpal_agent.Base.Bytes.contains_byte dockpal_agent.Base.Bytes.join
methods_agree_example =
    methods_agree docker json (message (codes "GET") []) request streaming
      (handle_get_stack docker true request) fresh unanswered refl ((λ e. cc), refl) refl (get refl)

downloaded : download_name (codes "/etc/a\"b.txt") ≡ codes "a'b.txt"
unfolding download_name dockpal_agent.Base.Bytes.split_last sanitize_filename
    dockpal_agent.Base.Bytes.replace_byte
downloaded = refl

-- The keys of registry_auths are compared with the domain in lower case.
no_auth : build_auth_header_func ((codes "GHCR.io", codes "x") ∷ []) (codes "GHCR.io/a/b") ≡ ok []
unfolding build_auth_header_func dockpal_agent.Base.Bytes.lookup dockpal_agent.Base.Bytes.to_lower
    dockpal_agent.Deploy.Images.extract_image_domain dockpal_agent.Base.Bytes.split_first
    dockpal_agent.Base.Bytes.contains_byte
no_auth = refl
