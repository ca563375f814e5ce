-- ===== src/Server/Agreement/Requests.antt =====
-- The handlers of a stack in internal/server/stacks.go beside the clauses of internal/edge/stacks.go.
use dockpal_agent.Base.{true, false, List, [], ◌∷◌, ◌≡◌, refl, ap, Option}
use dockpal_agent.Base.Bytes.{Bytes, codes, equal, contains_byte}
use dockpal_agent.Base.Bytes.Segments.{IsSegment}
use dockpal_agent.Edge.Protocol.{AgentRequest, Body, Call}
use dockpal_agent.Edge.Conn as Edge
use dockpal_agent.Edge.Conn.{Conn}
use dockpal_agent.Edge.Json.{Json, UpdateRequest}
use dockpal_agent.Edge.Dispatch.{Streaming, handle_request}
use dockpal_agent.Edge.Dispatch.Containers.{handle_request-switch}
use dockpal_agent.Edge.Route.Laws.{path_of}
use dockpal_agent.Edge.Streams.{Pick}
use dockpal_agent.Edge.Stacks as EdgeStacks
use dockpal_agent.Edge.Stacks.{reply_stack_error, or_taxonomy, stacks_two, stack_switch}
use dockpal_agent.Server.Http as Http
use dockpal_agent.Server.Http.{Exchange, HttpRequest, Backend}
use dockpal_agent.Server.Stacks as Stacks
use dockpal_agent.Server.Stacks.{
  with_cli, or_stack_error, handle_get_stack, handle_update_stack, handle_delete_stack,
}
use dockpal_agent.Server.Agreement.{
  to_reply, returning, Agrees, Agrees-same, Agrees-reply, Agrees-internal, Agrees-decoded,
  Agrees-attempt, Agrees-stack_error,
}

-- The handler that registerStackRoutes gives to a method of /stacks/{name}, where a docker compose CLI
-- is there.
pub data Registered (docker : Backend) (json : Json) (r : HttpRequest) (method body : Bytes)
    : Http.M (Unit {0}) → Type 0 where
  get : method ≡ codes "GET" → Registered docker json r method body (handle_get_stack docker true r)
  put :
      (update : Option UpdateRequest)
      → method ≡ codes "PUT"
      → update ≡ json.update body
      → Registered docker json r method body (handle_update_stack docker true update r)
  delete :
      method ≡ codes "DELETE"
      → Registered docker json r method body (handle_delete_stack docker true r)

module _ (docker : Backend) (json : Json) (msg : AgentRequest) (r : HttpRequest) where
  Agrees-update :
      (update : Option UpdateRequest) (c : Conn) (x : Exchange)
      → c.calls ≡ x.calls
      → Agrees
          (Edge.decoded msg update (λ u.
            EdgeStacks.save_and_show
              (returning docker)
              msg
              (Call.save_stack r.name u.compose u.env false)
              r.name
              (λ v. Edge.reply msg 200 (Body.value v))))
          (handle_update_stack docker true update r)
          c
          x
  unfolding handle_update_stack EdgeStacks.save_and_show Stacks.save_and_show to_reply
  Agrees-update update c x h = Agrees-decoded msg update _ _ c x h λ u.
      Agrees-attempt docker (Call.save_stack r.name u.compose u.env false) _ _ _ _ c x h
        (λ v c' x' h'.
          Agrees-attempt docker (Call.get_stack r.name) _ _ _ _ c' x' h'
            (λ v c' x' h'. Agrees-reply msg 200 (Body.value v) c' x' h')
            (λ e c' x' h'. Agrees-internal msg e c' x' h'))
        (λ e c' x' h'. Agrees-stack_error msg e c' x' h')

  Agrees-get :
      (c : Conn) (x : Exchange)
      → c.calls ≡ x.calls
      → Agrees
          (or_taxonomy (returning docker) msg (Call.get_stack_full r.name) Body.value)
          (handle_get_stack docker true r)
          c
          x
  unfolding or_taxonomy handle_get_stack with_cli or_stack_error to_reply
  Agrees-get c x h =
      Agrees-attempt docker (Call.get_stack_full r.name) _ _ _ _ c x h
        (λ v c' x' h'. Agrees-reply msg 200 (Body.value v) c' x' h')
        (λ e c' x' h'. Agrees-stack_error msg e c' x' h')

  Agrees-delete :
      (c : Conn) (x : Exchange)
      → c.calls ≡ x.calls
      → Agrees
          (or_taxonomy
            (returning docker)
            msg
            (Call.stack_delete r.name)
            (λ _. Body.message (codes "deleted")))
          (handle_delete_stack docker true r)
          c
          x
  unfolding or_taxonomy handle_delete_stack with_cli or_stack_error to_reply
  Agrees-delete c x h =
      Agrees-attempt docker (Call.stack_delete r.name) _ _ _ _ c x h
        (λ v c' x' h'. Agrees-reply msg 200 (Body.message (codes "deleted")) c' x' h')
        (λ e c' x' h'. Agrees-stack_error msg e c' x' h')

  on : {method : Bytes} → msg.method ≡ method → (m : Bytes) → equal msg.method m ≡ equal method m
  on e m = ap (λ a. equal a m) e

  module _ (c : Conn) (x : Exchange) (h : c.calls ≡ x.calls) (picks : List Pick) where
    switch_methods :
        (n : Http.M (Unit {0}))
        → Registered docker json r msg.method msg.body n
        → Agrees
            (stack_switch (returning docker) json picks msg (codes "stacks" ∷ r.name ∷ []))
            n
            c
            x
    unfolding stack_switch stacks_two equal
    switch_methods n (get e) = rw (on e (codes "GET")) (Agrees-get c x h)
    switch_methods n (put u e same) =
        rw (on e (codes "GET"), on e (codes "PUT"), ← same) (Agrees-update u c x h)
    switch_methods n (delete e) =
        rw (on e (codes "GET"), on e (codes "PUT"), on e (codes "DELETE")) (Agrees-delete c x h)

  -- The edge mode takes a GET, PUT or DELETE of /docker/stacks/stacks/{name}, with "stacks" twice, as the
  -- direct mode takes one of /docker/stacks/{name}: with the same calls behind them, with a compose CLI
  -- there, with calls that do not panic and a body that both decode to the same, they make the same
  -- calls, in the same order, and send one answer each, with the same status and the same object, up to
  -- the text of an internal error.
  pub methods_agree :
      (s : Streaming) (n : Http.M (Unit {0})) (c : Conn) (x : Exchange)
      → c.calls ≡ x.calls
      → IsSegment r.name
      → msg.path ≡ path_of (codes "docker" ∷ codes "stacks" ∷ codes "stacks" ∷ r.name ∷ [])
      → Registered docker json r msg.method msg.body n
      → Agrees (handle_request (returning docker) json s msg) n c x
  unfolding contains_byte
  methods_agree s n c x h name path registered =
      Agrees-same
        (handle_request-switch (returning docker) json s msg c (codes "stacks" ∷ r.name ∷ [])
          (((λ e. cc), refl), (name, tt)) path)
        (switch_methods c x h s.picks n registered)
