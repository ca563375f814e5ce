-- ===== src/Edge/Stacks/Unreachable.antt =====
-- `handleStackRequest` of internal/edge/stacks.go, on the paths that its comments name.
use dockpal_agent.Base.{List, [], ◌∷◌, ◌++◌, ◌≡◌, ◌≢◌, refl, ap, ◌∙◌, true, arith, All}
use dockpal_agent.Base.Bytes.{Bytes, codes, has_prefix, join, contains_byte}
use dockpal_agent.Base.Bytes.Laws.{equal_iff}
use dockpal_agent.Base.Bytes.Segments.{IsSegment}
use dockpal_agent.Edge.Protocol.{AgentRequest, Body}
use dockpal_agent.Edge.Conn.{Conn, Backend, send_response, response}
use dockpal_agent.Edge.Json.{Json}
use dockpal_agent.Edge.Route.{path_parts, get_or_empty}
use dockpal_agent.Edge.Route.Laws.{path_of, path_parts-path_of}
use dockpal_agent.Edge.Streams.{Pick}
use dockpal_agent.Edge.Stacks.{unknown_stack_path, stack_switch, from_two, handle_stack_request}

abbrev pub not_found : Conn → AgentRequest → Conn
not_found c msg = record c {
  sent = c.sent ++ response msg.request_id 404 (Body.error (codes "unknown stack path")) ∷ [];
}

pub under_stacks :
    (ws : List Bytes)
    → has_prefix (path_of (codes "docker" ∷ codes "stacks" ∷ ws)) (codes "/docker/stacks") ≡ true
unfolding has_prefix join
under_stacks [] = refl
under_stacks (w ∷ ws) = refl

module _ (docker : Backend) (json : Json) (picks : List Pick) (msg : AgentRequest) (c : Conn) where
  stack_switch_unknown :
      (sub : List Bytes)
      → get_or_empty sub 0 ≢ codes "stacks"
      → stack_switch docker json picks msg sub c ≡ unknown_stack_path msg c
  unfolding stack_switch
  stack_switch_unknown [] h = refl
  stack_switch_unknown (a ∷ []) h = ground (arith, equal_iff a (codes "stacks"))
  stack_switch_unknown (a ∷ b ∷ []) h = ground (arith, equal_iff a (codes "stacks"))
  stack_switch_unknown (a ∷ b ∷ d ∷ []) h = ground (arith, equal_iff a (codes "stacks"))
  stack_switch_unknown (a ∷ b ∷ d ∷ e ∷ []) h = refl
  stack_switch_unknown (a ∷ b ∷ d ∷ e ∷ f ∷ []) h = ground (arith, equal_iff a (codes "stacks"))
  stack_switch_unknown (a ∷ b ∷ d ∷ e ∷ f ∷ g ∷ rest) h = refl

  -- Of the segments of a path, those behind the second are given to the switch.
  pub handle_stack_request-switch :
      (ws : List Bytes)
      → All IsSegment ws
      → msg.path ≡ path_of (codes "docker" ∷ codes "stacks" ∷ ws)
      → handle_stack_request docker json picks msg c ≡ stack_switch docker json picks msg ws c
  unfolding handle_stack_request from_two contains_byte
  handle_stack_request-switch ws segments path =
      let parts : path_parts msg.path ≡ codes "docker" ∷ codes "stacks" ∷ ws =
        ap path_parts path
        ∙ path_parts-path_of (codes "docker") (codes "stacks" ∷ ws)
            (((λ e. cc), refl), (((λ e. cc), refl), segments)) in
      rw (parts, from_two) refl

  pub handle_stack_request-unknown :
      (ws : List Bytes)
      → All IsSegment ws
      → get_or_empty ws 0 ≢ codes "stacks"
      → msg.path ≡ path_of (codes "docker" ∷ codes "stacks" ∷ ws)
      → handle_stack_request docker json picks msg c ≡ (tt, not_found c msg)
  unfolding unknown_stack_path send_response
  handle_stack_request-unknown ws segments other path =
      handle_stack_request-switch ws segments path ∙ stack_switch_unknown ws other
