-- ===== src/Edge/Dispatch/Containers.antt =====
-- What `handleRequest` of internal/edge/client.go does with container, image and stack paths.
use dockpal_agent.Base.{
  List, [], ◌∷◌, ◌++◌, ◌≡◌, ◌≢◌, refl, ap, ◌∙◌, All, ok, err, Bool-cases, inl, inr,
}
use dockpal_agent.Base.Bytes.{Bytes, codes, equal, has_prefix, join, contains_byte}
use dockpal_agent.Base.Bytes.Segments.{IsSegment}
use dockpal_agent.Edge.Protocol.{AgentRequest, Body, Call}
use dockpal_agent.Edge.Conn.{
  Conn, Backend, Returned, returns, panics, panic, by_return, send_response, response, reply,
  internal_error, call, attempt,
}
use dockpal_agent.Edge.Json.{Json}
use dockpal_agent.Edge.Route.{extract_path_param, get_or_empty}
use dockpal_agent.Edge.Route.Laws.{path_of, extract_path_param-path_of}
use dockpal_agent.Edge.Stacks.Unreachable.{
  not_found, under_stacks, handle_stack_request-switch, handle_stack_request-unknown,
}
use dockpal_agent.Edge.Stacks.{stack_switch}
use dockpal_agent.Edge.Dispatch.{
  Streaming, is_get, is_post, under, container_action, post_action, post_container, or_internal,
  deploy_and_images, handle_request,
}

abbrev pub unknown_action : Conn → AgentRequest → Conn
unknown_action c msg = record c {
  sent = c.sent ++ response msg.request_id 400 (Body.error (codes "unknown action")) ∷ [];
}

module _ (docker : Backend) (json : Json) (s : Streaming) (msg : AgentRequest) (c : Conn) where
  -- The parts of a path under /docker/stacks that decide about a request.
  pub handle_request-switch :
      (ws : List Bytes)
      → All IsSegment ws
      → msg.path ≡ path_of (codes "docker" ∷ codes "stacks" ∷ ws)
      → handle_request docker json s msg c ≡ stack_switch docker json s.picks msg ws c
  unfolding handle_request
  handle_request-switch ws segments path =
      rw (ap (λ (p : Bytes). has_prefix p (codes "/docker/stacks")) path ∙ under_stacks ws)
        (handle_stack_request-switch docker json s.picks msg c ws segments path)

  -- A request for /docker/stacks or for /docker/stacks/w/…, with any method and body, is answered
  -- with 404 "unknown stack path" and makes no call, unless the segment w is the word "stacks".
  pub handle_request_stacks_unknown :
      (ws : List Bytes)
      → All IsSegment ws
      → get_or_empty ws 0 ≢ codes "stacks"
      → msg.path ≡ path_of (codes "docker" ∷ codes "stacks" ∷ ws)
      → handle_request docker json s msg c ≡ (tt, not_found c msg)
  unfolding handle_request
  handle_request_stacks_unknown ws segments other path =
      rw (ap (λ (p : Bytes). has_prefix p (codes "/docker/stacks")) path ∙ under_stacks ws)
        (handle_stack_request-unknown docker json s.picks msg c ws segments other path)

  -- POST /docker/containers/{id}/{action}, for every id and every action (start, stop and restart
  -- among them), is answered with 400 "unknown action" and makes no call.
  pub handle_request_post_container :
      (id action : Bytes)
      → IsSegment id
      → IsSegment action
      → msg.method ≡ codes "POST"
      → msg.path ≡ path_of (codes "docker" ∷ codes "containers" ∷ id ∷ action ∷ [])
      → handle_request docker json s msg c ≡ (tt, unknown_action c msg)
  unfolding handle_request has_prefix equal join is_get under post_container container_action
      post_action send_response contains_byte
  handle_request_post_container id action hid haction method path =
      let no_action : extract_path_param msg.path 4 ≡ [] =
        ap (λ (p : Bytes). extract_path_param p 4) path
        ∙ extract_path_param-path_of (codes "docker") (codes "containers" ∷ id ∷ action ∷ []) 4
            (((λ e. cc), refl), (((λ e. cc), refl), (hid, (haction, tt)))) in
      rw no_action (rw (path, method) refl)

  no_id :
      (kind id : Bytes)
      → IsSegment kind
      → IsSegment id
      → msg.path ≡ path_of (codes "docker" ∷ kind ∷ id ∷ [])
      → extract_path_param msg.path 3 ≡ []
  unfolding contains_byte
  no_id kind id hkind hid path =
      ap (λ (p : Bytes). extract_path_param p 3) path
      ∙ extract_path_param-path_of (codes "docker") (kind ∷ id ∷ []) 3
          (((λ e. cc), refl), (hkind, (hid, tt)))

  calls-or_internal :
      (k : Call) (body : Bytes → Body)
      → (or_internal docker msg k body c).1.calls ≡ c.calls ++ k ∷ []
  unfolding or_internal attempt call send_response panic
  calls-or_internal k body = go (docker c.calls k)
    where
      go :
          (r : Returned)
          → (by_return r
              (λ v. reply msg 200 (body v))
              (λ e. reply msg 500 internal_error)
              (record c { calls = c.calls ++ k ∷ [] })).1.calls
            ≡ c.calls ++ k ∷ []
      go (returns (ok v)) = refl
      go (returns (err e)) = refl
      go panics = refl

  -- DELETE /docker/images/{id} removes the image "", whatever id is given.
  pub handle_request_delete_image :
      (id : Bytes)
      → IsSegment id
      → msg.method ≡ codes "DELETE"
      → msg.path ≡ path_of (codes "docker" ∷ codes "images" ∷ id ∷ [])
      → (handle_request docker json s msg c).1.calls ≡ c.calls ++ Call.remove_image [] ∷ []
  unfolding handle_request has_prefix equal join is_get is_post under deploy_and_images
      contains_byte
  handle_request_delete_image id hid method path =
      rw (no_id (codes "images") id ((λ e. cc), refl) hid path) (
        simp (path, method)
          (elim (Bool-cases (equal id (codes "pull"))) [
            | inl e ↦ rw e (calls-or_internal (Call.remove_image []) _)
            | inr e ↦ rw e (calls-or_internal (Call.remove_image []) _)
          ]))
