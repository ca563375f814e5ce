-- ===== src/Edge/Dispatch/Single.antt =====
-- The replies of handleRequest (internal/edge/client.go) on paths that start no stream.
use dockpal_agent.Base.{Bool, false, ◌≡◌, ◌||◌, arith, Option, none, some}
use dockpal_agent.Base.Bytes.{Bytes, codes, equal, has_suffix, has_prefix}
use dockpal_agent.Edge.Protocol.{AgentRequest, Body, Call}
use dockpal_agent.Edge.Conn.{Conn, Backend}
use dockpal_agent.Edge.Json.{Json}
use dockpal_agent.Edge.Replies.{Replies, OneReply, reply_rules, Replies-skip, Replies-cases}
use dockpal_agent.Edge.Dispatch.{
  or_internal, or_text, files_and_host, write_file, host_info, host_stats, post_container,
  container_action, post_action, delete_container, put_container, get_container, deploy_and_images,
  deploy_compose, pull_image, is_post, handle_request, Streaming,
}
use dockpal_agent.Edge.Route.{extract_path_param}
use dockpal_agent.Edge.Stacks.Single.{Replies-handle_stack_request}

module _ (docker : Backend) (msg : AgentRequest) where
  Replies-or_internal :
      (k : Call) (body : Bytes → Body) (c : Conn)
      → Replies docker (OneReply msg.request_id) (or_internal docker msg k body) c
  unfolding or_internal
  Replies-or_internal k body c = search reply_rules

  Replies-or_text :
      (k : Call) (body : Bytes → Body) (c : Conn)
      → Replies docker (OneReply msg.request_id) (or_text docker msg k body) c
  unfolding or_text
  Replies-or_text k body c = search reply_rules

  ruleset rules = (reply_rules, Replies-or_internal, Replies-or_text)

  Replies-write_file :
      (json : Json) (c : Conn)
      → Replies docker (OneReply msg.request_id) (write_file docker json msg) c
  unfolding write_file
  Replies-write_file json c = search rules

  Replies-host_info : (c : Conn) → Replies docker (OneReply msg.request_id) (host_info docker msg) c
  unfolding host_info
  Replies-host_info c = search rules

  Replies-host_stats :
      (c : Conn) → Replies docker (OneReply msg.request_id) (host_stats docker msg) c
  unfolding host_stats
  Replies-host_stats c = search rules

  Replies-files_and_host :
      (json : Json) (c : Conn)
      → Replies docker (OneReply msg.request_id) (files_and_host docker json msg) c
  unfolding files_and_host
  Replies-files_and_host json c =
      search (rules, Replies-write_file, Replies-host_info, Replies-host_stats) depth 10

  Replies-deploy_and_images :
      (json : Json) (s : Streaming) (c : Conn)
      → equal msg.path (codes "/docker/deploy/stream") ≡ false
      → Replies docker (OneReply msg.request_id) (deploy_and_images docker json s msg) c
  unfolding deploy_and_images deploy_compose pull_image is_post
  Replies-deploy_and_images json s c h =
      search (Replies-skip, rules, Replies-files_and_host) depth 14

  Replies-post_container :
      (c : Conn) → Replies docker (OneReply msg.request_id) (post_container docker msg) c
  unfolding post_container post_action
  Replies-post_container c =
      go (container_action docker (extract_path_param msg.path 4) (extract_path_param msg.path 3))
    where
      go :
          (k : Option Call)
          → Replies docker
              (OneReply msg.request_id)
              (post_action docker msg (extract_path_param msg.path 4) k)
              c
      go none = search rules
      go (some k) = search rules

  Replies-delete_container :
      (c : Conn) → Replies docker (OneReply msg.request_id) (delete_container docker msg) c
  unfolding delete_container
  Replies-delete_container c = search rules

  Replies-put_container :
      (json : Json) (c : Conn)
      → Replies docker (OneReply msg.request_id) (put_container docker json msg) c
  unfolding put_container
  Replies-put_container json c = search rules

  Replies-get_container :
      (s : Streaming) (c : Conn)
      → has_suffix msg.path (codes "/logs") ≡ false
      → has_suffix msg.path (codes "/stats/ws") ≡ false
      → Replies docker (OneReply msg.request_id) (get_container docker s msg) c
  unfolding get_container
  Replies-get_container s c h k = rw (h, k) (search rules)

-- The paths behind which a stream may start: logs, stats over a socket, and the two deployments.
abbrev is_streamed : Bytes → Bool
is_streamed path =
    has_suffix path (codes "/logs")
    || has_suffix path (codes "/stats/ws")
    || equal path (codes "/docker/deploy/stream")
    || equal (extract_path_param path 4) (codes "deploy")

-- A request whose path starts no stream is answered with exactly one frame, which carries the
-- request's id and is no chunk, whatever package docker returns, and the handler does not panic;
-- unless a call of package docker panics, which ends the handler without any frame.
pub handle_request-OneReply :
    (docker : Backend) (json : Json) (s : Streaming) (msg : AgentRequest) (c : Conn)
    → is_streamed msg.path ≡ false
    → Replies docker (OneReply msg.request_id) (handle_request docker json s msg) c
unfolding handle_request
handle_request-OneReply docker json s msg c h =
    let logs : has_suffix msg.path (codes "/logs") ≡ false = ground arith in
    let ws : has_suffix msg.path (codes "/stats/ws") ≡ false = ground arith in
    let stream : equal msg.path (codes "/docker/deploy/stream") ≡ false = ground arith in
    let deploy : equal (extract_path_param msg.path 4) (codes "deploy") ≡ false = ground arith in
    Replies-cases (has_prefix msg.path (codes "/docker/stacks")) _ _ c
      (λ stacks. Replies-handle_stack_request docker json s.picks msg c stacks deploy)
      (λ _.
        search
          (
            reply_rules, Replies-or_internal, Replies-get_container, Replies-post_container,
            Replies-delete_container, Replies-put_container, Replies-deploy_and_images,
          )
          depth 14)
