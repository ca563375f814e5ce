-- ===== src/Edge/Stacks/Single.antt =====
-- The replies of handleStackRequest (internal/edge/stacks.go), by the groups of its switch.
use dockpal_agent.Base.{List, [], ◌∷◌, ◌≡◌, ap, ◌∙◌, false, true, Option, none, some}
use dockpal_agent.Base.Bytes.{Bytes, codes, equal, has_prefix}
use dockpal_agent.Base.Bytes.Laws.{has_prefix-split}
use dockpal_agent.Edge.Protocol.{AgentRequest, Body, Call}
use dockpal_agent.Edge.Conn.{Conn, Backend}
use dockpal_agent.Edge.Json.{Json}
use dockpal_agent.Edge.Replies.{Replies, OneReply, reply_rules, Replies-skip}
use dockpal_agent.Edge.Route.{path_parts, extract_path_param, get_or_empty}
use dockpal_agent.Edge.Route.Laws.{path_parts_stacks}
use dockpal_agent.Edge.Streams.{Pick}
use dockpal_agent.Edge.Stacks.{
  reply_stack_error, unknown_stack_path, or_internal, or_taxonomy, send_edge_stack_full,
  save_and_show, stacks_one, stacks_two, stacks_three, stacks_five, run_action, stack_switch,
  from_two, handle_stack_request,
}

module _ (docker : Backend) (json : Json) (picks : List Pick) (msg : AgentRequest) where
  Replies-reply_stack_error :
      (e : Bytes) (c : Conn) → Replies docker (OneReply msg.request_id) (reply_stack_error msg e) c
  unfolding reply_stack_error
  Replies-reply_stack_error e c = search reply_rules

  Replies-unknown : (c : Conn) → Replies docker (OneReply msg.request_id) (unknown_stack_path msg) c
  unfolding unknown_stack_path
  Replies-unknown c = search reply_rules

  Replies-or_internal :
      (k : Call) (body : Bytes → Body) (c : Conn)
      → Replies docker (OneReply msg.request_id) (or_internal docker msg k body) c
  unfolding or_internal
  Replies-or_internal k body c = search reply_rules

  ruleset rules = (reply_rules, Replies-reply_stack_error, Replies-unknown, Replies-or_internal)

  Replies-or_taxonomy :
      (k : Call) (body : Bytes → Body) (c : Conn)
      → Replies docker (OneReply msg.request_id) (or_taxonomy docker msg k body) c
  unfolding or_taxonomy
  Replies-or_taxonomy k body c = search rules

  Replies-stack_full :
      (name action : Bytes) (c : Conn)
      → Replies docker (OneReply msg.request_id) (send_edge_stack_full docker msg name action) c
  unfolding send_edge_stack_full
  Replies-stack_full name action c = search rules

  Replies-run_action :
      (name action : Bytes) (k : Option Call) (c : Conn)
      → Replies docker (OneReply msg.request_id) (run_action docker msg name action k) c
  unfolding run_action
  Replies-run_action name action none c = search rules
  Replies-run_action name action (some k) c = search (rules, Replies-stack_full)

  Replies-stacks_one :
      (c : Conn) → Replies docker (OneReply msg.request_id) (stacks_one docker json msg) c
  unfolding stacks_one save_and_show
  Replies-stacks_one c = search rules depth 12

  Replies-stacks_two :
      (name : Bytes) (c : Conn)
      → Replies docker (OneReply msg.request_id) (stacks_two docker json msg name) c
  unfolding stacks_two save_and_show
  Replies-stacks_two name c = search (rules, Replies-or_taxonomy) depth 12

  Replies-stacks_three :
      (name last : Bytes) (c : Conn)
      → equal last (codes "deploy") ≡ false
      → Replies docker (OneReply msg.request_id) (stacks_three docker json picks msg name last) c
  unfolding stacks_three
  Replies-stacks_three name last c h =
      search (Replies-skip, rules, Replies-or_taxonomy, Replies-run_action) depth 12

  Replies-stacks_five :
      (name s2 svc action : Bytes) (c : Conn)
      → Replies docker (OneReply msg.request_id) (stacks_five docker msg name s2 svc action) c
  unfolding stacks_five
  Replies-stacks_five name s2 svc action c = search (rules, Replies-run_action) depth 12

  ruleset sized = (rules, Replies-stacks_one, Replies-stacks_two, Replies-stacks_five)

  Replies-stack_switch :
      (sub : List Bytes) (c : Conn)
      → equal (get_or_empty sub 2) (codes "deploy") ≡ false
      → Replies docker (OneReply msg.request_id) (stack_switch docker json picks msg sub) c
  unfolding stack_switch
  Replies-stack_switch [] c h = Replies-unknown c
  Replies-stack_switch (s0 ∷ []) c h = search sized
  Replies-stack_switch (s0 ∷ name ∷ []) c h = search sized
  Replies-stack_switch (s0 ∷ name ∷ last ∷ []) c h = search (sized, Replies-stacks_three)
  Replies-stack_switch (s0 ∷ name ∷ s2 ∷ svc ∷ []) c h = Replies-unknown c
  Replies-stack_switch (s0 ∷ name ∷ s2 ∷ svc ∷ action ∷ []) c h = search sized
  Replies-stack_switch (s0 ∷ name ∷ s2 ∷ svc ∷ action ∷ more ∷ rest) c h = Replies-unknown c

  -- parts[2:] is in range behind the prefix that the dispatcher tests.
  pub Replies-handle_stack_request :
      (c : Conn)
      → has_prefix msg.path (codes "/docker/stacks") ≡ true
      → equal (extract_path_param msg.path 4) (codes "deploy") ≡ false
      → Replies docker (OneReply msg.request_id) (handle_stack_request docker json picks msg) c
  unfolding handle_stack_request extract_path_param from_two
  Replies-handle_stack_request c under h =
      let (r, e) = has_prefix-split msg.path (codes "/docker/stacks") under in
      let (b, sub, parts) = path_parts_stacks r in
      let whole : path_parts msg.path ≡ codes "docker" ∷ b ∷ sub = ap path_parts e ∙ parts in
      rw (whole, from_two) (Replies-stack_switch sub c (rw whole at h))
