-- ===== src/Server/Agreement.antt =====
-- The answers of internal/server beside those of internal/edge: how they correspond, with a rule for
-- each way to build a handler.
pub mod Requests
use mathlib.Core.Path.{subst}
use dockpal_agent.Base.{
  ℕ, Bool, true, false, ◌||◌, List, [], ◌∷◌, ◌++◌, ◌≡◌, ◌≢◌, refl, sym, ap, ◌∙◌, Option, none, some,
  Result, ok, err, inl, inr, Bool-cases, if◌then◌else◌,
}
use dockpal_agent.Base.Bytes.{Bytes, codes, equal, contains}
use dockpal_agent.Edge.Protocol.{AgentRequest, AgentResponse, Body, Call}
use dockpal_agent.Edge.Conn as Edge
use dockpal_agent.Edge.Conn.{Conn}
use dockpal_agent.Edge.Json.{Json}
use dockpal_agent.Edge.Stacks as EdgeStacks
use dockpal_agent.Edge.Stacks.{reply_stack_error, send_edge_stack_full, or_taxonomy, stacks_two}
use dockpal_agent.Edge.Stacks.Errors.{edge_stack_error}
use dockpal_agent.Server.Http as Http
use dockpal_agent.Server.Http.{
  Exchange, HttpRequest, Response, Reply, Backend, by_result, write_json, internal_error, read_json,
  bad_request,
}
use dockpal_agent.Server.Stacks as Stacks
use dockpal_agent.Server.Stacks.{
  stack_error, with_cli, or_stack_error, handle_get_stack, handle_update_stack, handle_delete_stack,
  handle_stack_action,
}

-- The JSON object of the direct mode for an object of the edge mode.
unfoldable pub to_reply : Body → Reply
to_reply Body.none = Reply.value []
to_reply (Body.error e) = Reply.error e
to_reply (Body.status s) = Reply.status s
to_reply (Body.message m) = Reply.message m
to_reply (Body.content s) = Reply.content s
to_reply (Body.deploy_id id) = Reply.deploy_id id
to_reply (Body.stacks v) = Reply.stacks v
to_reply (Body.networks v) = Reply.networks v
to_reply (Body.value v) = Reply.value v

-- The same status and the same object; or two internal errors, whose texts differ.
pub data Corresponds (f : AgentResponse) (a : Response) : Type 0 where
  same : f.status ≡ a.code → to_reply f.body ≡ a.body → Corresponds f a
  internal : f.status ≡ 500 → a.code ≡ 500 → Corresponds f a

-- From states with the same calls behind them, both actions make the same calls and send one answer
-- each, and the answers correspond.
pub data Agrees (m : Edge.M (Unit {0})) (n : Http.M (Unit {0})) (c : Conn) (x : Exchange)
    : Type 0 where
  agrees :
      (f : AgentResponse) (a : Response)
      → (m c).1.calls ≡ (n x).1.calls
      → (m c).1.sent ≡ c.sent ++ f ∷ []
      → (n x).1.responses ≡ x.responses ++ a ∷ []
      → Corresponds f a
      → Agrees m n c x

-- The same of the states that two actions have led to.
data Both (sent : List AgentResponse) (responses : List Response) (c : Conn) (x : Exchange)
    : Type 0 where
  both :
      (f : AgentResponse) (a : Response)
      → c.calls ≡ x.calls
      → c.sent ≡ sent ++ f ∷ []
      → x.responses ≡ responses ++ a ∷ []
      → Corresponds f a
      → Both sent responses c x

Agrees-Both :
    {m : Edge.M (Unit {0})} {n : Http.M (Unit {0})} {c : Conn} {x : Exchange}
    → Agrees m n c x
    → Both c.sent x.responses (m c).1 (n x).1
Agrees-Both (agrees f a e1 e2 e3 k) = both f a e1 e2 e3 k

Both-Agrees :
    {m : Edge.M (Unit {0})} {n : Http.M (Unit {0})} {c : Conn} {x : Exchange}
    → Both c.sent x.responses (m c).1 (n x).1
    → Agrees m n c x
Both-Agrees (both f a e1 e2 e3 k) = agrees f a e1 e2 e3 k

-- The calls of a direct handler as the edge mode makes them, where none of them panics.
abbrev pub returning : Backend → Edge.Backend
returning docker calls k = Edge.returns (docker calls k)

-- the edge mode by another name
pub Agrees-same :
    {m m' : Edge.M (Unit {0})} {n : Http.M (Unit {0})} {c : Conn} {x : Exchange}
    → m c ≡ m' c
    → Agrees m' n c x
    → Agrees m n c x
Agrees-same h (agrees f a e1 e2 e3 k) =
    agrees f a (ap (λ y. y.1.calls) h ∙ e1) (ap (λ y. y.1.sent) h ∙ e2) e3 k

pub Agrees-reply :
    (msg : AgentRequest) (code : ℕ) (body : Body) (c : Conn) (x : Exchange)
    → c.calls ≡ x.calls
    → Agrees (Edge.reply msg code body) (write_json code (to_reply body)) c x
unfolding Edge.send_response write_json
Agrees-reply msg code body c x h = agrees _ _ h refl refl (same refl refl)

pub Agrees-internal :
    (msg : AgentRequest) (e : Bytes) (c : Conn) (x : Exchange)
    → c.calls ≡ x.calls
    → Agrees (Edge.reply msg 500 Edge.internal_error) (internal_error e) c x
unfolding Edge.send_response write_json internal_error
Agrees-internal msg e c x h = agrees _ _ h refl refl (internal refl refl)

pub Agrees-decoded :
    {A : Type 0} (msg : AgentRequest) (o : Option A) (f : A → Edge.M (Unit {0}))
    (g : A → Http.M (Unit {0})) (c : Conn) (x : Exchange)
    → c.calls ≡ x.calls
    → ((a : A) → Agrees (f a) (g a) c x)
    → Agrees (Edge.decoded msg o f) (read_json o g) c x
unfolding Edge.decoded read_json to_reply
Agrees-decoded msg none f g c x e h = Agrees-reply msg 400 Edge.invalid_body c x e
Agrees-decoded msg (some a) f g c x e h = h a

pub Agrees-attempt :
    (docker : Backend) (k : Call) (good bad : Bytes → Edge.M (Unit {0}))
    (good' bad' : Bytes → Http.M (Unit {0})) (c : Conn) (x : Exchange)
    → c.calls ≡ x.calls
    → ((v : Bytes) (c' : Conn) (x' : Exchange)
        → c'.calls ≡ x'.calls
        → Agrees (good v) (good' v) c' x')
    → ((e : Bytes) (c' : Conn) (x' : Exchange)
        → c'.calls ≡ x'.calls
        → Agrees (bad e) (bad' e) c' x')
    → Agrees (Edge.attempt (returning docker) k good bad) (Http.attempt docker k good' bad') c x
unfolding Edge.attempt Edge.call Http.attempt
Agrees-attempt docker k good bad good' bad' c x e h h' =
    let c' : Conn = record c { calls = c.calls ++ k ∷ [] } in
    let x' : Exchange = record x { calls = x.calls ++ k ∷ [] } in
    Both-Agrees (
      subst
        (λ r.
          Both c.sent x.responses (Edge.by_return (Edge.returns (docker c.calls k)) good bad c').1
            (by_result r good' bad' x').1)
        (ap (λ l. docker l k) e) (go (docker c.calls k)))
  where
    go :
        (r : Result Bytes)
        → Both c.sent x.responses
            (Edge.by_return (Edge.returns r) good bad (record c { calls = c.calls ++ k ∷ [] })).1
            (by_result r good' bad' (record x { calls = x.calls ++ k ∷ [] })).1
    go (ok v) = Agrees-Both (h v _ _ (ap (λ l. l ++ k ∷ []) e))
    go (err m) = Agrees-Both (h' m _ _ (ap (λ l. l ++ k ∷ []) e))

pub Agrees-stack_error :
    (msg : AgentRequest) (e : Bytes) (c : Conn) (x : Exchange)
    → c.calls ≡ x.calls
    → Agrees (reply_stack_error msg e) (stack_error e) c x
unfolding reply_stack_error stack_error to_reply edge_stack_error
Agrees-stack_error msg e c x h =
    elim (Bool-cases (contains e (codes "another operation is already running"))) [
      | inl busy ↦ rw (busy) (Agrees-reply msg 409 (Body.error e) c x h)
      | inr free ↦ elim (Bool-cases (contains e (codes "not found"))) [
        | inl gone ↦ rw (free, gone) (Agrees-reply msg 404 (Body.error e) c x h)
        | inr found ↦ elim (Bool-cases (contains e (codes "already exists"))) [
          | inl there ↦ rw (free, found, there) (Agrees-reply msg 409 (Body.error e) c x h)
          | inr new ↦ rw (free, found, new) (Agrees-reply msg 400 (Body.error e) c x h)
        ]
      ]
    ]
