-- ===== src/Server/Sockets/Delivered.antt =====
-- What the websocket loops of internal/server deliver.
use dockpal_agent.Base.{true, List, [], ◌∷◌, ◌++◌, map, ◌≡◌, sym, ap, ◌∙◌, append-nil, append_assoc}
use dockpal_agent.Base.Bytes.{Bytes}
use dockpal_agent.Server.Http.{Exchange, Reply, send}
use dockpal_agent.Server.Sockets.{Pick, event, session_done, drain, event_loop}

-- The messages of a list of events.
abbrev pub shown : List Bytes → List Reply
shown es = map Reply.value es

-- the picks of events that are written
abbrev pub written : List Bytes → List Pick
written es = map (λ e. event e true) es

abbrev pub with_messages : Exchange → List Reply → Exchange
with_messages x ms = record x { messages = x.messages ++ ms }

more :
    (x : Exchange) (m : Reply) (ms : List Reply)
    → with_messages (with_messages x (m ∷ [])) ms ≡ with_messages x (m ∷ ms)
more x m ms =
    ap (λ (l : List Reply). record x { messages = l }) (append_assoc x.messages (m ∷ []) ms)

none_more : (x : Exchange) → x ≡ with_messages x []
none_more x = ap (λ (l : List Reply). record x { messages = l }) (sym (append-nil x.messages))

drain_lem : (rest : List Bytes) (x : Exchange) → drain rest x ≡ (true, with_messages x (shown rest))
unfolding drain send
drain_lem [] x = ap (λ y. (true, y)) (none_more x)
drain_lem (e ∷ rest) x =
    drain_lem rest (with_messages x (Reply.value e ∷ []))
    ∙ ap (λ y. (true, y)) (more x (Reply.value e) (shown rest))

-- The event loop of the direct mode returns once it picks session.Done, however the channel goes on:
-- behind the events that it has written before, it writes those that the channel holds then.
pub event_loop_returns :
    (before rest : List Bytes) (picks : List Pick) (x : Exchange)
    → event_loop (written before ++ session_done rest ∷ picks) x
      ≡ (true, with_messages x (shown (before ++ rest)))
unfolding event_loop send
event_loop_returns [] rest picks x = drain_lem rest x
event_loop_returns (e ∷ before) rest picks x =
    event_loop_returns before rest picks (with_messages x (Reply.value e ∷ []))
    ∙ ap (λ y. (true, y)) (more x (Reply.value e) (shown (before ++ rest)))
