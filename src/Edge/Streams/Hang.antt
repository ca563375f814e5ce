-- ===== src/Edge/Streams/Hang.antt =====
-- The draining loop behind `session.Done`, in handleDeployStream and handleEdgeStackDeploy.
use dockpal_agent.Base.{
  ℕ, ◌+◌, true, false, List, [], ◌∷◌, ◌++◌, ◌≡◌, sym, ◌∙◌, append_assoc, append-nil, ap,
}
use dockpal_agent.Base.Bytes.{Bytes}
use dockpal_agent.Edge.Protocol.{AgentResponse, Body}
use dockpal_agent.Edge.Conn.{Conn, M, send_response, send_stream_chunk}
use dockpal_agent.Edge.Streams.{
  Pick, event, events_closed, session_done, context_done, drain, event_loop,
}

abbrev chunk_frame : Bytes → ℕ → Bytes → AgentResponse
chunk_frame rid n bytes = record {
  request_id = rid;
  status = 200;
  body = Body.value bytes;
  stream = true;
  chunk = n;
  done = false;
}

-- The chunks of the events in a list of picks.
abbrev pub chunks : Bytes → ℕ → List Pick → List AgentResponse
chunks rid n [] = []
chunks rid n (event e ∷ picks) = chunk_frame rid n e ∷ chunks rid (n + 1) picks
chunks rid n (events_closed ∷ picks) = chunks rid n picks
chunks rid n (session_done ∷ picks) = chunks rid n picks
chunks rid n (context_done ∷ picks) = chunks rid n picks

-- No step closes session.Events.
abbrev NeverClosed : List Pick → Type 0
NeverClosed [] = Unit
NeverClosed (events_closed ∷ picks) = ⊥
NeverClosed (event e ∷ picks) = NeverClosed picks
NeverClosed (session_done ∷ picks) = NeverClosed picks
NeverClosed (context_done ∷ picks) = NeverClosed picks

module _ (finish : M (Unit {0})) (rid : Bytes) where
  drain_hangs :
      (n : ℕ) (picks : List Pick) (c : Conn)
      → NeverClosed picks
      → drain finish rid n picks c ≡ (tt, record c { sent = c.sent ++ chunks rid n picks })
  unfolding drain send_stream_chunk send_response
  drain_hangs n [] c h =
      ap (λ (l : List AgentResponse). (tt, record c { sent = l })) (sym (append-nil c.sent))
  drain_hangs n (event e ∷ picks) c h =
      drain_hangs (n + 1) picks (record c { sent = c.sent ++ chunk_frame rid n e ∷ [] }) h
      ∙ ap (λ (l : List AgentResponse). (tt, record c { sent = l }))
          (append_assoc c.sent (chunk_frame rid n e ∷ []) (chunks rid (n + 1) picks))
  drain_hangs n (events_closed ∷ picks) c h = absurd h
  drain_hangs n (session_done ∷ picks) c h = drain_hangs n picks c h
  drain_hangs n (context_done ∷ picks) c h = drain_hangs n picks c h

  -- Once an event loop has picked session.Done, and as long as nothing closes session.Events, it
  -- sends the chunks of the events and nothing else, whatever the context does: no frame marked
  -- done, and no removal of the session.
  pub event_loop_hangs :
      (n : ℕ) (picks : List Pick) (c : Conn)
      → NeverClosed picks
      → event_loop finish rid n (session_done ∷ picks) c
        ≡ (tt, record c { sent = c.sent ++ chunks rid n picks })
  unfolding event_loop
  event_loop_hangs n picks c h = drain_hangs n picks c h
