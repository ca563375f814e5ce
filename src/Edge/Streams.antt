-- ===== src/Edge/Streams.antt =====
-- The chunked replies of internal/edge: handleContainerLogs, handleStatsStream and the event loops
-- of handleDeployStream and handleEdgeStackDeploy. What the select statements and the readers
-- deliver is a list of steps; a loop whose steps run out is still waiting.
pub mod Drain
pub mod Hang
use dockpal_agent.Base.{ℕ, ◌+◌, Bool, true, false, List, [], ◌∷◌, Result, ok, err, if◌then◌else◌}
use dockpal_agent.Base.Bytes.{Bytes, codes}
use dockpal_agent.Edge.Protocol.{AgentRequest, Body, Call}
use dockpal_agent.Edge.Conn.{
  M, ◌>>=◌, ◌>>◌, Backend, call, attempt, send_response, send_stream_chunk, send_stream_end, reply,
  internal_error,
}

abbrev pub pure : {A : Type 0} → A → M A
pure a c = (a, c)

-- One round of the log loop: the context is cancelled, or `reader.Read` gives bytes and maybe an
-- error (the flag), such as the end of the stream.
pub data LogStep : Type 0 where
  cancelled : LogStep
  read : Bytes → Bool → LogStep

-- `if n > 0 { c.sendStreamChunk(…); chunk++ }`
unfoldable pub log_chunk : Bytes → ℕ → Bytes → M ℕ
log_chunk id chunk [] = pure chunk
log_chunk id chunk (b ∷ bs) = send_stream_chunk id chunk (b ∷ bs) >>= λ _. pure (chunk + 1)

unfoldable pub log_loop : Bytes → ℕ → List LogStep → M (Unit {0})
log_loop id chunk [] = pure tt
log_loop id chunk (cancelled ∷ steps) = send_stream_end id 200
log_loop id chunk (read bytes true ∷ steps) =
    log_chunk id chunk bytes >>= λ _. send_stream_end id 200
log_loop id chunk (read bytes false ∷ steps) =
    log_chunk id chunk bytes >>= λ chunk'. log_loop id chunk' steps

unfoldable pub handle_container_logs : Backend → List LogStep → AgentRequest → Bytes → M (Unit {0})
handle_container_logs docker steps msg id =
    attempt docker (Call.container_logs id) (λ (_ : Bytes). log_loop msg.request_id 0 steps)
      (λ (e : Bytes). reply msg 500 internal_error)

-- One round of the stats loop: the context is done, or the ticker fires.
pub data Tick : Type 0 where
  done tick : Tick

unfoldable pub stats_loop : Backend → Bytes → Bytes → ℕ → List Tick → M (Unit {0})
stats_loop docker rid id chunk [] = pure tt
stats_loop docker rid id chunk (done ∷ ticks) = send_stream_end rid 200
stats_loop docker rid id chunk (tick ∷ ticks) =
    attempt docker (Call.container_stats id)
      (λ (bytes : Bytes).
        send_stream_chunk rid chunk bytes >>= λ _. stats_loop docker rid id (chunk + 1) ticks)
      (λ (e : Bytes). send_stream_end rid 200)

unfoldable pub handle_stats_stream : Backend → List Tick → AgentRequest → Bytes → M (Unit {0})
handle_stats_stream docker ticks msg id =
    attempt docker (Call.container_stats id)
      (λ (bytes : Bytes). send_stream_chunk msg.request_id 0 bytes >>= λ _.
        stats_loop docker msg.request_id id 1 ticks)
      (λ (e : Bytes). send_stream_end msg.request_id 500)

-- What the select of an event loop, or the `range` behind it, picks next.
pub data Pick : Type 0 where
  event : Bytes → Pick
  events_closed session_done context_done : Pick

-- `for event := range session.Events`: only a closed channel ends it.
unfoldable pub drain : M (Unit {0}) → Bytes → ℕ → List Pick → M (Unit {0})
drain finish rid chunk [] = pure tt
drain finish rid chunk (event e ∷ picks) =
    send_stream_chunk rid chunk e >>= λ _. drain finish rid (chunk + 1) picks
drain finish rid chunk (events_closed ∷ picks) = finish
drain finish rid chunk (session_done ∷ picks) = drain finish rid chunk picks
drain finish rid chunk (context_done ∷ picks) = drain finish rid chunk picks

-- The loop of handleDeployStream and of handleEdgeStackDeploy; `finish` is what each way out does.
unfoldable pub event_loop : M (Unit {0}) → Bytes → ℕ → List Pick → M (Unit {0})
event_loop finish rid chunk [] = pure tt
event_loop finish rid chunk (event e ∷ picks) =
    send_stream_chunk rid chunk e >>= λ _. event_loop finish rid (chunk + 1) picks
event_loop finish rid chunk (events_closed ∷ picks) = finish
event_loop finish rid chunk (session_done ∷ picks) = drain finish rid chunk picks
event_loop finish rid chunk (context_done ∷ picks) = finish
