-- ===== src/Edge/Streams/Drain.antt =====
-- How the chunked replies are numbered, and when they end.
use dockpal_agent.Base.{
  ℕ, ◌+◌, true, false, List, [], ◌∷◌, ◌++◌, ◌≡◌, refl, sym, ◌∙◌, append_assoc, append-nil,
}
use dockpal_agent.Base.Bytes.{Bytes}
use dockpal_agent.Edge.Protocol.{AgentResponse, Body}
use dockpal_agent.Edge.Conn.{Conn, M, ◌>>=◌, send_response, send_stream_chunk, send_stream_end}
use dockpal_agent.Edge.Replies.{Sends}
use dockpal_agent.Edge.Streams.{
  pure, Pick, event, events_closed, session_done, context_done, drain, event_loop,
}

-- The frames of a stream from chunk n on: chunks n, n + 1, … and then, unless the stream is still
-- open, one frame marked done.
pub data IsStream (rid : Bytes) : ℕ → List AgentResponse → Type 0 where
  open_end : {n : ℕ} → IsStream rid n []
  ended :
      {n : ℕ} {f : AgentResponse}
      → f.request_id ≡ rid
      → f.done ≡ true
      → f.stream ≡ false
      → IsStream rid n (f ∷ [])
  chunk :
      {n : ℕ} {f : AgentResponse} {fs : List AgentResponse}
      → f.request_id ≡ rid
      → f.stream ≡ true
      → f.done ≡ false
      → f.chunk ≡ n
      → IsStream rid (n + 1) fs
      → IsStream rid n (f ∷ fs)

module _ (rid : Bytes) (n : ℕ) where
  Sends-open : (c : Conn) → Sends (IsStream rid n) (pure tt) c
  Sends-open c = record {
    frames = [];
    sent = sym (append-nil c.sent);
    hold = open_end;
    calm = refl;
  }

  pub Sends-end : (status : ℕ) (c : Conn) → Sends (IsStream rid n) (send_stream_end rid status) c
  unfolding send_stream_end send_response
  Sends-end status c = record {
    frames =
        record {
          request_id = rid;
          status = status;
          body = Body.none;
          stream = false;
          chunk = 0;
          done = true;
        }
        ∷ [];
    sent = refl;
    hold = ended refl refl refl;
    calm = refl;
  }

  Sends-chunk :
      (bytes : Bytes) (m : M (Unit {0})) (c : Conn)
      → ((c' : Conn) → Sends (IsStream rid (n + 1)) m c')
      → Sends (IsStream rid n) (send_stream_chunk rid n bytes >>= λ _. m) c
  unfolding send_stream_chunk send_response
  Sends-chunk bytes m c h =
      let f : AgentResponse = record {
        request_id = rid;
        status = 200;
        body = Body.value bytes;
        stream = true;
        chunk = n;
        done = false;
      } in
      let c' : Conn = record c { sent = c.sent ++ f ∷ [] } in
      record {
        frames = f ∷ (h c').frames;
        sent = (h c').sent ∙ append_assoc c.sent (f ∷ []) (h c').frames;
        hold = chunk refl refl refl refl (h c').hold;
        calm = (h c').calm;
      }

module _ (finish : M (Unit {0})) (rid : Bytes)
    (finish_ends : (n : ℕ) (c : Conn) → Sends (IsStream rid n) finish c) where
  drain-IsStream :
      (n : ℕ) (picks : List Pick) (c : Conn) → Sends (IsStream rid n) (drain finish rid n picks) c
  unfolding drain
  drain-IsStream n [] c = Sends-open rid n c
  drain-IsStream n (event e ∷ picks) c =
      Sends-chunk rid n e _ c (λ c'. drain-IsStream (n + 1) picks c')
  drain-IsStream n (events_closed ∷ picks) c = finish_ends n c
  drain-IsStream n (session_done ∷ picks) c = drain-IsStream n picks c
  drain-IsStream n (context_done ∷ picks) c = drain-IsStream n picks c

  -- From chunk n on, the event loop sends chunks n, n + 1, …, also across the switch to the draining
  -- loop, and then, unless it is still waiting, one frame marked done, behind which it sends nothing,
  -- if the way out of the loop sends just that frame.
  pub event_loop-IsStream :
      (n : ℕ) (picks : List Pick) (c : Conn)
      → Sends (IsStream rid n) (event_loop finish rid n picks) c
  unfolding event_loop
  event_loop-IsStream n [] c = Sends-open rid n c
  event_loop-IsStream n (event e ∷ picks) c =
      Sends-chunk rid n e _ c (λ c'. event_loop-IsStream (n + 1) picks c')
  event_loop-IsStream n (events_closed ∷ picks) c = finish_ends n c
  event_loop-IsStream n (session_done ∷ picks) c = drain-IsStream n picks c
  event_loop-IsStream n (context_done ∷ picks) c = finish_ends n c
