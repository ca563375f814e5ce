-- ===== src/Edge/Conn.antt =====
-- What a handler of internal/edge does: it makes calls, whose results may depend on the calls
-- before, and sends frames. `sendResponse`, `sendStreamChunk` and `sendStreamEnd` of client.go;
-- a failed write to the socket is ignored there, so a frame counts as sent when it is written.
use dockpal_agent.Base.{
  ℕ, Bool, true, false, List, [], ◌∷◌, ◌++◌, Result, ok, err, Option, none, some,
}
use dockpal_agent.Base.Bytes.{Bytes, codes}
use dockpal_agent.Edge.Protocol.{AgentRequest, AgentResponse, Body, Call}

pub record Conn : Type 0 where
  pub calls : List Call
  pub sent : List AgentResponse
  pub panicked : Bool

abbrev pub fresh : Conn
fresh = record { calls = []; sent = []; panicked = false }

-- An action of a handler.
abbrev pub M : Type 0 → Type 0
M A = Conn → A × Conn

infixl 5 ◌>>=◌ ◌>>◌
abbrev pub ◌>>=◌ : {A B : Type 0} → M A → (A → M B) → M B
◌>>=◌ m f c = f (m c).0 (m c).1

abbrev pub ◌>>◌ : {A B : Type 0} → M A → M B → M B
m >> n = m >>= λ _. n

-- What a call comes to: a result with an error, or a panic (in package docker,
-- network.MustParsePort panics on a port of a compose file).
pub data Returned : Type 0 where
  returns : Result Bytes → Returned
  panics : Returned

-- The behaviour of packages docker and host: what a call comes to behind the calls before it.
abbrev pub Backend : Type 0
Backend = List Call → Call → Returned

unfoldable pub call : Backend → Call → M Returned
call docker k c = (docker c.calls k, record c { calls = c.calls ++ k ∷ [] })

-- A panic ends the handler: an index or a slice bound out of range, or a panic of a call, since
-- nothing recovers.
unfoldable pub panic : M (Unit {0})
panic c = (tt, record c { panicked = true })

-- `v, err := call`, and what follows it: on a result, and on an error.
abbrev pub by_return : Returned → (Bytes → M (Unit {0})) → (Bytes → M (Unit {0})) → M (Unit {0})
by_return (returns (ok v)) good bad = good v
by_return (returns (err e)) good bad = bad e
by_return panics good bad = panic

unfoldable pub attempt :
    Backend → Call → (Bytes → M (Unit {0})) → (Bytes → M (Unit {0})) → M (Unit {0})
attempt docker k good bad = call docker k >>= λ r. by_return r good bad

unfoldable pub send_response : AgentResponse → M (Unit {0})
send_response r c = (tt, record c { sent = c.sent ++ r ∷ [] })

-- AgentResponse{RequestID: id, Status: status, Body: body}
abbrev pub response : Bytes → ℕ → Body → AgentResponse
response id status body = record {
  request_id = id;
  status = status;
  body = body;
  stream = false;
  chunk = 0;
  done = false;
}

unfoldable pub send_stream_chunk : Bytes → ℕ → Bytes → M (Unit {0})
send_stream_chunk id chunk payload = send_response (record {
  request_id = id;
  status = 200;
  body = Body.value payload;
  stream = true;
  chunk = chunk;
  done = false;
})

unfoldable pub send_stream_end : Bytes → ℕ → M (Unit {0})
send_stream_end id status = send_response (record {
  request_id = id;
  status = status;
  body = Body.none;
  stream = false;
  chunk = 0;
  done = true;
})

abbrev pub reply : AgentRequest → ℕ → Body → M (Unit {0})
reply msg status body = send_response (response msg.request_id status body)

abbrev pub internal_error : Body
internal_error = Body.error (codes "internal error")

abbrev pub invalid_body : Body
invalid_body = Body.error (codes "invalid request body")

-- `json.Unmarshal` into a request: a body that does not decode is answered with 400.
unfoldable pub decoded : {A : Type 0} → AgentRequest → Option A → (A → M (Unit {0})) → M (Unit {0})
decoded msg none handle = reply msg 400 invalid_body
decoded msg (some a) handle = handle a
