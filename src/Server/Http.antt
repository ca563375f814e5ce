-- ===== src/Server/Http.antt =====
-- What an HTTP handler of internal/server does: it makes calls, whose results may depend on the calls
-- before, and writes responses or, behind an upgrade, messages to a websocket. `writeJSON`,
-- `readJSON` and `internalError` of internal/server/routes.go.
use dockpal_agent.Base.{ℕ, List, [], ◌∷◌, ◌++◌, Option, none, some, Result, ok, err, if◌then◌else◌}
use dockpal_agent.Base.Bytes.{Bytes, codes, equal}
use dockpal_agent.Edge.Protocol.{Call}

-- A request behind the router: its URL parameters, "" where it has none, its query and its body.
pub record HttpRequest : Type 0 where
  pub id : Bytes
  pub name : Bytes
  pub service : Bytes
  pub query : List (Bytes × Bytes)
  pub body : Bytes

-- The JSON objects that are written. `value` is the encoding of what a call returned.
pub data Reply : Type 0 where
  error status message content stacks networks deploy_id attempt_id value : Bytes → Reply
  status_error : Bytes → Bytes → Reply
  updated : Bytes → Reply
  ok_true : Reply
  attachment : Bytes → Bytes → Reply

pub record Response : Type 0 where
  pub code : ℕ
  pub body : Reply

pub record Exchange : Type 0 where
  pub calls : List Call
  pub responses : List Response
  pub messages : List Reply

abbrev pub unanswered : Exchange
unanswered = record { calls = []; responses = []; messages = [] }

-- An action of a handler; a socket loop says whether it has returned.
abbrev pub M : Type 0 → Type 0
M A = Exchange → A × Exchange

-- What a call returns behind the calls before it. A call that panics is left out: the server's Recoverer
-- answers it in the handler's place.
abbrev pub Backend : Type 0
Backend = List Call → Call → Result Bytes

unfoldable pub call : Backend → Call → M (Result Bytes)
call docker k x = (docker x.calls k, record x { calls = x.calls ++ k ∷ [] })

-- `v, err := call`, and what follows it: on a result, and on an error.
abbrev pub by_result : {A : Type 0} → Result Bytes → (Bytes → M A) → (Bytes → M A) → M A
by_result (ok v) good bad = good v
by_result (err e) good bad = bad e

unfoldable pub attempt : {A : Type 0} → Backend → Call → (Bytes → M A) → (Bytes → M A) → M A
attempt docker k good bad x =
    by_result (docker x.calls k) good bad (record x { calls = x.calls ++ k ∷ [] })

unfoldable pub write_json : ℕ → Reply → M (Unit {0})
write_json code body x =
    (tt, record x { responses = x.responses ++ record { code = code; body = body } ∷ [] })

unfoldable pub internal_error : Bytes → M (Unit {0})
internal_error e = write_json 500 (Reply.error (codes "internal server error"))

abbrev pub bad_request : Bytes → M (Unit {0})
bad_request text = write_json 400 (Reply.error text)

-- readJSON, whose failure is answered with 400
unfoldable pub read_json : {A : Type 0} → Option A → (A → M (Unit {0})) → M (Unit {0})
read_json none handle = bad_request (codes "invalid request body")
read_json (some a) handle = handle a

-- conn.WriteMessage and conn.WriteJSON
unfoldable pub send : Reply → M (Unit {0})
send v x = (tt, record x { messages = x.messages ++ v ∷ [] })

-- r.URL.Query().Get(key)
unfoldable pub query_get : Bytes → List (Bytes × Bytes) → Bytes
query_get key [] = []
query_get key ((k, v) ∷ rest) = if equal k key then v else query_get key rest

-- a call whose error is an internal error
unfoldable pub or_internal : Backend → Call → (Bytes → Reply) → M (Unit {0})
or_internal docker k body = attempt docker k (λ v. write_json 200 (body v)) (λ e. internal_error e)

abbrev pub done_text : Bytes → Bytes → Reply
done_text word _ = Reply.status word
