-- ===== src/Server/Sockets.antt =====
-- The websocket handlers of internal/server: logs and stats of a container, and the events of a
-- deployment. What readers, tickers and channels deliver is a list of steps. A loop comes to true
-- when the handler has returned, and to false when the steps run out while it still waits.
pub mod Delivered
use dockpal_agent.Base.{
  Bool, true, false, not, ◌&&◌, List, [], ◌∷◌, ◌++◌, Option, none, some, Result, ok, err,
  if◌then◌else◌,
}
use dockpal_agent.Base.Bytes.{Bytes, codes, equal}
use dockpal_agent.Edge.Protocol.{Call}
use dockpal_agent.Server.Http.{Exchange, HttpRequest, Reply, M, Backend, attempt, write_json, send}

infixl 5 ◌>>=◌
abbrev pub ◌>>=◌ : {A B : Type 0} → M A → (A → M B) → M B
(m >>= f) x = f (m x).0 (m x).1

abbrev pub returned : M Bool
returned x = (true, x)

abbrev pub waiting : M Bool
waiting x = (false, x)

infixl 5 ◌>>◌
abbrev pub ◌>>◌ : {A B : Type 0} → M A → M B → M B
m >> n = m >>= λ _. n

-- One round of `reader.Read`: what it read, and whether it gave an error, such as the end.
abbrev pub Read : Type 0
Read = Bytes × Bool

-- `if n > 0 { conn.WriteMessage(…) }`
unfoldable pub relay : Bytes → M (Unit {0})
relay [] x = (tt, x)
relay (b ∷ bs) x = send (Reply.value (b ∷ bs)) x

unfoldable pub log_loop : List Read → M Bool
log_loop [] = waiting
log_loop ((bytes, true) ∷ reads) = relay bytes >> returned
log_loop ((bytes, false) ∷ reads) = relay bytes >> log_loop reads

-- One round of the stats loop: the context is done, or the ticker fires; the flag says whether the
-- write that follows succeeds.
pub data Tick : Type 0 where
  done : Tick
  tick : Bool → Tick

-- What the select of an event loop picks: an event, with whether its write succeeds; the closed
-- channel; or session.Done, with the events that the channel holds at that moment.
pub data Pick : Type 0 where
  event : Bytes → Bool → Pick
  events_closed : Pick
  session_done : List Bytes → Pick

-- `for { select { case event := <-session.Events: …; default: return } }`
unfoldable pub drain : List Bytes → M Bool
drain [] = returned
drain (e ∷ events) = send (Reply.value e) >> drain events

unfoldable pub event_loop : List Pick → M Bool
event_loop [] = waiting
event_loop (event e true ∷ picks) = send (Reply.value e) >> event_loop picks
event_loop (event e false ∷ picks) = returned
event_loop (events_closed ∷ picks) = returned
event_loop (session_done rest ∷ picks) = drain rest

abbrev text_error : Bytes → Reply
text_error = Reply.error

module _ (docker : Backend) where
  -- an upgrade that fails has been answered by the upgrader
  unfoldable pub upgraded : M Bool → M Bool
  upgraded loop = attempt docker Call.upgrade (λ _. loop) (λ _. returned)

  unfoldable pub handle_container_logs : List Read → HttpRequest → M Bool
  handle_container_logs reads r = upgraded (
      attempt docker (Call.container_logs r.id) (λ _. log_loop reads)
        (λ _. send (text_error (codes "Error: failed to retrieve logs")) >> returned))

  unfoldable pub stats_loop : Bytes → List Tick → M Bool
  stats_loop id [] = waiting
  stats_loop id (done ∷ ticks) = returned
  stats_loop id (tick written ∷ ticks) =
      let rest = stats_loop id ticks in
      attempt docker (Call.container_stats id)
        (λ v. if written then send (Reply.value v) >> rest else returned) (λ _. returned)

  -- the first stats, written at once
  unfoldable pub first_stats : Bytes → Bool → List Tick → M Bool
  first_stats id written ticks =
      attempt docker (Call.container_stats id)
        (λ v. if written then send (Reply.value v) >> stats_loop id ticks else returned)
        (λ _. send (text_error (codes "failed to get container stats")) >> returned)

  -- InspectContainer gives the state of the container
  unfoldable pub handle_stats_stream : Bool → List Tick → HttpRequest → M Bool
  handle_stats_stream written ticks r = upgraded (
      attempt docker (Call.container_state r.id)
        (λ state.
          if not (equal state (codes "running"))
          then send (text_error (codes "container is not running")) >> returned
          else first_stats r.id written ticks)
        (λ _. send (text_error (codes "container not found")) >> returned))

  abbrev refuse : Bytes → M Bool
  refuse text = write_json 404 (Reply.error text) >> returned

  unfoldable pub session_events : List Pick → Bytes → M Bool
  session_events picks id =
      attempt docker (Call.get_session id) (λ _. upgraded (event_loop picks))
        (λ _. refuse (codes "session not found"))

  unfoldable pub handle_deploy_stream_ws : List Pick → HttpRequest → M Bool
  handle_deploy_stream_ws picks r =
      if equal r.id []
      then write_json 400 (Reply.error (codes "deploy_id required")) >> returned
      else session_events picks r.id

  -- the same without the test for an empty id
  unfoldable pub handle_stack_deploy_stream_ws : List Pick → HttpRequest → M Bool
  handle_stack_deploy_stream_ws picks r = session_events picks r.id
