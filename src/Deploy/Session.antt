-- ===== src/Deploy/Session.antt =====
-- Deploy sessions of internal/docker/deploy_stream.go: the channel of a session and the map of the
-- manager. `taken` are the events that a reader has received.
pub mod Channel
pub mod Manager
use dockpal_agent.Base.{
  ℕ, zero, suc, Bool, true, false, List, [], ◌∷◌, ◌++◌, Option, none, some, length, ltb,
  if◌then◌else◌,
}
use dockpal_agent.Base.Bytes.{Bytes, codes, equal, lookup, insert}

pub record DeployEvent : Type 0 where
  pub step : Bytes
  pub message : Bytes
  pub status : Bytes
  pub time : Bytes

pub record DeploySession : Type 0 where
  pub id : Bytes
  pub events : List DeployEvent
  pub taken : List DeployEvent
  pub done : Bool

-- make(chan DeployEvent, 50)
abbrev pub event_capacity : ℕ
event_capacity = 50

unfoldable pub new_session : Bytes → DeploySession
new_session id = record { id = id; events = []; taken = []; done = false }

-- Emit: an event that finds the channel full is dropped
unfoldable pub emit : DeployEvent → DeploySession → DeploySession
emit e s =
    if ltb (length s.events) event_capacity then record s { events = s.events ++ e ∷ [] } else s

-- `<-session.Events` by a reader; nothing where it would wait
abbrev pub receive_from : DeploySession → List DeployEvent → DeploySession
receive_from s [] = s
receive_from s (e ∷ es) = record s { events = es; taken = s.taken ++ e ∷ [] }

unfoldable pub receive : DeploySession → DeploySession
receive s = receive_from s s.events

-- close(session.Done)
unfoldable pub close : DeploySession → DeploySession
close s = record s { done = true }

-- DeployManager.sessions
abbrev pub Sessions : Type 0
Sessions = List (Bytes × DeploySession)

-- The id that CreateSession makes of its eight random bytes, or of the clock where there are none.
unfoldable pub session_id : Option Bytes → Bytes → Bytes
session_id (some hex) clock = codes "deploy-" ++ hex
session_id none clock = codes "deploy-" ++ clock

unfoldable pub create_session : Option Bytes → Bytes → Sessions → DeploySession × Sessions
create_session random clock m =
    let s = new_session (session_id random clock) in (s, insert s.id s m)

-- delete(dm.sessions, id)
unfoldable pub remove_session : Bytes → Sessions → Sessions
remove_session id [] = []
remove_session id ((j, s) ∷ m) =
    let rest = remove_session id m in if equal j id then rest else (j, s) ∷ rest

unfoldable pub get_session : Bytes → Sessions → Option DeploySession
get_session id m = lookup id m
