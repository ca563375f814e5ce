-- ===== src/Deploy/Session/Manager.antt =====
-- The manager of deploy sessions (internal/docker/deploy_stream.go) and its specification: a finite
-- map as a function.
use dockpal_agent.Base.{List, [], ◌∷◌, ◌≡◌, refl, ap, ◌∙◌, Option, none, some, arith, if◌then◌else◌}
use dockpal_agent.Base.Bytes.{Bytes, equal, lookup}
use dockpal_agent.Base.Bytes.Laws.{lookup-insert, equal_iff}
use dockpal_agent.Deploy.Session.{
  DeploySession, Sessions, new_session, session_id, create_session, remove_session, get_session,
}

-- A call of the manager; creating a session reads random bytes, if there are any, and the clock.
pub data Command : Type 0 where
  create : Option Bytes → Bytes → Command
  remove : Bytes → Command
  get : Bytes → Command

unfoldable pub perform : Command → Sessions → Option DeploySession × Sessions
perform (create random clock) m = let (s, m') = create_session random clock m in (some s, m')
perform (remove id) m = (none, remove_session id m)
perform (get id) m = (get_session id m, m)

-- the answers to a sequence of calls
unfoldable pub answers : List Command → Sessions → List (Option DeploySession)
answers [] m = []
answers (c ∷ cs) m = (perform c m).0 ∷ answers cs (perform c m).1

-- The specification: a function from ids to sessions.
abbrev Abstract : Type 0
Abstract = Bytes → Option DeploySession

unfoldable pub update : Bytes → Option DeploySession → Abstract → Abstract
update id s f j = if equal id j then s else f j

unfoldable pub specified : Command → Abstract → Option DeploySession × Abstract
specified (create random clock) f =
    let s = new_session (session_id random clock) in (some s, update s.id (some s) f)
specified (remove id) f = (none, update id none f)
specified (get id) f = (f id, f)

unfoldable pub specified_answers : List Command → Abstract → List (Option DeploySession)
specified_answers [] f = []
specified_answers (c ∷ cs) f = (specified c f).0 ∷ specified_answers cs (specified c f).1

unfoldable pub Represents : Sessions → Abstract → Type 0
Represents m f = (id : Bytes) → get_session id m ≡ f id

lookup-remove_session :
    (id j : Bytes) (m : Sessions)
    → lookup j (remove_session id m) ≡ (if equal id j then none else lookup j m)
unfolding lookup remove_session
lookup-remove_session id j [] = ground arith
lookup-remove_session id j ((k, s) ∷ m) =
    ground (arith, lookup-remove_session id j m, equal_iff k id, equal_iff k j, equal_iff id j)

perform-Represents :
    (c : Command) (m : Sessions) (f : Abstract)
    → Represents m f
    → ((perform c m).0 ≡ (specified c f).0) × Represents (perform c m).1 (specified c f).1
unfolding perform specified Represents create_session get_session update
perform-Represents (create random clock) m f h =
    let s = new_session (session_id random clock) in
    (refl, λ j. lookup-insert s.id j s m ∙ ap (λ x. if equal s.id j then some s else x) (h j))
perform-Represents (remove id) m f h =
    (refl, λ j. lookup-remove_session id j m ∙ ap (λ x. if equal id j then none else x) (h j))
perform-Represents (get id) m f h = (h id, h)

-- The manager refines a finite map: on every sequence of calls it answers what the map answers, from
-- a state that represents it.
pub answers-specified :
    (cs : List Command) (m : Sessions) (f : Abstract)
    → Represents m f
    → answers cs m ≡ specified_answers cs f
unfolding answers specified_answers
answers-specified [] m f h = refl
answers-specified (c ∷ cs) m f h =
    let (same, next) = perform-Represents c m f h in
    rw (same, answers-specified cs (perform c m).1 (specified c f).1 next) refl
