-- ===== src/Deploy/Streamed/Steady.antt =====
-- Predicates on the state of a streamed deployment that no event changes.
use dockpal_agent.Base.{Bool, true, false, [], ◌∷◌, if◌then◌else◌}
use dockpal_agent.Base.Bytes.{Bytes}
use dockpal_agent.Deploy.Outcome.Kept.{Holds}
use dockpal_agent.Deploy.Daemon.{Outside}
use dockpal_agent.Deploy.Streamed.{State, Around, say, hint, hint_auth, pull_failed}

module _ {Q : State → Type 0} (o : Outside) (around : Around)
    (said : (step message status : Bytes) (st : State)
      → Holds Q st
      → Holds Q (say o around step message status st)) where
  Holds-if : (b : Bool) (x y : State) → Holds Q x → Holds Q y → Holds Q (if b then x else y)
  Holds-if true x y h k = h
  Holds-if false x y h k = k

  pub Holds-hint : (text : Bytes) (st : State) → Holds Q st → Holds Q (hint o around text st)
  unfolding hint
  Holds-hint [] st r = r
  Holds-hint (c ∷ text) st r = search said

  Holds-hint_auth :
      (image auth e : Bytes) (st : State)
      → Holds Q st
      → Holds Q (hint_auth o around image auth e st)
  unfolding hint_auth
  Holds-hint_auth image auth e st r = search (Holds-if, said)

  pub Holds-pull_failed :
      (image auth e : Bytes) (st : State)
      → Holds Q st
      → Holds Q (pull_failed o around image auth e st)
  unfolding pull_failed
  Holds-pull_failed image auth e st r = search (Holds-hint_auth, Holds-hint, said)
