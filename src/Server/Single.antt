-- ===== src/Server/Single.antt =====
-- The responses of the handlers of internal/server that open no websocket.
use dockpal_agent.Base.{
  ℕ, Bool, true, false, [], ◌∷◌, ◌++◌, ◌≡◌, refl, Option, none, some, Result, ok, err,
  if◌then◌else◌,
}
use dockpal_agent.Base.Bytes.{Bytes}
use dockpal_agent.Edge.Protocol.{Call}
use dockpal_agent.Server.Http.{
  Exchange, Response, Reply, M, Backend, by_result, attempt, write_json, internal_error, read_json,
  or_internal,
}

-- The action writes one response, and nothing else.
pub data Answers (m : M (Unit {0})) (x : Exchange) : Type 0 where
  answers :
      (a : Response)
      → (m x).1.responses ≡ x.responses ++ a ∷ []
      → (m x).1.messages ≡ x.messages
      → Answers m x

pub Answers-write_json : (code : ℕ) (body : Reply) (x : Exchange) → Answers (write_json code body) x
unfolding write_json
Answers-write_json code body x = answers _ refl refl

pub Answers-if :
    (b : Bool) (m n : M (Unit {0})) (x : Exchange)
    → Answers m x
    → Answers n x
    → Answers (if b then m else n) x
Answers-if true m n x h k = h
Answers-if false m n x h k = k

pub Answers-internal_error : (e : Bytes) (x : Exchange) → Answers (internal_error e) x
unfolding internal_error
Answers-internal_error e x = Answers-write_json 500 _ x

pub Answers-read_json :
    {A : Type 0} (o : Option A) (f : A → M (Unit {0})) (x : Exchange)
    → ((a : A) → Answers (f a) x)
    → Answers (read_json o f) x
unfolding read_json
Answers-read_json none f x h = Answers-write_json 400 _ x
Answers-read_json (some a) f x h = h a

Answers-by_result :
    (r : Result Bytes) (good bad : Bytes → M (Unit {0})) (x : Exchange)
    → ((v : Bytes) → Answers (good v) x)
    → ((e : Bytes) → Answers (bad e) x)
    → Answers (by_result r good bad) x
Answers-by_result (ok v) good bad x h k = h v
Answers-by_result (err e) good bad x h k = k e

pub Answers-attempt :
    (docker : Backend) (k : Call) (good bad : Bytes → M (Unit {0})) (x : Exchange)
    → ((v : Bytes) (x' : Exchange) → Answers (good v) x')
    → ((e : Bytes) (x' : Exchange) → Answers (bad e) x')
    → Answers (attempt docker k good bad) x
unfolding attempt
Answers-attempt docker k good bad x h h' =
    let x' = record x { calls = x.calls ++ k ∷ [] } in
    elim (Answers-by_result (docker x.calls k) good bad x' (λ v. h v x') (λ e. h' e x')) [
      | answers a e f ↦ answers a e f
    ]

pub Answers-or_internal :
    (docker : Backend) (k : Call) (body : Bytes → Reply) (x : Exchange)
    → Answers (or_internal docker k body) x
unfolding or_internal
Answers-or_internal docker k body x =
    search (Answers-attempt, Answers-write_json, Answers-internal_error)

pub ruleset answer_rules = (
  Answers-write_json, Answers-if, Answers-internal_error, Answers-read_json, Answers-attempt,
  Answers-or_internal,
)
