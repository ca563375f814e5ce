-- ===== src/Edge/Replies.antt =====
-- What the frames that an action sends satisfy, with a rule for each way to build an action.
use dockpal_agent.Base.{
  Bool, true, false, List, [], ◌∷◌, ◌++◌, ◌≡◌, refl, ok, err, if◌then◌else◌, ℕ, Option, none, some,
  ◌&&◌,
}
use dockpal_agent.Base.Bytes.{Bytes}
use dockpal_agent.Edge.Protocol.{AgentRequest, AgentResponse, Body, Call}
use dockpal_agent.Edge.Conn.{
  Conn, M, Backend, Returned, returns, panics, panic, call, by_return, attempt, decoded,
  send_response, response, reply, invalid_body,
}

-- From `c` on, `m` sends frames that satisfy `P`, and does not panic.
pub record Sends (P : List AgentResponse → Type 0) (m : M (Unit {0})) (c : Conn) : Type 0 where
  pub frames : List AgentResponse
  pub sent : (m c).1.sent ≡ c.sent ++ frames
  pub hold : P frames
  pub calm : (m c).1.panicked ≡ c.panicked

-- The same, or the last call that `m` makes panics, and with it `m`, which has sent nothing.
pub data Replies (docker : Backend) (P : List AgentResponse → Type 0) (m : M (Unit {0})) (c : Conn)
    : Type 0 where
  sends : Sends P m c → Replies docker P m c
  breaks :
      (before : List Call) (k : Call)
      → docker before k ≡ panics
      → (m c).1.calls ≡ before ++ k ∷ []
      → (m c).1.sent ≡ c.sent
      → (m c).1.panicked ≡ true
      → Replies docker P m c

-- There is one frame, it is no chunk of a stream, and it carries the request's id.
pub data OneReply (id : Bytes) : List AgentResponse → Type 0 where
  one : {f : AgentResponse} → f.request_id ≡ id → f.stream ≡ false → OneReply id (f ∷ [])

module _ {docker : Backend} {P : List AgentResponse → Type 0} where
  -- a call sends nothing
  Replies-by_return :
      (k : Call) (r : Returned) (good bad : Bytes → M (Unit {0})) (c : Conn)
      → docker c.calls k ≡ r
      → ((v : Bytes) (c' : Conn) → Replies docker P (good v) c')
      → ((e : Bytes) (c' : Conn) → Replies docker P (bad e) c')
      → Replies docker P (by_return r good bad) (record c { calls = c.calls ++ k ∷ [] })
  unfolding panic
  Replies-by_return k (returns (ok v)) good bad c h hg hb = hg v _
  Replies-by_return k (returns (err e)) good bad c h hg hb = hb e _
  Replies-by_return k panics good bad c h hg hb = breaks c.calls k h refl refl refl

  pub Replies-attempt :
      (k : Call) (good bad : Bytes → M (Unit {0})) (c : Conn)
      → ((v : Bytes) (c' : Conn) → Replies docker P (good v) c')
      → ((e : Bytes) (c' : Conn) → Replies docker P (bad e) c')
      → Replies docker P (attempt docker k good bad) c
  unfolding attempt call
  Replies-attempt k good bad c hg hb =
      elim (Replies-by_return k (docker c.calls k) good bad c refl hg hb) [
        | sends h ↦
            sends (record { frames = h.frames; sent = h.sent; hold = h.hold; calm = h.calm })
        | breaks before last h calls sent broken ↦ breaks before last h calls sent broken
      ]

  pub Replies-if :
      (b : Bool) (m n : M (Unit {0})) (c : Conn)
      → Replies docker P m c
      → Replies docker P n c
      → Replies docker P (if b then m else n) c
  Replies-if true m n c h k = h
  Replies-if false m n c h k = k

-- the branches may use the test
pub Replies-cases :
    {docker : Backend} {P : List AgentResponse → Type 0} (b : Bool) (m n : M (Unit {0})) (c : Conn)
    → (b ≡ true → Replies docker P m c)
    → (b ≡ false → Replies docker P n c)
    → Replies docker P (if b then m else n) c
Replies-cases true m n c h k = h refl
Replies-cases false m n c h k = k refl

-- a branch that a known test rules out
pub Replies-skip :
    {docker : Backend} {P : List AgentResponse → Type 0} (b x : Bool) (m n : M (Unit {0}))
    (c : Conn)
    → b ≡ false
    → Replies docker P n c
    → Replies docker P (if b && x then m else n) c
Replies-skip b x m n c h k = rw h k

pub Replies-reply :
    {docker : Backend} (msg : AgentRequest) (status : ℕ) (body : Body) (c : Conn)
    → Replies docker (OneReply msg.request_id) (reply msg status body) c
unfolding send_response
Replies-reply msg status body c = sends (record {
  frames = response msg.request_id status body ∷ [];
  sent = refl;
  hold = one refl refl;
  calm = refl;
})

pub Replies-decoded :
    {docker : Backend} (msg : AgentRequest) {A : Type 0} (o : Option A) (f : A → M (Unit {0}))
    (c : Conn)
    → ((a : A) (c' : Conn) → Replies docker (OneReply msg.request_id) (f a) c')
    → Replies docker (OneReply msg.request_id) (decoded msg o f) c
unfolding decoded
Replies-decoded msg none f c h = Replies-reply msg 400 invalid_body c
Replies-decoded msg (some a) f c h = h a c

pub ruleset reply_rules = (Replies-attempt, Replies-if, Replies-reply, Replies-decoded)
