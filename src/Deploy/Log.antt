-- ===== src/Deploy/Log.antt =====
-- What a function adds to the log of what was asked of the daemon.
use dockpal_agent.Base.{
  List, [], ◌∷◌, ◌++◌, ◌≡◌, refl, sym, ap, ◌∙◌, All, All-append, append-nil, append_assoc,
}
use dockpal_agent.Base.Bytes.{Bytes}
use dockpal_agent.Deploy.Outcome.Kept.{Holds, holds}
use dockpal_agent.Deploy.Daemon.{Log, Op, Outside, ask, try}
use dockpal_agent.Deploy.Projects.{each}

-- Operations that satisfy `P` have been added behind a log.
pub record Adds {A : Type 0} (P : A → Type 0) (log log' : List A) : Type 0 where
  pub ops : List A
  pub asked : log' ≡ log ++ ops
  pub all : All P ops

module _ {A : Type 0} {P : A → Type 0} where
  pub Adds-refl : (log : List A) → Adds P log log
  Adds-refl log = record { ops = []; asked = sym (append-nil log); all = tt }

  pub Adds-trans : {l1 l2 l3 : List A} → Adds P l1 l2 → Adds P l2 l3 → Adds P l1 l3
  Adds-trans {l1} a b = record {
    ops = a.ops ++ b.ops;
    asked = b.asked ∙ ap (λ l. l ++ b.ops) a.asked ∙ append_assoc l1 a.ops b.ops;
    all = All-append P a.ops b.ops a.all b.all;
  }

  pub Adds-one : (log : List A) (op : A) → P op → Adds P log (log ++ op ∷ [])
  Adds-one log op h = record { ops = op ∷ []; asked = refl; all = (h, tt) }

  pub Holds-none : (log : List A) → Holds (Adds P log) log
  Holds-none log = holds (Adds-refl log)

  pub Holds-add :
      {log0 : List A} (op : A) (log : List A)
      → P op
      → Holds (Adds P log0) log
      → Holds (Adds P log0) (log ++ op ∷ [])
  Holds-add op log h (holds a) = holds (Adds-trans a (Adds-one log op h))

  pub added : {log log' : List A} → Holds (Adds P log) log' → Adds P log log'
  added (holds a) = a

module _ {P : Op → Type 0} where
  pub Holds-ask :
      {log0 : Log} (o : Outside) (op : Op) (log : Log)
      → P op
      → Holds (Adds P log0) log
      → Holds (Adds P log0) (ask o op log).1
  unfolding ask
  Holds-ask o op log h a = Holds-add op log h a

  pub Holds-try :
      {log0 : Log} (op : Op) (log : Log)
      → P op
      → Holds (Adds P log0) log
      → Holds (Adds P log0) (try op log).1
  unfolding try
  Holds-try op log h a = Holds-add op log h a

  pub Holds-each :
      {log0 : Log} (op : Bytes → Op) (xs : List Bytes) (log : Log)
      → ((x : Bytes) → P (op x))
      → Holds (Adds P log0) log
      → Holds (Adds P log0) (each op xs log)
  unfolding each
  Holds-each op [] log h a = a
  Holds-each op (x ∷ xs) log h a =
      Holds-each op xs (try (op x) log).1 h (Holds-try (op x) log (h x) a)

pub ruleset adds = (Holds-none, Holds-ask, Holds-add, Holds-try, Holds-each)
