-- ===== src/Containers.antt =====
-- internal/docker/containers.go: removing a container, and editing it in place or by recreating it.
-- What is asked of the docker daemon is a log; the answers, which may depend on it, are a parameter.
pub mod Edit
mod Examples
use dockpal_agent.Base.{
  ℕ, Bool, true, false, List, [], ◌∷◌, ◌++◌, Option, none, some, Result, ok, err, ◌==◌,
  if◌then◌else◌,
}
use dockpal_agent.Base.Bytes.{Bytes, codes}
use dockpal_agent.Compose.Spec.{ℤ}
use dockpal_agent.Deploy.Outcome.{Outcome, M, done, of_result}

-- What ContainerInspect returns, as far as it is read; `complete` says whether it has a configuration
-- and a host configuration, and `others` are the fields that are handed on as they are.
pub record Container : Type 0 where
  pub id : Bytes
  pub name : Bytes
  pub complete : Bool
  pub image : Bytes
  pub env : List Bytes
  pub exposed_ports : List Bytes
  pub port_bindings : List (Bytes × List (Bytes × Bytes))
  pub binds : List Bytes
  pub labels : List (Bytes × Bytes)
  pub others : List Bytes
  pub restart_policy : Bytes
  pub memory : ℤ
  pub memory_swap : ℤ
  pub nano_cpus : ℤ
  pub networks : List Bytes
  pub status : Option Bytes

-- The resources of an update or of a new container; `none` where the update leaves them out.
pub record Resources : Type 0 where
  pub memory : ℤ
  pub memory_swap : ℤ
  pub nano_cpus : ℤ

pub record UpdateOptions : Type 0 where
  pub restart_policy : Option Bytes
  pub resources : Option Resources

pub record CreateOptions : Type 0 where
  pub name : Bytes
  pub image : Bytes
  pub env : List Bytes
  pub exposed_ports : List Bytes
  pub port_bindings : List (Bytes × List (Bytes × Bytes))
  pub binds : List Bytes
  pub labels : List (Bytes × Bytes)
  pub others : List Bytes
  pub restart_policy : Bytes
  pub resources : Resources
  pub networks : Option (List Bytes)

pub data Ask : Type 0 where
  inspect : Bytes → Ask
  rename : Bytes → Bytes → Ask
  update : Bytes → UpdateOptions → Ask
  stop : Bytes → ℕ → Ask
  remove : Bytes → Bool → Ask
  create : CreateOptions → Ask
  start : Bytes → Ask

abbrev pub Log : Type 0
Log = List Ask

-- `port_key` is what ParsePort makes of a text, the zero port where it fails.
pub record Daemon : Type 0 where
  pub inspected : Log → Bytes → Result Container
  pub answer : Log → Ask → Result Bytes
  pub port_key : Bytes → Bytes

module _ (daemon : Daemon) where
  unfoldable pub ask : Ask → M Log Bytes
  ask a log = (of_result (daemon.answer log a), log ++ a ∷ [])

  unfoldable pub look : Bytes → M Log Container
  look id log = (of_result (daemon.inspected log id), log ++ inspect id ∷ [])

  -- a call whose error is dropped
  unfoldable pub try : Ask → M Log (Unit {0})
  try a log = (done tt, log ++ a ∷ [])

  unfoldable pub remove_container : Bytes → Bool → M Log Bytes
  remove_container id true log = ask (remove id true) log
  remove_container id false log = ask (remove id false) (try (stop id 10) log).1

-- strings.TrimPrefix(name, "/") by hand
unfoldable pub without_slash : Bytes → Bytes
without_slash [] = []
without_slash (c ∷ name) = if c == b'/' then name else c ∷ name
