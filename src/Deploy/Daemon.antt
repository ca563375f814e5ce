-- ===== src/Deploy/Daemon.antt =====
-- What a deployment asks of the docker daemon and of the disk. The answers, which may depend on what
-- was asked before, are a parameter.
use dockpal_agent.Base.{ℕ, Bool, List, [], ◌∷◌, ◌++◌, Option, Result}
use dockpal_agent.Base.Bytes.{Bytes}
use dockpal_agent.Deploy.Outcome.{Outcome, M, of_result}
use dockpal_agent.Deploy.Project.{ComposeFile}

-- container.Config, container.HostConfig and the networks of createAndStartService. A port binding
-- lists the host ports of its container port.
pub record CreateOptions : Type 0 where
  pub name : Bytes
  pub labels : List (Bytes × Bytes)
  pub env : List Bytes
  pub exposed_ports : List Bytes
  pub image : Bytes
  pub cmd : List Bytes
  pub entrypoint : List Bytes
  pub restart_policy : Bytes
  pub port_bindings : List (Bytes × List Bytes)
  pub binds : List Bytes
  pub networks : Option (List Bytes)

pub data Op : Type 0 where
  image_inspect : Bytes → Op
  image_pull : Bytes → Bytes → Op
  container_create : CreateOptions → Op
  container_start : Bytes → Op
  container_list : Bytes → Op
  container_stop : Bytes → ℕ → Op
  container_remove : Bytes → Bool → Op
  mkdir_all : Bytes → Op
  write_file : Bytes → Bytes → Op
  remove_all : Bytes → Op

abbrev pub Log : Type 0
Log = List Op

-- The program's surroundings: the directory of the compose files, the parser of yaml.v3, the key that
-- network.MustParsePort makes of a port (`none` where it panics), and the answers: an id or nothing,
-- and the ids of a list of containers.
pub record Outside : Type 0 where
  pub compose_base_path : Bytes
  pub unmarshal : Bytes → Result ComposeFile
  pub must_parse_port : Bytes → Option Bytes
  pub answer : Log → Op → Result Bytes
  pub listed : Log → Bytes → Result (List Bytes)

-- an operation, whose failure ends the function
unfoldable pub ask : Outside → Op → M Log Bytes
ask o op log = (of_result (o.answer log op), log ++ op ∷ [])

-- an operation whose error is dropped
unfoldable pub try : Op → M Log (Unit {0})
try op log = (Outcome.done tt, log ++ op ∷ [])
