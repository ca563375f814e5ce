-- ===== src/Containers/Examples.antt =====
-- Edits of one container.
use dockpal_agent.Base.{
  ℕ, true, false, List, [], ◌∷◌, ◌++◌, ◌≡◌, refl, Option, none, some, Result, ok, err,
}
use dockpal_agent.Base.Bytes.{Bytes, codes}
use dockpal_agent.Compose.Spec.{pos, negsuc}
use dockpal_agent.Deploy.Outcome.{fail}
use dockpal_agent.Containers.{Container, Ask, Daemon, inspect, stop, remove, create, start, rename}
use dockpal_agent.Containers.Edit.{
  ContainerEditRequest, edit_container, new_options, new_memory, update_memory,
}
use dockpal_agent.Containers.Edit.Fate.{Fate, edit_container-Fate}

abbrev web : Container
web = record {
  id = codes "c0";
  name = codes "/web";
  complete = true;
  image = codes "web:1";
  env = [];
  exposed_ports = [];
  port_bindings = [];
  binds = [];
  labels = [];
  others = [];
  restart_policy = codes "always";
  memory = pos 0;
  memory_swap = pos 0;
  nano_cpus = pos 0;
  networks = [];
  status = some (codes "running");
}

abbrev request : ContainerEditRequest
request = record {
  name = none;
  restart_policy = none;
  memory_limit = none;
  cpu_limit = none;
  image = some (codes "web:2");
  env = none;
  ports = none;
  volumes = none;
}

-- A daemon that refuses to create containers.
abbrev refusal : Ask → Result Bytes
refusal (create opts) = err (codes "no such image")
refusal (inspect id) = ok []
refusal (rename id name) = ok []
refusal (dockpal_agent.Containers.update id opts) = ok []
refusal (stop id time) = ok []
refusal (remove id force) = ok []
refusal (start id) = ok []

abbrev daemon : Daemon
daemon = record {
  inspected = λ log id. ok web;
  answer = λ log a. refusal a;
  port_key = λ text. text;
}

edit_container-Fate_example :
    Fate daemon request (codes "web") [] (edit_container daemon (codes "web") request [])
edit_container-Fate_example = edit_container-Fate daemon request (codes "web") []

-- The old container is gone, and the new one is refused.
web_is_lost : edit_container daemon (codes "web") request [] ≡ (
  fail (codes "failed to recreate container: failed to create new container: no such image"),
  inspect (codes "web")
      ∷ inspect (codes "c0")
      ∷ stop (codes "c0") 10
      ∷ remove (codes "c0") true
      ∷ create (new_options daemon web request)
      ∷ [],
)
unfolding edit_container dockpal_agent.Containers.look dockpal_agent.Containers.Edit.rename_step
    dockpal_agent.Containers.Edit.update_step dockpal_agent.Containers.Edit.recreate_step
    dockpal_agent.Containers.Edit.needs_recreate dockpal_agent.Containers.Edit.recreate_container
    dockpal_agent.Containers.Edit.replace_container dockpal_agent.Containers.ask
    dockpal_agent.Base.Bytes.equal dockpal_agent.Base.Bytes.to_lower dockpal_agent.Containers.try
web_is_lost = refl

-- A limit of 0: the update in place sets the swap to 0, the new container has it unlimited.
swap_in_place : update_memory (some (pos 0)) ≡ (pos 0, pos 0)
swap_in_place = refl

swap_of_new : new_memory web (some (pos 0)) ≡ (pos 0, negsuc 0)
unfolding new_memory
swap_of_new = refl
