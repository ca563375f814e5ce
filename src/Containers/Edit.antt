-- ===== src/Containers/Edit.antt =====
-- `EditContainer` and `recreateContainer` of internal/docker/containers.go. A CPU limit is given as
-- the nanocpus that it is converted to.
pub mod Replaced
pub mod Fate
use dockpal_agent.Base.{
  ℕ, zero, suc, Bool, true, false, ◌||◌, List, [], ◌∷◌, ◌++◌, map, Option, none, some, Result, ok,
  err, if◌then◌else◌,
}
use dockpal_agent.Base.Bytes.{Bytes, codes, equal, to_lower, lookup, insert}
use dockpal_agent.Compose.Spec.{ℤ, pos, negsuc, VolumeMount, bind_of}
use dockpal_agent.Deploy.Outcome.{Outcome, M, done, fail, panic, then_do, wrapped, forget}
use dockpal_agent.Deploy.Service.{add_key, itoa, or_empty}
use dockpal_agent.Containers.{
  Container, Resources, UpdateOptions, CreateOptions, Ask, Log, Daemon, ask, look, try,
  without_slash, rename, update, stop, remove, create, start,
}

pub record PortMapping : Type 0 where
  pub host_port : ℤ
  pub container_port : ℤ
  pub protocol : Bytes

-- `none` is a pointer that is nil: a field that the request leaves as it is.
pub record ContainerEditRequest : Type 0 where
  pub name : Option Bytes
  pub restart_policy : Option Bytes
  pub memory_limit : Option ℤ
  pub cpu_limit : Option ℤ
  pub image : Option Bytes
  pub env : Option (List Bytes)
  pub ports : Option (List PortMapping)
  pub volumes : Option (List VolumeMount)

abbrev pub given : {A : Type 0} → Option A → Bool
given none = false
given (some a) = true

abbrev pub or_old : {A : Type 0} → A → Option A → A
or_old old none = old
or_old old (some new) = new

unfoldable pub needs_recreate : ContainerEditRequest → Bool
needs_recreate req = given req.image || given req.env || given req.ports || given req.volumes

abbrev pub unlimited : ℤ
unlimited = negsuc 0

abbrev positive : ℤ → Bool
positive (pos zero) = false
positive (negsuc n) = false
positive (pos (suc n)) = true

-- the memory and the swap of an update
abbrev pub update_memory : Option ℤ → ℤ × ℤ
update_memory none = (pos 0, pos 0)
update_memory (some limit) = (limit, (if positive limit then unlimited else pos 0))

unfoldable pub update_resources : ContainerEditRequest → Option Resources
update_resources req =
    if given req.memory_limit || given req.cpu_limit
    then some (record {
      memory = (update_memory req.memory_limit).0;
      memory_swap = (update_memory req.memory_limit).1;
      nano_cpus = or_old (pos 0) req.cpu_limit;
    })
    else none

unfoldable pub update_options : ContainerEditRequest → UpdateOptions
update_options req = record {
  restart_policy = req.restart_policy;
  resources = update_resources req;
}

-- the memory and the swap of a new container
unfoldable pub new_memory : Container → Option ℤ → ℤ × ℤ
new_memory old (some limit) = (limit, unlimited)
new_memory old none =
    if positive old.memory then (old.memory, swap_of old.memory_swap) else (pos 0, pos 0)
  where
    swap_of : ℤ → ℤ
    swap_of (pos zero) = unlimited
    swap_of (pos (suc n)) = pos (suc n)
    swap_of (negsuc n) = negsuc n

-- exposedPorts and portBindings
abbrev Bindings : Type 0
Bindings = List Bytes × List (Bytes × List (Bytes × Bytes))

abbrev protocol_or_tcp : Bytes → Bytes
protocol_or_tcp protocol = if equal protocol [] then codes "tcp" else protocol

abbrev pub bound : Option (List (Bytes × Bytes)) → List (Bytes × Bytes)
bound none = []
bound (some hosts) = hosts

module _ (daemon : Daemon) where
  unfoldable pub map_ports : List PortMapping → Bindings → Bindings
  map_ports [] b = b
  map_ports (pm ∷ pms) (exposed, bindings) =
      let key =
        daemon.port_key (itoa pm.container_port ++ (codes "/" ++ protocol_or_tcp pm.protocol)) in
      let host : Bytes × Bytes = (codes "0.0.0.0", itoa pm.host_port) in
      map_ports pms
        (add_key key exposed, insert key (bound (lookup key bindings) ++ host ∷ []) bindings)

  abbrev edited_ports : Container → Option (List PortMapping) → Bindings
  edited_ports old none = (old.exposed_ports, old.port_bindings)
  edited_ports old (some pms) = map_ports pms ([], [])

  abbrev edited_binds : Container → Option (List VolumeMount) → List Bytes
  edited_binds old none = old.binds
  edited_binds old (some vms) = map bind_of vms

  abbrev pub endpoints : List Bytes → Option (List Bytes)
  endpoints [] = none
  endpoints (n ∷ ns) = some (n ∷ ns)

  -- the new container: what the request gives, and the old container's fields for the rest
  unfoldable pub new_options : Container → ContainerEditRequest → CreateOptions
  new_options old req = record {
    name = or_old (without_slash old.name) req.name;
    image = or_old old.image req.image;
    env = or_old old.env req.env;
    exposed_ports = (edited_ports old req.ports).0;
    port_bindings = (edited_ports old req.ports).1;
    binds = edited_binds old req.volumes;
    labels = old.labels;
    others = old.others;
    restart_policy = or_old old.restart_policy req.restart_policy;
    resources = record {
      memory = (new_memory old req.memory_limit).0;
      memory_swap = (new_memory old req.memory_limit).1;
      nano_cpus = or_old old.nano_cpus req.cpu_limit;
    };
    networks = endpoints old.networks;
  }

  abbrev pub is_running : Option Bytes → Bool
  is_running none = false
  is_running (some status) = equal (to_lower status) (codes "running")

  abbrev pub prefixed : Bytes → Bytes → Bytes
  prefixed text e = text ++ e

  abbrev pub stop_if : Bool → Bytes → Log → Log
  stop_if true id log = (try daemon (stop id 10) log).1
  stop_if false id log = log

  abbrev pub start_if : Bool → Bytes → M Log (Unit {0})
  start_if true id log = forget (
      wrapped (prefixed (codes "container created but failed to start: "))
        (ask daemon (start id) log))
  start_if false id log = (done tt, log)

  -- from the stop of the old container on
  unfoldable pub replace_container : Bytes → Container → CreateOptions → M Log (Unit {0})
  replace_container id old opts log =
      then_do
        (wrapped (prefixed (codes "failed to remove old container: "))
          (ask daemon (remove id true) (stop_if (is_running old.status) id log)))
        λ _ l1.
          then_do
            (wrapped (prefixed (codes "failed to create new container: "))
              (ask daemon (create opts) l1))
            λ new l2. start_if (is_running old.status) new l2

  unfoldable pub recreate_container : Bytes → ContainerEditRequest → M Log (Unit {0})
  recreate_container id req log =
      then_do
        (wrapped (prefixed (codes "failed to inspect container for recreation: "))
          (look daemon id log))
        λ old l1.
          if old.complete
          then replace_container id old (new_options old req) l1
          else (fail (codes "container inspect returned incomplete data"), l1)

  -- the changes in place: the name, then the restart policy and the resources
  unfoldable pub rename_step : Bytes → Option Bytes → M Log (Unit {0})
  rename_step id none log = (done tt, log)
  rename_step id (some name) log =
      forget (
        wrapped (prefixed (codes "failed to rename container: ")) (ask daemon (rename id name) log))

  unfoldable pub update_step : Bytes → ContainerEditRequest → M Log (Unit {0})
  update_step id req log =
      if given req.restart_policy || given req.memory_limit || given req.cpu_limit
      then forget (
          wrapped (prefixed (codes "failed to update container: "))
            (ask daemon (update id (update_options req)) log))
      else (done tt, log)

  unfoldable pub recreate_step : Bytes → ContainerEditRequest → M Log (Unit {0})
  recreate_step id req log =
      if needs_recreate req
      then wrapped (prefixed (codes "failed to recreate container: "))
          (recreate_container id req log)
      else (done tt, log)

  abbrev pub not_inspected : Bytes → Bytes
  not_inspected e = codes "failed to inspect container: " ++ e

  unfoldable pub edit_container : Bytes → ContainerEditRequest → M Log Container
  edit_container id req log = then_do (wrapped not_inspected (look daemon id log)) λ old l1.
      then_do (rename_step old.id req.name l1) λ _ l2. then_do (update_step old.id req l2) λ _ l3.
        then_do (recreate_step old.id req l3)
          λ _ l4. wrapped not_inspected (look daemon (or_old (without_slash old.name) req.name) l4)
