-- ===== src/Deploy/Service.antt =====
-- `createAndStartService` of internal/docker/compose.go.
pub mod Created
use dockpal_agent.Base.{
  ℕ, suc, ◌+◌, Bool, true, false, List, [], ◌∷◌, ◌++◌, Option, none, some, Result, ok, err,
  if◌then◌else◌,
}
use dockpal_agent.Base.Bytes.{Bytes, codes, equal, lookup, insert}
use dockpal_agent.Base.Decimal.{decimal}
use dockpal_agent.FilePath.{join_path}
use dockpal_agent.Compose.Spec.{
  ℤ, pos, negsuc, PortBinding, parse_port, VolumeMount, parse_volume, bind_of, parse_environment,
  parse_labels, resolve_command,
}
use dockpal_agent.Deploy.Outcome.{Outcome, M, done, fail, panic, then_do, wrapped, forget}
use dockpal_agent.Deploy.Project.{ComposeService}
use dockpal_agent.Deploy.Daemon.{
  Log, Outside, CreateOptions, ask, container_create, container_start,
}

abbrev pub compose_file_path : Bytes → Bytes → Bytes
compose_file_path base project = join_path (join_path base project) (codes "docker-compose.yml")

-- fmt.Sprintf("%s_%s", projectName, svcName)
abbrev pub container_name : Bytes → Bytes → Bytes
container_name project svc = project ++ (codes "_" ++ svc)

-- the labels of every container, and dockpal.service
unfoldable pub base_labels : Bytes → Bytes → Bytes → List (Bytes × Bytes)
base_labels base project svc =
    (codes "dockpal.managed", codes "true")
    ∷ (codes "dockpal.project", project)
    ∷ (codes "dockpal.compose", compose_file_path base project)
    ∷ (codes "dockpal.service", svc)
    ∷ []

-- `for k, v := range userLabels { svcLabels[k] = v }`
unfoldable pub override : List (Bytes × Bytes) → List (Bytes × Bytes) → List (Bytes × Bytes)
override labels [] = labels
override labels ((k, v) ∷ more) = override (insert k v labels) more

-- strconv.Itoa and `%d`
unfoldable pub itoa : ℤ → Bytes
itoa (pos n) = decimal n
itoa (negsuc n) = codes "-" ++ decimal (n + 1)

-- The bindings read so far, or the error or the panic of a port.
pub record Ports : Type 0 where
  pub exposed : List Bytes
  pub bindings : List (Bytes × List Bytes)

abbrev pub or_empty : Option (List Bytes) → List Bytes
or_empty none = []
or_empty (some hosts) = hosts

-- m[key] = struct{}{}
unfoldable pub add_key : Bytes → List Bytes → List Bytes
add_key k [] = k ∷ []
add_key k (j ∷ js) = if equal j k then j ∷ js else j ∷ add_key k js

-- exposedPorts[key] = struct{}{}, and append to portBindings[key]
unfoldable pub bind_port : Bytes → Bytes → Ports → Ports
bind_port key host p = record {
  exposed = add_key key p.exposed;
  bindings = insert key (or_empty (lookup key p.bindings) ++ host ∷ []) p.bindings;
}

abbrev in_service : Bytes → Bytes → Bytes
in_service svc e = codes "service " ++ (svc ++ (codes ": " ++ e))

-- network.MustParsePort panics on a text that is no port
unfoldable pub keyed : Option Bytes → ℤ → Ports → Outcome Ports
keyed none host p = panic
keyed (some key) host p = done (bind_port key (itoa host) p)

unfoldable pub next_port : Outside → Bytes → Result PortBinding → Ports → Outcome Ports
next_port o svc (err e) p = fail (in_service svc e)
next_port o svc (ok pb) p =
    keyed (o.must_parse_port (itoa pb.container_port ++ (codes "/" ++ pb.protocol))) pb.host_port p

abbrev pub bind_outcome : {A B : Type 0} → Outcome A → (A → Outcome B) → Outcome B
bind_outcome (done a) f = f a
bind_outcome (fail e) f = fail e
bind_outcome panic f = panic

-- the loop over svc.Ports
unfoldable pub bind_ports : Outside → Bytes → List Bytes → Ports → Outcome Ports
bind_ports o svc [] p = done p
bind_ports o svc (spec ∷ specs) p =
    bind_outcome (next_port o svc (parse_port spec) p) (λ q. bind_ports o svc specs q)

abbrev next_bind : VolumeMount → List Bytes → List Bytes
next_bind vm rest = if equal vm.host_path [] then rest else bind_of vm ∷ rest

-- the loop over svc.Volumes
unfoldable pub service_binds : Bytes → List Bytes → Outcome (List Bytes)
service_binds svc [] = done []
service_binds svc (spec ∷ specs) = elim (parse_volume spec) [
  | err e ↦ fail (in_service svc e)
  | ok vm ↦ bind_outcome (service_binds svc specs) (λ rest. done (next_bind vm rest))
]

abbrev restart_or_default : Bytes → Bytes
restart_or_default restart = if equal restart [] then codes "unless-stopped" else restart

-- the keys of endpointsConfig
unfoldable pub network_names : List Bytes → List Bytes → List Bytes
network_names [] found = found
network_names (n ∷ ns) found = network_names ns (add_key n found)

-- no networks leave the configuration nil
abbrev pub endpoints : List Bytes → Option (List Bytes)
endpoints [] = none
endpoints (n ∷ ns) = some (network_names (n ∷ ns) [])

module _ (o : Outside) (project : Bytes) (name : Bytes) (svc : ComposeService) where
  unfoldable pub create_options : Ports → List Bytes → CreateOptions
  create_options p binds = record {
    name = container_name project name;
    labels = override (base_labels o.compose_base_path project name) (parse_labels svc.labels);
    env = parse_environment svc.environment;
    exposed_ports = p.exposed;
    image = svc.image;
    cmd = resolve_command svc.command;
    entrypoint = resolve_command svc.entrypoint;
    restart_policy = restart_or_default svc.restart;
    port_bindings = p.bindings;
    binds = binds;
    networks = endpoints svc.networks;
  }

  -- what comes before the first call of the daemon
  unfoldable pub service_options : Outcome CreateOptions
  service_options =
      bind_outcome (bind_ports o name svc.ports (record { exposed = []; bindings = [] }))
        λ p. bind_outcome (service_binds name svc.volumes) λ binds. done (create_options p binds)

  abbrev pub not_created : Bytes → Bytes
  not_created e = codes "failed to create container for " ++ (name ++ (codes ": " ++ e))

  abbrev pub not_started : Bytes → Bytes
  not_started e = codes "failed to start container " ++ (name ++ (codes ": " ++ e))

  unfoldable pub create_and_start : CreateOptions → M Log (Unit {0})
  create_and_start opts log =
      then_do (wrapped not_created (ask o (container_create opts) log))
        (λ id log'. forget (wrapped not_started (ask o (container_start id) log')))

  unfoldable pub create_and_start_service : M Log (Unit {0})
  create_and_start_service log = then_do (service_options, log) create_and_start
