-- ===== src/Deploy/Project.antt =====
-- The compose file and the project name of internal/docker/compose.go. A map of services is the list
-- of its entries in the order in which it is iterated.
use dockpal_agent.Base.{
  ℕ, Bool, ◌&&◌, ◌||◌, List, [], ◌∷◌, ◌++◌, map, Option, none, some, Result, ok, err, ◌==◌, leb,
  every, length, if◌then◌else◌,
}
use dockpal_agent.Base.Bytes.{Bytes, codes, within, lookup}
use dockpal_agent.Compose.Order.{Visit, done, cycle, out_of_fuel, topological_sort}
use dockpal_agent.Compose.Spec.{Field, other, parse_depends_on}

abbrev pub is_alphanumeric : ℕ → Bool
is_alphanumeric c = within b'a' b'z' c || within b'A' b'Z' c || within b'0' b'9' c

abbrev pub is_project_byte : ℕ → Bool
is_project_byte c = is_alphanumeric c || c == b'_' || c == b'-'

abbrev invalid_project : Bytes
invalid_project =
    codes "invalid project name: must be alphanumeric with dashes/underscores, max 64 chars"

unfoldable pub validate_project_name : Bytes → Result (Unit {0})
validate_project_name [] = err (codes "project name is required")
validate_project_name (c ∷ s) =
    if is_alphanumeric c && every is_project_byte s && leb (length s) 63
    then ok tt
    else err invalid_project

pub record ComposeService : Type 0 where
  pub image : Bytes
  pub ports : List Bytes
  pub volumes : List Bytes
  pub environment : Field
  pub networks : List Bytes
  pub depends_on : Field
  pub restart : Bytes
  pub labels : Field
  pub command : Field
  pub entrypoint : Field

pub record ComposeFile : Type 0 where
  pub version : Bytes
  pub services : List (Bytes × ComposeService)

-- yaml.Unmarshal into a ComposeFile is a parameter.
unfoldable pub parse_compose_file : (Bytes → Result ComposeFile) → Bytes → Result ComposeFile
parse_compose_file unmarshal text = elim (unmarshal text) [
  | err e ↦ err (codes "invalid compose YAML: " ++ e)
  | ok cf ↦ elim cf.services [
    | [] ↦ err (codes "no services defined in compose file")
    | _ ∷ _ ↦ ok cf
  ]
]

abbrev pub no_service : ComposeService
no_service = record {
  image = [];
  ports = [];
  volumes = [];
  environment = other;
  networks = [];
  depends_on = other;
  restart = [];
  labels = other;
  command = other;
  entrypoint = other;
}

abbrev or_zero : Option ComposeService → ComposeService
or_zero none = no_service
or_zero (some svc) = svc

-- cf.Services[name]: the zero value where the name is no service
unfoldable pub service_of : ComposeFile → Bytes → ComposeService
service_of cf name = or_zero (lookup name cf.services)

abbrev pub deps_entry : Bytes × ComposeService → Bytes × List Bytes
deps_entry (name, svc) = (name, parse_depends_on svc.depends_on)

-- the result of topologicalSort; its fuel does not run out
abbrev pub sorted : Visit → Result (List Bytes)
sorted (done st) = ok st.order
sorted (cycle n) = err (codes "circular dependency detected at " ++ n)
sorted out_of_fuel = err []

unfoldable pub resolve_start_order : ComposeFile → Result (List Bytes)
resolve_start_order cf = sorted (topological_sort (map deps_entry cf.services))
