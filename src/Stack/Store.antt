-- ===== src/Stack/Store.antt =====
-- SaveStack, GetStack and the global environment of internal/docker/stack_store.go.
pub mod Saved
use dockpal_agent.Base.{
  ℕ, zero, suc, ◌+◌, ◌/◌, ◌%◌, Bool, true, false, not, ◌&&◌, ◌||◌, List, [], ◌∷◌, ◌++◌, Option,
  none, some, Result, ok, err, ltb, leb, length, if◌then◌else◌,
}
use dockpal_agent.Base.Bytes.{
  Bytes, codes, equal, has_prefix, contains_byte, split, trim_space, lookup, mem, keys,
}
use dockpal_agent.FilePath.{join_path}
use dockpal_agent.Stack.Names.{validate_stack_name, stack_dir}
use dockpal_agent.Stack.World.{
  World, Any, null, object, other, Outside, M, ◌>>=◌, lift, exists, write_file_atomic, mkdir_all,
  read_file,
}

pub record Stack : Type 0 where
  pub name : Bytes
  pub status : Bytes
  pub status_text : Bytes
  pub managed : Bool
  pub compose_yaml : Bytes
  pub compose_env : Bytes

abbrev accepted_compose_file_names : List Bytes
accepted_compose_file_names =
    codes "compose.yaml"
    ∷ codes "docker-compose.yaml"
    ∷ codes "docker-compose.yml"
    ∷ codes "compose.yml"
    ∷ []

unfoldable pub first_present : World → Bytes → List Bytes → Option Bytes
first_present w dir [] = none
first_present w dir (fn ∷ fns) =
    let rest = first_present w dir fns in
    if mem (join_path dir fn) (keys w.files) then some (join_path dir fn) else rest

-- composeFilePathIn: a file, not a directory
unfoldable pub compose_file_path_in : World → Bytes → Option Bytes
compose_file_path_in w dir = first_present w dir accepted_compose_file_names

abbrev services_error : Result (Unit {0})
services_error = err (codes "services must be an object")

abbrev services_of : Option Any → Result (Unit {0})
services_of none = ok tt
services_of (some null) = ok tt
services_of (some object) = ok tt
services_of (some other) = services_error

-- validateComposeYAML
unfoldable pub validate_compose_yaml : Result (Option (List (Bytes × Any))) → Result (Unit {0})
validate_compose_yaml (err e) = err (codes "invalid compose YAML: " ++ e)
validate_compose_yaml (ok none) = err (codes "compose YAML is empty")
validate_compose_yaml (ok (some doc)) = services_of (lookup (codes "services") doc)

-- %d, by digits; the fuel is the number itself
unfoldable pub digits : ℕ → ℕ → Bytes
digits zero n = []
digits (suc fuel) n =
    let rest = digits fuel (n / 10) in
    if ltb n 10 then (n + 48) ∷ [] else rest ++ (n % 10 + 48) ∷ []

unfoldable pub decimal : ℕ → Bytes
decimal n = digits (suc n) n

abbrev is_env_line : Bytes → Bool
is_env_line line = equal line [] || has_prefix line (codes "#") || contains_byte line b'='

-- the loop over the scanner's lines; a line of 64 KiB or more stops the scanner
unfoldable pub env_lines : ℕ → List Bytes → Result (Unit {0})
env_lines line_no [] = ok tt
env_lines line_no (line ∷ lines) =
    let rest = env_lines (line_no + 1) lines in
    if leb 65536 (length line)
    then ok tt
    else if is_env_line (trim_space line)
    then rest
    else err (codes "invalid .env format at line " ++ decimal (line_no + 1))

-- validateEnvFile
unfoldable pub validate_env_file : Bytes → Result (Unit {0})
validate_env_file content = env_lines 0 (split b'\n' content)

-- %q, of a name with no character to escape
abbrev quoted : Bytes → Bytes
quoted name = codes "\"" ++ (name ++ codes "\"")

abbrev already_exists : Bytes → Bytes
already_exists name = codes "stack " ++ (quoted name ++ codes " already exists")

abbrev pub not_found : Bytes → Bytes
not_found name = codes "stack " ++ (quoted name ++ codes " not found")

abbrev pub wrap : {A : Type 0} → Bytes → Result A × World → Result A × World
wrap text (ok a, w) = (ok a, w)
wrap text (err e, w) = (err (text ++ e), w)

-- what SaveStack does to the disk
unfoldable pub write_stack : Outside → Bytes → Bytes → Bytes → M (Unit {0})
write_stack o dir yaml env =
    (λ w.
      wrap (codes "write compose file: ") (write_file_atomic o dir (codes "compose.yaml") yaml w))
    >>= λ _ w. wrap (codes "write .env file: ") (write_file_atomic o dir (codes ".env") env w)

unfoldable pub place_stack : Outside → Bytes → Bytes → Bool → M (Unit {0})
place_stack o name dir true w =
    if exists w dir
    then (err (already_exists name), w)
    else wrap (codes "create stack directory: ") (mkdir_all o dir w)
place_stack o name dir false w = if exists w dir then (ok tt, w) else (err (not_found name), w)

unfoldable pub save_stack : Outside → Bytes → Bytes → Bytes → Bool → M (Unit {0})
save_stack o name yaml env is_add = lift (validate_stack_name name) >>= λ _.
    lift (validate_compose_yaml (o.unmarshal yaml)) >>= λ _. lift (validate_env_file env) >>= λ _.
    lift (stack_dir o.compose_base_path name) >>= λ dir.
    place_stack o name dir is_add >>= λ _. write_stack o dir yaml env

abbrev pub or_empty : Option Bytes → Bytes
or_empty none = []
or_empty (some s) = s

abbrev read_compose : Outside → World → Option Bytes → Bytes
read_compose o w none = []
read_compose o w (some path) = or_empty (read_file o w path)

abbrev pub unknown : Bytes
unknown = codes "unknown"

unfoldable pub load : Outside → World → Bytes → Bytes → Stack
load o w name dir = record {
  name = name;
  status = unknown;
  status_text = [];
  managed = true;
  compose_yaml = read_compose o w (compose_file_path_in w dir);
  compose_env = or_empty (read_file o w (join_path dir (codes ".env")));
}

abbrev unmanaged : Bytes → Stack
unmanaged name = record {
  name = name;
  status = unknown;
  status_text = [];
  managed = false;
  compose_yaml = [];
  compose_env = [];
}

-- GetStack, which only reads
unfoldable pub get_stack : Outside → World → Bytes → Result Stack
get_stack o w name = elim (stack_dir o.compose_base_path name) [
  | err e ↦ err e
  | ok dir ↦ ok (if mem dir w.dirs then load o w name dir else unmanaged name)
]

unfoldable pub global_env_path : Outside → Bytes
global_env_path o = join_path o.compose_base_path (codes "global.env")

-- GetGlobalEnv: "" when the file is not there
unfoldable pub get_global_env : Outside → World → Result Bytes
get_global_env o w = elim (lookup (global_env_path o) w.files) [
  | none ↦ ok []
  | some content ↦ elim (o.read_fails (global_env_path o)) [ none ↦ ok content | some e ↦ err e ]
]

unfoldable pub set_global_env : Outside → Bytes → M (Unit {0})
set_global_env o content = lift (validate_env_file content) >>= λ _.
    mkdir_all o o.compose_base_path >>= λ _.
    write_file_atomic o o.compose_base_path (codes "global.env") content

-- StackComposeArgs
unfoldable pub stack_compose_args : Outside → World → Bytes → List Bytes → List Bytes
stack_compose_args o w dir args =
    if not (exists w (global_env_path o))
    then args
    else if exists w (join_path dir (codes ".env"))
    then codes "--env-file" ∷ codes "./.env" ∷ codes "--env-file" ∷ codes "../global.env" ∷ args
    else codes "--env-file" ∷ codes "../global.env" ∷ args
