-- ===== src/Compose/Spec.antt =====
-- The field parsers of internal/docker/compose.go: ports, volumes, environment, dependencies, labels
-- and commands. A YAML value that was decoded into `any` is a list, a map, a string or another
-- scalar; a scalar comes with the text that `%v` prints of it.
pub mod Ports
pub mod Volumes
pub mod Labels
use dockpal_agent.Base.{
  ℕ, ◌+◌, ◌-◌, ◌*◌, ◌^◌, Bool, true, false, ◌&&◌, List, [], ◌∷◌, ◌++◌, map, Option, none, some,
  Result, ok, err, ◌==◌, leb, ltb, if◌then◌else◌,
}
use dockpal_agent.Base.Bytes.{Bytes, codes, equal, within, split, split_first, split_last, insert}

-- A Go int: `negsuc n` is -(n + 1).
pub data ℤ : Type 0 where
  pos : ℕ → ℤ
  negsuc : ℕ → ℤ

-- The value of a run of digits behind what has been read; `none` at any other byte.
unfoldable pub digits_value : ℕ → Bytes → Option ℕ
digits_value acc [] = some acc
digits_value acc (c ∷ s) =
    let rest = digits_value (acc * 10 + (c - 48)) s in if within 48 57 c then rest else none

-- one digit at least
unfoldable pub unsigned : Bytes → Option ℕ
unsigned [] = none
unsigned (c ∷ s) = digits_value 0 (c ∷ s)

abbrev negative : ℕ → ℤ
negative n = if n == 0 then pos 0 else negsuc (n - 1)

in_range : Bool → Option ℕ → Option ℤ
in_range minus none = none
in_range true (some n) = if leb n (2 ^ 63) then some (negative n) else none
in_range false (some n) = if ltb n (2 ^ 63) then some (pos n) else none

-- strconv.Atoi(s), of a 64-bit int
unfoldable pub atoi : Bytes → Option ℤ
unfolding in_range
atoi [] = none
atoi (c ∷ s) =
    if c == b'-'
    then in_range true (unsigned s)
    else if c == b'+'
    then in_range false (unsigned s)
    else in_range false (unsigned (c ∷ s))

pub record PortBinding : Type 0 where
  pub host_port : ℤ
  pub container_port : ℤ
  pub protocol : Bytes

abbrev tcp : Bytes
tcp = codes "tcp"

-- two ports, each with the error of its own
two_ports : Bytes → Bytes → Bytes → Result PortBinding
two_ports host cport protocol = elim (atoi host) [
  | none ↦ err (codes "invalid host port: " ++ host)
  | some h ↦ elim (atoi cport) [
    | none ↦ err (codes "invalid container port: " ++ cport)
    | some c ↦ ok (record { host_port = h; container_port = c; protocol = protocol })
  ]
]

-- the switch on len(parts)
port_parts : Bytes → Bytes → List Bytes → Result PortBinding
unfolding two_ports
port_parts spec protocol (p ∷ []) = elim (atoi p) [
  | none ↦ err (codes "invalid port: " ++ spec)
  | some n ↦ ok (record { host_port = n; container_port = n; protocol = protocol })
]
port_parts spec protocol (h ∷ c ∷ []) = two_ports h c protocol
port_parts spec protocol (ip ∷ h ∷ c ∷ []) = two_ports h c protocol
port_parts spec protocol _ = err (codes "invalid port format: " ++ spec)

unfoldable pub parse_port : Bytes → Result PortBinding
unfolding port_parts
parse_port spec = elim (split_last b'/' spec) [
  | some (s, protocol) ↦ port_parts s protocol (split b':' s)
  | none ↦ port_parts spec tcp (split b':' spec)
]

pub record VolumeMount : Type 0 where
  pub host_path : Bytes
  pub container_path : Bytes
  pub read_only : Bool

volume_parts : Bytes → List Bytes → Result VolumeMount
volume_parts spec (c ∷ []) = ok (record { host_path = []; container_path = c; read_only = false })
volume_parts spec (h ∷ c ∷ []) =
    ok (record { host_path = h; container_path = c; read_only = false })
volume_parts spec (h ∷ c ∷ mode ∷ []) =
    ok (record { host_path = h; container_path = c; read_only = equal mode (codes "ro") })
volume_parts spec _ = err (codes "invalid volume format: " ++ spec)

unfoldable pub parse_volume : Bytes → Result VolumeMount
unfolding volume_parts
parse_volume spec = volume_parts spec (split b':' spec)

-- the bind string of createAndStartService and of recreateContainer
unfoldable pub bind_of : VolumeMount → Bytes
bind_of vm =
    let bind = vm.host_path ++ (codes ":" ++ vm.container_path) in
    if vm.read_only then bind ++ codes ":ro" else bind

pub data Value : Type 0 where
  null : Value
  str : Bytes → Value
  scalar : Bytes → Value

pub data Field : Type 0 where
  seq : List Value → Field
  mapping : List (Bytes × Value) → Field
  text : Bytes → Field
  other : Field

-- item.(string), for the items that are strings
unfoldable pub strings : List Value → List Bytes
strings [] = []
strings (str s ∷ vs) = s ∷ strings vs
strings (null ∷ vs) = strings vs
strings (scalar _ ∷ vs) = strings vs

-- fmt.Sprintf("%v", val)
unfoldable pub render : Value → Bytes
render null = codes "<nil>"
render (str s) = s
render (scalar s) = s

-- `key` for a missing value, and `key=value`
unfoldable pub env_entry : Bytes × Value → Bytes
env_entry (key, null) = key
env_entry (key, str s) = key ++ (codes "=" ++ s)
env_entry (key, scalar s) = key ++ (codes "=" ++ s)

unfoldable pub parse_environment : Field → List Bytes
parse_environment (seq vs) = strings vs
parse_environment (mapping kvs) = map env_entry kvs
parse_environment (text _) = []
parse_environment other = []

unfoldable pub parse_depends_on : Field → List Bytes
parse_depends_on (seq vs) = strings vs
parse_depends_on (mapping kvs) = map (λ kv. kv.0) kvs
parse_depends_on (text _) = []
parse_depends_on other = []

-- strings.SplitN(s, "=", 2) and the entry that it gives
unfoldable pub label_entry : Bytes × Option Bytes → List (Bytes × Bytes) → List (Bytes × Bytes)
label_entry (key, some v) m = insert key v m
label_entry (key, none) m = insert key [] m

unfoldable pub labels_from_seq : List Value → List (Bytes × Bytes) → List (Bytes × Bytes)
labels_from_seq [] m = m
labels_from_seq (str s ∷ vs) m = labels_from_seq vs (label_entry (split_first b'=' s) m)
labels_from_seq (null ∷ vs) m = labels_from_seq vs m
labels_from_seq (scalar _ ∷ vs) m = labels_from_seq vs m

unfoldable pub labels_from_map : List (Bytes × Value) → List (Bytes × Bytes) → List (Bytes × Bytes)
labels_from_map [] m = m
labels_from_map ((k, v) ∷ kvs) m = labels_from_map kvs (insert k (render v) m)

unfoldable pub parse_labels : Field → List (Bytes × Bytes)
parse_labels (seq vs) = labels_from_seq vs []
parse_labels (mapping kvs) = labels_from_map kvs []
parse_labels (text _) = []
parse_labels other = []

-- command and entrypoint: a text is run by the shell, a list is taken as it is
unfoldable pub resolve_command : Field → List Bytes
resolve_command (text s) = codes "/bin/sh" ∷ codes "-c" ∷ s ∷ []
resolve_command (seq vs) = strings vs
resolve_command (mapping _) = []
resolve_command other = []
