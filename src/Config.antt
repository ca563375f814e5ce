-- ===== src/Config.antt =====
-- internal/config/config.go: the configuration from the environment; and what the health check of
-- main.go reads of it. Durations are parsed by a parameter.
pub mod Token
mod Examples
use dockpal_agent.Base.{
  ℕ, Bool, true, false, not, ◌&&◌, ◌||◌, List, [], ◌∷◌, ◌++◌, Option, none, some, Result, ok, err,
  any, if◌then◌else◌,
}
use dockpal_agent.Base.Bytes.{Bytes, codes, equal, has_prefix, split_last, to_lower}
use dockpal_agent.Compose.Spec.{ℤ, pos}

-- os.Getenv, "" for a variable that is not set
abbrev pub Env : Type 0
Env = Bytes → Bytes

-- Durations in nanoseconds.
pub record Config : Type 0 where
  pub mode : Bytes
  pub token : Bytes
  pub direct_listen : Bytes
  pub direct_tls : Bool
  pub tls_cert_dir : Bytes
  pub edge_server_url : Bytes
  pub edge_reconnect : ℤ
  pub edge_heartbeat : ℤ
  pub docker_socket : Bytes
  pub compose_dir : Bytes

abbrev one_of : List Bytes → Bytes → Bool
one_of words v = any (λ w. equal v w) words

-- strconv.ParseBool
unfoldable pub parse_bool : Bytes → Option Bool
parse_bool v =
    if one_of (codes "1" ∷ codes "t" ∷ codes "T" ∷ codes "true" ∷ codes "TRUE" ∷ codes "True" ∷ [])
      v
    then some true
    else if one_of
        (codes "0" ∷ codes "f" ∷ codes "F" ∷ codes "false" ∷ codes "FALSE" ∷ codes "False" ∷ []) v
    then some false
    else none

abbrev or_else {ℓ} : {A : Type ℓ} → A → Option A → A
or_else fallback none = fallback
or_else fallback (some a) = a

module _ (env : Env) where
  unfoldable pub get_env : Bytes → Bytes → Bytes
  get_env key fallback = if equal (env key) [] then fallback else env key

  unfoldable pub get_env_bool : Bytes → Bool → Bool
  get_env_bool key fallback =
      if equal (env key) [] then fallback else or_else fallback (parse_bool (env key))

  module _ (parse_duration : Bytes → Option ℤ) where
    unfoldable pub get_env_duration : Bytes → ℤ → ℤ
    get_env_duration key fallback =
        if equal (env key) [] then fallback else or_else fallback (parse_duration (env key))

    unfoldable pub loaded : Config
    loaded = record {
      mode = env (codes "DOCKPAL_MODE");
      token = env (codes "DOCKPAL_TOKEN");
      direct_listen = get_env (codes "DOCKPAL_DIRECT_LISTEN") (codes ":9273");
      direct_tls = get_env_bool (codes "DOCKPAL_DIRECT_TLS") true;
      tls_cert_dir = get_env (codes "DOCKPAL_TLS_CERT_DIR") [];
      edge_server_url = env (codes "DOCKPAL_EDGE_SERVER");
      edge_reconnect = get_env_duration (codes "DOCKPAL_EDGE_RECONNECT") (pos 5000000000);
      edge_heartbeat = get_env_duration (codes "DOCKPAL_EDGE_HEARTBEAT") (pos 30000000000);
      docker_socket = get_env (codes "DOCKPAL_DOCKER_SOCKET") (codes "/var/run/docker.sock");
      compose_dir = get_env (codes "DOCKPAL_COMPOSE_DIR") (codes "/opt/dockpal-agent/compose");
    }

    -- the quotes of `%q` are put around the mode as it is
    unfoldable pub load : Result Config
    load =
        let mode = env (codes "DOCKPAL_MODE") in
        if not (equal mode (codes "direct")) && not (equal mode (codes "edge"))
        then err (codes "DOCKPAL_MODE must be 'direct' or 'edge', got \"" ++ (mode ++ codes "\""))
        else if equal (env (codes "DOCKPAL_TOKEN")) []
        then err (codes "DOCKPAL_TOKEN is required")
        else if equal mode (codes "edge") && equal (env (codes "DOCKPAL_EDGE_SERVER")) []
        then err (codes "DOCKPAL_EDGE_SERVER is required for edge mode")
        else ok loaded

  -- the scheme that runHealthcheck takes
  unfoldable pub health_scheme : Bytes
  health_scheme =
      let v = to_lower (env (codes "DOCKPAL_DIRECT_TLS")) in
      if equal v (codes "false") || equal v (codes "0") || equal v (codes "no")
      then codes "http"
      else codes "https"

  -- the port: behind the last colon, unless that is the first byte
  abbrev pub trimmed : Bytes → Bytes
  trimmed [] = []
  trimmed (c ∷ s) = if equal (c ∷ []) (codes ":") then s else c ∷ s

  abbrev behind_colon : Bytes → Option (Bytes × Bytes) → Bytes
  behind_colon listen none = trimmed listen
  behind_colon listen (some ([], port)) = trimmed listen
  behind_colon listen (some (c ∷ host, port)) = port

  unfoldable pub health_port : Bytes
  health_port =
      let listen = get_env (codes "DOCKPAL_DIRECT_LISTEN") (codes ":9273") in
      behind_colon listen (split_last b':' listen)
