-- ===== src/Config/Examples.antt =====
-- Environments.
use dockpal_agent.Base.{
  ℕ, true, false, [], ◌∷◌, ◌≡◌, ◌≢◌, refl, Option, none, Result, ok, if◌then◌else◌,
}
use dockpal_agent.Base.Bytes.{Bytes, codes, equal}
use dockpal_agent.Auth.{token_middleware, unauthorized}
use dockpal_agent.Config.{Env, Config, loaded, load, get_env_bool, health_scheme, health_port}
use dockpal_agent.Config.Token.{load_refuses_bare}

abbrev env : Env
env key =
    if equal key (codes "DOCKPAL_MODE")
    then codes "direct"
    else if equal key (codes "DOCKPAL_TOKEN")
    then codes "s3cret"
    else []

load_refuses_bare_example :
    (codes "s3cret" ≢ [])
    × (token_middleware (codes "s3cret") [] [] ≡ unauthorized (codes "missing authorization"))
unfolding load equal loaded
load_refuses_bare_example = load_refuses_bare env (λ d. none) (loaded env (λ d. none)) refl

abbrev env_no : Env
env_no key = if equal key (codes "DOCKPAL_DIRECT_TLS") then codes "no" else []

abbrev env_f : Env
env_f key = if equal key (codes "DOCKPAL_DIRECT_TLS") then codes "f" else []

-- The health check and the server take "no" and "f" differently.
no_is_served_by_tls : get_env_bool env_no (codes "DOCKPAL_DIRECT_TLS") true ≡ true
unfolding get_env_bool equal dockpal_agent.Config.parse_bool
no_is_served_by_tls = refl

no_is_checked_without : health_scheme env_no ≡ codes "http"
unfolding health_scheme equal dockpal_agent.Base.Bytes.to_lower
no_is_checked_without = refl

f_is_served_without : get_env_bool env_f (codes "DOCKPAL_DIRECT_TLS") true ≡ false
unfolding get_env_bool equal dockpal_agent.Config.parse_bool
f_is_served_without = refl

f_is_checked_by_tls : health_scheme env_f ≡ codes "https"
unfolding health_scheme equal dockpal_agent.Base.Bytes.to_lower
f_is_checked_by_tls = refl

default_port : health_port env ≡ codes "9273"
unfolding health_port dockpal_agent.Base.Bytes.split_last dockpal_agent.Config.get_env equal
default_port = refl
