-- ===== src/Deploy/Images.antt =====
-- Pulling an image: internal/docker/images.go, and `pullImageIfNeeded` of internal/docker/compose.go.
-- What the daemon sends while it pulls is discarded.
use dockpal_agent.Base.{Bool, not, ◌&&◌, ◌||◌, [], ◌∷◌, ◌++◌, Option, none, some, if◌then◌else◌}
use dockpal_agent.Base.Bytes.{Bytes, codes, equal, contains, contains_byte, split_first}
use dockpal_agent.Deploy.Outcome.{Outcome, M, wrapped, forget, done, fail, panic}
use dockpal_agent.Deploy.Daemon.{Log, Outside, ask, image_inspect, image_pull}

-- strings.SplitN(image, "/", 2)
abbrev domain_of : Bytes × Option Bytes → Bytes
domain_of (first, none) = codes "registry"
domain_of (first, some rest) = if contains_byte first b'.' then first else codes "registry"

unfoldable pub extract_image_domain : Bytes → Bytes
extract_image_domain image = domain_of (split_first b'/' image)

-- an em dash between blanks
abbrev pub dash : Bytes
dash = 32 ∷ 226 ∷ 128 ∷ 148 ∷ 32 ∷ []

abbrev failed_to_pull : Bytes → Bytes
failed_to_pull e = codes "failed to pull image: " ++ e

abbrev is_auth_failure : Bytes → Bool
is_auth_failure e =
    contains e (codes "401")
    || contains e (codes "403")
    || contains e (codes "unauthorized")
    || contains e (codes "denied")

unfoldable pub auth_failure_text : Bytes → Bytes → Bytes → Bytes
auth_failure_text image auth e =
    if not (equal auth []) && is_auth_failure e
    then codes "authentication failed for "
      ++ (extract_image_domain image ++ (dash ++ (codes "credentials may be expired: " ++ e)))
    else failed_to_pull e

module _ (o : Outside) where
  unfoldable pub pull_image : Bytes → M Log (Unit {0})
  pull_image image log = forget (wrapped failed_to_pull (ask o (image_pull image []) log))

  unfoldable pub pull_image_with_auth : Bytes → Bytes → M Log (Unit {0})
  pull_image_with_auth image auth log =
      forget (wrapped (auth_failure_text image auth) (ask o (image_pull image auth) log))

  -- an image that can be inspected is not pulled
  abbrev pub pull_missing : Bytes → Bytes → Outcome Bytes × Log → Outcome (Unit {0}) × Log
  pull_missing image auth (done found, log) = (done tt, log)
  pull_missing image auth (panic, log) = (panic, log)
  pull_missing image auth (fail e, log) =
      if equal auth [] then pull_image image log else pull_image_with_auth image auth log

  unfoldable pub pull_image_if_needed : Bytes → Bytes → M Log (Unit {0})
  pull_image_if_needed image auth log = pull_missing image auth (ask o (image_inspect image) log)
