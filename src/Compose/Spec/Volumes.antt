-- ===== src/Compose/Spec/Volumes.antt =====
-- The bind that a volume specification turns into.
use dockpal_agent.Base.{
  Bool, true, false, ◌∷◌, ◌++◌, ◌≡◌, refl, ok, if◌then◌else◌, append_assoc, Bool-cases, inl, inr,
}
use dockpal_agent.Base.Bytes.{Bytes, codes, contains_byte, split, equal}
use dockpal_agent.Base.Bytes.Laws.{split_single, split-append}
use dockpal_agent.Compose.Spec.{VolumeMount, parse_volume, bind_of}

module _ (host cpath : Bytes) (h : contains_byte host b':' ≡ false)
    (c : contains_byte cpath b':' ≡ false) where
  -- A volume whose paths have no colon is read back from the bind that it is written as.
  parse_volume-bind_of :
      (ro : Bool)
      → parse_volume (bind_of (record { host_path = host; container_path = cpath; read_only = ro }))
        ≡ ok (record { host_path = host; container_path = cpath; read_only = ro })
  unfolding parse_volume bind_of
  parse_volume-bind_of true =
      rw
        (
          append_assoc host (b':' ∷ cpath) (codes ":ro"),
          split-append b':' host (cpath ++ codes ":ro") h,
          split-append b':' cpath (codes "ro") c,
        )
        (unfold split equal in refl)
  parse_volume-bind_of false = rw (split-append b':' host cpath h, split_single b':' cpath c) refl

  -- Of host:container:mode, three texts without a colon, the bind keeps the mode "ro" and drops every
  -- other.
  pub bind_of-parse_volume :
      (mode : Bytes)
      → contains_byte mode b':' ≡ false
      → (vm : VolumeMount) × (parse_volume (host ++ (b':' ∷ cpath ++ (b':' ∷ mode))) ≡ ok vm)
        × (bind_of vm
            ≡ host ++ (b':' ∷ (if equal mode (codes "ro") then cpath ++ codes ":ro" else cpath)))
  unfolding parse_volume bind_of
  bind_of-parse_volume mode m = (
    record { host_path = host; container_path = cpath; read_only = equal mode (codes "ro") },
    rw
        (
          split-append b':' host (cpath ++ (b':' ∷ mode)) h,
          split-append b':' cpath mode c,
          split_single b':' mode m,
        )
        refl,
    elim (Bool-cases (equal mode (codes "ro"))) [
      | inl ro ↦ rw ro (append_assoc host (b':' ∷ cpath) (codes ":ro"))
      | inr rw' ↦ rw rw' refl
    ],
  )
