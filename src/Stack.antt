-- ===== src/Stack.antt =====
-- internal/docker/stack_store.go and the locks of internal/composecli: compose stacks, each a
-- directory below the base directory. `Names` has the names and their directories, `World` what the
-- operations see of the disk, of the locks and of the docker CLI, `Store` the files of a stack, and
-- `Lifecycle` the operations that run docker compose.
pub mod Names
pub mod World
pub mod Store
pub mod Status
pub mod Listing
pub mod Lifecycle
mod Examples
