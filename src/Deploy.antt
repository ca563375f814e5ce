-- ===== src/Deploy.antt =====
-- The deployment of a compose project: the daemon's part of internal/docker/compose.go, and
-- internal/docker/deploy_stream.go.
pub mod Outcome
pub mod Project
pub mod Daemon
pub mod Images
pub mod Service
pub mod Projects
pub mod Log
pub mod Asks
pub mod Session
pub mod Streamed
mod Examples
