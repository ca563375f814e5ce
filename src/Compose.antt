-- ===== src/Compose.antt =====
-- internal/docker/compose.go: compose files.
pub mod Order
pub mod Spec
mod Examples
