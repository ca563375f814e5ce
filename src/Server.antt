-- ===== src/Server.antt =====
-- internal/server: the HTTP handlers of the agent in direct mode.
pub mod Http
pub mod Containers
pub mod Deploys
pub mod Sockets
pub mod FileRoutes
pub mod Stacks
pub mod Apps
pub mod Routes
pub mod Single
pub mod Served
pub mod Agreement
mod Examples
