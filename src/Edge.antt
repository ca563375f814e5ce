-- ===== src/Edge.antt =====
-- internal/edge: the edge-mode client. `Protocol` has the messages, `Conn` the calls that a handler
-- makes and the frames that it sends, `Route` the path parameters, `Streams` the chunked replies,
-- `Stacks` and `Dispatch` the two request switches.
pub mod Protocol
pub mod Conn
pub mod Json
pub mod Route
pub mod Replies
pub mod Streams
pub mod Stacks
pub mod Dispatch
mod Examples
