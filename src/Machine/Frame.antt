-- ===== src/Machine/Frame.antt =====
-- What the primitives leave alone.
mod Rules
mod Files
mod Sockets
mod Datagrams
mod Sessions
pub mod Start
pub mod Buffers
pub mod Histories
pub mod Values
pub use Rules.{Leaves}
