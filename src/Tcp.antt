-- ===== src/Tcp.antt =====
-- primitives_tcp.cpp: sockets.
mod Calls
mod Callbacks
pub mod Sockets
pub mod Reads
unfoldable pub use Calls.*
unfoldable pub use Callbacks.*
