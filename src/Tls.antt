-- ===== src/Tls.antt =====
-- primitives_tls.cpp: TLS over the sockets of primitives_tcp.cpp.
mod Loop
mod Calls
mod Certificates
pub mod Rounds
pub mod Sni
unfoldable pub use Loop.*
unfoldable pub use Calls.*
unfoldable pub use Certificates.*
