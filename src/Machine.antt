-- ===== src/Machine.antt =====
-- How control moves between the stacks: fiber.cpp on POSIX and `OnFibersToResume` of main.cpp, a
-- step at a time.
mod Switch
mod Dispatch
mod Steps
pub mod Uncaught
mod Events
pub mod Nesting
pub mod Delivery
pub mod Rounds
pub mod Windows
pub mod Queues
pub mod Callbacks
pub mod OpenFiles
pub mod Frame
pub mod Spinning
pub mod Stores
pub mod Alive
pub mod Places
pub mod Closing
pub mod Classes
unfoldable pub use Switch.*
unfoldable pub use Dispatch.*
unfoldable pub use Steps.*
unfoldable pub use Events.*
