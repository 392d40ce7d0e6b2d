-- ===== src/Fs.antt =====
-- primitives_fs.cpp: files and directories.
mod Files
mod Directories
mod Results
pub mod Iteration
unfoldable pub use Files.*
unfoldable pub use Directories.*
unfoldable pub use Results.*
