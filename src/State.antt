-- ===== src/State.antt =====
-- The state of the runtime: the statics of fiber.cpp, handles.cpp and main.cpp, the memory of the
-- C++ objects, and what libuv has been asked to do.
mod Calls
mod Objects
mod Contexts
pub mod Memory
pub use Calls.*
pub use Objects.*
pub use Contexts.*
use runtime_system.Base.{ℕ, ℤ, String, List, Option}
use runtime_system.Value.{Value, Line}
use runtime_system.Handles.{Store}

-- `Fiber::State`, written NEW, RUNNING, SUSPENDED, DONE in the source.
pub data Status : Type 0 where
  new running suspended done : Status

-- A `Fiber`. `context` is what its `ucontext_t` holds, `func` the script behind `func_`.
pub record Fiber : Type 0 where
  pub status : Status
  pub func : Script
  pub resume_value : Option Value
  pub context : Option Context

-- What the code gives back: an `SSL*`, `SSL_CTX*`, `EVP_PKEY*` or `X509*`, the copied name of a
-- directory entry, or the `addr_result` of the context at an address.
pub data Resource : Type 0 where
  ssl_session ssl_ctx evp_pkey x509_cert : ℕ → Resource
  entry_name : String → Resource
  addr_result : (context : ℕ) → Resource

pub record World : Type 0 where
  -- `new Fiber`, by address, and the statics of `Fiber`.
  pub fibers : ℕ → Option Fiber
  pub next_fiber : ℕ
  pub current_fiber : ℕ
  pub main_fiber : ℕ
  -- `HandleStore`, and the objects behind the `shared_ptr`s by address.
  pub handles : Store ℕ
  pub objects : ℕ → Option BaseHandle
  pub next_object : ℕ
  -- `use_count()` of each object.
  pub uses : ℕ → ℕ
  -- `new AsyncContext`, by address, and `resumable_fibers`.
  pub contexts : ℕ → Option AsyncContext
  pub next_context : ℕ
  pub resumable_fibers : List ℕ
  -- The requests that libuv holds and whose callback is outstanding, oldest first.
  pub requests : List (ℕ × Operation)
  -- The contexts with a `uv_timer_t` or `uv_poll_t` for which `uv_close` was called, and whose
  -- `uv_close_cb` is outstanding.
  pub closing_handles : List ℕ
  -- The calls of libuv and OpenSSL made so far.
  pub tick : ℕ
  -- The resources given back, latest first; the descriptors closed by `FileHandle::Close`; the
  -- next `SSL*` that `SSL_new` returns.
  pub freed : List Resource
  pub closed_files : List ℤ
  pub next_ssl : ℕ
  -- What was written to `std::cout` and to `std::cerr`.
  pub stdout : List String
  pub stderr : List Line
