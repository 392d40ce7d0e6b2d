-- ===== src/State/Contexts.antt =====
-- The classes derived from `AsyncContext`, the requests made with them, and saved machine contexts.
use runtime_system.Base.{ℕ, ℤ, Bool, String, List}
use runtime_system.Value.{Reply, Buf}
use runtime_system.State.Calls.{Script, Cont}
use runtime_system.State.Objects.{Dirent, UvHandle}

-- `AF_INET`, `AF_INET6` and the other address families.
pub data Family : Type 0 where
  af_inet af_inet6 af_other : Family

-- The `uv_fs_type` of a request.
pub data FsType : Type 0 where
  fs_open fs_close fs_read fs_write fs_unlink fs_mkdir fs_rmdir fs_scandir : FsType
  fs_stat fs_fstat fs_fsync fs_fdatasync : FsType
  fs_custom : FsType

-- What `CreateResultValue` reads of a `uv_stat_t`; the times are seconds and nanoseconds since
-- 1970.
pub record Stat : Type 0 where
  pub size : ℤ
  pub mode : ℤ
  pub uid : ℤ
  pub gid : ℤ
  pub atime : ℕ × ℕ
  pub mtime : ℕ × ℕ

-- The fields that each derived class adds.
pub data Kind : Type 0 where
  sleep : Kind
  fs : (fs_type : FsType) (path_str : String) (dir_entries : List Dirent) (stat : Stat) → Kind
  -- `has_result`: `addr_result` is not null
  dns : (hostname : String) (addresses : List String) (has_result : Bool) → Kind
  connect : (socket : UvHandle) → Kind
  write : (buf : Buf) → Kind
  read : (iov : Buf) → Kind
  accept : (server_handle : ℕ) → Kind
  poll : Kind
  recv : (iov : Buf) (host : String) (port : ℕ) → Kind
  send : (buf : Buf) → Kind

-- `fiber` is the fiber to resume, `result` what libuv reported.
pub record AsyncContext : Type 0 where
  pub fiber : ℕ
  pub result : ℤ
  pub kind : Kind

-- A call of libuv that ends with a callback, with its arguments.
pub data Operation : Type 0 where
  timer : (ms : ℕ) → Operation
  open_file : (path : String) (flags mode : ℤ) → Operation
  read_file : (fd : ℤ) (iov : Buf) (position : ℤ) → Operation
  write_file : (fd : ℤ) (iov : Buf) (position : ℤ) → Operation
  close_file : (fd : ℤ) → Operation
  fstat : (fd : ℤ) → Operation
  fsync : (fd : ℤ) → Operation
  fdatasync : (fd : ℤ) → Operation
  unlink : (path : String) → Operation
  mkdir : (path : String) (mode : ℤ) → Operation
  rmdir : (path : String) → Operation
  scandir : (path : String) → Operation
  getaddrinfo : (host : String) (family : Family) → Operation
  tcp_connect : (host : String) (port : ℤ) → Operation
  write_stream : (socket : ℕ) (buf : Buf) → Operation
  poll_socket : (fd events : ℤ) → Operation
  udp_send : (socket : ℕ) (buf : Buf) (host : String) (port : ℤ) → Operation

-- Where a stack begins: in `main`, or in `Fiber::run` of a fiber.
pub data Base : Type 0 where
  main_stack : Base
  fiber_stack : (self : ℕ) → Base

-- What `swapcontext` saves: the innermost frames of the stack that gives up control.
pub data Context : Type 0 where
  -- `makecontext(context_, fiber_entry, 0)`
  entry : Context
  -- in a primitive that called `Fiber::yield()`, itself called from a script
  in_yield : Base → Cont → (Reply → Script) → Context
  -- in `Fiber::resume(fiber)`, called by `Fiber_Run`
  in_run : Base → (fiber : ℕ) → (Reply → Script) → Context
  -- in `Fiber::resume(fiber)`, called by `OnFibersToResume` with the rest of its local queue
  in_drain : (fiber context : ℕ) (local_queue : List ℕ) → Context
