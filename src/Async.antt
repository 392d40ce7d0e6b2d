-- ===== src/Async.antt =====
-- `CreateResultValue` of each class derived from `AsyncContext`.
pub mod Errors
pub mod Datagrams
use mathlib.Core.Option
use runtime_system.Base.{ℕ, ℤ, pos, String, Option, none, some, is_negative, if◌then◌else◌}
use runtime_system.Value.{Value, undefined, error, scalar, bigint, integer, message}
use runtime_system.State.{World, AsyncContext, Kind}
use runtime_system.External.{External}
use runtime_system.Fs.{fs_syscall_name, fs_success}
use runtime_system.Tcp.{connect_success, accept_success, read_error}
use runtime_system.Udp.{recv_success}
use runtime_system.Dns.{dns_success}

module _ (x : External) where
  -- `AsyncContext::CreateResultValue` on an error, with `error_syscall` and `error_path`.
  unfoldable pub error_value : ℤ → (syscall path : String) → Value
  error_value result syscall path = error (message x.strerror result syscall path)

  -- What an override makes of a negative `result`.
  unfoldable pub failure : ℤ → Kind → Value
  unfolding error_value
  failure r Kind.sleep = undefined
  failure r (Kind.fs t path ds s) = error_value r (fs_syscall_name t) path
  failure r (Kind.dns hostname addresses has_result) = error_value r "getaddrinfo" hostname
  failure r (Kind.connect socket) = error_value r "connect" ""
  failure r (Kind.write buf) = error_value r "write" ""
  failure r (Kind.read iov) = read_error x r
  failure r (Kind.accept server) = error_value r "accept" ""
  failure r Kind.poll = error_value r "poll" ""
  failure r (Kind.recv iov host port) = error_value r "read" ""
  failure r (Kind.send buf) = error_value r "write" ""

  -- What an override makes of a `result` that is not negative.
  unfoldable pub success : ℤ → Kind → World → Option (Value × World)
  success r Kind.sleep w = some (undefined, w)
  success r (Kind.fs t path ds s) w = some (fs_success r t path ds s w)
  success r (Kind.dns hostname addresses has_result) w = some (dns_success addresses, w)
  success r (Kind.connect socket) w = some (connect_success x socket w)
  success r (Kind.write buf) w = some (scalar (bigint (pos buf.len)), w)
  success r (Kind.read iov) w = some (scalar (bigint r), w)
  success r (Kind.accept server) w = accept_success x server w
  success r Kind.poll w = some (scalar (integer r), w)
  success r (Kind.recv iov host port) w = some (recv_success r host port, w)
  success r (Kind.send buf) w = some (undefined, w)

  -- `CreateResultValue` of a context: `none` is the use of a deleted object.
  unfoldable pub create_result_value : AsyncContext → World → Option (Value × World)
  create_result_value a w =
      if is_negative a.result then some (failure a.result a.kind, w) else success a.result a.kind w
