-- ===== src/Async/Errors.antt =====
-- When a primitive throws: `CreateResultValue` makes an error object of the failures, and of nothing
-- else.
use runtime_system.Base.{
  ℕ, ℤ, ◌≡◌, refl, ◌≢◌, String, List, Bool, true, false, ◌&&◌, not, some, arith, is_negative, same,
}
use runtime_system.Value.{Value, error}
use runtime_system.State.{World, AsyncContext, Kind, Dirent, Stat, FsType}
use runtime_system.External.{External}
use runtime_system.Fs.{fs_success, stat_value}
use runtime_system.Value.{id_value}
use runtime_system.Tcp.{uv_eof, read_error, connect_success}
use runtime_system.Udp.{recv_success}
use runtime_system.Dns.{dns_success}
use runtime_system.Async.{create_result_value, failure, success}

abbrev pub is_error : Value → Bool
is_error (error m) = true
is_error _ = false

-- The kinds of requests whose failures are reported: a timer has none, and the end of a stream is
-- no failure.
abbrev pub reports : Kind → ℤ → Bool
reports Kind.sleep r = false
reports (Kind.read iov) r = not (same r uv_eof)
reports _ r = true

failure-is_error : (x : External) (r : ℤ) (k : Kind) → is_error (failure x r k) ≡ reports k r
unfolding failure read_error
failure-is_error x r (Kind.read iov) = ground arith
failure-is_error x r Kind.sleep = refl
failure-is_error x r k = refl

fs_success-is_error :
    (r : ℤ) (t : FsType) (path : String) (ds : List Dirent) (s : Stat) (w : World)
    → is_error (fs_success r t path ds s w).0 ≡ false
unfolding fs_success id_value stat_value
fs_success-is_error r FsType.fs_open path ds s w = refl
fs_success-is_error r t path ds s w = refl

success-is_error :
    (x : External) (r : ℤ) (k : Kind) (w : World) (v : Value) (w' : World)
    → ((server : ℕ) → k ≢ Kind.accept server)
    → success x r k w ≡ some (v, w')
    → is_error v ≡ false
unfolding success connect_success id_value recv_success dns_success
success-is_error x r (Kind.accept server) w v w' na e = absurd (na server refl)
success-is_error x r (Kind.fs t path ds s) w v w' na e =
    ground (arith, fs_success-is_error r t path ds s w)
success-is_error x r k w v w' na e = ground arith

-- A context of any class but `AcceptContext` gives an error object exactly if libuv reported an
-- error that is to be reported.
pub create_result_value-is_error :
    (x : External) (a : AsyncContext) (w : World) (v : Value) (w' : World)
    → ((server : ℕ) → a.kind ≢ Kind.accept server)
    → create_result_value x a w ≡ some (v, w')
    → is_error v ≡ (is_negative a.result && reports a.kind a.result)
unfolding create_result_value
create_result_value-is_error x a w v w' na e =
    ground (arith, failure-is_error x a.result a.kind, success-is_error x a.result a.kind w v w' na)
