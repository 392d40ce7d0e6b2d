-- ===== src/State/Calls.antt =====
-- The calls that a script makes: of `print`, and on `__primordials`, one constructor for a
-- `SET_METHOD`, with the arguments as the primitive reads them, and the code behind a `Fiber::yield()`.
use runtime_system.Base.{ℕ, ℤ, String, List}
use runtime_system.Value.{Reply, View, TryCatch}

-- A loop `do { r = SSL_…(ssl); } while (PerformSSLOperation(…) == 0)` of a primitive of
-- primitives_tls.cpp, with its locals: the `shared_ptr`s `tls_ctx`, `net_handle` and `sock`, the
-- `SSL_CTX*` of a client, the buffer and the id.
pub data TlsLoop : Type 0 where
  accepting : (tls_ctx net_handle sock : ℕ) → TlsLoop
  connecting : (net_handle sock ctx : ℕ) → TlsLoop
  reading : (sock : ℕ) → View → TlsLoop
  writing : (sock : ℕ) → View → TlsLoop
  closing : (id sock : ℕ) → TlsLoop

-- What a suspended primitive waits for: the `AsyncContext` that it made, or a connection on the
-- `NetHandle` in whose queue it stands.
pub data Target : Type 0 where
  on_context : (context : ℕ) → Target
  on_accept : (server : ℕ) → Target

-- The target, and the objects that the `shared_ptr`s among the locals hold.
pub record Waits : Type 0 where
  pub target : Target
  pub held : List ℕ

-- The code behind `Fiber::yield()`, with the locals that it uses.
pub data Cont : Type 0 where
  sleep_done : Waits → Cont
  give_result : Waits → Cont
  give_undefined : Waits → Cont
  close_file : (id : ℕ) → Waits → Cont
  tls_polled : (ssl : ℕ) → TlsLoop → Waits → Cont

-- A JavaScript function as the runtime sees it: what it calls, and how it goes on from the reply, to
-- its end or to an exception that it does not catch.
mutual
  pub data Script : Type 0 where
    finish : Script
    uncaught : TryCatch → Script
    call : Call → (Reply → Script) → Script

  pub data Call : Type 0 where
    print : (args : List String) → Call
    fiber_run : Script → Call
    fiber_current : Call
    fiber_sleep : (ms : ℤ) → Call
    handles_free : (id : ℕ) → Call
    fs_open : (path : String) (flags mode : ℤ) → Call
    fs_read : (id : ℕ) (buffer : View) (position : ℤ) → Call
    fs_write : (id : ℕ) (buffer : View) (position : ℤ) → Call
    fs_close : (id : ℕ) → Call
    fs_status : (id : ℕ) → Call
    fs_sync : (id : ℕ) → Call
    fs_data_sync : (id : ℕ) → Call
    fs_remove : (path : String) → Call
    fs_dir_open : (path : String) → Call
    fs_dir_read : (id : ℕ) → Call
    fs_dir_close : (id : ℕ) → Call
    fs_dir_make : (path : String) (mode : ℤ) → Call
    fs_dir_remove : (path : String) → Call
    tcp_listen : (host : String) (port : ℤ) → Call
    tcp_accept : (id : ℕ) → Call
    tcp_connect : (host : String) (port : ℤ) → Call
    tcp_read : (id : ℕ) (buffer : View) → Call
    tcp_write : (id : ℕ) (buffer : View) → Call
    tcp_close : (id : ℕ) → Call
    tcp_poll : (id : ℕ) (events : ℤ) → Call
    udp_create : Call
    udp_listen : (id : ℕ) (host : String) (port : ℤ) → Call
    udp_read : (id : ℕ) (buffer : View) → Call
    udp_write : (id : ℕ) (buffer : View) (host : String) (port : ℤ) → Call
    udp_close : (id : ℕ) → Call
    dns_resolve : (hostname rrtype : String) → Call
    tls_create_context : (resolver : ℕ) → Call
    tls_parse_key : (bytes : List ℕ) → Call
    tls_parse_cert : (bytes : List ℕ) → Call
    tls_accept : (ctx_id net_handle_id : ℕ) → Call
    tls_connect : (net_handle_id : ℕ) (host : String) → Call
    tls_read : (id : ℕ) (buffer : View) → Call
    tls_write : (id : ℕ) (buffer : View) → Call
    tls_close : (id : ℕ) → Call
    encoding_encode : String → Call
    encoding_decode : List ℕ → Call
