-- ===== src/Machine/Dispatch.antt =====
-- The `SET_METHOD` tables, and the code behind each `Fiber::yield()`.
use runtime_system.Value.{undefined}
use runtime_system.State.{
  World, Call, Cont, sleep_done, give_result, give_undefined, close_file, tls_polled,
}
use runtime_system.State.Memory.{remove_handle, release_all}
use runtime_system.External.{External}
use runtime_system.Primitive
use runtime_system.Primitive.{Outcome, give, conclude}
use runtime_system.Fs
use runtime_system.Tcp
use runtime_system.Udp
use runtime_system.Dns
use runtime_system.Tls
use runtime_system.Fibers
use runtime_system.Encoding

-- A call of a primitive by a script.
unfoldable pub start_call : External → Call → World → Outcome
start_call x (Call.print args) = Primitive.print args
start_call x (Call.fiber_run func) = Fibers.fiber_run func
start_call x Call.fiber_current = Fibers.fiber_current
start_call x (Call.fiber_sleep ms) = Fibers.fiber_sleep x ms
start_call x (Call.handles_free id) = λ w. give undefined (remove_handle id w)
start_call x (Call.fs_open path flags mode) = Fs.fs_open x path flags mode
start_call x (Call.fs_read id buffer position) = Fs.fs_read x id buffer position
start_call x (Call.fs_write id buffer position) = Fs.fs_write x id buffer position
start_call x (Call.fs_close id) = Fs.fs_close x id
start_call x (Call.fs_status id) = Fs.fs_status x id
start_call x (Call.fs_sync id) = Fs.fs_sync x id
start_call x (Call.fs_data_sync id) = Fs.fs_data_sync x id
start_call x (Call.fs_remove path) = Fs.fs_remove x path
start_call x (Call.fs_dir_open path) = Fs.fs_dir_open x path
start_call x (Call.fs_dir_read id) = Fs.fs_dir_read id
start_call x (Call.fs_dir_close id) = Fs.fs_dir_close id
start_call x (Call.fs_dir_make path mode) = Fs.fs_dir_make x path mode
start_call x (Call.fs_dir_remove path) = Fs.fs_dir_remove x path
start_call x (Call.tcp_listen host port) = Tcp.tcp_listen x host port
start_call x (Call.tcp_accept id) = Tcp.tcp_accept x id
start_call x (Call.tcp_connect host port) = Tcp.tcp_connect x host port
start_call x (Call.tcp_read id buffer) = Tcp.tcp_read x id buffer
start_call x (Call.tcp_write id buffer) = Tcp.tcp_write x id buffer
start_call x (Call.tcp_close id) = Tcp.tcp_close x id
start_call x (Call.tcp_poll id events) = Tcp.tcp_poll x id events
start_call x Call.udp_create = Udp.udp_create x
start_call x (Call.udp_listen id host port) = Udp.udp_listen x id host port
start_call x (Call.udp_read id buffer) = Udp.udp_read x id buffer
start_call x (Call.udp_write id buffer host port) = Udp.udp_write x id buffer host port
start_call x (Call.udp_close id) = Udp.udp_close x id
start_call x (Call.dns_resolve hostname rrtype) = Dns.dns_resolve x hostname rrtype
start_call x (Call.tls_create_context resolver) = Tls.tls_create_context x resolver
start_call x (Call.tls_parse_key source) = Tls.tls_parse_key x source
start_call x (Call.tls_parse_cert source) = Tls.tls_parse_cert x source
start_call x (Call.tls_accept ctx_id net_id) = Tls.tls_accept x ctx_id net_id
start_call x (Call.tls_connect net_id host) = Tls.tls_connect x net_id host
start_call x (Call.tls_read id buffer) = Tls.tls_read id buffer
start_call x (Call.tls_write id buffer) = Tls.tls_write id buffer
start_call x (Call.tls_close id) = Tls.tls_close id
start_call x (Call.encoding_encode str) = Encoding.encoding_encode x str
start_call x (Call.encoding_decode source) = Encoding.encoding_decode x source

-- The code behind a `Fiber::yield()`; the locals are destroyed at the end.
unfoldable pub after_yield : Cont → World → Outcome
after_yield (sleep_done p) w = give undefined (release_all p.held w)
after_yield (give_result p) w = conclude (λ v. v) (release_all p.held w)
after_yield (give_undefined p) w = conclude (λ v. undefined) (release_all p.held w)
after_yield (close_file id p) w =
    conclude (λ v. undefined) (release_all p.held (remove_handle id w))
after_yield (tls_polled ssl l p) w = Tls.after_poll ssl l p w
