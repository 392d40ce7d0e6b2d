-- ===== src/Machine/Frame/Start.antt =====
-- What a call of a primitive leaves alone.
use runtime_system.Base.{String, List, [], ◌∷◌, refl, arith}
use runtime_system.State.{World, Call, Operation}
use runtime_system.State.Memory.Frame.{
  Keeps, Keeps-refl, remove_handle-Keeps, untouched-Keeps, IsHistory-refl,
}
use runtime_system.State.Memory.Owned.{pending_at}
use runtime_system.Primitive.{print}
use runtime_system.External.{External}
use runtime_system.Machine.Dispatch.{start_call}
use runtime_system.Machine.Frame.Rules.{Leaves, start-Keeps, by_lookup}
use runtime_system.Machine.Frame.Files.{
  fs_open-Keeps, fs_read-Keeps, fs_write-Keeps, fs_close-Keeps, fs_status-Keeps,
  handle_only_call-Keeps, path_only_call-Keeps, fs_dir_open-Keeps, fs_dir_read-Keeps,
  fs_dir_close-Keeps,
}
use runtime_system.Machine.Frame.Sockets.{
  tcp_listen-Keeps, tcp_accept-Keeps, tcp_connect-Keeps, tcp_read-Keeps, tcp_write-Keeps,
  tcp_close-Keeps, tcp_poll_then-Keeps,
}
use runtime_system.Machine.Frame.Datagrams.{
  udp_create-Keeps, udp_listen-Keeps, udp_read-Keeps, udp_write-Keeps, udp_close-Keeps,
  dns_resolve-Keeps,
}
use runtime_system.Machine.Frame.Sessions.{
  tls_create_context-Keeps, tls_parse_key-Keeps, tls_parse_cert-Keeps, tls_accept-Keeps,
  tls_connect-Keeps, tls_read-Keeps, tls_write-Keeps, tls_close-Keeps,
}
use runtime_system.Fs.{fs_sync, fs_data_sync, fs_remove, fs_dir_make, fs_dir_remove}
use runtime_system.Tcp.{tcp_poll}
use runtime_system.Fibers.{fiber_sleep, fiber_current}
use runtime_system.Encoding.{encoding_encode, encoding_decode}

-- All calls but `Fiber.run`.
abbrev pub IsPlain : Call → Type 0
IsPlain (Call.fiber_run s) = ⊥
IsPlain _ = Unit {0}

print-Keeps : (args : List String) (w : World) → Leaves (Keeps w) (print args w)
unfolding print pending_at
print-Keeps [] w = Keeps-refl w
print-Keeps (str ∷ rest) w =
    untouched-Keeps _ _ (ground arith) (IsHistory-refl w.handles) refl refl refl (λ o c e. e)

-- No primitive but `Fiber.run` touches a fiber, what is current, the queue of `main.cpp` or a context
-- that another fiber waits for, it changes the handle store by `Add` and `Remove` alone, and if each
-- context waits in one place and was not deleted, that still holds, up to its reply, its first
-- `Fiber::yield()` or its loop.
pub start_call-Keeps :
    (x : External) (c : Call) (w : World) → IsPlain c → Leaves (Keeps w) (start_call x c w)
unfolding start_call fs_sync fs_data_sync fs_remove fs_dir_make fs_dir_remove tcp_poll fiber_sleep
    fiber_current encoding_encode encoding_decode
start_call-Keeps x (Call.fiber_run s) w h = absurd h
start_call-Keeps x (Call.print args) w h = print-Keeps args w
start_call-Keeps x Call.fiber_current w h = Keeps-refl w
start_call-Keeps x (Call.fiber_sleep ms) w h = start-Keeps x _ _ _ _ w
start_call-Keeps x (Call.handles_free id) w h = remove_handle-Keeps id w
start_call-Keeps x (Call.fs_open p f m) w h = fs_open-Keeps x w p f m
start_call-Keeps x (Call.fs_read id v p) w h = fs_read-Keeps x w id v p
start_call-Keeps x (Call.fs_write id v p) w h = fs_write-Keeps x w id v p
start_call-Keeps x (Call.fs_close id) w h = fs_close-Keeps x w id
start_call-Keeps x (Call.fs_status id) w h = fs_status-Keeps x w id
start_call-Keeps x (Call.fs_sync id) w h = handle_only_call-Keeps x w _ _ id
start_call-Keeps x (Call.fs_data_sync id) w h = handle_only_call-Keeps x w _ _ id
start_call-Keeps x (Call.fs_remove p) w h = path_only_call-Keeps x w _ Operation.unlink p
start_call-Keeps x (Call.fs_dir_open p) w h = fs_dir_open-Keeps x w p
start_call-Keeps x (Call.fs_dir_read id) w h = fs_dir_read-Keeps w id
start_call-Keeps x (Call.fs_dir_close id) w h = fs_dir_close-Keeps w id
start_call-Keeps x (Call.fs_dir_make p m) w h =
    path_only_call-Keeps x w _ (λ q. Operation.mkdir q m) p
start_call-Keeps x (Call.fs_dir_remove p) w h = path_only_call-Keeps x w _ Operation.rmdir p
start_call-Keeps x (Call.tcp_listen host p) w h = tcp_listen-Keeps x w host p
start_call-Keeps x (Call.tcp_accept id) w h = tcp_accept-Keeps x w id
start_call-Keeps x (Call.tcp_connect host p) w h = tcp_connect-Keeps x w host p
start_call-Keeps x (Call.tcp_read id v) w h = tcp_read-Keeps x w id v
start_call-Keeps x (Call.tcp_write id v) w h = tcp_write-Keeps x w id v
start_call-Keeps x (Call.tcp_close id) w h = tcp_close-Keeps x w id
start_call-Keeps x (Call.tcp_poll id e) w h = tcp_poll_then-Keeps x w _ id e
start_call-Keeps x Call.udp_create w h = udp_create-Keeps x w
start_call-Keeps x (Call.udp_listen id host p) w h = udp_listen-Keeps x w id host p
start_call-Keeps x (Call.udp_read id v) w h = udp_read-Keeps x w id v
start_call-Keeps x (Call.udp_write id v host p) w h = udp_write-Keeps x w id v host p
start_call-Keeps x (Call.udp_close id) w h = udp_close-Keeps x w id
start_call-Keeps x (Call.dns_resolve n t) w h = dns_resolve-Keeps x w n t
start_call-Keeps x (Call.tls_create_context f) w h = tls_create_context-Keeps x w f
start_call-Keeps x (Call.tls_parse_key bytes) w h = tls_parse_key-Keeps x w bytes
start_call-Keeps x (Call.tls_parse_cert bytes) w h = tls_parse_cert-Keeps x w bytes
start_call-Keeps x (Call.tls_accept c n) w h = tls_accept-Keeps x w c n
start_call-Keeps x (Call.tls_connect n host) w h = tls_connect-Keeps x w n host
start_call-Keeps x (Call.tls_read id v) w h = tls_read-Keeps w id v
start_call-Keeps x (Call.tls_write id v) w h = tls_write-Keeps w id v
start_call-Keeps x (Call.tls_close id) w h = tls_close-Keeps w id
start_call-Keeps x (Call.encoding_encode s) w h = Keeps-refl w
start_call-Keeps x (Call.encoding_decode bytes) w h =
    by_lookup (Keeps w) _ _ (x.new_from_utf8 bytes) (Keeps-refl w) (λ s. Keeps-refl w)
