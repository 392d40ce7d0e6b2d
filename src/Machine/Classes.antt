-- ===== src/Machine/Classes.antt =====
-- The handles that scripts name by their ids: `HandleStore::Get<T>(id)` in the primitives.
use runtime_system.Base.{ℕ, ◌≡◌, Bool, true, false, ◌&&◌, String, List, [], ◌∷◌, none, some, arith}
use runtime_system.State.{World, Call, Class, file, directory, net, udp, tls_context, tls}
use runtime_system.State.Memory.{get_object, get_handle}
use runtime_system.External.{External}
use runtime_system.Primitive.{throw}
use runtime_system.Machine.Dispatch.{start_call}
use runtime_system.Fs.{
  fs_read, fs_write, fs_close, fs_status, fs_sync, fs_data_sync, fs_dir_read, fs_dir_close,
}
use runtime_system.Tcp.{tcp_accept, tcp_read, tcp_write, tcp_close, tcp_poll}
use runtime_system.Udp.{udp_listen, udp_read, udp_write, udp_close}
use runtime_system.Tls.{tls_accept, tls_connect, tls_read, tls_write, tls_close}

-- The class that a primitive asks `HandleStore::Get` for.
pub data Wanted : Type 0 where
  a_file a_directory a_socket a_udp_socket a_tls_context a_tls_socket : Wanted

abbrev pub is_class : Wanted → Class → Bool
is_class a_file (file fd path) = true
is_class a_directory (directory entries index) = true
is_class a_socket (net n) = true
is_class a_udp_socket (udp u) = true
is_class a_tls_context (tls_context ctx resolver) = true
is_class a_tls_socket (tls ssl n) = true
is_class t k = false

-- The id is in use for an object of that class.
unfoldable pub is_a : Wanted → ℕ → World → Bool
unfolding get_object
is_a t id w = elim (get_object id w) [ none ↦ false | some (o, h) ↦ is_class t h.class ]

-- The ids among the arguments of a call, and the classes of the objects that they must name.
abbrev pub wanted : Call → List (Wanted × ℕ)
wanted (Call.fs_read id v p) = (a_file, id) ∷ []
wanted (Call.fs_write id v p) = (a_file, id) ∷ []
wanted (Call.fs_close id) = (a_file, id) ∷ []
wanted (Call.fs_status id) = (a_file, id) ∷ []
wanted (Call.fs_sync id) = (a_file, id) ∷ []
wanted (Call.fs_data_sync id) = (a_file, id) ∷ []
wanted (Call.fs_dir_read id) = (a_directory, id) ∷ []
wanted (Call.fs_dir_close id) = (a_directory, id) ∷ []
wanted (Call.tcp_accept id) = (a_socket, id) ∷ []
wanted (Call.tcp_read id v) = (a_socket, id) ∷ []
wanted (Call.tcp_write id v) = (a_socket, id) ∷ []
wanted (Call.tcp_close id) = (a_socket, id) ∷ []
wanted (Call.tcp_poll id e) = (a_socket, id) ∷ []
wanted (Call.udp_listen id h p) = (a_udp_socket, id) ∷ []
wanted (Call.udp_read id v) = (a_udp_socket, id) ∷ []
wanted (Call.udp_write id v h p) = (a_udp_socket, id) ∷ []
wanted (Call.udp_close id) = (a_udp_socket, id) ∷ []
wanted (Call.tls_accept c n) = (a_tls_context, c) ∷ (a_socket, n) ∷ []
wanted (Call.tls_connect n h) = (a_socket, n) ∷ []
wanted (Call.tls_read id v) = (a_tls_socket, id) ∷ []
wanted (Call.tls_write id v) = (a_tls_socket, id) ∷ []
wanted (Call.tls_close id) = (a_tls_socket, id) ∷ []
wanted c = []

-- What the call throws if they do not.
abbrev pub complaint : Call → String
complaint (Call.fs_dir_read id) = "Invalid directory handle"
complaint (Call.fs_dir_close id) = "Invalid directory handle"
complaint (Call.tcp_accept id) = "Invalid server handle"
complaint (Call.tcp_read id v) = "Invalid socket handle"
complaint (Call.tcp_write id v) = "Invalid socket handle"
complaint (Call.tcp_close id) = "Invalid socket handle"
complaint (Call.tcp_poll id e) = "Invalid socket handle"
complaint (Call.udp_listen id h p) = "Invalid UDP socket handle"
complaint (Call.udp_read id v) = "Invalid UDP socket handle"
complaint (Call.udp_write id v h p) = "Invalid UDP socket handle"
complaint (Call.udp_close id) = "Invalid UDP socket handle"
complaint (Call.tls_accept c n) = "Invalid context or socket handle"
complaint (Call.tls_connect n h) = "Invalid socket handle"
complaint (Call.tls_read id v) = "Invalid TLS socket handle"
complaint (Call.tls_write id v) = "Invalid TLS socket handle"
complaint (Call.tls_close id) = "Invalid TLS socket handle"
complaint c = "Invalid file handle"

-- All of them name objects of the classes wanted.
unfoldable pub fits : List (Wanted × ℕ) → World → Bool
unfolding is_a
fits [] w = true
fits ((t, id) ∷ ts) w = is_a t id w && fits ts w

-- Every primitive but `handles.free` that is given an id that is free, or that names an object of
-- a class that the primitive is not for, throws and changes nothing.
pub start_call-throw :
    (x : External) (c : Call) (w : World)
    → fits (wanted c) w ≡ false
    → start_call x c w ≡ throw (complaint c) w
unfolding start_call fits get_handle fs_read fs_write fs_close fs_status fs_sync fs_data_sync
    fs_dir_read fs_dir_close tcp_accept tcp_read tcp_write tcp_close tcp_poll udp_listen udp_read
    udp_write udp_close tls_accept tls_connect tls_read tls_write tls_close
start_call-throw x (Call.fs_read id v p) w h = ground arith
start_call-throw x (Call.fs_write id v p) w h = ground arith
start_call-throw x (Call.fs_close id) w h = ground arith
start_call-throw x (Call.fs_status id) w h = ground arith
start_call-throw x (Call.fs_sync id) w h = ground arith
start_call-throw x (Call.fs_data_sync id) w h = ground arith
start_call-throw x (Call.fs_dir_read id) w h = ground arith
start_call-throw x (Call.fs_dir_close id) w h = ground arith
start_call-throw x (Call.tcp_accept id) w h = ground arith
start_call-throw x (Call.tcp_read id v) w h = ground arith
start_call-throw x (Call.tcp_write id v) w h = ground arith
start_call-throw x (Call.tcp_close id) w h = ground arith
start_call-throw x (Call.tcp_poll id e) w h = ground arith
start_call-throw x (Call.udp_listen id host p) w h = ground arith
start_call-throw x (Call.udp_read id v) w h = ground arith
start_call-throw x (Call.udp_write id v host p) w h = ground arith
start_call-throw x (Call.udp_close id) w h = ground arith
start_call-throw x (Call.tls_accept c n) w h = ground arith
start_call-throw x (Call.tls_connect n host) w h = ground arith
start_call-throw x (Call.tls_read id v) w h = ground arith
start_call-throw x (Call.tls_write id v) w h = ground arith
start_call-throw x (Call.tls_close id) w h = ground arith
start_call-throw x c w h = absurd (ground arith)
