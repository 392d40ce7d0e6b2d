-- ===== src/Tests/Datagrams.antt =====
-- UDP sockets, and the buffers of requests.
use runtime_system.Base.{◌≡◌, refl, [], ◌∷◌, none, some, arith, pos}
use runtime_system.Value.{View, buf_of_view, object, bigint, text, integer, is_empty}
use runtime_system.State.{World, udp, UdpHandle, AsyncContext, Cont, file, entry, af_inet}
use runtime_system.Handles.{get, find}
use runtime_system.State.Memory.{get_handle}
use runtime_system.Primitive.{blocks}
use runtime_system.Fs.{fs_read, fs_write}
use runtime_system.Tcp.{uv_handle, tcp_write}
use runtime_system.Udp.{SockAddr, udp_read, udp_write, on_recv, on_recv_alloc, udp_at}
use runtime_system.Async.{create_result_value}
use runtime_system.Async.Datagrams.{IsReceived, udp_read-on_recv, stopped}
use runtime_system.Machine.Frame.{Leaves}
use runtime_system.Machine.Frame.Buffers.{Asks, io_calls-Asks}
use runtime_system.Tests.{answers, started, with_handle}

-- A UDP socket at 0 with the handle 1.
abbrev socket : UdpHandle
socket = record { handle = uv_handle (some 0) 9; pending_read = none }

abbrev socket_world : World
socket_world = with_handle (udp socket) (started entry)

abbrev a_view : View
a_view = record { buffer = 0; offset = 8; byte_length = 16 }

abbrev sender : SockAddr
sender = record { family = af_inet; ip_name = "10.0.0.1"; port = 53 }

sender-IsReceived : IsReceived (pos 12) sender
unfolding is_empty
sender-IsReceived = record { received = refl; internet = ground arith; named = ground arith }

udp_read-on_recv_example :
    (k : Cont) × (w₁ w₂ : World) × (b : AsyncContext) × (udp_read answers 1 a_view socket_world
      ≡ blocks k w₁)
    × (on_recv_alloc 0 w₁ ≡ some (buf_of_view a_view))
    × (on_recv 0 (pos 12) (some sender) w₁ ≡ some w₂)
    × (w₂.resumable_fibers ≡ 0 ∷ [])
    × (w₂.contexts 0 ≡ some b)
    × (b.fiber ≡ 0)
    × (create_result_value answers b w₂
        ≡ some (
          object (
              ("bytes", bigint (pos 12))
              ∷ ("host", text "10.0.0.1")
              ∷ ("port", integer (pos 53))
              ∷ []),
          w₂,
        ))
    × (udp_at 0 w₂ ≡ some (stopped socket))
unfolding get_handle get find
udp_read-on_recv_example =
    udp_read-on_recv answers 1 0 socket a_view (pos 12) sender socket_world refl refl refl
      sender-IsReceived

abbrev file_world : World
file_world = with_handle (file (pos 3) "a") (started entry)

io_calls-Asks_example :
    Leaves (Asks a_view file_world) (fs_read answers 1 a_view (pos 0) file_world)
    × Leaves (Asks a_view file_world) (fs_write answers 1 a_view (pos 0) file_world)
    × Leaves (Asks a_view file_world) (tcp_write answers 1 a_view file_world)
    × Leaves (Asks a_view file_world) (udp_write answers 1 a_view "host" (pos 53) file_world)
io_calls-Asks_example = io_calls-Asks answers 1 a_view (pos 0) (pos 53) "host" file_world
