-- ===== src/Udp.antt =====
-- primitives_udp.cpp.
use mathlib.Core.Option
use runtime_system.Base.{
  ℕ, ℤ, pos, true, false, String, [], ◌∷◌, Option, none, some, is_zero, is_some, is_negative, not,
  ◌&&◌, if◌then◌else◌,
}
use runtime_system.Value.{
  Value, undefined, null, object, bigint, integer, text, View, Buf, buf_of_view, id_value, is_empty,
}
use runtime_system.State.{
  World, udp, UdpHandle, Kind, Operation, on_context, give_result, give_undefined, Family, af_inet,
  af_inet6, af_other,
}
use runtime_system.State.Memory.{
  get_handle, as_udp, set_class, remove_handle, add_new, new_context, retain, fill_context,
  queue_fiber_to_resume,
}
use runtime_system.External.{External, ticked}
use runtime_system.Primitive.{Outcome, blocks, throw, give, start}

-- `UDPHandle::Close`.
unfoldable pub close_udp : UdpHandle → UdpHandle
close_udp u =
    if u.handle.is_closing then u else record u { handle = record (u.handle) { is_closing = true } }

-- `new RecvContext(…)` and `new SendContext(…)`, without the fiber.
abbrev recv_context : View → Kind
recv_context buffer = Kind.recv (buf_of_view buffer) "" 0

abbrev send_context : View → Kind
send_context buffer = Kind.send (buf_of_view buffer)

module _ (x : External) where
  -- `UDP_Create`.
  unfoldable pub udp_create : World → Outcome
  udp_create w =
      let (id, w') =
        add_new
          (udp (record {
            handle = record {
              user = some w.next_object;
              socket = x.socket w.tick;
              is_closing = false;
              is_reading = false;
            };
            pending_read = none;
          }))
          (ticked w) in
      give (id_value id) w'

  -- `UDP_Listen`.
  unfoldable pub udp_listen : (id : ℕ) (host : String) (port : ℤ) → World → Outcome
  udp_listen id host port w = elim (get_handle as_udp id w) [
    | none ↦ throw "Invalid UDP socket handle" w
    | some (o, u) ↦
        if not (is_zero (x.udp_bind w.tick host port))
        then throw "Failed to bind UDP socket" (ticked w)
        else give undefined (ticked w)
  ]

  -- `UDP_Read`, up to its `Fiber::yield()`. `uv_udp_recv_start` keeps the callback on the socket.
  unfoldable pub udp_read : (id : ℕ) (buffer : View) → World → Outcome
  unfolding new_context
  udp_read id buffer w = elim (get_handle as_udp id w) [
    | none ↦ throw "Invalid UDP socket handle" w
    | some (o, u) ↦
        let (c, w') = new_context (recv_context buffer) w in
        if is_some u.pending_read
        then throw "Read already pending on socket" w
        else blocks (give_result (record { target = on_context c; held = o ∷ [] })) (
            retain o (
              set_class o
                (udp (record u {
                  pending_read = some c;
                  handle = record (u.handle) { is_reading = true };
                }))
                (ticked w')))
  ]

  -- `UDP_Write`, up to its `Fiber::yield()`.
  unfoldable pub udp_write : (id : ℕ) (buffer : View) (host : String) (port : ℤ) → World → Outcome
  udp_write id buffer host port w = elim (get_handle as_udp id w) [
    | none ↦ throw "Invalid UDP socket handle" w
    | some (o, u) ↦
        start x (send_context buffer)
          (Operation.udp_send u.handle.socket (buf_of_view buffer) host port) give_undefined
          (o ∷ []) w
  ]

  -- `UDP_Close`.
  unfoldable pub udp_close : (id : ℕ) → World → Outcome
  unfolding close_udp
  udp_close id w = elim (get_handle as_udp id w) [
    | none ↦ throw "Invalid UDP socket handle" w
    | some (o, u) ↦ give undefined (remove_handle id (set_class o (udp (close_udp u)) w))
  ]

-- The `UDPHandle` that `handle->data` reaches from the one at an address.
unfoldable pub udp_at : ℕ → World → Option UdpHandle
udp_at o w = elim (w.objects o) [ none ↦ none | some h ↦ as_udp h.class ]

unfoldable pub udp_wrap_of : ℕ → World → Option (ℕ × UdpHandle)
unfolding udp_at
udp_wrap_of o w = elim (udp_at o w) [
  | none ↦ none
  | some u ↦ elim u.handle.user [
    | none ↦ none
    | some p ↦ elim (udp_at p w) [ none ↦ none | some wrap ↦ some (p, wrap) ]
  ]
]

-- `OnRecvAlloc`: where libuv is to put the datagram; `none` is the use of a null pointer.
unfoldable pub on_recv_alloc : ℕ → World → Option Buf
on_recv_alloc o w = elim (udp_wrap_of o w) [
  | none ↦ none
  | some (p, wrap) ↦ elim wrap.pending_read [
    | none ↦ none
    | some c ↦ elim (w.contexts c) [
      | none ↦ none
      | some a ↦ elim a.kind [ Kind.recv iov host port ↦ some iov | _ ↦ none ]
    ]
  ]
]

-- A `sockaddr`: its family, the text that `uv_ip4_name` or `uv_ip6_name` makes of it, and what
-- `ntohs` makes of its port.
pub record SockAddr : Type 0 where
  pub family : Family
  pub ip_name : String
  pub port : ℕ

-- The host and port that `OnRecv` notes.
unfoldable pub fill_recv : ℤ → Option SockAddr → Kind → Kind
fill_recv nread (some a) (Kind.recv iov host port) =
    let named = Kind.recv iov a.ip_name a.port in
    let same = Kind.recv iov host port in
    if is_negative nread
    then same
    else elim a.family [ af_inet ↦ named | af_inet6 ↦ named | af_other ↦ same ]
fill_recv nread addr k = k

-- `OnRecv` for the socket of the `UDPHandle` at an address.
unfoldable pub on_recv : ℕ → ℤ → Option SockAddr → World → Option World
unfolding fill_recv
on_recv o nread addr w = elim (udp_wrap_of o w) [
  | none ↦ none
  | some (p, wrap) ↦ elim wrap.pending_read [
    | none ↦ some w
    | some c ↦ Option.map (queue_fiber_to_resume c) (
        fill_context c nread (fill_recv nread addr) (
          set_class p
            (udp (record wrap {
              pending_read = none;
              handle = record (wrap.handle) { is_reading = false };
            }))
            w))
  ]
]

-- `RecvContext::CreateResultValue` on success.
unfoldable pub recv_success : ℤ → (host : String) (port : ℕ) → Value
recv_success result host port =
    if is_zero result && is_empty host
    then null
    else object (("bytes", bigint result) ∷ ("host", text host) ∷ ("port", integer (pos port)) ∷ [])
