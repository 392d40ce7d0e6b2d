-- ===== src/Tcp/Callbacks.antt =====
-- primitives_tcp.cpp: the callbacks of libuv, and the results of requests.
use mathlib.Core.Option
use runtime_system.Base.{
  ℕ, ◌+◌, ℤ, negsuc, false, [], ◌∷◌, Option, none, some, is_negative, same, update, if◌then◌else◌,
}
use runtime_system.Value.{Value, error, scalar, bigint, id_value, Buf, message}
use runtime_system.State.{World, net, NetHandle, UvHandle, Kind}
use runtime_system.State.Memory.{
  as_net, set_class, add_handle, add_new, release, fill_context, close_member,
  queue_fiber_to_resume,
}
use runtime_system.External.{External, ticked}
use runtime_system.Tcp.Calls.{new_net, uv_handle}

-- The `NetHandle` that `static_cast<NetHandle*>(handle->data)` reaches; `none` is an invalid pointer.
unfoldable pub net_at : ℕ → World → Option NetHandle
net_at o w = elim (w.objects o) [ none ↦ none | some h ↦ as_net h.class ]

-- The wrapper of the stream that belongs to the `NetHandle` at an address: what its `data` points to.
unfoldable pub wrap_of : ℕ → World → Option (ℕ × NetHandle)
unfolding net_at
wrap_of o w = elim (net_at o w) [
  | none ↦ none
  | some n ↦ elim n.handle.user [
    | none ↦ none
    | some p ↦ elim (net_at p w) [ none ↦ none | some wrap ↦ some (p, wrap) ]
  ]
]

-- `OnUvConnection` for the server at an address.
unfoldable pub on_uv_connection : ℕ → ℤ → World → Option World
on_uv_connection o status w = elim (wrap_of o w) [
  | none ↦ none
  | some (p, wrap) ↦ elim wrap.accept_queue [
    | [] ↦ some w
    | fiber ∷ rest ↦
        let c = w.next_context in
        some (
          queue_fiber_to_resume c
            (record (set_class p (net (record wrap { accept_queue = rest })) w) {
              contexts =
                  update w.contexts c
                    (some (record { fiber = fiber; result = status; kind = Kind.accept o }));
              next_context = c + 1;
            }))
  ]
]

abbrev keep : Kind → Kind
keep k = k

-- `OnConnect`, `OnWrite`.
unfoldable pub on_status : ℕ → ℤ → World → Option World
on_status c status w = Option.map (queue_fiber_to_resume c) (fill_context c status keep w)

-- `OnAlloc`: the buffer that the stream reads into.
unfoldable pub on_alloc : ℕ → World → Option Buf
on_alloc o w = elim (wrap_of o w) [
  | none ↦ none
  | some (p, wrap) ↦ elim wrap.pending_read [
    | none ↦ none
    | some c ↦ elim (w.contexts c) [
      | none ↦ none
      | some a ↦ elim a.kind [ Kind.read iov ↦ some iov | _ ↦ none ]
    ]
  ]
]

-- `OnRead` for the stream of the `NetHandle` at an address; `uv_read_stop` ends the reading.
unfoldable pub on_read : ℕ → ℤ → World → Option World
on_read o nread w = elim (wrap_of o w) [
  | none ↦ none
  | some (p, wrap) ↦ elim wrap.pending_read [
    | none ↦ some w
    | some c ↦ Option.map (queue_fiber_to_resume c) (
        fill_context c nread keep (
          set_class p
            (net (record wrap {
              pending_read = none;
              handle = record (wrap.handle) { is_reading = false };
            }))
            w))
  ]
]

-- `OnPoll`, which stops and closes the `uv_poll_t` of its context.
unfoldable pub on_poll : ℕ → (status events : ℤ) → World → Option World
unfolding close_member
on_poll c status events w =
    Option.map (queue_fiber_to_resume c)
      (fill_context c (if is_negative status then status else events) keep (close_member c w))

-- libuv's code for the end of a stream.
abbrev pub uv_eof : ℤ
uv_eof = negsuc 4094

module _ (x : External) where
  -- `ConnectContext::CreateResultValue` on success: the wrapper takes a copy of the connected
  -- `uv_tcp_t`, `data` included.
  unfoldable pub connect_success : UvHandle → World → Value × World
  connect_success socket w =
      let (id, w') =
        add_new (net (record { handle = socket; accept_queue = []; pending_read = none }))
          (ticked w) in
      (id_value id, w')

  -- The stream of a new client that `uv_accept` connected, in its wrapper.
  accepted_client : (o client : ℕ) → World → Value × World
  accepted_client o client w =
      let (id, w') = add_handle o (
        set_class o
          (net
            (record { handle = uv_handle (some o) client; accept_queue = []; pending_read = none }))
          w) in
      (id_value id, w')

  -- `AcceptContext::CreateResultValue` on success. A client that `uv_accept` refuses is closed, and
  -- the result is the error -1. `none` is the use of a server that was deleted.
  unfoldable pub accept_success : (server : ℕ) → World → Option (Value × World)
  unfolding accepted_client new_net
  accept_success server w =
      let (o, w₁) = new_net x w in
      elim (net_at server w) [
        | none ↦ none
        | some n ↦ elim (x.accept w₁.tick n.handle.socket) [
          | none ↦
              some (
                error (message x.strerror (negsuc 0) "accept (internal)" ""),
                release o (ticked w₁),
              )
          | some client ↦ some (accepted_client o client (ticked w₁))
        ]
      ]

  -- `ReadContext::CreateResultValue` on an error: the end of the stream is -1.
  unfoldable pub read_error : ℤ → Value
  read_error result =
      if same result uv_eof
      then scalar (bigint (negsuc 0))
      else error (message x.strerror result "read" "")
