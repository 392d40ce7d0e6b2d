-- ===== src/Async/Datagrams.antt =====
-- A datagram on its way from `UDP_Read` through `OnRecv` to `RecvContext::CreateResultValue`.
use runtime_system.Base.{
  ℕ, ℤ, pos, ◌≡◌, ◌≢◌, refl, ap, ◌∙◌, [], ◌∷◌, ◌++◌, none, some, true, false, is_negative, arith,
  update, inl, inr, Option-cases,
}
use runtime_system.Handles
use runtime_system.Value.{View, buf_of_view, object, bigint, text, integer, is_empty}
use runtime_system.State.{
  World, BaseHandle, Cont, udp, UdpHandle, AsyncContext, Kind, on_context, give_result, af_other,
}
use runtime_system.State.Memory.{
  get_handle, get_object, as_udp, set_class, retain, new_context, fill_context,
  queue_fiber_to_resume,
}
use runtime_system.External.{External, ticked}
use runtime_system.Primitive.{blocks}
use runtime_system.Udp.{
  SockAddr, udp_read, on_recv, on_recv_alloc, udp_at, udp_wrap_of, fill_recv, recv_success,
}
use runtime_system.Async.{create_result_value, success}

-- A socket whose receiving has stopped.
abbrev pub stopped : UdpHandle → UdpHandle
stopped u = record u { pending_read = none; handle = record (u.handle) { is_reading = false } }

-- The socket at `o` waits for a datagram for the context `c`, which was made for `v`.
record IsReceiving (o c : ℕ) (u : UdpHandle) (v : View) (fiber : ℕ) (w : World) : Type 0 where
  pub at : udp_at o w ≡ some u
  pub own : u.handle.user ≡ some o
  pub pending : u.pending_read ≡ some c
  pub live :
      w.contexts c
      ≡ some (record { fiber = fiber; result = pos 0; kind = Kind.recv (buf_of_view v) "" 0 })

-- What libuv reports is a datagram from an address that has a name.
pub record IsReceived (nread : ℤ) (a : SockAddr) : Type 0 where
  pub received : is_negative nread ≡ false
  pub internet : a.family ≢ af_other
  pub named : is_empty a.ip_name ≡ false

get_handle-object :
    (id o : ℕ) (u : UdpHandle) (w : World)
    → get_handle as_udp id w ≡ some (o, u)
    → (h : BaseHandle) × (w.objects o ≡ some h) × (as_udp h.class ≡ some u)
unfolding get_handle get_object
get_handle-object id o u w g = elim (Option-cases (Handles.get id w.handles)) [
  | inl a ↦ ground arith
  | inr (p, a) ↦ elim (Option-cases (w.objects p)) [
    | inl b ↦ ground arith
    | inr (h, b) ↦ (h, ground arith, ground arith)
  ]
]

udp_read-IsReceiving :
    (x : External) (id o : ℕ) (u : UdpHandle) (v : View) (w : World)
    → get_handle as_udp id w ≡ some (o, u)
    → u.pending_read ≡ none
    → u.handle.user ≡ some o
    → (w' : World) × (udp_read x id v w
        ≡ blocks (give_result (record { target = on_context w.next_context; held = o ∷ [] })) w')
      × (w'.resumable_fibers ≡ w.resumable_fibers)
      × IsReceiving o w.next_context
          (record u {
            pending_read = some w.next_context;
            handle = record (u.handle) { is_reading = true };
          })
          v
          w.current_fiber
          w'
unfolding udp_read new_context set_class retain ticked get_handle udp_at
udp_read-IsReceiving x id o u v w g free own =
    let (h, there, cast) = get_handle-object id o u w g in
    (
      retain o (
          set_class o
            (udp (record u {
              pending_read = some w.next_context;
              handle = record (u.handle) { is_reading = true };
            }))
            (ticked (new_context (Kind.recv (buf_of_view v) "" 0) w).1)),
      ground (arith, free),
      ground (arith, there),
      record {
        at = ground (arith, there);
        own = own;
        pending = refl;
        live = ground (arith, there);
      },
    )

module _ (x : External) (o c : ℕ) (u : UdpHandle) (v : View) (fiber : ℕ) (nread : ℤ) (a : SockAddr)
    (w : World) (h : IsReceiving o c u v fiber w) (i : IsReceived nread a) where
  udp_wrap_of_own : udp_wrap_of o w ≡ some (o, u)
  unfolding udp_wrap_of
  udp_wrap_of_own = ground (arith, h.at, h.own)

  on_recv_alloc-buffer : on_recv_alloc o w ≡ some (buf_of_view v)
  unfolding on_recv_alloc
  on_recv_alloc-buffer = ground (arith, udp_wrap_of_own, h.pending, h.live)

  -- The context of the read after the callback.
  abbrev filled : AsyncContext
  filled = record {
    fiber = fiber;
    result = nread;
    kind = Kind.recv (buf_of_view v) a.ip_name a.port;
  }

  -- The world after the callback.
  abbrev after_recv : World
  after_recv =
      let w' = set_class o (udp (stopped u)) w in
      queue_fiber_to_resume c (record w' { contexts = update w'.contexts c (some filled) })

  fill_recv-named :
      fill_recv nread (some a) (Kind.recv (buf_of_view v) "" 0)
      ≡ Kind.recv (buf_of_view v) a.ip_name a.port
  unfolding fill_recv
  fill_recv-named = ground (arith, i.received, i.internet)

  on_recv_after : on_recv o nread (some a) w ≡ some after_recv
  unfolding on_recv fill_context set_class
  on_recv_after = ground (arith, udp_wrap_of_own, h.pending, h.live, fill_recv-named)

  after_recv-udp_at : udp_at o after_recv ≡ some (stopped u)
  unfolding udp_at set_class queue_fiber_to_resume
  after_recv-udp_at = ground (arith, h.at)

  after_recv-queue : after_recv.resumable_fibers ≡ w.resumable_fibers ++ c ∷ []
  unfolding set_class queue_fiber_to_resume
  after_recv-queue = ground (arith, h.at)

  after_recv-context : after_recv.contexts c ≡ some filled
  unfolding set_class queue_fiber_to_resume
  after_recv-context = ground arith

  create_result_value-recv :
      create_result_value x filled after_recv
      ≡ some (
        object (
            ("bytes", bigint nread)
            ∷ ("host", text a.ip_name)
            ∷ ("port", integer (pos a.port))
            ∷ []),
        after_recv,
      )
  unfolding create_result_value success recv_success
  create_result_value-recv = ground (arith, i.received, i.named)

-- A fiber that reads from a UDP socket waits; libuv is told to put the datagram into its buffer; and
-- when a datagram from an address with a name arrives, the context that was made for the read is put
-- at the end of the queue for that fiber, its result is the number of bytes with the sender's host
-- and port, and the socket can be read again.
pub udp_read-on_recv :
    (x : External) (id o : ℕ) (u : UdpHandle) (v : View) (nread : ℤ) (a : SockAddr) (w : World)
    → get_handle as_udp id w ≡ some (o, u)
    → u.pending_read ≡ none
    → u.handle.user ≡ some o
    → IsReceived nread a
    → (k : Cont) × (w₁ w₂ : World) × (b : AsyncContext) × (udp_read x id v w ≡ blocks k w₁)
      × (on_recv_alloc o w₁ ≡ some (buf_of_view v))
      × (on_recv o nread (some a) w₁ ≡ some w₂)
      × (w₂.resumable_fibers ≡ w.resumable_fibers ++ w.next_context ∷ [])
      × (w₂.contexts w.next_context ≡ some b)
      × (b.fiber ≡ w.current_fiber)
      × (create_result_value x b w₂
          ≡ some (
            object (
                ("bytes", bigint nread)
                ∷ ("host", text a.ip_name)
                ∷ ("port", integer (pos a.port))
                ∷ []),
            w₂,
          ))
      × (udp_at o w₂ ≡ some (stopped u))
udp_read-on_recv x id o u v nread a w g free own i =
    let (w₁, blocked, same, h) = udp_read-IsReceiving x id o u v w g free own in
    let c = w.next_context in
    let f = w.current_fiber in
    let q = record u { pending_read = some c; handle = record (u.handle) { is_reading = true } } in
    (
      give_result (record { target = on_context c; held = o ∷ [] }),
      w₁,
      after_recv x o c q v f nread a w₁ h i,
      filled x o c q v f nread a w₁ h i,
      blocked,
      on_recv_alloc-buffer x o c q v f nread a w₁ h i,
      on_recv_after x o c q v f nread a w₁ h i,
      after_recv-queue x o c q v f nread a w₁ h i ∙ ap (λ r. r ++ c ∷ []) same,
      after_recv-context x o c q v f nread a w₁ h i,
      refl,
      create_result_value-recv x o c q v f nread a w₁ h i,
      after_recv-udp_at x o c q v f nread a w₁ h i,
    )
