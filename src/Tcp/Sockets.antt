-- ===== src/Tcp/Sockets.antt =====
-- The fibers that accept on a socket, in order, and the sockets that `TCP_Connect` makes.

use runtime_system.Base.{
  ℕ, ◌+◌, ℤ, ◌≡◌, refl, sym, subst, List, [], ◌∷◌, ◌++◌, Option, none, some, arith, update,
}
use runtime_system.State.{World, net, NetHandle, Kind, give_result, on_accept}
use runtime_system.State.Memory.{
  get_handle, as_net, set_class, retain, add_new, store_handle, queue_fiber_to_resume,
}
use runtime_system.State.Memory.Laws.{drop_replaced-next_object}
use runtime_system.External.{External, ticked}
use runtime_system.Primitive.{blocks}
use runtime_system.Tcp.Calls.{tcp_accept, uv_handle}
use runtime_system.Tcp.Callbacks.{
  on_read, on_alloc, on_uv_connection, wrap_of, net_at, connect_success,
}

-- The wrapper of a socket made by `TCP_Connect` is a copy of a `uv_tcp_t` whose `data` is null, so
-- the callbacks of a read on it reach no `NetHandle`.
pub connected_unreadable :
    (x : External) (socket : ℕ) (w : World)
    → let v = (connect_success x (uv_handle none socket) w).1 in
      (on_alloc w.next_object v ≡ none) × ((nread : ℤ) → on_read w.next_object nread v ≡ none)
unfolding connect_success on_alloc on_read wrap_of add_new store_handle ticked
connected_unreadable x socket w =
    let same = drop_replaced-next_object (ticked w) in (ground arith, λ nread. ground arith)

-- The fiber that calls `TCP_Accept` stands last in the queue of the socket, and waits.
pub tcp_accept-queue :
    (x : External) (id o : ℕ) (n : NetHandle) (w : World)
    → get_handle as_net id w ≡ some (o, n)
    → (v : World) × (tcp_accept x id w
        ≡ blocks (give_result (record { target = on_accept o; held = o ∷ [] })) v)
      × (net_at o v ≡ some (record n { accept_queue = n.accept_queue ++ w.current_fiber ∷ [] }))
unfolding tcp_accept net_at get_handle set_class retain
tcp_accept-queue x id o n w e = (
  retain o
      (set_class o (net (record n { accept_queue = n.accept_queue ++ w.current_fiber ∷ [] })) w),
  ground arith,
  ground arith,
)

-- What a connection on the `NetHandle` at `o` does to the fibers in its queue.
pub data Wakes (o : ℕ) (status : ℤ) (n : NetHandle) (w : World) : Option World → Type 0 where
  nobody : n.accept_queue ≡ [] → Wakes o status n w (some w)
  first :
      (f : ℕ) (rest : List ℕ) (v : World)
      → n.accept_queue ≡ f ∷ rest
      → net_at o v ≡ some (record n { accept_queue = rest })
      → v.resumable_fibers ≡ w.resumable_fibers ++ w.next_context ∷ []
      → v.contexts w.next_context
        ≡ some (record { fiber = f; result = status; kind = Kind.accept o })
      → Wakes o status n w (some v)

wrap_of_self :
    (o : ℕ) (n : NetHandle) (w : World)
    → net_at o w ≡ some n
    → n.handle.user ≡ some o
    → wrap_of o w ≡ some (o, n)
unfolding wrap_of
wrap_of_self o n w e u = ground arith

-- The world after a connection that wakes the fiber `f`.
abbrev woken : (o : ℕ) (status : ℤ) (n : NetHandle) (f : ℕ) (rest : List ℕ) → World → World
woken o status n f rest w =
    let c = w.next_context in
    queue_fiber_to_resume c (record (set_class o (net (record n { accept_queue = rest })) w) {
      contexts =
          update w.contexts c (some (record { fiber = f; result = status; kind = Kind.accept o }));
      next_context = c + 1;
    })

module _ (o : ℕ) (status : ℤ) (n : NetHandle) (w : World) (e : net_at o w ≡ some n)
    (u : n.handle.user ≡ some o) where
  on_uv_connection-nil : n.accept_queue ≡ [] → on_uv_connection o status w ≡ some w
  unfolding on_uv_connection
  on_uv_connection-nil q = ground (arith, wrap_of_self o n w e u)

  on_uv_connection-cons :
      (f : ℕ) (rest : List ℕ)
      → n.accept_queue ≡ f ∷ rest
      → on_uv_connection o status w ≡ some (woken o status n f rest w)
  unfolding on_uv_connection
  on_uv_connection-cons f rest q = ground (arith, wrap_of_self o n w e u)

  woken-net_at :
      (f : ℕ) (rest : List ℕ)
      → net_at o (woken o status n f rest w) ≡ some (record n { accept_queue = rest })
  unfolding net_at set_class queue_fiber_to_resume
  woken-net_at f rest = ground (arith, e)

  woken-first :
      (f : ℕ) (rest : List ℕ)
      → n.accept_queue ≡ f ∷ rest
      → Wakes o status n w (some (woken o status n f rest w))
  unfolding set_class queue_fiber_to_resume
  woken-first f rest q =
      first f rest (woken o status n f rest w) q (woken-net_at f rest) (ground arith) (ground arith)

  wakes : (q : List ℕ) → n.accept_queue ≡ q → Wakes o status n w (on_uv_connection o status w)
  wakes [] q = subst (Wakes o status n w) (sym (on_uv_connection-nil q)) (nobody q)
  wakes (f ∷ rest) q =
      subst (Wakes o status n w) (sym (on_uv_connection-cons f rest q)) (woken-first f rest q)

-- A connection wakes the first fiber of the queue and no other; with no fiber in the queue it
-- changes nothing, so that a later `TCP_Accept` waits for another connection.
pub on_uv_connection-Wakes :
    (o : ℕ) (status : ℤ) (n : NetHandle) (w : World)
    → net_at o w ≡ some n
    → n.handle.user ≡ some o
    → Wakes o status n w (on_uv_connection o status w)
on_uv_connection-Wakes o status n w e u = wakes o status n w e u n.accept_queue refl
