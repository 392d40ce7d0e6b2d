-- ===== src/Tcp/Reads.antt =====
-- The end of a read on a socket.

use runtime_system.Base.{ℕ, ℤ, ◌≡◌, [], ◌∷◌, ◌++◌, none, some, false, arith, update}
use runtime_system.State.{World, net, NetHandle, AsyncContext}
use runtime_system.State.Memory.{set_class, fill_context, queue_fiber_to_resume}
use runtime_system.Tcp.Callbacks.{on_read, wrap_of, net_at}

-- A socket whose reading has stopped.
abbrev pub stopped : NetHandle → NetHandle
stopped n = record n { pending_read = none; handle = record (n.handle) { is_reading = false } }

module _ (o c : ℕ) (nread : ℤ) (n : NetHandle) (a : AsyncContext) (w : World)
    (at : net_at o w ≡ some n) (own : n.handle.user ≡ some o) (pending : n.pending_read ≡ some c)
    (live : w.contexts c ≡ some a) where
  -- The world after the callback.
  abbrev after_read : World
  after_read =
      let v = set_class o (net (stopped n)) w in
      queue_fiber_to_resume c
        (record v { contexts = update v.contexts c (some (record a { result = nread })) })

  wrap_of_own : wrap_of o w ≡ some (o, n)
  unfolding wrap_of
  wrap_of_own = ground arith

  on_read_after : on_read o nread w ≡ some after_read
  unfolding on_read fill_context set_class
  on_read_after = ground (arith, wrap_of_own)

  after_read-net_at : net_at o after_read ≡ some (stopped n)
  unfolding net_at set_class queue_fiber_to_resume
  after_read-net_at = ground (arith, at)

  after_read-context : after_read.contexts c ≡ some (record a { result = nread })
  unfolding set_class queue_fiber_to_resume
  after_read-context = ground arith

  after_read-queue : after_read.resumable_fibers ≡ w.resumable_fibers ++ c ∷ []
  unfolding set_class queue_fiber_to_resume
  after_read-queue = ground arith

-- When libuv reports on a pending read of a socket whose libuv handle has a data pointer that
-- leads to the socket itself (which the sockets of `TCP_Connect` lack), and the context of that
-- read was not deleted, the context gets the result and the end of the queue, reading stops, and
-- the socket can be read again.
pub on_read-pending_read :
    (o c : ℕ) (nread : ℤ) (n : NetHandle) (a : AsyncContext) (w : World)
    → net_at o w ≡ some n
    → n.handle.user ≡ some o
    → n.pending_read ≡ some c
    → w.contexts c ≡ some a
    → (v : World) × (on_read o nread w ≡ some v)
      × (v.contexts c ≡ some (record a { result = nread }))
      × (v.resumable_fibers ≡ w.resumable_fibers ++ c ∷ [])
      × (net_at o v
          ≡ some
              (record n { pending_read = none; handle = record (n.handle) { is_reading = false } }))
on_read-pending_read o c nread n a w at own pending live = (
  after_read o c nread n a w at own pending live,
  on_read_after o c nread n a w at own pending live,
  after_read-context o c nread n a w at own pending live,
  after_read-queue o c nread n a w at own pending live,
  after_read-net_at o c nread n a w at own pending live,
)
