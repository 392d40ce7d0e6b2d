-- ===== src/Machine/Callbacks/Moves.antt =====
-- The ends of reads: a context comes from the `pending_read` of a socket to the queue.

use runtime_system.Base.{
  ℕ, ◌+◌, ℤ, ◌≡◌, ◌≢◌, ◌==◌, if◌then◌else◌, Option, none, some, is_some, subst, arith, Option-cases,
  inl, inr,
}
use runtime_system.State.{World, NetHandle, UdpHandle}
use runtime_system.State.Memory.{fill_context, queue_fiber_to_resume, set_class}
use runtime_system.State.Memory.Owned.{Owns, Owns-moved, waiting, count, pending_at}
use runtime_system.State.Memory.Requests.{count-append}
use runtime_system.Tcp.{on_read, wrap_of}
use runtime_system.Udp.{on_recv, SockAddr, udp_wrap_of}

-- From `w` to `v`, the context came from the `pending_read` of the socket at `p` to the end of the
-- queue.
record Moves (p c : ℕ) (w v : World) : Type 0 where
  queue :
      (d : ℕ) → count d v.resumable_fibers ≡ count d w.resumable_fibers + (if c == d then 1 else 0)
  requests : v.requests ≡ w.requests
  next : v.next_context ≡ w.next_context
  contexts : (d : ℕ) → is_some (v.contexts d) ≡ is_some (w.contexts d)
  reads : (o d : ℕ) → pending_at o v ≡ some d → (o ≢ p) × (pending_at o w ≡ some d)

Moves-Owns :
    (p c : ℕ) (l : ℕ → ℕ) (w v : World)
    → pending_at p w ≡ some c
    → Moves p c w v
    → Owns l w
    → Owns l v
unfolding waiting
Moves-Owns p c l w v at h =
    Owns-moved p c l w v at h.next h.contexts
      (λ d ne. let q = h.queue d in rw h.requests (ground arith))
      (let q = h.queue c in rw h.requests (ground arith)) h.reads

module _ (o : ℕ) (nread : ℤ) (w v : World) where
  on_read-Moves :
      (p c : ℕ) (wrap : NetHandle)
      → wrap_of o w ≡ some (p, wrap)
      → wrap.pending_read ≡ some c
      → on_read o nread w ≡ some v
      → Moves p c w v
  unfolding on_read set_class fill_context queue_fiber_to_resume pending_at
  on_read-Moves p c wrap found pending e = record {
    queue = λ d. ground (arith, count-append d c w.resumable_fibers);
    requests = ground arith;
    next = ground arith;
    contexts = λ d. ground arith;
    reads = λ q d at. (ground arith, ground arith);
  }

  on_read_pending_at :
      (p c : ℕ) (wrap : NetHandle)
      → wrap_of o w ≡ some (p, wrap)
      → wrap.pending_read ≡ some c
      → pending_at p w ≡ some c
  unfolding wrap_of pending_at
  on_read_pending_at p c wrap found pending = ground arith

  on_read_same :
      (p : ℕ) (wrap : NetHandle)
      → wrap_of o w ≡ some (p, wrap)
      → wrap.pending_read ≡ none
      → on_read o nread w ≡ some v
      → w ≡ v
  unfolding on_read
  on_read_same p wrap found nothing e = ground arith

  pub on_read-Owns : (l : ℕ → ℕ) → on_read o nread w ≡ some v → Owns l w → Owns l v
  unfolding on_read
  on_read-Owns l e h = elim (Option-cases (wrap_of o w)) [
    | inl absent ↦ absurd (ground arith)
    | inr ((p, wrap), found) ↦ elim (Option-cases wrap.pending_read) [
      | inl nothing ↦ subst (Owns l) (on_read_same p wrap found nothing e) h
      | inr (c, pending) ↦
          Moves-Owns p c l w v (on_read_pending_at p c wrap found pending)
            (on_read-Moves p c wrap found pending e) h
    ]
  ]

module _ (o : ℕ) (nread : ℤ) (addr : Option SockAddr) (w v : World) where
  on_recv-Moves :
      (p c : ℕ) (wrap : UdpHandle)
      → udp_wrap_of o w ≡ some (p, wrap)
      → wrap.pending_read ≡ some c
      → on_recv o nread addr w ≡ some v
      → Moves p c w v
  unfolding on_recv set_class fill_context queue_fiber_to_resume pending_at
  on_recv-Moves p c wrap found pending e = record {
    queue = λ d. ground (arith, count-append d c w.resumable_fibers);
    requests = ground arith;
    next = ground arith;
    contexts = λ d. ground arith;
    reads = λ q d at. (ground arith, ground arith);
  }

  on_recv_pending_at :
      (p c : ℕ) (wrap : UdpHandle)
      → udp_wrap_of o w ≡ some (p, wrap)
      → wrap.pending_read ≡ some c
      → pending_at p w ≡ some c
  unfolding udp_wrap_of pending_at
  on_recv_pending_at p c wrap found pending = ground arith

  on_recv_same :
      (p : ℕ) (wrap : UdpHandle)
      → udp_wrap_of o w ≡ some (p, wrap)
      → wrap.pending_read ≡ none
      → on_recv o nread addr w ≡ some v
      → w ≡ v
  unfolding on_recv
  on_recv_same p wrap found nothing e = ground arith

  pub on_recv-Owns : (l : ℕ → ℕ) → on_recv o nread addr w ≡ some v → Owns l w → Owns l v
  unfolding on_recv
  on_recv-Owns l e h = elim (Option-cases (udp_wrap_of o w)) [
    | inl absent ↦ absurd (ground arith)
    | inr ((p, wrap), found) ↦ elim (Option-cases wrap.pending_read) [
      | inl nothing ↦ subst (Owns l) (on_recv_same p wrap found nothing e) h
      | inr (c, pending) ↦
          Moves-Owns p c l w v (on_recv_pending_at p c wrap found pending)
            (on_recv-Moves p c wrap found pending e) h
    ]
  ]
