-- ===== src/Machine/Queues.antt =====
-- What is queued while no fiber and no handle is touched, and that the callbacks of sockets do no more.
use mathlib.Core.Option
use runtime_system.Base.{
  ℕ, ℤ, ◌≡◌, refl, false, sym, ap, ◌∙◌, List, [], ◌∷◌, ◌++◌, Option, none, some, arith, ◌⊎◌, inl,
  inr, Option-cases,
}
use runtime_system.State.{World, Kind, Class, net, udp, NetHandle, UdpHandle}
use runtime_system.State.Memory.{fill_context, queue_fiber_to_resume, set_class}
use runtime_system.Tcp.{on_uv_connection, on_read, wrap_of}
use runtime_system.Udp.{on_recv, fill_recv, SockAddr, udp_wrap_of}

-- From `w` to `v` no fiber and no handle was touched, and the contexts `cs` were put at the end of the
-- queue.
pub record Queues (cs : List ℕ) (w v : World) : Type 0 where
  pub fibers : v.fibers ≡ w.fibers
  pub current : v.current_fiber ≡ w.current_fiber
  pub main : v.main_fiber ≡ w.main_fiber
  pub next : v.next_fiber ≡ w.next_fiber
  pub queue : v.resumable_fibers ≡ w.resumable_fibers ++ cs
  pub handles : v.handles ≡ w.handles

-- One context at most was queued.
abbrev pub QueuesOne : World → World → Type 0
QueuesOne w v = Queues [] w v ⊎ ((c : ℕ) × Queues (c ∷ []) w v)

++_nil : (xs : List ℕ) → xs ++ [] ≡ xs
++_nil [] = refl
++_nil (x ∷ xs) = λ i. x ∷ ++_nil xs i

pub Queues-refl : (w : World) → Queues [] w w
Queues-refl w = record {
  fibers = refl;
  current = refl;
  main = refl;
  next = refl;
  queue = sym (++_nil w.resumable_fibers);
  handles = refl;
}

pub queued :
    (c : ℕ) (r : ℤ) (f : Kind → Kind) (w v : World)
    → Option.map (queue_fiber_to_resume c) (fill_context c r f w) ≡ some v
    → Queues (c ∷ []) w v
unfolding fill_context queue_fiber_to_resume
queued c r f w v e = ground arith

-- The same from a state that differs in other parts.
pub Queues-along :
    (cs : List ℕ) (u w v : World)
    → u.fibers ≡ w.fibers
    → u.current_fiber ≡ w.current_fiber
    → u.main_fiber ≡ w.main_fiber
    → u.next_fiber ≡ w.next_fiber
    → u.resumable_fibers ≡ w.resumable_fibers
    → u.handles ≡ w.handles
    → Queues cs u v
    → Queues cs w v
Queues-along cs u w v f c m n q s h = record {
  fibers = h.fibers ∙ f;
  current = h.current ∙ c;
  main = h.main ∙ m;
  next = h.next ∙ n;
  queue = h.queue ∙ ap (λ l. l ++ cs) q;
  handles = h.handles ∙ s;
}

set_class-handles : (o : ℕ) (c : Class) (w : World) → (set_class o c w).handles ≡ w.handles
unfolding set_class
set_class-handles o c w = ground arith

set_class-Queues :
    (cs : List ℕ) (o : ℕ) (c : Class) (w v : World) → Queues cs (set_class o c w) v → Queues cs w v
unfolding set_class
set_class-Queues cs o c w v h =
    Queues-along cs (set_class o c w) w v (ground arith) (ground arith) (ground arith)
      (ground arith) (ground arith) (set_class-handles o c w) h

module _ (o : ℕ) (nread : ℤ) (w v : World) where
  on_read_pending :
      (p c : ℕ) (wrap : NetHandle)
      → wrap_of o w ≡ some (p, wrap)
      → wrap.pending_read ≡ some c
      → on_read o nread w
        ≡ Option.map (queue_fiber_to_resume c) (
            fill_context c nread
              (λ k. k)
              (set_class p
                (net (record wrap {
                  pending_read = none;
                  handle = record (wrap.handle) { is_reading = false };
                }))
                w))
  unfolding on_read
  on_read_pending p c wrap found pending = rw (found, on_read) (rw pending refl)

  on_read_idle :
      (p : ℕ) (wrap : NetHandle)
      → wrap_of o w ≡ some (p, wrap)
      → wrap.pending_read ≡ none
      → on_read o nread w ≡ some v
      → Queues [] w v
  unfolding on_read
  on_read_idle p wrap found nothing e = ground (arith, Queues-refl w)

  pub on_read-Queues : on_read o nread w ≡ some v → QueuesOne w v
  unfolding on_read
  on_read-Queues e = elim (Option-cases (wrap_of o w)) [
    | inl absent ↦ absurd (ground arith)
    | inr ((p, wrap), found) ↦ elim (Option-cases wrap.pending_read) [
      | inl nothing ↦ inl (on_read_idle p wrap found nothing e)
      | inr (c, pending) ↦ inr (
        c,
        set_class-Queues (c ∷ []) p _ w v
            (queued c nread (λ k. k) _ v (sym (on_read_pending p c wrap found pending) ∙ e)),
      )
    ]
  ]

module _ (o : ℕ) (nread : ℤ) (addr : Option SockAddr) (w v : World) where
  on_recv_pending :
      (p c : ℕ) (wrap : UdpHandle)
      → udp_wrap_of o w ≡ some (p, wrap)
      → wrap.pending_read ≡ some c
      → on_recv o nread addr w
        ≡ Option.map (queue_fiber_to_resume c) (
            fill_context c nread (fill_recv nread addr) (
              set_class p
                (udp (record wrap {
                  pending_read = none;
                  handle = record (wrap.handle) { is_reading = false };
                }))
                w))
  unfolding on_recv
  on_recv_pending p c wrap found pending = rw (found, on_recv) (rw pending refl)

  on_recv_idle :
      (p : ℕ) (wrap : UdpHandle)
      → udp_wrap_of o w ≡ some (p, wrap)
      → wrap.pending_read ≡ none
      → on_recv o nread addr w ≡ some v
      → Queues [] w v
  unfolding on_recv
  on_recv_idle p wrap found nothing e = ground (arith, Queues-refl w)

  pub on_recv-Queues : on_recv o nread addr w ≡ some v → QueuesOne w v
  unfolding on_recv
  on_recv-Queues e = elim (Option-cases (udp_wrap_of o w)) [
    | inl absent ↦ absurd (ground arith)
    | inr ((p, wrap), found) ↦ elim (Option-cases wrap.pending_read) [
      | inl nothing ↦ inl (on_recv_idle p wrap found nothing e)
      | inr (c, pending) ↦ inr (
        c,
        set_class-Queues (c ∷ []) p _ w v (
            queued c nread (fill_recv nread addr) _ v
              (sym (on_recv_pending p c wrap found pending) ∙ e)),
      )
    ]
  ]

module _ (o : ℕ) (status : ℤ) (w v : World) where
  connection_nobody :
      (p : ℕ) (wrap : NetHandle)
      → wrap_of o w ≡ some (p, wrap)
      → wrap.accept_queue ≡ []
      → on_uv_connection o status w ≡ some v
      → Queues [] w v
  unfolding on_uv_connection
  connection_nobody p wrap found nobody e = ground (arith, Queues-refl w)

  connection_first :
      (p f : ℕ) (rest : List ℕ) (wrap : NetHandle)
      → wrap_of o w ≡ some (p, wrap)
      → wrap.accept_queue ≡ f ∷ rest
      → on_uv_connection o status w ≡ some v
      → Queues (w.next_context ∷ []) w v
  unfolding on_uv_connection queue_fiber_to_resume set_class
  connection_first p f rest wrap found waits e = ground arith

  pub on_uv_connection-Queues : on_uv_connection o status w ≡ some v → QueuesOne w v
  unfolding on_uv_connection
  on_uv_connection-Queues e = elim (Option-cases (wrap_of o w)) [
    | inl absent ↦ absurd (ground arith)
    | inr ((p, wrap), found) ↦ by_queue p wrap found wrap.accept_queue refl e
  ]
    where
      by_queue :
          (p : ℕ) (wrap : NetHandle)
          → wrap_of o w ≡ some (p, wrap)
          → (q : List ℕ) → wrap.accept_queue ≡ q
          → on_uv_connection o status w ≡ some v
          → QueuesOne w v
      by_queue p wrap found [] q e = inl (connection_nobody p wrap found q e)
      by_queue p wrap found (f ∷ rest) q e =
          inr (w.next_context, connection_first p f rest wrap found q e)
