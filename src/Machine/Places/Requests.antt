-- ===== src/Machine/Places/Requests.antt =====
-- The callbacks of requests and reads find their contexts.
use mathlib.Core.Option
use native.Mathlib.Decide.{ℕ_discrete}
use runtime_system.Base.{
  ℕ, ◌≤◌, ℤ, ◌≡◌, subst, List, [], ◌∷◌, ◌++◌, Option, none, some, true, is_some, arith,
}
use runtime_system.State.{World, Kind, Operation, NetHandle, UdpHandle}
use runtime_system.State.Memory.{fill_context, queue_fiber_to_resume, set_class}
use runtime_system.State.Memory.Owned.{count, count_requests, waiting, pending_at}
use runtime_system.Fs.{on_fs_callback, fill_fs}
use runtime_system.Tcp.{on_status, on_poll, on_read, wrap_of}
use runtime_system.Udp.{on_recv, udp_wrap_of, SockAddr}
use runtime_system.Dns.{on_dns_callback, fill_dns}
use runtime_system.Fibers.{on_sleep_timer}
use runtime_system.Machine.Events.{
  Event, callback, completed, timer_fired, fs_done, dns_done, status_done, poll_done, connection,
  stream_read, datagram, handle_closed, request_of, Offers,
}
use runtime_system.Machine.Places.{OwnsWith}

-- The context that an event is for: that of the request that ends, or of the read that is pending on
-- the socket.
abbrev pub context_of : Event → World → Option ℕ
context_of (timer_fired c) w = some c
context_of (fs_done c r entries stat) w = some c
context_of (dns_done c status res) w = some c
context_of (status_done c status) w = some c
context_of (poll_done c status events) w = some c
context_of (stream_read o nread) w = pending_at o w
context_of (datagram o nread addr) w = pending_at o w
context_of e w = none

-- For the callback of a read: the data pointer of the libuv handle leads to the socket that it is of.
abbrev pub HasWrapper : Event → World → Type 0
HasWrapper (stream_read o nread) w = (n : NetHandle) × (wrap_of o w ≡ some (o, n))
HasWrapper (datagram o nread addr) w = (n : UdpHandle) × (udp_wrap_of o w ≡ some (o, n))
HasWrapper e w = Unit

requested :
    (c : ℕ) (op : Operation) (rs : List (ℕ × Operation))
    → request_of c rs ≡ some op
    → 1 ≤ count_requests c rs
unfolding request_of count_requests
requested c op [] e = absurd (ground arith)
requested c op ((d, p) ∷ rs) e = elim (ℕ_discrete d c) [
  | yes is ↦ ground arith
  | no ne ↦ let rest = requested c op rs (ground arith) in ground arith
]

requested_live :
    (c : ℕ) (op : Operation) (w : World)
    → request_of c w.requests ≡ some op
    → OwnsWith [] w
    → is_some (w.contexts c) ≡ true
unfolding waiting count
requested_live c op w e h = let some_request = requested c op w.requests e in h.live c (omega arith)

-- The callback goes on, and has put the context at the end of the queue.
abbrev pub Finishes : ℕ → World → Option World → Type 0
Finishes c w o =
    Option.map (λ (v : World). v.resumable_fibers) o ≡ some (w.resumable_fibers ++ c ∷ [])

filled-Finishes :
    (c : ℕ) (r : ℤ) (f : Kind → Kind) (w : World)
    → is_some (w.contexts c) ≡ true
    → Finishes c w (Option.map (queue_fiber_to_resume c) (fill_context c r f (completed c w)))
unfolding fill_context queue_fiber_to_resume completed
filled-Finishes c r f w live = ground arith

timer-Finishes :
    (c : ℕ) (w : World)
    → is_some (w.contexts c) ≡ true
    → Finishes c w (on_sleep_timer c (completed c w))
unfolding on_sleep_timer fill_context queue_fiber_to_resume completed
timer-Finishes c w live = ground arith

poll-Finishes :
    (c : ℕ) (status events : ℤ) (w : World)
    → is_some (w.contexts c) ≡ true
    → Finishes c w (on_poll c status events (completed c w))
unfolding on_poll fill_context queue_fiber_to_resume completed
poll-Finishes c status events w live = ground arith

read-Finishes :
    (o : ℕ) (nread : ℤ) (c : ℕ) (w : World)
    → pending_at o w ≡ some c
    → HasWrapper (stream_read o nread) w
    → OwnsWith [] w
    → Finishes c w (on_read o nread w)
unfolding on_read set_class fill_context queue_fiber_to_resume wrap_of pending_at
read-Finishes o nread c w of (wrap, found) h =
    let pending : wrap.pending_read ≡ some c = ground arith in
    let live = h.reads_live o c of in ground arith

recv-Finishes :
    (o : ℕ) (nread : ℤ) (addr : Option SockAddr) (c : ℕ) (w : World)
    → pending_at o w ≡ some c
    → HasWrapper (datagram o nread addr) w
    → OwnsWith [] w
    → Finishes c w (on_recv o nread addr w)
unfolding on_recv set_class fill_context queue_fiber_to_resume udp_wrap_of pending_at
recv-Finishes o nread addr c w of (wrap, found) h =
    let pending : wrap.pending_read ≡ some c = ground arith in
    let live = h.reads_live o c of in ground arith

some_injective : {a b : ℕ} → some a ≡ some b → a ≡ b
some_injective e = ground arith

-- The callback of a request that libuv holds, or of a read.
pub callback-Finishes :
    (e : Event) (c : ℕ) (w : World)
    → Offers e w
    → context_of e w ≡ some c
    → HasWrapper e w
    → OwnsWith [] w
    → Finishes c w (callback e w)
unfolding Offers callback on_fs_callback on_dns_callback on_status
callback-Finishes (timer_fired d) c w (op, asked, kind) of has h =
    subst (λ i. Finishes i w (on_sleep_timer d (completed d w))) (some_injective of)
      (timer-Finishes d w (requested_live d op w asked h))
callback-Finishes (fs_done d r entries stat) c w (op, asked, kind) of has h =
    subst (λ i. Finishes i w (callback (fs_done d r entries stat) w)) (some_injective of)
      (filled-Finishes d r (fill_fs r entries stat) w (requested_live d op w asked h))
callback-Finishes (dns_done d status res) c w (op, asked, kind) of has h =
    subst (λ i. Finishes i w (callback (dns_done d status res) w)) (some_injective of)
      (filled-Finishes d status (fill_dns status res) w (requested_live d op w asked h))
callback-Finishes (status_done d status) c w (op, asked, kind) of has h =
    subst (λ i. Finishes i w (callback (status_done d status) w)) (some_injective of)
      (filled-Finishes d status (λ k. k) w (requested_live d op w asked h))
callback-Finishes (poll_done d status events) c w (op, asked, kind) of has h =
    subst (λ i. Finishes i w (callback (poll_done d status events) w)) (some_injective of)
      (poll-Finishes d status events w (requested_live d op w asked h))
callback-Finishes (connection o status) c w offered of has h = absurd (ground arith)
callback-Finishes (stream_read o nread) c w offered of has h = read-Finishes o nread c w of has h
callback-Finishes (datagram o nread addr) c w offered of has h =
    recv-Finishes o nread addr c w of has h
callback-Finishes (handle_closed d) c w offered of has h = absurd (ground arith)
