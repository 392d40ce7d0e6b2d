-- ===== src/Machine/Callbacks.antt =====
-- What the callbacks of libuv do to the fibers: nothing but to queue a context.
pub mod Deliver
mod Moves
pub mod Places
use mathlib.Core.Option
use runtime_system.Base.{
  ℕ, ℤ, ◌≡◌, refl, false, sym, ap, ◌∙◌, List, [], ◌∷◌, ◌++◌, Option, none, some, arith, ◌⊎◌, inl,
  inr, Option-cases,
}
use runtime_system.State.{World, Kind, Class, net, udp, NetHandle, UdpHandle}
use runtime_system.State.Memory.{fill_context, queue_fiber_to_resume, set_class}
use runtime_system.Fs.{on_fs_callback}
use runtime_system.Tcp.{on_uv_connection, on_status, on_read, on_poll, wrap_of}
use runtime_system.Udp.{on_recv, fill_recv, SockAddr, udp_wrap_of}
use runtime_system.Dns.{on_dns_callback}
use runtime_system.Fibers.{on_sleep_timer}
use runtime_system.Machine.Events.{
  Event, callback, completed, timer_fired, fs_done, dns_done, status_done, poll_done, connection,
  stream_read, datagram, handle_closed, close_callback,
}
use runtime_system.Machine.Queues.{
  Queues, QueuesOne, Queues-refl, queued, Queues-along, on_read-Queues, on_recv-Queues,
  on_uv_connection-Queues,
}

-- A request that has completed.
Queues-completed : (c : ℕ) (w v : World) → Queues (c ∷ []) (completed c w) v → Queues (c ∷ []) w v
unfolding completed
Queues-completed c w v h = Queues-along (c ∷ []) (completed c w) w v refl refl refl refl refl refl h

completed-Queues :
    (c : ℕ) (r : ℤ) (f : Kind → Kind) (w v : World)
    → Option.map (queue_fiber_to_resume c) (fill_context c r f (completed c w)) ≡ some v
    → QueuesOne w v
completed-Queues c r f w v e = inr (c, Queues-completed c w v (queued c r f (completed c w) v e))

-- The same with the `uv_close` of a member of the context.
timer-Queues : (c : ℕ) (w v : World) → on_sleep_timer c w ≡ some v → Queues (c ∷ []) w v
unfolding on_sleep_timer fill_context queue_fiber_to_resume
timer-Queues c w v e = ground arith

poll-Queues :
    (c : ℕ) (status events : ℤ) (w v : World)
    → on_poll c status events w ≡ some v
    → Queues (c ∷ []) w v
unfolding on_poll fill_context queue_fiber_to_resume
poll-Queues c status events w v e = ground arith

close_callback-Queues : (c : ℕ) (w v : World) → close_callback c w ≡ some v → Queues [] w v
unfolding close_callback
close_callback-Queues c w v e = ground (arith, Queues-refl w)

-- A callback of libuv other than `OnFibersToResume`, and than `OnAlloc` and `OnRecvAlloc`, which
-- only give a buffer, resumes no fiber and changes neither a fiber, nor which one is current, nor
-- which object an id of the handle store leads to: it queues one context at most, behind those
-- that are queued already.
pub callback-QueuesOne : (e : Event) (w v : World) → callback e w ≡ some v → QueuesOne w v
unfolding callback on_fs_callback on_dns_callback on_status completed
callback-QueuesOne (timer_fired c) w v e =
    inr (c, Queues-completed c w v (timer-Queues c (completed c w) v e))
callback-QueuesOne (fs_done c r entries stat) w v e = completed-Queues c _ _ w v e
callback-QueuesOne (dns_done c status res) w v e = completed-Queues c _ _ w v e
callback-QueuesOne (status_done c status) w v e = completed-Queues c _ _ w v e
callback-QueuesOne (poll_done c status events) w v e =
    inr (c, Queues-completed c w v (poll-Queues c status events (completed c w) v e))
callback-QueuesOne (connection o status) w v e = on_uv_connection-Queues o status w v e
callback-QueuesOne (stream_read o nread) w v e = on_read-Queues o nread w v e
callback-QueuesOne (datagram o nread addr) w v e = on_recv-Queues o nread addr w v e
callback-QueuesOne (handle_closed c) w v e = inl (close_callback-Queues c w v e)
