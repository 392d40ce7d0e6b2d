-- ===== src/Machine/Callbacks/Places.antt =====
-- Where the callbacks of libuv put the contexts.
use mathlib.Core.Option
use native.Mathlib.Decide.{ℕ_discrete}
use runtime_system.Base.{
  ℕ, ◌+◌, ℤ, ◌≡◌, ◌==◌, if◌then◌else◌, List, [], ◌∷◌, some, is_some, refl, sym, subst, arith,
  Option-cases, inl, inr,
}
use runtime_system.State.{World, Kind, Operation, NetHandle}
use runtime_system.State.Memory.{fill_context, queue_fiber_to_resume, set_class}
use runtime_system.State.Memory.Owned.{
  Owns, Owns-less, Owns-new, Owns-same, waiting, count, count_requests, pending_at,
}
use runtime_system.State.Memory.Requests.{count-append}
use runtime_system.Fs.{on_fs_callback}
use runtime_system.Tcp.{on_uv_connection, on_status, on_poll, wrap_of}
use runtime_system.Dns.{on_dns_callback}
use runtime_system.Fibers.{on_sleep_timer}
use runtime_system.Machine.Events.{
  Event, callback, completed, timer_fired, fs_done, dns_done, status_done, poll_done, connection,
  stream_read, datagram, handle_closed, close_callback, take_request, request_of, Offers,
}
use runtime_system.Machine.Callbacks.Moves.{on_read-Owns, on_recv-Owns}

-- The request is no longer there.
taken-count :
    (c d : ℕ) (op : Operation) (rs : List (ℕ × Operation))
    → request_of c rs ≡ some op
    → count_requests d (take_request c rs) + (if c == d then 1 else 0) ≡ count_requests d rs
unfolding count_requests take_request request_of
taken-count c d op [] e = absurd (ground arith)
taken-count c d op ((b, p) ∷ rs) e = elim (ℕ_discrete b c) [
  | yes is ↦ ground arith
  | no ne ↦ let rest = taken-count c d op rs (ground arith) in ground arith
]

-- From `w` to `v`, the context came from a request to the end of the queue.
record Completes (c : ℕ) (w v : World) : Type 0 where
  queue :
      (d : ℕ) → count d v.resumable_fibers ≡ count d w.resumable_fibers + (if c == d then 1 else 0)
  requests : v.requests ≡ take_request c w.requests
  next : v.next_context ≡ w.next_context
  contexts : (d : ℕ) → is_some (v.contexts d) ≡ is_some (w.contexts d)
  objects : v.objects ≡ w.objects

Completes-Owns :
    (c : ℕ) (op : Operation) (l : ℕ → ℕ) (w v : World)
    → request_of c w.requests ≡ some op
    → Completes c w v
    → Owns l w
    → Owns l v
unfolding waiting pending_at
Completes-Owns c op l w v asked h =
    Owns-less l l w v (omega (arith, h.next)) (λ d b g. h.contexts d) (λ o d b e. h.contexts d)
      (λ d. rw h.requests (omega (arith, h.queue d, taken-count c d op w.requests asked)))
      (λ o d e. rw (sym h.objects) e)

filled-Completes :
    (c : ℕ) (r : ℤ) (f : Kind → Kind) (w v : World)
    → Option.map (queue_fiber_to_resume c) (fill_context c r f (completed c w)) ≡ some v
    → Completes c w v
unfolding fill_context queue_fiber_to_resume completed
filled-Completes c r f w v e = record {
  queue = λ d. ground (arith, count-append d c w.resumable_fibers);
  requests = ground arith;
  next = ground arith;
  contexts = λ d. ground arith;
  objects = ground arith;
}

timer-Completes :
    (c : ℕ) (w v : World) → on_sleep_timer c (completed c w) ≡ some v → Completes c w v
unfolding on_sleep_timer fill_context queue_fiber_to_resume completed
timer-Completes c w v e = record {
  queue = λ d. ground (arith, count-append d c w.resumable_fibers);
  requests = ground arith;
  next = ground arith;
  contexts = λ d. ground arith;
  objects = ground arith;
}

poll-Completes :
    (c : ℕ) (status events : ℤ) (w v : World)
    → on_poll c status events (completed c w) ≡ some v
    → Completes c w v
unfolding on_poll fill_context queue_fiber_to_resume completed
poll-Completes c status events w v e = record {
  queue = λ d. ground (arith, count-append d c w.resumable_fibers);
  requests = ground arith;
  next = ground arith;
  contexts = λ d. ground arith;
  objects = ground arith;
}

module _ (o : ℕ) (status : ℤ) (l : ℕ → ℕ) (w v : World) where
  connection-Owns :
      (p f : ℕ) (rest : List ℕ) (wrap : NetHandle)
      → wrap_of o w ≡ some (p, wrap)
      → wrap.accept_queue ≡ f ∷ rest
      → on_uv_connection o status w ≡ some v
      → Owns l w
      → Owns l v
  unfolding on_uv_connection set_class queue_fiber_to_resume wrap_of pending_at waiting
  connection-Owns p f rest wrap found waits e =
      Owns-new l l w v (ground arith) (λ c lt. ground arith) (ground arith)
        (λ c ne. ground (arith, count-append c w.next_context w.resumable_fibers))
        (ground (arith, count-append w.next_context w.next_context w.resumable_fibers))
        (λ q c at. ground arith)

  connection_same :
      (p : ℕ) (wrap : NetHandle)
      → wrap_of o w ≡ some (p, wrap)
      → wrap.accept_queue ≡ []
      → on_uv_connection o status w ≡ some v
      → w ≡ v
  unfolding on_uv_connection
  connection_same p wrap found nobody e = ground arith

  on_uv_connection-Owns : on_uv_connection o status w ≡ some v → Owns l w → Owns l v
  unfolding on_uv_connection
  on_uv_connection-Owns e h = elim (Option-cases (wrap_of o w)) [
    | inl absent ↦ absurd (ground arith)
    | inr ((p, wrap), found) ↦ by_queue p wrap found wrap.accept_queue refl
  ]
    where
      by_queue :
          (p : ℕ) (wrap : NetHandle)
          → wrap_of o w ≡ some (p, wrap)
          → (q : List ℕ) → wrap.accept_queue ≡ q
          → Owns l v
      by_queue p wrap found [] q = subst (Owns l) (connection_same p wrap found q e) h
      by_queue p wrap found (f ∷ rest) q = connection-Owns p f rest wrap found q e h

close_callback-Owns :
    (c : ℕ) (l : ℕ → ℕ) (w v : World) → close_callback c w ≡ some v → Owns l w → Owns l v
unfolding close_callback pending_at
close_callback-Owns c l w v e =
    Owns-same l w v (ground arith) (ground arith) (ground arith) (ground arith)
      (λ o d at. ground arith)

-- A callback that libuv may call leaves every context in one place.
pub callback-Owns :
    (e : Event) (l : ℕ → ℕ) (w v : World) → Offers e w → callback e w ≡ some v → Owns l w → Owns l v
unfolding Offers callback on_fs_callback on_dns_callback on_status
callback-Owns (timer_fired c) l w v (op, asked, kind) e h =
    Completes-Owns c op l w v asked (timer-Completes c w v e) h
callback-Owns (fs_done c r entries stat) l w v (op, asked, kind) e h =
    Completes-Owns c op l w v asked (filled-Completes c _ _ w v e) h
callback-Owns (dns_done c status res) l w v (op, asked, kind) e h =
    Completes-Owns c op l w v asked (filled-Completes c _ _ w v e) h
callback-Owns (status_done c status) l w v (op, asked, kind) e h =
    Completes-Owns c op l w v asked (filled-Completes c _ _ w v e) h
callback-Owns (poll_done c status events) l w v (op, asked, kind) e h =
    Completes-Owns c op l w v asked (poll-Completes c status events w v e) h
callback-Owns (connection o status) l w v i e h = on_uv_connection-Owns o status l w v e h
callback-Owns (stream_read o nread) l w v i e h = on_read-Owns o nread w v l e h
callback-Owns (datagram o nread addr) l w v i e h = on_recv-Owns o nread addr w v l e h
callback-Owns (handle_closed c) l w v i e h = close_callback-Owns c l w v e h
