-- ===== src/Machine/Events.antt =====
-- The callbacks of libuv: while `main` waits in `uv_run`, a request completes, a stream or socket
-- has news, or a closed handle is given up; and `OnFibersToResume`, the callback of the `uv_async_t`
-- of main.cpp.
use runtime_system.Base.{
  ℕ, ◌≤◌, ℤ, ◌≡◌, String, List, [], ◌∷◌, Bool, true, false, Option, none, some, ◌==◌, if◌then◌else◌,
}
use runtime_system.State.{World, Operation, Stat}
use runtime_system.State.Memory.Owned.{count}
use runtime_system.Machine.Switch.{Machine, machine, idle, draining, aborted}
use runtime_system.Fs.{on_fs_callback}
use runtime_system.Tcp.{on_uv_connection, on_status, on_read, on_poll}
use runtime_system.Udp.{SockAddr, on_recv}
use runtime_system.Dns.{on_dns_callback}
use runtime_system.Fibers.{on_sleep_timer}

-- The first component names the context of the request or the address of the handle.
pub data Event : Type 0 where
  timer_fired : ℕ → Event
  fs_done : ℕ → ℤ → List (String × ℤ) → Stat → Event
  dns_done : ℕ → ℤ → List SockAddr → Event
  status_done : ℕ → ℤ → Event
  poll_done : ℕ → (status events : ℤ) → Event
  connection : ℕ → ℤ → Event
  stream_read : ℕ → ℤ → Event
  datagram : ℕ → ℤ → Option SockAddr → Event
  handle_closed : ℕ → Event

-- libuv forgets a request when its callback is called.
unfoldable pub take_request : ℕ → List (ℕ × Operation) → List (ℕ × Operation)
take_request c [] = []
take_request c ((d, op) ∷ rs) = if d == c then rs else (d, op) ∷ take_request c rs

unfoldable pub completed : ℕ → World → World
completed c w = record w { requests = take_request c w.requests }

-- The kinds of requests that end with the callback of an event.
abbrev pub answers_to : Event → Operation → Bool
answers_to (timer_fired c) (Operation.timer ms) = true
answers_to (dns_done c status res) (Operation.getaddrinfo host family) = true
answers_to (status_done c status) (Operation.tcp_connect host port) = true
answers_to (status_done c status) (Operation.write_stream socket buf) = true
answers_to (status_done c status) (Operation.udp_send socket buf host port) = true
answers_to (poll_done c status events) (Operation.poll_socket fd mask) = true
answers_to (fs_done c r entries stat) (Operation.open_file path flags mode) = true
answers_to (fs_done c r entries stat) (Operation.read_file fd iov position) = true
answers_to (fs_done c r entries stat) (Operation.write_file fd iov position) = true
answers_to (fs_done c r entries stat) (Operation.close_file fd) = true
answers_to (fs_done c r entries stat) (Operation.fstat fd) = true
answers_to (fs_done c r entries stat) (Operation.fsync fd) = true
answers_to (fs_done c r entries stat) (Operation.fdatasync fd) = true
answers_to (fs_done c r entries stat) (Operation.unlink path) = true
answers_to (fs_done c r entries stat) (Operation.mkdir path mode) = true
answers_to (fs_done c r entries stat) (Operation.rmdir path) = true
answers_to (fs_done c r entries stat) (Operation.scandir path) = true
answers_to e op = false

-- The outstanding request for a context.
unfoldable pub request_of : ℕ → List (ℕ × Operation) → Option Operation
request_of c [] = none
request_of c ((d, op) ∷ rs) = if d == c then some op else request_of c rs

-- libuv holds a request for the context, which ends with the callback of the event.
abbrev pub IsAsked : ℕ → Event → World → Type 0
IsAsked c e w = (op : Operation) × (request_of c w.requests ≡ some op) × (answers_to e op ≡ true)

-- What libuv may report: the end of a request that it holds, or of a `uv_close` that was called.
unfoldable pub Offers : Event → World → Type 0
unfolding request_of count
Offers (timer_fired c) w = IsAsked c (timer_fired c) w
Offers (fs_done c r entries stat) w = IsAsked c (fs_done c r entries stat) w
Offers (dns_done c status res) w = IsAsked c (dns_done c status res) w
Offers (status_done c status) w = IsAsked c (status_done c status) w
Offers (poll_done c status events) w = IsAsked c (poll_done c status events) w
Offers (connection o status) w = Unit
Offers (stream_read o nread) w = Unit
Offers (datagram o nread addr) w = Unit
Offers (handle_closed c) w = 1 ≤ count c w.closing_handles

-- The end of `uv_close` for the handle that is a member of a context: libuv reads the handle and
-- calls its `uv_close_cb`, which does nothing. `none` is a use of a deleted context.
unfoldable pub forget : ℕ → List ℕ → List ℕ
forget c [] = []
forget c (d ∷ ds) = if d == c then ds else d ∷ forget c ds

unfoldable pub close_callback : ℕ → World → Option World
unfolding forget
close_callback c w = elim (w.contexts c) [
  | none ↦ none
  | some a ↦ some (record w { closing_handles = forget c w.closing_handles })
]

-- The callback of an event: every callback of libuv but `OnFibersToResume`, and but `OnAlloc` and
-- `OnRecvAlloc`, which only give a buffer.
unfoldable pub callback : Event → World → Option World
unfolding completed take_request close_callback
callback (timer_fired c) w = on_sleep_timer c (completed c w)
callback (fs_done c r entries stat) w = on_fs_callback c r entries stat (completed c w)
callback (dns_done c status res) w = on_dns_callback c status res (completed c w)
callback (status_done c status) w = on_status c status (completed c w)
callback (poll_done c status events) w = on_poll c status events (completed c w)
callback (connection o status) w = on_uv_connection o status w
callback (stream_read o nread) w = on_read o nread w
callback (datagram o nread addr) w = on_recv o nread addr w
callback (handle_closed c) w = close_callback c w

-- The start of `OnFibersToResume`, which libuv calls once the `uv_async_t` was sent to: the queue is
-- swapped with an empty one. `resume_next` is a round of its loop.
unfoldable pub swap_queue : World → Machine
swap_queue w = machine (record w { resumable_fibers = [] }) (draining w.resumable_fibers)

-- An event while `main` waits.
unfoldable pub deliver : Event → World → Machine
unfolding callback
deliver e w = elim (callback e w) [ none ↦ machine w aborted | some w' ↦ machine w' idle ]
