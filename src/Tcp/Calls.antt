-- ===== src/Tcp/Calls.antt =====
-- primitives_tcp.cpp: the primitives.
use runtime_system.Base.{
  ℕ, ℤ, true, false, String, [], ◌∷◌, ◌++◌, Option, none, some, is_zero, not, is_some,
  if◌then◌else◌,
}
use runtime_system.Value.{undefined, View, buf_of_view, id_value}
use runtime_system.State.{
  World, net, NetHandle, UvHandle, Kind, Operation, on_accept, on_context, Cont, Waits, give_result,
}
use runtime_system.State.Memory.{
  get_handle, as_net, set_class, remove_handle, add_handle, new_object, new_context, release,
  retain,
}
use runtime_system.External.{External, ticked}
use runtime_system.Primitive.{Outcome, blocks, throw, give, start}

-- A `uv_tcp_t` after `uv_tcp_init`, which leaves `data` alone.
abbrev pub uv_handle : Option ℕ → ℕ → UvHandle
uv_handle user socket = record {
  user = user;
  socket = socket;
  is_closing = false;
  is_reading = false;
}

-- `std::make_shared<NetHandle>()` with `handle.data = this`, and `uv_tcp_init`: the address.
unfoldable pub new_net : External → World → ℕ × World
unfolding ticked new_object
new_net x w =
    new_object
      (net (record {
        handle = uv_handle (some w.next_object) (x.socket w.tick);
        accept_queue = [];
        pending_read = none;
      }))
      (ticked w)

-- `NetHandle::Close`.
unfoldable pub close_net : NetHandle → NetHandle
close_net n =
    if n.handle.is_closing then n else record n { handle = record (n.handle) { is_closing = true } }

module _ (x : External) where
  -- `TCP_Listen`. On a failure the local `wrap` is the only reference, and is dropped.
  unfoldable pub tcp_listen : (host : String) (port : ℤ) → World → Outcome
  unfolding new_net
  tcp_listen host port w =
      let (o, w₁) = new_net x w in
      let w₂ = ticked w₁ in
      let w₃ = ticked w₂ in
      let (id, w₄) = add_handle o w₃ in
      if not (is_zero (x.tcp_bind w₁.tick host port))
      then throw "Failed to bind" (release o w₂)
      else if not (is_zero (x.listen w₂.tick (x.socket w.tick)))
      then throw "Failed to listen" (release o w₃)
      else give (id_value id) w₄

  -- `TCP_Accept`, up to its `Fiber::yield()`.
  unfoldable pub tcp_accept : (id : ℕ) → World → Outcome
  tcp_accept id w = elim (get_handle as_net id w) [
    | none ↦ throw "Invalid server handle" w
    | some (o, n) ↦ blocks (give_result (record { target = on_accept o; held = o ∷ [] })) (
        retain o (
          set_class o (net (record n { accept_queue = n.accept_queue ++ w.current_fiber ∷ [] })) w))
  ]

  -- `TCP_Connect`, up to its `Fiber::yield()`. The `uv_tcp_t` is one of its own: `new uv_tcp_t()`
  -- clears `data`. After the wait it is deleted, which nothing else here reads.
  unfoldable pub tcp_connect : (host : String) (port : ℤ) → World → Outcome
  tcp_connect host port w =
      start x (Kind.connect (uv_handle none (x.socket w.tick))) (Operation.tcp_connect host port)
        give_result [] (ticked w)

  -- `TCP_Read`, up to its `Fiber::yield()`. `uv_read_start` keeps the callback on the stream.
  unfoldable pub tcp_read : (id : ℕ) (buffer : View) → World → Outcome
  unfolding new_context
  tcp_read id buffer w = elim (get_handle as_net id w) [
    | none ↦ throw "Invalid socket handle" w
    | some (o, n) ↦
        let (c, w') = new_context (Kind.read (buf_of_view buffer)) w in
        if is_some n.pending_read
        then throw "Read already pending on socket" w
        else blocks (give_result (record { target = on_context c; held = o ∷ [] })) (
            retain o (
              set_class o
                (net (record n {
                  pending_read = some c;
                  handle = record (n.handle) { is_reading = true };
                }))
                (ticked w')))
  ]

  -- `TCP_Write`, up to its `Fiber::yield()`.
  unfoldable pub tcp_write : (id : ℕ) (buffer : View) → World → Outcome
  tcp_write id buffer w = elim (get_handle as_net id w) [
    | none ↦ throw "Invalid socket handle" w
    | some (o, n) ↦
        start x (Kind.write (buf_of_view buffer))
          (Operation.write_stream n.handle.socket (buf_of_view buffer)) give_result (o ∷ []) w
  ]

  -- `TCP_Close`. The local `wrap` keeps the object until the end.
  unfoldable pub tcp_close : (id : ℕ) → World → Outcome
  unfolding close_net
  tcp_close id w = elim (get_handle as_net id w) [
    | none ↦ throw "Invalid socket handle" w
    | some (o, n) ↦ give undefined (remove_handle id (set_class o (net (close_net n)) w))
  ]

  -- `TCP_Poll`, up to its `Fiber::yield()`, with the code `next` that follows it.
  unfoldable pub tcp_poll_then : (Waits → Cont) → (id : ℕ) (events : ℤ) → World → Outcome
  tcp_poll_then next id events w = elim (get_handle as_net id w) [
    | none ↦ throw "Invalid socket handle" w
    | some (o, n) ↦ elim (x.fileno w.tick n.handle.socket) [
      | none ↦ throw "Failed to get fileno for poll" (ticked w)
      | some fd ↦ start x Kind.poll (Operation.poll_socket fd events) next (o ∷ []) (ticked w)
    ]
  ]

  -- `TCP_Poll`, called by a script.
  unfoldable pub tcp_poll : (id : ℕ) (events : ℤ) → World → Outcome
  unfolding tcp_poll_then
  tcp_poll = tcp_poll_then give_result
