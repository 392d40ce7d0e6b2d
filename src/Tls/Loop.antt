-- ===== src/Tls/Loop.antt =====
-- primitives_tls.cpp: the loops around `SSL_accept`, `SSL_connect`, `SSL_read`, `SSL_write` and
-- `SSL_shutdown`, a round at a time, and the code behind them.
use runtime_system.Base.{
  ℕ, ℤ, pos, negsuc, Bool, [], ◌∷◌, Option, none, some, is_zero, is_negative, ◌||◌, if◌then◌else◌,
}
use runtime_system.Value.{undefined, scalar, bigint, id_value, error}
use runtime_system.State.{
  World, TlsLoop, accepting, connecting, reading, writing, closing, ssl_session, ssl_ctx,
  tls_polled, Waits,
}
use runtime_system.State.Memory.{as_tls, add_handle, remove_handle, release, release_all}
use runtime_system.External.{External, ticked, want_read, want_write, zero_return, other_error}
use runtime_system.Primitive.{
  Outcome, replies, blocks, resumes, spins, aborts, throw, give, resume_value,
}
use runtime_system.Tcp.{tcp_poll_then}

-- The id that a handle stores of itself.
unfoldable pub id_of : ℕ → World → Option ℕ
id_of o w = elim (w.objects o) [ none ↦ none | some h ↦ some h.id ]

-- `sock->net_handle`.
unfoldable pub net_of : ℕ → World → Option ℕ
net_of o w = elim (w.objects o) [
  | none ↦ none
  | some h ↦ elim (as_tls h.class) [ none ↦ none | some (ssl, n) ↦ some n ]
]

-- The `NetHandle` of a loop: the local `net_handle`, or that of `sock`.
unfoldable pub loop_net : TlsLoop → World → Option ℕ
loop_net (accepting c n s) w = some n
loop_net (connecting n s x) w = some n
loop_net (reading s v) w = net_of s w
loop_net (writing s v) w = net_of s w
loop_net (closing i s) w = net_of s w

-- The argument `net_handle_id` of `PerformSSLOperation`.
unfoldable pub loop_net_id : TlsLoop → World → Option ℕ
unfolding loop_net id_of
loop_net_id l w = elim (loop_net l w) [ none ↦ none | some n ↦ id_of n w ]

abbrev pub not_positive : ℤ → Bool
not_positive r = is_negative r || is_zero r

free_ssl : ℕ → World → World
free_ssl ssl w = record w { freed = ssl_session ssl ∷ w.freed }

free_ctx : ℕ → World → World
free_ctx ctx w = record w { freed = ssl_ctx ctx ∷ w.freed }

-- The code behind the loop, with the `r` of the last round, up to the end of the primitive where
-- the locals are destroyed.
unfoldable pub after_loop : (ssl : ℕ) → TlsLoop → (r : ℤ) → World → Outcome
unfolding free_ssl free_ctx
after_loop ssl (accepting c n s) r w =
    let (id, w') = add_handle s w in
    if not_positive r
    then throw "SSL_accept failed" (release_all (s ∷ n ∷ c ∷ []) (free_ssl ssl w))
    else give (id_value id) (release_all (n ∷ c ∷ []) w')
after_loop ssl (connecting n s x) r w =
    let (id, w') = add_handle s w in
    if not_positive r
    then throw "SSL_connect failed" (release_all (s ∷ n ∷ []) (free_ctx x (free_ssl ssl w)))
    else give (id_value id) (release_all (n ∷ []) (free_ctx x w'))
after_loop ssl (reading s v) r w =
    if not_positive r
    then give (scalar (bigint (negsuc 0))) (release s (ticked w))
    else give (scalar (bigint r)) (release s w)
after_loop ssl (writing s v) r w =
    if not_positive r
    then throw "SSL_write failed" (release s w)
    else give (scalar (bigint r)) (release s w)
after_loop ssl (closing id s) r w = give undefined (release s (remove_handle id w))

-- A call of `TCP_Poll` by `PerformSSLOperation`: `ToLocalChecked()` ends the process if it throws.
unfoldable pub checked : Outcome → Outcome
checked (replies r w) = aborts
checked (blocks k w) = blocks k w
checked (resumes f w) = aborts
checked (spins s l w) = aborts
checked aborts = aborts

-- `UV_READABLE` and `UV_WRITABLE`.
abbrev pub uv_readable : ℤ
uv_readable = pos 1

abbrev pub uv_writable : ℤ
uv_writable = pos 2

-- `PerformSSLOperation` in the two cases in which it polls the socket.
unfoldable pub poll_for : External → (events : ℤ) → (ssl : ℕ) → TlsLoop → World → Outcome
unfolding checked
poll_for x events ssl l w = elim (loop_net_id l w) [
  | none ↦ aborts
  | some id ↦ checked (tcp_poll_then x (tls_polled ssl l) id events w)
]

-- `PerformSSLOperation` gives `ssl_result` back: at 0 the loop goes on, else it ends.
unfoldable pub returned_result : (ssl : ℕ) → TlsLoop → (r : ℤ) → World → Outcome
returned_result ssl l r w = if is_zero r then spins ssl l w else after_loop ssl l r w

-- One round of a loop: the call `r = SSL_…(ssl)` and `PerformSSLOperation`.
unfoldable pub tls_round : External → (ssl : ℕ) → TlsLoop → World → Outcome
unfolding poll_for returned_result
tls_round x ssl l w =
    let r = x.ssl_call w.tick ssl l in
    let w₁ = ticked w in
    let w₂ = ticked w₁ in
    elim (x.ssl_get_error w₁.tick ssl r) [
      | want_read ↦ poll_for x uv_readable ssl l w₂
      | want_write ↦ poll_for x uv_writable ssl l w₂
      | zero_return ↦ returned_result ssl l r w₂
      | other_error ↦ returned_result ssl l r w₂
    ]

-- The code behind the `Fiber::yield()` of a `TCP_Poll` that `PerformSSLOperation` called: the poll
-- must not have thrown, `PerformSSLOperation` returns 0, and the loop goes on.
unfoldable pub after_poll : (ssl : ℕ) → TlsLoop → Waits → World → Outcome
unfolding resume_value
after_poll ssl l p w = elim (resume_value w) [
  | none ↦ aborts
  | some v ↦ elim v [ error m ↦ aborts | _ ↦ spins ssl l (release_all p.held w) ]
]
