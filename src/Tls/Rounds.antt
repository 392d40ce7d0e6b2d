-- ===== src/Tls/Rounds.antt =====
-- The loops of primitives_tls.cpp: how they end, and how they do not.
use runtime_system.Base.{
  ℕ, ◌+◌, ◌<◌, ℤ, pos, ◌≡◌, refl, ◌≢◌, ◌⊎◌, ◌∙◌, ◌∷◌, none, some, arith, true, false, is_zero,
}
use runtime_system.State.{
  World, BaseHandle, tls, TlsLoop, accepting, connecting, reading, writing, closing, ssl_session,
}
use runtime_system.State.Memory.{release, release_all, get_handle, as_net}
use runtime_system.External.{External, want_read, want_write, ticked}
use runtime_system.Primitive.{spins, aborts, throw}
use runtime_system.Tcp.{tcp_poll_then}
use runtime_system.Tls.Loop.{
  tls_round, after_loop, loop_net_id, not_positive, poll_for, net_of, uv_readable, uv_writable,
}

-- A round in which the call returns 0 and OpenSSL does not ask to wait leads to the next round at
-- once: the end of the stream (`SSL_read` gives 0 and `SSL_ERROR_ZERO_RETURN`) is not an end of the
-- loop.
pub tls_round-zero :
    (x : External) (ssl : ℕ) (l : TlsLoop) (w : World)
    → x.ssl_call w.tick ssl l ≡ pos 0
    → x.ssl_get_error (w.tick + 1) ssl (pos 0) ≢ want_read
    → x.ssl_get_error (w.tick + 1) ssl (pos 0) ≢ want_write
    → tls_round x ssl l w ≡ spins ssl l (record w { tick = w.tick + 1 + 1 })
unfolding tls_round ticked
tls_round-zero x ssl l w e nr nw = ground arith

-- A round in which the call gives another result and OpenSSL does not ask to wait ends the loop.
pub tls_round-after_loop :
    (x : External) (ssl : ℕ) (l : TlsLoop) (r : ℤ) (w : World)
    → x.ssl_call w.tick ssl l ≡ r
    → is_zero r ≡ false
    → x.ssl_get_error (w.tick + 1) ssl r ≢ want_read
    → x.ssl_get_error (w.tick + 1) ssl r ≢ want_write
    → tls_round x ssl l w ≡ after_loop ssl l r (record w { tick = w.tick + 1 + 1 })
unfolding tls_round ticked
tls_round-after_loop x ssl l r w e nz nr nw = ground arith

-- The `TLSHandle` at `s` is a local of the primitive alone, for the session `ssl` on `n`.
pub record IsLocal (ssl s n : ℕ) (w : World) : Type 0 where
  pub unshared : w.uses s ≡ 1
  pub apart : s ≢ n
  pub shared : 2 < w.uses n
  pub is_tls : (h : BaseHandle) × (w.objects s ≡ some h) × (h.class ≡ tls ssl n)

accept_failed :
    (ssl c n s : ℕ) (r : ℤ) (w : World)
    → not_positive r ≡ true
    → after_loop ssl (accepting c n s) r w
      ≡ throw "SSL_accept failed"
          (release c (release n (release s (record w { freed = ssl_session ssl ∷ w.freed }))))
unfolding after_loop release_all
accept_failed ssl c n s r w e = ground arith

release_local :
    (ssl s n : ℕ) (w : World)
    → IsLocal ssl s n w
    → ((release s w).freed ≡ ssl_session ssl ∷ w.freed) × (1 < (release s w).uses n)
unfolding release
release_local ssl s n w h = let (b, at, is) = h.is_tls in (ground arith, ground arith)

release_shared : (n : ℕ) (w : World) → 1 < w.uses n → (release n w).freed ≡ w.freed
unfolding release
release_shared n w h = ground arith

-- A handshake that fails gives the session to `SSL_free` twice: in the primitive, and in the
-- destructor of `sock`.
pub accept_failed-freed :
    (ssl c n s : ℕ) (r : ℤ) (w : World)
    → IsLocal ssl s n w
    → not_positive r ≡ true
    → (v : World) × (after_loop ssl (accepting c n s) r w ≡ throw "SSL_accept failed" (release c v))
      × (v.freed ≡ ssl_session ssl ∷ ssl_session ssl ∷ w.freed)
accept_failed-freed ssl c n s r w h e = (
  release n (release s (record w { freed = ssl_session ssl ∷ w.freed })),
  accept_failed ssl c n s r w e,
  release_shared n _ freed.1 ∙ freed.0,
)
  where
    freed :
        ((release s (record w { freed = ssl_session ssl ∷ w.freed })).freed
          ≡ ssl_session ssl ∷ ssl_session ssl ∷ w.freed)
        × (1 < (release s (record w { freed = ssl_session ssl ∷ w.freed })).uses n)
    freed =
        release_local ssl s n (record w { freed = ssl_session ssl ∷ w.freed })
          (record { unshared = h.unshared; apart = h.apart; shared = h.shared; is_tls = h.is_tls })

loop_net_id-ticked : (l : TlsLoop) (w : World) → loop_net_id l (ticked (ticked w)) ≡ loop_net_id l w
unfolding loop_net_id ticked net_of
loop_net_id-ticked (accepting c n s) w = refl
loop_net_id-ticked (connecting n s c) w = refl
loop_net_id-ticked (reading s v) w = refl
loop_net_id-ticked (writing s v) w = refl
loop_net_id-ticked (closing i s) w = refl

get_handle-ticked :
    (id : ℕ) (w : World) → get_handle as_net id (ticked (ticked w)) ≡ get_handle as_net id w
unfolding get_handle ticked
get_handle-ticked id w = refl

ticked-tick : (w : World) → (ticked w).tick ≡ w.tick + 1
unfolding ticked
ticked-tick w = refl

poll_for_closed :
    (x : External) (events : ℤ) (ssl : ℕ) (l : TlsLoop) (w : World) (id : ℕ)
    → loop_net_id l w ≡ some id
    → get_handle as_net id w ≡ none
    → poll_for x events ssl l w ≡ aborts
unfolding poll_for tcp_poll_then
poll_for_closed x events ssl l w id e gone = ground arith

-- A `TCP_Poll` that throws inside `PerformSSLOperation` ends the process: a TLS operation that has
-- to wait on a socket whose handle was closed or freed aborts instead of throwing.
pub tls_round_closed :
    (x : External) (ssl : ℕ) (l : TlsLoop) (w : World) (id : ℕ)
    → (x.ssl_get_error (w.tick + 1) ssl (x.ssl_call w.tick ssl l) ≡ want_read)
      ⊎ (x.ssl_get_error (w.tick + 1) ssl (x.ssl_call w.tick ssl l) ≡ want_write)
    → loop_net_id l w ≡ some id
    → get_handle as_net id w ≡ none
    → tls_round x ssl l w ≡ aborts
unfolding tls_round
tls_round_closed x ssl l w id wants e gone =
    ground (arith, ticked-tick w, aborted uv_readable, aborted uv_writable)
  where
    aborted : (events : ℤ) → poll_for x events ssl l (ticked (ticked w)) ≡ aborts
    aborted events =
        poll_for_closed x events ssl l _ id (loop_net_id-ticked l w ∙ e)
          (get_handle-ticked id w ∙ gone)
