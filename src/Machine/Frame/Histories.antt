-- ===== src/Machine/Frame/Histories.antt =====
-- What the steps of the process do to the handle store.

use runtime_system.Base.{ℕ, ℤ, ◌≡◌, refl, sym, subst, ◌⊎◌, inl, inr, arith, is_zero}
use runtime_system.Value.{Value, Reply, error}
use runtime_system.State.{
  World, Call, Script, Cont, Context, Base, TlsLoop, Waits, accepting, connecting, reading, writing,
  closing, sleep_done, give_result, give_undefined, close_file, tls_polled,
}
use runtime_system.State.Memory.{release_all}
use runtime_system.State.Memory.Frame.{
  Keeps, Keeps-refl, Keeps-trans, IsHistory, IsHistory-refl, IsHistory-trans, IsHistory-same,
  release-Keeps, release_all-Keeps, remove_handle-Keeps, add_handle-Keeps, ticked-Keeps,
  freed-Keeps,
}
use runtime_system.External.{
  External, SslError, want_read, want_write, zero_return, other_error, ticked,
}
use runtime_system.Primitive.{
  Outcome, replies, blocks, resumes, spins, aborts, conclude, resume_value,
}
use runtime_system.Fibers.{fiber_run}
use runtime_system.Tls.{
  after_loop, not_positive, after_poll, tls_round, poll_for, checked, returned_result, loop_net_id,
  uv_readable, uv_writable,
}
use runtime_system.Machine.Switch.{yield, resume}
use runtime_system.Machine.Dispatch.{start_call, after_yield}
use runtime_system.Machine.Steps.{settle}
use runtime_system.Machine.Frame.Rules.{Leaves, Leaves-Keeps, by_lookup, by_test}
use runtime_system.Machine.Frame.Sockets.{tcp_poll_then-Keeps}
use runtime_system.Machine.Frame.Start.{IsPlain, start_call-Keeps}

-- The store of `v` is what `Add` and `Remove` made of that of `w`.
abbrev pub Stores : World → World → Type 0
Stores w v = IsHistory w.handles v.handles

pub Leaves-Stores : (w : World) (o : Outcome) → Leaves (Keeps w) o → Leaves (Stores w) o
Leaves-Stores w (replies r v) h = h.history
Leaves-Stores w (blocks c v) h = h.history
Leaves-Stores w (resumes f v) h = h.history
Leaves-Stores w (spins s l v) h = h.history
Leaves-Stores w aborts h = tt

yield-handles : (saved : Context) (w : World) → (yield saved w).world.handles ≡ w.handles
unfolding yield
yield-handles saved w = ground arith

resume-handles :
    (f : ℕ) (saved : Context) (w : World) → (resume f saved w).world.handles ≡ w.handles
unfolding resume
resume-handles f saved w = ground arith

pub settle-Stores :
    (o : Outcome) (b : Base) (k : Reply → Script) (u v : World)
    → Leaves (Stores u) o
    → Stores u v
    → Stores u (settle o b k v).world
unfolding settle
settle-Stores (replies r w) b k u v h e = h
settle-Stores (blocks c w) b k u v h e =
    IsHistory-trans _ _ _ h (IsHistory-same _ _ (yield-handles _ w))
settle-Stores (resumes f w) b k u v h e =
    IsHistory-trans _ _ _ h (IsHistory-same _ _ (resume-handles f _ w))
settle-Stores (spins s l w) b k u v h e = h
settle-Stores aborts b k u v h e = e

pub call_cases : (c : Call) → ((s : Script) × (c ≡ Call.fiber_run s)) ⊎ IsPlain c
call_cases (Call.fiber_run s) = inl (s, refl)
call_cases _ = inr tt

fiber_run-Stores : (s : Script) (w : World) → Leaves (Stores w) (fiber_run s w)
unfolding fiber_run
fiber_run-Stores s w = IsHistory-refl w.handles

-- Any call of a primitive.
pub start_call-Stores : (x : External) (c : Call) (w : World) → Leaves (Stores w) (start_call x c w)
unfolding start_call
start_call-Stores x c w = elim (call_cases c) [
  | inl (s, e) ↦ subst (λ d. Leaves (Stores w) (start_call x d w)) (sym e) (fiber_run-Stores s w)
  | inr h ↦ Leaves-Stores w (start_call x c w) (start_call-Keeps x c w h)
]

conclude-Keeps : (f : Value → Value) (u w : World) → Keeps u w → Leaves (Keeps u) (conclude f w)
unfolding conclude
conclude-Keeps f u w h = by_lookup (Keeps u) aborts _ (resume_value w) tt (λ v. h)

polled-Keeps :
    (ssl : ℕ) (l : TlsLoop) (p : Waits) (w : World) (v : Value)
    → Leaves (Keeps w) (elim v [ error m ↦ aborts | _ ↦ spins ssl l (release_all p.held w) ])
polled-Keeps ssl l p w (error m) = tt
polled-Keeps ssl l p w _ = release_all-Keeps p.held w

after_poll-Keeps :
    (ssl : ℕ) (l : TlsLoop) (p : Waits) (w : World) → Leaves (Keeps w) (after_poll ssl l p w)
unfolding after_poll
after_poll-Keeps ssl l p w =
    by_lookup (Keeps w) aborts _ (resume_value w) tt (polled-Keeps ssl l p w)

-- The code behind any `Fiber::yield()`.
pub after_yield-Keeps : (c : Cont) (w : World) → Leaves (Keeps w) (after_yield c w)
unfolding after_yield
after_yield-Keeps (sleep_done p) w = release_all-Keeps p.held w
after_yield-Keeps (give_result p) w = conclude-Keeps _ w _ (release_all-Keeps p.held w)
after_yield-Keeps (give_undefined p) w = conclude-Keeps _ w _ (release_all-Keeps p.held w)
after_yield-Keeps (close_file id p) w =
    conclude-Keeps _ w _ (Keeps-trans _ _ _ (remove_handle-Keeps id w) (release_all-Keeps p.held _))
after_yield-Keeps (tls_polled ssl l p) w = after_poll-Keeps ssl l p w

after_loop-Keeps :
    (ssl : ℕ) (l : TlsLoop) (r : ℤ) (w : World) → Leaves (Keeps w) (after_loop ssl l r w)
unfolding after_loop
after_loop-Keeps ssl (accepting c n s) r w =
    by_test (Keeps w) (not_positive r) _ _
      (Keeps-trans _ _ _ (freed-Keeps _ w) (release_all-Keeps _ _))
      (Keeps-trans _ _ _ (add_handle-Keeps s w) (release_all-Keeps _ _))
after_loop-Keeps ssl (connecting n s x) r w =
    by_test (Keeps w) (not_positive r) _ _
      (Keeps-trans _ _ _ (freed-Keeps _ w) (release_all-Keeps _ _))
      (Keeps-trans _ _ _ (add_handle-Keeps s w)
        (Keeps-trans _ _ _ (freed-Keeps _ _) (release_all-Keeps _ _)))
after_loop-Keeps ssl (reading s v) r w =
    by_test (Keeps w) (not_positive r) _ _ (Keeps-trans _ _ _ (ticked-Keeps w) (release-Keeps s _))
      (release-Keeps s w)
after_loop-Keeps ssl (writing s v) r w =
    by_test (Keeps w) (not_positive r) _ _ (release-Keeps s w) (release-Keeps s w)
after_loop-Keeps ssl (closing id s) r w =
    Keeps-trans _ _ _ (remove_handle-Keeps id w) (release-Keeps s _)

checked-Keeps : (w : World) (o : Outcome) → Leaves (Keeps w) o → Leaves (Keeps w) (checked o)
unfolding checked
checked-Keeps w (replies r v) h = tt
checked-Keeps w (blocks c v) h = h
checked-Keeps w (resumes f v) h = tt
checked-Keeps w (spins s l v) h = tt
checked-Keeps w aborts h = tt

module _ (x : External) (ssl : ℕ) (l : TlsLoop) where
  poll_for-Keeps : (events : ℤ) (w : World) → Leaves (Keeps w) (poll_for x events ssl l w)
  unfolding poll_for
  poll_for-Keeps events w =
      by_lookup (Keeps w) aborts _ (loop_net_id l w) tt
        (λ id. checked-Keeps w _ (tcp_poll_then-Keeps x w (tls_polled ssl l) id events))

  returned_result-Keeps : (r : ℤ) (w : World) → Leaves (Keeps w) (returned_result ssl l r w)
  unfolding returned_result
  returned_result-Keeps r w =
      by_test (Keeps w) (is_zero r) _ _ (Keeps-refl w) (after_loop-Keeps ssl l r w)

  -- One round of a loop of primitives_tls.cpp.
  pub tls_round-Keeps : (w : World) → Leaves (Keeps w) (tls_round x ssl l w)
  unfolding tls_round
  tls_round-Keeps w =
      Leaves-Keeps w _ _ (Keeps-trans _ _ _ (ticked-Keeps w) (ticked-Keeps _))
        (round_cases (x.ssl_get_error (ticked w).tick ssl (x.ssl_call w.tick ssl l)))
    where
      round_cases :
          (e : SslError)
          → Leaves (Keeps (ticked (ticked w))) (elim e [
            | want_read ↦ poll_for x uv_readable ssl l (ticked (ticked w))
            | want_write ↦ poll_for x uv_writable ssl l (ticked (ticked w))
            | zero_return ↦ returned_result ssl l (x.ssl_call w.tick ssl l) (ticked (ticked w))
            | other_error ↦ returned_result ssl l (x.ssl_call w.tick ssl l) (ticked (ticked w))
          ])
      round_cases want_read = poll_for-Keeps uv_readable (ticked (ticked w))
      round_cases want_write = poll_for-Keeps uv_writable (ticked (ticked w))
      round_cases zero_return = returned_result-Keeps (x.ssl_call w.tick ssl l) (ticked (ticked w))
      round_cases other_error = returned_result-Keeps (x.ssl_call w.tick ssl l) (ticked (ticked w))
