-- ===== src/Machine/Closing.antt =====
-- `uv_close` on the `uv_timer_t` and `uv_poll_t` that are members of an `AsyncContext`, against the
-- `delete async_context` of `OnFibersToResume`.
use runtime_system.Base.{ℕ, ◌≤◌, ℤ, ◌≡◌, refl, sym, List, none, some, arith, subst}
use runtime_system.State.{World, Fiber, Context, fiber_stack, finish}
use runtime_system.State.Memory.{fill_context, queue_fiber_to_resume, delete_context}
use runtime_system.State.Memory.Owned.{count}
use runtime_system.State.Memory.Requests.{count-append}
use runtime_system.External.{External}
use runtime_system.Fibers.{on_sleep_timer}
use runtime_system.Tcp.{on_poll}
use runtime_system.Machine.Switch.{
  Machine, machine, aborted, executing, yield, switch_to, set_fiber, after_resume,
}
use runtime_system.Machine.Steps.{step, steps, execute, end_fiber, continue}
use runtime_system.Machine.Events.{handle_closed, Offers, deliver, callback, close_callback}
use runtime_system.Machine.Rounds.{IsDraining, drain_goes_on}

-- libuv has yet to end the `uv_close` of a member of the context, and finds the context deleted.
abbrev pub ClosesDeleted : ℕ → Machine → Type 0
ClosesDeleted c m =
    Offers (handle_closed c) m.world × ((deliver (handle_closed c) m.world).control ≡ aborted)

deleted-aborts :
    (c : ℕ) (w : World) → w.contexts c ≡ none → (deliver (handle_closed c) w).control ≡ aborted
unfolding deliver callback close_callback
deleted-aborts c w e = rw (e, deliver, callback, close_callback) refl

module _ (x : External) (f c : ℕ) (rest : List ℕ) (r : Fiber) (w : World)
    (h : IsDraining f c rest r w) where
  yield-closing :
      (saved : Context) → (step x (yield saved w)).world.closing_handles ≡ w.closing_handles
  unfolding step continue yield after_resume delete_context
  yield-closing saved = let (m, at, is) = h.main in ground (arith, h.apart, h.current, h.resumed)

  finish-closing :
      (steps x 2 (machine w (executing (fiber_stack f) finish))).world.closing_handles
      ≡ w.closing_handles
  unfolding steps step execute end_fiber continue switch_to set_fiber after_resume delete_context
  finish-closing = let (m, at, is) = h.main in ground (arith, h.apart, h.current, h.resumed)

-- A sleep and a poll that end leave the `uv_close` of their handle to be ended.
pub member_closes :
    (c : ℕ) (status events : ℤ) (u v w : World)
    → on_sleep_timer c w ≡ some u
    → on_poll c status events w ≡ some v
    → Offers (handle_closed c) u × Offers (handle_closed c) v
unfolding Offers on_sleep_timer on_poll fill_context queue_fiber_to_resume
member_closes c status events u v w e g = (
  ground (arith, count-append c c w.closing_handles),
  ground (arith, count-append c c w.closing_handles),
)

-- Suppose that the fiber that `OnFibersToResume` resumed for a context is the current one and not
-- the main one, and that the context saved for the main fiber still leads back to the loop (a
-- fiber that has run another one since does not meet this). If the `uv_close` of a member of the
-- context is outstanding when this fiber gives up control or ends, the context is deleted, libuv
-- still has to end the `uv_close`, and when it does, it uses the deleted context.
pub closes_deleted :
    (x : External) (f c : ℕ) (rest : List ℕ) (r : Fiber) (saved : Context) (w : World)
    → IsDraining f c rest r w
    → Offers (handle_closed c) w
    → ClosesDeleted c (step x (yield saved w))
      × ClosesDeleted c (steps x 2 (machine w (executing (fiber_stack f) finish)))
unfolding Offers
closes_deleted x f c rest r saved w h offered =
    let ((_, yielded, _, _), (_, ended, _, _)) = drain_goes_on x f c rest r saved w h in
    (
      (
        subst (λ cs. 1 ≤ count c cs) (sym (yield-closing x f c rest r w h saved)) offered,
        deleted-aborts c _ yielded,
      ),
      (
        subst (λ cs. 1 ≤ count c cs) (sym (finish-closing x f c rest r w h)) offered,
        deleted-aborts c _ ended,
      ),
    )
