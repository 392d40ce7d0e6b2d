-- ===== src/Machine/Stores.antt =====
-- What a step of the process, and a callback of libuv, do to the handle store.

use runtime_system.Base.{ℕ, ◌≡◌, refl, inl, inr, [], ◌∷◌, List, Option, none, some, arith}
use runtime_system.Value.{Value}
use runtime_system.State.{
  World, Script, Context, Base, call, finish, uncaught, main_stack, fiber_stack, entry, in_yield,
  in_run, in_drain,
}
use runtime_system.State.Memory.{delete_context}
use runtime_system.State.Memory.Frame.{IsHistory-refl, IsHistory-trans, IsHistory-same}
use runtime_system.External.{External}
use runtime_system.Async.{create_result_value}
use runtime_system.Tls.{tls_round}
use runtime_system.Machine.Uncaught.{uncaught_cases}
use runtime_system.Machine.Switch.{
  Machine, machine, Control, idle, executing, continuing, draining, in_tls, aborted, exited,
  after_resume, resume, switch_to, set_fiber,
}
use runtime_system.Machine.Dispatch.{start_call, after_yield}
use runtime_system.Machine.Steps.{
  execute, resume_next, enter, continue, step_from, step, end_fiber, report,
}
use runtime_system.Machine.Events.{Event, deliver}
use runtime_system.Machine.Queues.{QueuesOne}
use runtime_system.Machine.Callbacks.Deliver.{deliver_cases}
use runtime_system.Machine.Frame.Values.{left_by, by_option, create_result_value-Keeps}
use runtime_system.Machine.Frame.Histories.{
  Stores, settle-Stores, start_call-Stores, Leaves-Stores, after_yield-Keeps, tls_round-Keeps,
}

-- The part of a round of `OnFibersToResume` behind `CreateResultValue`.
after_result : (f : ℕ) (saved : Context) → World → Option (Value × World) → Machine
after_result f saved w o = elim o [
  | none ↦ machine w aborted
  | some (v, u) ↦ resume f saved (set_fiber f (λ r. record r { resume_value = some v }) u)
]

set_and_resume-handles :
    (f : ℕ) (saved : Context) (v : Value) (w : World)
    → (resume f saved (set_fiber f (λ r. record r { resume_value = some v }) w)).world.handles
      ≡ w.handles
unfolding resume set_fiber
set_and_resume-handles f saved v w = ground arith

module _ (x : External) where
  execute-Stores : (b : Base) (s : Script) (w : World) → Stores w (execute x b s w).world
  unfolding execute end_fiber report switch_to set_fiber
  execute-Stores b (call c k) w =
      settle-Stores (start_call x c w) b k w w (start_call-Stores x c w) (IsHistory-refl w.handles)
  execute-Stores main_stack finish w = IsHistory-refl w.handles
  execute-Stores main_stack (uncaught t) w =
      uncaught_cases (λ m. Stores w m.world) x t w (IsHistory-refl w.handles)
        (IsHistory-refl w.handles)
  execute-Stores (fiber_stack self) finish w = IsHistory-same _ _ (ground arith)
  execute-Stores (fiber_stack self) (uncaught t) w = IsHistory-same _ _ (ground arith)

  continue-Stores : (c : Context) (w : World) → Stores w (continue c w).world
  unfolding continue enter after_resume delete_context
  continue-Stores entry w = IsHistory-same _ _ (ground arith)
  continue-Stores (in_yield b c k) w =
      settle-Stores (after_yield c w) b k w w (Leaves-Stores w _ (after_yield-Keeps c w))
        (IsHistory-refl w.handles)
  continue-Stores (in_run b f k) w = IsHistory-same _ _ (ground arith)
  continue-Stores (in_drain f c rest) w = IsHistory-same _ _ (ground arith)

  resumed-Stores :
      (f : ℕ) (saved : Context) (w : World) (o : Option (Value × World))
      → Stores w (left_by w o)
      → Stores w (after_result f saved w o).world
  unfolding after_result
  resumed-Stores f saved w none h = h
  resumed-Stores f saved w (some (v, u)) h =
      IsHistory-trans _ _ _ h (IsHistory-same _ _ (set_and_resume-handles f saved v u))

  resume_next-Stores : (c : ℕ) (rest : List ℕ) (w : World) → Stores w (resume_next x c rest w).world
  unfolding resume_next after_result
  resume_next-Stores c rest w =
      by_option (λ m. Stores w m.world) (machine w aborted) _ (w.contexts c)
        (IsHistory-refl w.handles)
        λ a.
          resumed-Stores a.fiber (in_drain a.fiber c rest) w (create_result_value x a w)
            (create_result_value-Keeps x a w).history

  step_from-Stores : (c : Control) (w : World) → Stores w (step_from x c w).world
  unfolding step_from
  step_from-Stores idle w = IsHistory-refl w.handles
  step_from-Stores (executing b s) w = execute-Stores b s w
  step_from-Stores (continuing c) w = continue-Stores c w
  step_from-Stores (draining []) w = IsHistory-refl w.handles
  step_from-Stores (draining (c ∷ rest)) w = resume_next-Stores c rest w
  step_from-Stores (in_tls b ssl l k) w =
      settle-Stores (tls_round x ssl l w) b k w w (Leaves-Stores w _ (tls_round-Keeps x ssl l w))
        (IsHistory-refl w.handles)
  step_from-Stores aborted w = IsHistory-refl w.handles
  step_from-Stores (exited code) w = IsHistory-refl w.handles

  -- Any step of the process.
  pub step-Stores : (m : Machine) → Stores m.world (step x m).world
  unfolding step
  step-Stores m = step_from-Stores m.control m.world

QueuesOne-handles : (w v : World) → QueuesOne w v → v.handles ≡ w.handles
QueuesOne-handles w v (inl q) = q.handles
QueuesOne-handles w v (inr (c, q)) = q.handles

pub deliver-handles : (e : Event) (w : World) → (deliver e w).world.handles ≡ w.handles
deliver-handles e w =
    deliver_cases (λ m. m.world.handles ≡ w.handles) e w refl (QueuesOne-handles w)
