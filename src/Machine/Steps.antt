-- ===== src/Machine/Steps.antt =====
-- One step of the process while it does not wait in `uv_run`.
use runtime_system.Base.{ℕ, zero, suc, List, [], ◌∷◌, ◌++◌, none, some, if◌then◌else◌}
use runtime_system.Value.{Reply, returned, undefined, TryCatch, report_exception}
use runtime_system.State.{
  World, done, Script, finish, uncaught, call, Context, Base, main_stack, fiber_stack, entry,
  in_yield, in_run, in_drain,
}
use runtime_system.State.Memory.{delete_context}
use runtime_system.External.{External}
use runtime_system.Primitive.{Outcome, replies, blocks, resumes, spins, aborts}
use runtime_system.Async.{create_result_value}
use runtime_system.Tls.{tls_round}
use runtime_system.Machine.Switch.{
  Machine, machine, Control, idle, executing, continuing, draining, in_tls, aborted, exited, yield,
  resume, after_resume, set_fiber, switch_to,
}
use runtime_system.Machine.Dispatch.{start_call, after_yield}

-- Where a primitive that a script called leads.
unfoldable pub settle : Outcome → Base → (Reply → Script) → World → Machine
settle (replies r w) b k v = machine w (executing b (k r))
settle (blocks c w) b k v = yield (in_yield b c k) w
settle (resumes f w) b k v = resume f (in_run b f k) w
settle (spins ssl l w) b k v = machine w (in_tls b ssl l k)
settle aborts b k v = machine v aborted

-- `ReportException(isolate, &try_catch)`.
unfoldable pub report : TryCatch → World → World
report t w = record w { stderr = w.stderr ++ report_exception t }

-- The end of `Fiber::run`: the stack returns to `uc_link`, the context of the main fiber.
unfoldable pub end_fiber : ℕ → World → Machine
end_fiber self w = switch_to w.main_fiber (set_fiber self (λ r. record r { status = done }) w)

-- The end of `LoadAndRunModules` for an exception of the entry module: the process reports it and ends
-- if the result of `Evaluate` is empty; else `main` goes on to `uv_run`.
unfoldable pub evaluated : External → TryCatch → World → Machine
evaluated x t w = if x.evaluate_is_empty t then machine (report t w) (exited 1) else machine w idle

-- A script makes its next call, or ends. The main one returns to `main`, which enters `uv_run`. In `Fiber::run` an exception is reported, and the fiber is done.
unfoldable pub execute : External → Base → Script → World → Machine
unfolding settle end_fiber report evaluated
execute x b (call c k) w = settle (start_call x c w) b k w
execute x main_stack finish w = machine w idle
execute x main_stack (uncaught t) w = evaluated x t w
execute x (fiber_stack self) finish w = end_fiber self w
execute x (fiber_stack self) (uncaught t) w = end_fiber self (report t w)

-- A round of the loop of `OnFibersToResume` up to `Fiber::resume`.
unfoldable pub resume_next : External → ℕ → List ℕ → World → Machine
resume_next x c rest w = elim (w.contexts c) [
  | none ↦ machine w aborted
  | some a ↦ elim (create_result_value x a w) [
    | none ↦ machine w aborted
    | some (v, w') ↦
        resume a.fiber (in_drain a.fiber c rest)
          (set_fiber a.fiber (λ r. record r { resume_value = some v }) w')
  ]
]

-- `fiber_entry`: the script of the current fiber.
unfoldable pub enter : World → Machine
enter w = elim (w.fibers w.current_fiber) [
  | none ↦ machine w aborted
  | some r ↦ machine w (executing (fiber_stack w.current_fiber) r.func)
]

-- Control comes back to a context.
unfoldable pub continue : Context → World → Machine
unfolding settle enter
continue entry w = enter w
continue (in_yield b c k) w = settle (after_yield c w) b k w
continue (in_run b f k) w = elim (after_resume f w) [
  | none ↦ machine w aborted
  | some w' ↦ machine w' (executing b (k (returned undefined)))
]
continue (in_drain f c rest) w = elim (after_resume f w) [
  | none ↦ machine w aborted
  | some w' ↦ machine (delete_context c w') (draining rest)
]

-- One step.
unfoldable pub step_from : External → Control → World → Machine
unfolding execute continue resume_next settle
step_from x idle w = machine w idle
step_from x (executing b s) w = execute x b s w
step_from x (continuing c) w = continue c w
step_from x (draining []) w = machine w idle
step_from x (draining (c ∷ rest)) w = resume_next x c rest w
step_from x (in_tls b ssl l k) w = settle (tls_round x ssl l w) b k w
step_from x aborted w = machine w aborted
step_from x (exited code) w = machine w (exited code)

unfoldable pub step : External → Machine → Machine
unfolding step_from
step x m = step_from x m.control m.world

unfoldable pub steps : External → ℕ → Machine → Machine
unfolding step
steps x zero m = m
steps x (suc n) m = steps x n (step x m)
