-- ===== src/Machine/Alive/Steps.antt =====
-- Steps of the process, and callbacks of libuv.
use runtime_system.Base.{
  ℕ, ◌≡◌, ◌≢◌, refl, sym, subst, [], ◌∷◌, List, none, some, arith, Option-cases, inl, inr,
}
use runtime_system.Value.{Value, Reply}
use runtime_system.State.{
  World, Fiber, new, Script, Call, call, finish, uncaught, Base, main_stack, fiber_stack, Context,
  entry, in_yield, in_run, in_drain,
}
use runtime_system.State.Memory.{delete_context}
use runtime_system.State.Memory.Frame.{Keeps}
use runtime_system.External.{External}
use runtime_system.Primitive.{Outcome, replies, blocks, resumes, spins, aborts}
use runtime_system.Fibers.{fiber_run}
use runtime_system.Tls.{tls_round}
use runtime_system.Async.{create_result_value}
use runtime_system.Machine.Uncaught.{uncaught_cases}
use runtime_system.Machine.Switch.{
  Machine, Control, idle, executing, continuing, draining, in_tls, aborted, exited, set_fiber,
  resume, after_resume,
}
use runtime_system.Machine.Dispatch.{start_call, after_yield}
use runtime_system.Machine.Steps.{
  settle, execute, resume_next, enter, continue, step_from, step, report,
}
use runtime_system.Machine.Events.{Event, deliver, swap_queue}
use runtime_system.Machine.Queues.{QueuesOne}
use runtime_system.Machine.Callbacks.Deliver.{deliver_cases}
use runtime_system.Machine.Frame.{Leaves}
use runtime_system.Machine.Frame.Start.{start_call-Keeps}
use runtime_system.Machine.Frame.Histories.{call_cases, after_yield-Keeps, tls_round-Keeps}
use runtime_system.Machine.Frame.Values.{left_by, create_result_value-Keeps}
use runtime_system.Machine.Alive.{
  BaseOk, ContextOk, ControlOk, WorldOk, MachineOk, update-FibersOk, same-FibersOk,
  set_fiber-WorldOk,
}
use runtime_system.Machine.Alive.Deletion.{after_resume-WorldOk}
use runtime_system.Machine.Alive.Switches.{yield-MachineOk, resume-MachineOk, end_fiber-MachineOk}

-- A world that comes after another one, with the same main fiber.
abbrev LivesOn : World → World → Type 0
LivesOn w v = WorldOk v × (v.main_fiber ≡ w.main_fiber)

Keeps-LivesOn : (w v : World) → Keeps w v → WorldOk w → LivesOn w v
Keeps-LivesOn w v p h = (same-FibersOk w v p.fibers p.current p.main p.next h, p.main)

Leaves-LivesOn : (w : World) (o : Outcome) → Leaves (Keeps w) o → WorldOk w → Leaves (LivesOn w) o
Leaves-LivesOn w (replies r v) p h = Keeps-LivesOn w v p h
Leaves-LivesOn w (blocks c v) p h = Keeps-LivesOn w v p h
Leaves-LivesOn w (resumes f v) p h = Keeps-LivesOn w v p h
Leaves-LivesOn w (spins s l v) p h = Keeps-LivesOn w v p h
Leaves-LivesOn w aborts p h = tt

settle-MachineOk :
    (o : Outcome) (b : Base) (k : Reply → Script) (w : World)
    → BaseOk w.main_fiber b
    → WorldOk w
    → Leaves (LivesOn w) o
    → MachineOk (settle o b k w)
unfolding settle
settle-MachineOk (replies r v) b k w base h (live, same) =
    (live, subst (λ m. BaseOk m b) (sym same) base)
settle-MachineOk (blocks c v) b k w base h (live, same) =
    yield-MachineOk (in_yield b c k) v (λ f. subst (λ m. BaseOk m b) (sym same) base) live
settle-MachineOk (resumes f v) b k w base h (live, same) =
    resume-MachineOk f (in_run b f k) v (λ g. subst (λ m. BaseOk m b) (sym same) base) live
settle-MachineOk (spins s l v) b k w base h (live, same) =
    (live, subst (λ m. BaseOk m b) (sym same) base)
settle-MachineOk aborts b k w base h l = (h, tt)

fiber_run-LivesOn : (s : Script) (w : World) → WorldOk w → Leaves (LivesOn w) (fiber_run s w)
unfolding fiber_run
fiber_run-LivesOn s w h =
    let r : Fiber = record { status = new; func = s; resume_value = none; context = some entry } in
    let room = h.room in
    let made =
      update-FibersOk w.fibers w.current_fiber w.main_fiber w.next_fiber w.next_fiber r h
        (λ e. ground arith)
        (λ c is.
          subst (ContextOk w.main_fiber w.next_fiber) {x = entry} (ground arith)
            (λ e. omega arith)) in
    (
      record {
        current_alive = made.current_alive;
        main_alive = made.main_alive;
        room = omega arith;
        saved = made.saved;
      },
      refl,
    )

start_call-LivesOn :
    (x : External) (c : Call) (w : World) → WorldOk w → Leaves (LivesOn w) (start_call x c w)
unfolding start_call
start_call-LivesOn x c w h = elim (call_cases c) [
  | inl (s, e) ↦
      subst (λ d. Leaves (LivesOn w) (start_call x d w)) (sym e) (fiber_run-LivesOn s w h)
  | inr p ↦ Leaves-LivesOn w (start_call x c w) (start_call-Keeps x c w p) h
]

execute-MachineOk :
    (x : External) (b : Base) (s : Script) (w : World)
    → BaseOk w.main_fiber b
    → WorldOk w
    → MachineOk (execute x b s w)
unfolding execute report
execute-MachineOk x b (call c k) w base h =
    settle-MachineOk (start_call x c w) b k w base h (start_call-LivesOn x c w h)
execute-MachineOk x main_stack finish w base h = (h, tt)
execute-MachineOk x main_stack (uncaught t) w base h =
    uncaught_cases MachineOk x t w (h, tt) (h, tt)
execute-MachineOk x (fiber_stack self) finish w base h = end_fiber-MachineOk self w base h
execute-MachineOk x (fiber_stack self) (uncaught t) w base h =
    end_fiber-MachineOk self (report t w) base h

enter-MachineOk : (w : World) → w.current_fiber ≢ w.main_fiber → WorldOk w → MachineOk (enter w)
unfolding enter
enter-MachineOk w ne h = elim (Option-cases (w.fibers w.current_fiber)) [
  | inl absent ↦ rw (absent, enter) (h, tt)
  | inr (r, at) ↦ rw (at, enter) (h, ne)
]

continue-MachineOk :
    (c : Context) (w : World)
    → ContextOk w.main_fiber w.current_fiber c
    → WorldOk w
    → MachineOk (continue c w)
unfolding continue delete_context
continue-MachineOk entry w ok h = enter-MachineOk w ok h
continue-MachineOk (in_yield b c k) w ok h =
    settle-MachineOk (after_yield c w) b k w ok h (Leaves-LivesOn w _ (after_yield-Keeps c w) h)
continue-MachineOk (in_run b f k) w ok h = elim (Option-cases (after_resume f w)) [
  | inl absent ↦ rw (absent, continue) (h, tt)
  | inr (v, e) ↦
      let (live, same) = after_resume-WorldOk f w v h e in
      rw (e, continue) (live, subst (λ m. BaseOk m b) (sym same) ok)
]
continue-MachineOk (in_drain f c rest) w ok h = elim (Option-cases (after_resume f w)) [
  | inl absent ↦ rw (absent, continue) (h, tt)
  | inr (v, e) ↦ let (live, same) = after_resume-WorldOk f w v h e in rw (e, continue) (live, tt)
]

resumed-MachineOk :
    (f : ℕ) (saved : Context) (v : Value) (w : World)
    → ((m g : ℕ) → ContextOk m g saved)
    → WorldOk w
    → MachineOk (resume f saved (set_fiber f (λ r. record r { resume_value = some v }) w))
resumed-MachineOk f saved v w go h =
    resume-MachineOk f saved (set_fiber f (λ r. record r { resume_value = some v }) w)
      (go (set_fiber f (λ r. record r { resume_value = some v }) w).main_fiber)
      (set_fiber-WorldOk f (λ r. record r { resume_value = some v }) w h
        (λ r at e. let (q, at', alive) = h.main_alive in ground (arith, alive))
        (λ r c at is. h.saved f r c at is))

module _ (x : External) where
  resume_next-MachineOk :
      (c : ℕ) (rest : List ℕ) (w : World) → WorldOk w → MachineOk (resume_next x c rest w)
  unfolding resume_next
  resume_next-MachineOk c rest w h = elim (Option-cases (w.contexts c)) [
    | inl absent ↦ rw (absent, resume_next) (h, tt)
    | inr (a, at) ↦ elim (Option-cases (create_result_value x a w)) [
      | inl invalid ↦ rw (at, resume_next, invalid) (h, tt)
      | inr ((v, u), e) ↦
          rw (at, resume_next, e)
            (resumed-MachineOk a.fiber (in_drain a.fiber c rest) v u (λ m g. tt)
              (Keeps-LivesOn w u
                (subst (λ o. Keeps w (left_by w o)) e (create_result_value-Keeps x a w)) h).0)
    ]
  ]

  step_from-MachineOk :
      (c : Control) (w : World)
      → ControlOk w.main_fiber w.current_fiber c
      → WorldOk w
      → MachineOk (step_from x c w)
  unfolding step_from
  step_from-MachineOk idle w ok h = (h, tt)
  step_from-MachineOk (executing b s) w ok h = execute-MachineOk x b s w ok h
  step_from-MachineOk (continuing c) w ok h = continue-MachineOk c w ok h
  step_from-MachineOk (draining []) w ok h = (h, tt)
  step_from-MachineOk (draining (c ∷ rest)) w ok h = resume_next-MachineOk c rest w h
  step_from-MachineOk (in_tls b ssl l k) w ok h =
      settle-MachineOk (tls_round x ssl l w) b k w ok h
        (Leaves-LivesOn w _ (tls_round-Keeps x ssl l w) h)
  step_from-MachineOk aborted w ok h = (h, tt)
  step_from-MachineOk (exited code) w ok h = (h, tt)

  pub step-MachineOk : (m : Machine) → MachineOk m → MachineOk (step x m)
  unfolding step
  step-MachineOk m (h, ok) = step_from-MachineOk m.control m.world ok h

QueuesOne-WorldOk : (w v : World) → QueuesOne w v → WorldOk w → WorldOk v
QueuesOne-WorldOk w v (inl q) h = same-FibersOk w v q.fibers q.current q.main q.next h
QueuesOne-WorldOk w v (inr (c, q)) h = same-FibersOk w v q.fibers q.current q.main q.next h

pub deliver-MachineOk : (e : Event) (w : World) → WorldOk w → MachineOk (deliver e w)
deliver-MachineOk e w h =
    deliver_cases MachineOk e w (h, tt) (λ v q. (QueuesOne-WorldOk w v q h, tt))

pub swap_queue-MachineOk : (w : World) → WorldOk w → MachineOk (swap_queue w)
unfolding swap_queue
swap_queue-MachineOk w h =
    (same-FibersOk w (record w { resumable_fibers = [] }) refl refl refl refl h, tt)
