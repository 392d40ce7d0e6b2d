-- ===== src/Machine/Places/Steps.antt =====
-- The steps of the process leave every context in one place.
use runtime_system.Base.{ℕ, refl, sym, subst, List, [], ◌∷◌, some, arith, Option-cases, inl, inr}
use runtime_system.Value.{Reply, TryCatch}
use runtime_system.State.{
  World, Script, call, finish, uncaught, Call, Base, main_stack, fiber_stack, Context, entry,
  in_yield, in_run, in_drain,
}
use runtime_system.State.Memory.{delete_context}
use runtime_system.State.Memory.Frame.{Keeps}
use runtime_system.State.Memory.Owned.{Owns-less, Owns-same, count, waiting, pending_at}
use runtime_system.External.{External}
use runtime_system.Primitive.{Outcome, replies, blocks, resumes, spins, aborts}
use runtime_system.Async.{create_result_value}
use runtime_system.Tls.{tls_round}
use runtime_system.Machine.Uncaught.{uncaught_cases}
use runtime_system.Machine.Switch.{
  Machine, Control, idle, executing, continuing, draining, in_tls, aborted, exited, after_resume,
}
use runtime_system.Machine.Dispatch.{start_call, after_yield}
use runtime_system.Machine.Steps.{
  settle, execute, resume_next, enter, continue, step_from, step, report,
}
use runtime_system.Machine.Frame.{Leaves}
use runtime_system.Machine.Frame.Start.{start_call-Keeps}
use runtime_system.Machine.Frame.Histories.{call_cases, after_yield-Keeps, tls_round-Keeps}
use runtime_system.Machine.Frame.Values.{left_by, create_result_value-Keeps}
use runtime_system.Machine.Places.Switches.{
  stopped-MachineOwns, yield-MachineOwns, end_fiber-MachineOwns, set_fiber-OwnsWith,
  set_fiber-OnMain, resume-MachineOwns, after_resume-WorldOwns, after_resume-OwnsWith,
  after_resume-OnMain, fiber_run-WorldOwns, Keeps-OnMain, Keeps-WorldOwns,
}
use runtime_system.Machine.Places.{
  local_queue, OwnsWith, OnMain, WorldOwns, MachineOwns, OwnsWith-nil,
}

Leaves-WorldOwns : (w : World) (o : Outcome) → WorldOwns w → Leaves (Keeps w) o → Leaves WorldOwns o
Leaves-WorldOwns w (replies r v) h k = Keeps-WorldOwns w v h k
Leaves-WorldOwns w (blocks c v) h k = Keeps-WorldOwns w v h k
Leaves-WorldOwns w (resumes f v) h k = Keeps-WorldOwns w v h k
Leaves-WorldOwns w (spins s l v) h k = Keeps-WorldOwns w v h k
Leaves-WorldOwns w aborts h k = tt

start_call-WorldOwns :
    (x : External) (c : Call) (w : World) → WorldOwns w → Leaves WorldOwns (start_call x c w)
unfolding start_call
start_call-WorldOwns x c w h = elim (call_cases c) [
  | inl (s, e) ↦
      subst (λ d. Leaves WorldOwns (start_call x d w)) (sym e) (fiber_run-WorldOwns s w h)
  | inr p ↦ Leaves-WorldOwns w (start_call x c w) h (start_call-Keeps x c w p)
]

settle-MachineOwns :
    (o : Outcome) (b : Base) (k : Reply → Script) (w : World)
    → WorldOwns w
    → Leaves WorldOwns o
    → MachineOwns (settle o b k w)
unfolding settle MachineOwns
settle-MachineOwns (replies r v) b k w h l = l
settle-MachineOwns (blocks c v) b k w h l = yield-MachineOwns (in_yield b c k) v refl l
settle-MachineOwns (resumes f v) b k w h (owns, on) =
    resume-MachineOwns f (in_run b f k) v (OwnsWith-nil _ v owns) on
settle-MachineOwns (spins s l v) b k w h m = m
settle-MachineOwns aborts b k w (owns, on) l = stopped-MachineOwns _ w owns on

report-WorldOwns : (t : TryCatch) (w : World) → WorldOwns w → WorldOwns (report t w)
unfolding report pending_at
report-WorldOwns t w (h, on) = (Owns-same _ w (report t w) refl refl refl refl (λ o c e. e) h, on)

execute-MachineOwns :
    (x : External) (b : Base) (s : Script) (w : World) → WorldOwns w → MachineOwns (execute x b s w)
unfolding execute MachineOwns
execute-MachineOwns x b (call c k) w h =
    settle-MachineOwns (start_call x c w) b k w h (start_call-WorldOwns x c w h)
execute-MachineOwns x main_stack finish w (h, on) = (OwnsWith-nil _ w h, on)
execute-MachineOwns x main_stack (uncaught t) w h =
    let (owns, on) = report-WorldOwns t w h in
    uncaught_cases MachineOwns x t w (OwnsWith-nil _ (report t w) owns, on)
      (OwnsWith-nil _ w h.0, h.1)
execute-MachineOwns x (fiber_stack self) finish w h = end_fiber-MachineOwns self w h
execute-MachineOwns x (fiber_stack self) (uncaught t) w h =
    end_fiber-MachineOwns self (report t w) (report-WorldOwns t w h)

enter-MachineOwns : (w : World) → WorldOwns w → MachineOwns (enter w)
unfolding enter MachineOwns
enter-MachineOwns w (h, on) = elim (Option-cases (w.fibers w.current_fiber)) [
  | inl absent ↦ rw (absent, enter) (stopped-MachineOwns _ w h on)
  | inr (r, at) ↦ rw (at, enter) (h, on)
]

-- `delete context` of the context that was resumed.
delete_context-OwnsWith :
    (c : ℕ) (rest : List ℕ) (w : World) → OwnsWith (c ∷ rest) w → OwnsWith rest (delete_context c w)
unfolding delete_context pending_at waiting count
delete_context-OwnsWith c rest w h =
    Owns-less (λ d. count d (c ∷ rest)) (λ d. count d rest) w (delete_context c w) (omega arith)
      (λ d lt g. let o = h.once d in ground arith)
      (λ o d lt e. let z = h.reads_free o d e in ground arith) (λ d. omega arith) (λ o d e. e) h

continue-MachineOwns :
    (c : Context) (w : World)
    → OwnsWith (local_queue (continuing c) w) w
    → OnMain w
    → MachineOwns (continue c w)
unfolding continue MachineOwns delete_context
continue-MachineOwns entry w h on = enter-MachineOwns w (h, on)
continue-MachineOwns (in_yield b c k) w h on =
    settle-MachineOwns (after_yield c w) b k w (h, on)
      (Leaves-WorldOwns w (after_yield c w) (h, on) (after_yield-Keeps c w))
continue-MachineOwns (in_run b f k) w h on = elim (Option-cases (after_resume f w)) [
  | inl absent ↦ rw (absent, continue) (stopped-MachineOwns _ w h on)
  | inr (v, e) ↦ rw (e, continue) (after_resume-WorldOwns f w v e (h, on))
]
continue-MachineOwns (in_drain f c rest) w h on = elim (Option-cases (after_resume f w)) [
  | inl absent ↦ rw (absent, continue) (stopped-MachineOwns _ w h on)
  | inr (v, e) ↦
      rw (e, continue)
        (
          delete_context-OwnsWith c rest v (after_resume-OwnsWith f (c ∷ rest) w v e h),
          after_resume-OnMain f w v e on,
        )
]

module _ (x : External) where
  resume_next-MachineOwns :
      (c : ℕ) (rest : List ℕ) (w : World)
      → OwnsWith (c ∷ rest) w
      → OnMain w
      → MachineOwns (resume_next x c rest w)
  unfolding resume_next
  resume_next-MachineOwns c rest w h on = elim (Option-cases (w.contexts c)) [
    | inl absent ↦ rw (absent, resume_next) (stopped-MachineOwns _ w h on)
    | inr (a, at) ↦ elim (Option-cases (create_result_value x a w)) [
      | inl invalid ↦ rw (at, resume_next, invalid) (stopped-MachineOwns _ w h on)
      | inr ((v, u), e) ↦
          let kept : Keeps w u =
            subst (λ o. Keeps w (left_by w o)) e (create_result_value-Keeps x a w) in
          rw (at, resume_next, e)
            (resume-MachineOwns a.fiber (in_drain a.fiber c rest) _
              (set_fiber-OwnsWith a.fiber (λ r. record r { resume_value = some v }) (c ∷ rest) u
                (kept.owns _ h))
              (set_fiber-OnMain a.fiber (λ r. record r { resume_value = some v }) u (λ r. refl)
                (Keeps-OnMain w u kept on)))
    ]
  ]

  step_from-MachineOwns :
      (c : Control) (w : World)
      → OwnsWith (local_queue c w) w
      → OnMain w
      → MachineOwns (step_from x c w)
  unfolding step_from MachineOwns
  step_from-MachineOwns idle w h on = (h, on)
  step_from-MachineOwns (executing b s) w h on = execute-MachineOwns x b s w (h, on)
  step_from-MachineOwns (continuing c) w h on = continue-MachineOwns c w h on
  step_from-MachineOwns (draining []) w h on = (h, on)
  step_from-MachineOwns (draining (c ∷ rest)) w h on = resume_next-MachineOwns c rest w h on
  step_from-MachineOwns (in_tls b ssl l k) w h on =
      settle-MachineOwns (tls_round x ssl l w) b k w (h, on)
        (Leaves-WorldOwns w (tls_round x ssl l w) (h, on) (tls_round-Keeps x ssl l w))
  step_from-MachineOwns aborted w h on = (h, on)
  step_from-MachineOwns (exited code) w h on = (h, on)

  -- Any step of the process.
  pub step-MachineOwns : (m : Machine) → MachineOwns m → MachineOwns (step x m)
  unfolding step MachineOwns
  step-MachineOwns m (h, on) = step_from-MachineOwns m.control m.world h on
