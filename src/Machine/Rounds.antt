-- ===== src/Machine/Rounds.antt =====
-- The loop of `OnFibersToResume`: a round ends when the fiber that it resumed gives up control.
use runtime_system.Base.{
  ℕ, ◌≡◌, refl, sym, subst, update, ◌≢◌, List, ◌++◌, Option, none, some, arith,
}
use runtime_system.Value.{TryCatch}
use runtime_system.State.{
  World, Fiber, suspended, done, finish, uncaught, Context, fiber_stack, in_drain,
}
use runtime_system.State.Memory.{delete_context, owned_result}
use runtime_system.External.{External}
use runtime_system.Machine.Switch.{
  Machine, machine, executing, continuing, draining, yield, after_resume, switch_to, set_fiber,
}
use runtime_system.Machine.Steps.{steps, step, execute, continue}

-- `OnFibersToResume` has resumed `f` for the context `c`, and `rest` is what it still has to do.
pub record IsDraining (f c : ℕ) (rest : List ℕ) (r : Fiber) (w : World) : Type 0 where
  pub apart : f ≢ w.main_fiber
  pub main : (m : Fiber) × (w.fibers w.main_fiber ≡ some m) × (m.context ≡ some (in_drain f c rest))
  pub current : w.current_fiber ≡ f
  pub resumed : w.fibers f ≡ some r

after_resume-suspended :
    (f : ℕ) (q : Fiber) (u : World)
    → u.fibers f ≡ some q
    → q.status ≡ suspended
    → after_resume f u ≡ some u
unfolding after_resume
after_resume-suspended f q u at s = ground arith

after_resume-done :
    (f : ℕ) (q : Fiber) (u : World)
    → u.fibers f ≡ some q
    → q.status ≡ done
    → after_resume f u
      ≡ some (record u { fibers = update u.fibers f none; current_fiber = u.main_fiber })
unfolding after_resume
after_resume-done f q u at s = ground arith

-- Control comes back to the loop: the context is deleted.
step-in_drain :
    (x : External) (f c : ℕ) (rest : List ℕ) (n : Machine) (u : World)
    → n.control ≡ continuing (in_drain f c rest)
    → after_resume f n.world ≡ some u
    → step x n ≡ machine (delete_context c u) (draining rest)
unfolding step continue
step-in_drain x f c rest n u e a = ground arith

delete_context_self : (c : ℕ) (u : World) → (delete_context c u).contexts c ≡ none
unfolding delete_context
delete_context_self c u = ground arith

delete_context-fibers : (c : ℕ) (u : World) → (delete_context c u).fibers ≡ u.fibers
unfolding delete_context
delete_context-fibers c u = refl

delete_context-freed :
    (c : ℕ) (w u : World)
    → (u.contexts ≡ w.contexts) × (u.freed ≡ w.freed)
    → (delete_context c u).freed ≡ owned_result c (w.contexts c) ++ w.freed
unfolding delete_context
delete_context-freed c w u (contexts, freed) = λ i. owned_result c (contexts i c) ++ freed i

-- The loop is at its head again with the rest of its queue, the context is deleted and what it owned
-- in `w` is freed, and `f` is `q`.
abbrev pub IsNext : World → (f c : ℕ) (rest : List ℕ) (q : Option Fiber) → Machine → Type 0
IsNext w f c rest q n =
    (n.control ≡ draining rest)
    × (n.world.contexts c ≡ none)
    × (n.world.freed ≡ owned_result c (w.contexts c) ++ w.freed)
    × (n.world.fibers f ≡ q)

delete_context-IsNext :
    (f c : ℕ) (rest : List ℕ) (q : Option Fiber) (w u : World) (n : Machine)
    → n ≡ machine (delete_context c u) (draining rest)
    → (u.contexts ≡ w.contexts) × (u.freed ≡ w.freed)
    → u.fibers f ≡ q
    → IsNext w f c rest q n
delete_context-IsNext f c rest q w u n e kept at = subst (IsNext w f c rest q) (sym e) (
  refl,
  delete_context_self c u,
  delete_context-freed c w u kept,
  rw (delete_context-fibers c u) at,
)

module _ (x : External) (f c : ℕ) (rest : List ℕ) (r : Fiber) (w : World)
    (h : IsDraining f c rest r w) where
  yield-drain :
      (saved : Context)
      → ((yield saved w).control ≡ continuing (in_drain f c rest))
        × ((yield saved w).world.fibers f
            ≡ some (record r { status = suspended; context = some saved }))
  unfolding yield
  yield-drain saved = let (m, at, is) = h.main in ground (arith, h.apart, h.current, h.resumed)

  yield-memory :
      (saved : Context)
      → ((yield saved w).world.contexts ≡ w.contexts) × ((yield saved w).world.freed ≡ w.freed)
  unfolding yield
  yield-memory saved = ground arith

  finish-memory :
      ((execute x (fiber_stack f) finish w).world.contexts ≡ w.contexts)
      × ((execute x (fiber_stack f) finish w).world.freed ≡ w.freed)
  unfolding execute switch_to set_fiber
  finish-memory = ground arith

  finish-drain :
      ((execute x (fiber_stack f) finish w).control ≡ continuing (in_drain f c rest))
      × ((execute x (fiber_stack f) finish w).world.fibers f ≡ some (record r { status = done }))
  unfolding execute switch_to set_fiber
  finish-drain = let (m, at, is) = h.main in ground (arith, h.apart, h.current, h.resumed)

module _ (x : External) (f c : ℕ) (rest : List ℕ) (r : Fiber) (t : TryCatch) (w : World)
    (h : IsDraining f c rest r w) where
  -- The process after the exception.
  abbrev thrown : Machine
  thrown = execute x (fiber_stack f) (uncaught t) w

-- Suppose that the fiber that `OnFibersToResume` resumed for a context is the current one and not
-- the main one, and that the context saved for the main fiber still leads back to the loop (a
-- fiber that has run another one since does not meet this). When this fiber waits again or ends,
-- the loop goes on with the rest of its queue, the context is deleted and what it owns is freed,
-- once, and the fiber is suspended where it waits or deleted.
pub drain_goes_on :
    (x : External) (f c : ℕ) (rest : List ℕ) (r : Fiber) (saved : Context) (w : World)
    → IsDraining f c rest r w
    → IsNext w f c rest
        (some (record r { status = suspended; context = some saved }))
        (step x (yield saved w))
      × IsNext w f c rest none (steps x 2 (machine w (executing (fiber_stack f) finish)))
unfolding steps
drain_goes_on x f c rest r saved w h =
    let (yields, waiting) = yield-drain x f c rest r w h saved in
    let (ends, ended) = finish-drain x f c rest r w h in
    (
      delete_context-IsNext f c rest _ w (yield saved w).world _
          (step-in_drain x f c rest _ _ yields
            (after_resume-suspended f _ (yield saved w).world waiting refl))
          (yield-memory x f c rest r w h saved) waiting,
      delete_context-IsNext f c rest _ w _ _
          (step-in_drain x f c rest _ _ ends (after_resume-done f _ _ ended refl))
          (finish-memory x f c rest r w h) (ground arith),
    )
