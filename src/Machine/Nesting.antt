-- ===== src/Machine/Nesting.antt =====
-- `Fiber.run` inside a fiber, and waiting on the main stack: what `current_fiber_` and the context
-- of the main fiber are then.
use runtime_system.Base.{ℕ, ◌≡◌, refl, sym, ap, subst, ◌∙◌, ◌≢◌, Option, some, arith}
use runtime_system.Value.{Reply, returned, undefined}
use runtime_system.State.{World, Fiber, running, suspended, Script, Context, Base, in_run}
use runtime_system.External.{External}
use runtime_system.Machine.Switch.{Machine, executing, continuing, yield, resume, after_resume}
use runtime_system.Machine.Steps.{step, continue}

-- `Fiber::yield()` while `current_fiber_` is the main fiber gives up nothing: `swapcontext` saves
-- the context of the main fiber and takes up the same one.
yield-main :
    (saved : Context) (w : World) (m : Fiber)
    → w.fibers w.main_fiber ≡ some m
    → w.current_fiber ≡ w.main_fiber
    → ((yield saved w).control ≡ continuing saved)
      × ((yield saved w).world.current_fiber ≡ w.main_fiber)
unfolding yield
yield-main saved w m e c = ground arith

module _ (b : Base) (k : Reply → Script) (g : ℕ) (w : World) (m r : Fiber) (ne : g ≢ w.main_fiber)
    (em : w.fibers w.main_fiber ≡ some m) (eg : w.fibers g ≡ some r) where
  resume-main :
      (resume g (in_run b g k) w).world.fibers w.main_fiber
      ≡ some (record m { context = some (in_run b g k) })
  unfolding resume
  resume-main = ground arith

  resume_self : (resume g (in_run b g k) w).world.fibers g ≡ some (record r { status = running })
  unfolding resume
  resume_self = ground arith

-- A fiber gives up control: the context of the main fiber is taken up, and the fiber is suspended.
yield-context :
    (saved : Context) (w : World) (m r : Fiber) (c : Context)
    → w.current_fiber ≢ w.main_fiber
    → w.fibers w.main_fiber ≡ some m
    → m.context ≡ some c
    → w.fibers w.current_fiber ≡ some r
    → ((yield saved w).control ≡ continuing c)
      × ((yield saved w).world.fibers w.current_fiber
          ≡ some (record r { status = suspended; context = some saved }))
      × ((yield saved w).world.current_fiber ≡ w.main_fiber)
unfolding yield
yield-context saved w m r c ne em ec er = ground arith

-- Control comes back to `Fiber_Run` while the fiber that it started is suspended.
continue-in_run :
    (x : External) (b : Base) (k : Reply → Script) (g : ℕ) (n : Machine) (r : Fiber)
    → n.control ≡ continuing (in_run b g k)
    → n.world.fibers g ≡ some r
    → r.status ≡ suspended
    → step x n ≡ record { world = n.world; control = executing b (k (returned undefined)) }
unfolding step continue after_resume
continue-in_run x b k g n r e f s = ground arith

-- `Fiber.run` by a script, of a fiber that then waits: control comes back to that script, but
-- `current_fiber_` is the main fiber from then on, whichever fiber the script belongs to. `w` is
-- the state in `Fiber::resume`, and `w'` that in the `Fiber::yield()` of the new fiber.
pub nested_run :
    (x : External) (b : Base) (k : Reply → Script) (g : ℕ) (saved : Context) (w w' : World)
    (m r : Fiber)
    → g ≢ w.main_fiber
    → w.fibers w.main_fiber ≡ some m
    → w.fibers g ≡ some r
    → w'.fibers ≡ (resume g (in_run b g k) w).world.fibers
    → w'.main_fiber ≡ w.main_fiber
    → w'.current_fiber ≡ g
    → ((step x (yield saved w')).control ≡ executing b (k (returned undefined)))
      × ((step x (yield saved w')).world.current_fiber ≡ w.main_fiber)
nested_run x b k g saved w w' m r ne em eg ef e1 e2 =
    let old_main = resume-main b k g w m r ne em eg in
    let old_self = resume_self b k g w m r ne em eg in
    let at_main : w'.fibers w'.main_fiber ≡ some (record m { context = some (in_run b g k) }) =
      ap (λ (f : ℕ → Option Fiber). f w'.main_fiber) ef ∙ rw e1 old_main in
    let at_self : w'.fibers w'.current_fiber ≡ some (record r { status = running }) =
      ap (λ (f : ℕ → Option Fiber). f w'.current_fiber) ef ∙ rw e2 old_self in
    let (control, self, current) =
      yield-context saved w' _ _ (in_run b g k) (λ e. ne (sym e2 ∙ e ∙ e1)) at_main refl at_self in
    let s =
      continue-in_run x b k g (yield saved w') _ control
        (subst
          (λ j.
            (yield saved w').world.fibers j
            ≡ some (record r { status = suspended; context = some saved }))
          e2 self)
        refl in
    (
      ap (λ (n : Machine). n.control) s,
      ap (λ (n : Machine). n.world.current_fiber) s ∙ current ∙ e1,
    )
