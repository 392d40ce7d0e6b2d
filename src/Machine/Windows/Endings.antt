-- ===== src/Machine/Windows/Endings.antt =====
-- What becomes of fibers that end, and of fibers that run others.
use runtime_system.Base.{ℕ, ◌≡◌, refl, ◌≢◌, ◌∙◌, ap, Option, some, arith}
use runtime_system.State.{Fiber, running, suspended, Context}
use runtime_system.Machine.Windows.{
  Thread, OsContext, stack, entry_end, goes_on, thread_exit, yield, resume, after_resume, end_fiber,
}

-- The fiber `f` runs, and was resumed by the main one, which goes on as `c`.
pub record IsRunning (f : ℕ) (c : Context) (r : Fiber) (t : Thread) : Type 0 where
  pub apart : f ≢ t.world.main_fiber
  pub active : t.active ≡ f
  pub current : t.world.current_fiber ≡ f
  pub fiber : t.world.fibers f ≡ some r
  pub main : t.contexts t.world.main_fiber ≡ some (stack c)

module _ (f : ℕ) (c : Context) (r : Fiber) (t : Thread) (h : IsRunning f c r t) where
  end_fiber-goes_on : (end_fiber f t).activity ≡ goes_on c
  unfolding end_fiber
  end_fiber-goes_on = ground (arith, h.apart, h.active, h.current, h.fiber, h.main)

  end_fiber-fibers : (end_fiber f t).world.fibers f ≡ some (record r { status = suspended })
  unfolding end_fiber
  end_fiber-fibers = ground (arith, h.apart, h.active, h.current, h.fiber, h.main)

  end_fiber-contexts : (end_fiber f t).contexts f ≡ some entry_end
  unfolding end_fiber
  end_fiber-contexts = ground (arith, h.apart, h.active, h.current, h.fiber, h.main)

  apart_active : f ≢ (end_fiber f t).active
  unfolding end_fiber
  apart_active = ground (arith, h.apart, h.active, h.current, h.fiber, h.main)

after_resume-suspended :
    (f : ℕ) (r : Fiber) (t : Thread)
    → t.world.fibers f ≡ some r
    → r.status ≡ suspended
    → after_resume f t ≡ some t
unfolding after_resume
after_resume-suspended f r t at s = ground arith

resume-entry_end :
    (f : ℕ) (saved : Context) (t : Thread)
    → f ≢ t.active
    → t.contexts f ≡ some entry_end
    → (resume f saved t).activity ≡ thread_exit
unfolding resume
resume-entry_end f saved t ne at = ground arith

-- A fiber that ends gives control back to the main fiber, but `yield()` has overwritten DONE, so
-- that `Fiber::resume` does not delete it: it stays, suspended, and resuming it from another fiber
-- once more would end the thread.
pub end_fiber_kept :
    (f : ℕ) (c saved : Context) (r : Fiber) (t : Thread)
    → IsRunning f c r t
    → ((end_fiber f t).activity ≡ goes_on c)
      × (after_resume f (end_fiber f t) ≡ some (end_fiber f t))
      × ((end_fiber f t).world.fibers f ≡ some (record r { status = suspended }))
      × ((resume f saved (end_fiber f t)).activity ≡ thread_exit)
end_fiber_kept f c saved r t h =
    let kept = end_fiber-fibers f c r t h in
    (
      end_fiber-goes_on f c r t h,
      after_resume-suspended f _ (end_fiber f t) kept refl,
      kept,
      resume-entry_end f saved (end_fiber f t) (apart_active f c r t h)
          (end_fiber-contexts f c r t h),
    )

module _ (g f : ℕ) (c : Context) (s : Context) (rg rf : Fiber) (t : Thread) (h : IsRunning g c rg t)
    (ne : f ≢ g) (nm : f ≢ t.world.main_fiber) (at : t.world.fibers f ≡ some rf) where
  resume-inner :
      ((resume f s t).contexts g ≡ some (stack s))
      × ((resume f s t).contexts t.world.main_fiber ≡ some (stack c))
      × ((resume f s t).world.fibers g ≡ some rg)
      × ((resume f s t).world.fibers f ≡ some (record rf { status = running }))
  unfolding resume
  resume-inner = ground (arith, h.apart, h.active, h.current, h.fiber, h.main)

yield-inner :
    (g f : ℕ) (c s : Context) (saved : OsContext) (rg rf : Fiber) (u : Thread)
    → u.active ≡ f
    → u.world.current_fiber ≡ f
    → f ≢ g
    → g ≢ u.world.main_fiber
    → f ≢ u.world.main_fiber
    → u.contexts g ≡ some (stack s)
    → u.contexts u.world.main_fiber ≡ some (stack c)
    → u.world.fibers g ≡ some rg
    → u.world.fibers f ≡ some rf
    → ((yield saved u).activity ≡ goes_on c)
      × ((yield saved u).world.fibers g ≡ some rg)
      × ((yield saved u).contexts g ≡ some (stack s))
      × ((yield saved u).world.current_fiber ≡ u.world.main_fiber)
unfolding yield
yield-inner g f c s saved rg rf u a cu ne gm fm cg cm fg ff = ground arith

-- A fiber `g` runs another one, `f`, which then waits: control goes to the main fiber, not back to
-- `g`, which is left with the status RUNNING inside `Fiber_Run`. `u` is the state in the
-- `Fiber::yield()` of `f`.
pub nested_run_lost :
    (g f : ℕ) (c s : Context) (saved : OsContext) (rg rf : Fiber) (t u : Thread)
    → IsRunning g c rg t
    → rg.status ≡ running
    → f ≢ g
    → f ≢ t.world.main_fiber
    → t.world.fibers f ≡ some rf
    → u.contexts ≡ (resume f s t).contexts
    → u.world.fibers ≡ (resume f s t).world.fibers
    → u.world.main_fiber ≡ t.world.main_fiber
    → u.active ≡ f
    → u.world.current_fiber ≡ f
    → ((yield saved u).activity ≡ goes_on c)
      × ((yield saved u).world.fibers g ≡ some rg)
      × ((yield saved u).contexts g ≡ some (stack s))
      × ((yield saved u).world.current_fiber ≡ u.world.main_fiber)
nested_run_lost g f c s saved rg rf t u h st ne nm at ec ef em ea ecu =
    let (cg, cm, fg, ff) = resume-inner g f c s rg rf t h ne nm at in
    yield-inner g f c s saved rg _ u ea ecu ne (λ e. h.apart (e ∙ em)) (λ e. nm (e ∙ em))
      (ap (λ (k : ℕ → Option OsContext). k g) ec ∙ cg)
      (ap (λ (k : ℕ → Option OsContext). k u.world.main_fiber) ec
        ∙ ap (resume f s t).contexts em
        ∙ cm)
      (ap (λ (k : ℕ → Option Fiber). k g) ef ∙ fg) (ap (λ (k : ℕ → Option Fiber). k f) ef ∙ ff)
