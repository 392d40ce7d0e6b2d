-- ===== src/Machine/Windows/Agreement.antt =====
-- Where the two implementations of fiber.cpp do the same.

use runtime_system.Base.{ℕ, ◌≡◌, ◌≢◌, Option, none, some, arith}
use runtime_system.State.{World, Fiber, Context}
use runtime_system.Machine.Switch
use runtime_system.Machine.Switch.{Control, continuing, aborted}
use runtime_system.Machine.Windows.{Thread, OsContext, stack, goes_on, yield, resume}

abbrev pub context_of : Option OsContext → Option Context
context_of (some (stack c)) = some c
context_of _ = none

-- The fibers with the contexts that the operating system keeps for them.
abbrev pub fibers_of : Thread → ℕ → Option Fiber
fibers_of t f = elim (t.world.fibers f) [
  | none ↦ none
  | some r ↦ some (record r { context = context_of (t.contexts f) })
]

-- The same state as the other implementation has it.
abbrev pub posix_of : Thread → World
posix_of t = record (t.world) { fibers = fibers_of t }

-- The two have the same fibers, with the same contexts, the same one is current, and control goes to
-- the same context.
pub record Agrees (m : Switch.Machine) (t : Thread) : Type 0 where
  pub fibers : (f : ℕ) → m.world.fibers f ≡ fibers_of t f
  pub current : m.world.current_fiber ≡ t.world.current_fiber
  pub control : (c : Context) × (m.control ≡ continuing c) × (t.activity ≡ goes_on c)

module _ (f : ℕ) (saved c : Context) (r m : Fiber) (t : Thread)
    (main : t.active ≡ t.world.main_fiber) (ne : f ≢ t.world.main_fiber)
    (at : t.world.fibers f ≡ some r) (main_at : t.world.fibers t.world.main_fiber ≡ some m)
    (ready : t.contexts f ≡ some (stack c)) where
  resume-fibers_of :
      (g : ℕ) → (Switch.resume f saved (posix_of t)).world.fibers g ≡ fibers_of (resume f saved t) g
  unfolding Switch.resume resume
  resume-fibers_of g = ground arith

  resume-control :
      ((Switch.resume f saved (posix_of t)).control ≡ continuing c)
      × ((resume f saved t).activity ≡ goes_on c)
  unfolding Switch.resume resume
  resume-control = ground arith

  resume-current :
      (Switch.resume f saved (posix_of t)).world.current_fiber
      ≡ (resume f saved t).world.current_fiber
  unfolding Switch.resume resume
  resume-current = ground arith

module _ (f : ℕ) (saved c : Context) (r m : Fiber) (t : Thread) (here : t.active ≡ f)
    (cur : t.world.current_fiber ≡ f) (ne : f ≢ t.world.main_fiber) (at : t.world.fibers f ≡ some r)
    (main_at : t.world.fibers t.world.main_fiber ≡ some m)
    (ready : t.contexts t.world.main_fiber ≡ some (stack c)) where
  yield-fibers_of :
      (g : ℕ)
      → (Switch.yield saved (posix_of t)).world.fibers g ≡ fibers_of (yield (stack saved) t) g
  unfolding Switch.yield yield
  yield-fibers_of g = ground arith

  yield-control :
      ((Switch.yield saved (posix_of t)).control ≡ continuing c)
      × ((yield (stack saved) t).activity ≡ goes_on c)
  unfolding Switch.yield yield
  yield-control = ground arith

  yield-current :
      (Switch.yield saved (posix_of t)).world.current_fiber
      ≡ (yield (stack saved) t).world.current_fiber
  unfolding Switch.yield yield
  yield-current = ground arith

-- While the thread runs the main fiber, `Fiber::resume` of a fiber that is not the main one, and
-- whose operating system's fiber goes on with a stack when it is switched to (it has not ended),
-- does the same on Windows and on POSIX.
pub resume-Agrees :
    (f : ℕ) (saved c : Context) (r m : Fiber) (t : Thread)
    → t.active ≡ t.world.main_fiber
    → f ≢ t.world.main_fiber
    → t.world.fibers f ≡ some r
    → t.world.fibers t.world.main_fiber ≡ some m
    → t.contexts f ≡ some (stack c)
    → Agrees (Switch.resume f saved (posix_of t)) (resume f saved t)
resume-Agrees f saved c r m t main ne at main_at ready = record {
  fibers = resume-fibers_of f saved c r m t main ne at main_at ready;
  current = resume-current f saved c r m t main ne at main_at ready;
  control = let (a, b) = resume-control f saved c r m t main ne at main_at ready in (c, a, b);
}

-- While the thread runs the current fiber and that is not the main one, `Fiber::yield` does the same
-- on both platforms.
pub yield-Agrees :
    (f : ℕ) (saved c : Context) (r m : Fiber) (t : Thread)
    → t.active ≡ f
    → t.world.current_fiber ≡ f
    → f ≢ t.world.main_fiber
    → t.world.fibers f ≡ some r
    → t.world.fibers t.world.main_fiber ≡ some m
    → t.contexts t.world.main_fiber ≡ some (stack c)
    → Agrees (Switch.yield saved (posix_of t)) (yield (stack saved) t)
yield-Agrees f saved c r m t here cur ne at main_at ready = record {
  fibers = yield-fibers_of f saved c r m t here cur ne at main_at ready;
  current = yield-current f saved c r m t here cur ne at main_at ready;
  control = let (a, b) = yield-control f saved c r m t here cur ne at main_at ready in (c, a, b);
}
