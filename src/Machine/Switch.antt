-- ===== src/Machine/Switch.antt =====
-- fiber.cpp on POSIX: `Fiber::yield` and `Fiber::resume`.
use runtime_system.Base.{ℕ, List, Option, none, some, update}
use runtime_system.Value.{Reply}
use runtime_system.State.{World, Fiber, running, suspended, done, Script, Context, Base, TlsLoop}

-- What runs next.
pub data Control : Type 0 where
  -- `main` waits in `uv_run`
  idle : Control
  -- a script
  executing : Base → Script → Control
  -- the code behind a `swapcontext`, or the start of a fiber
  continuing : Context → Control
  -- the head of the loop of `OnFibersToResume`, with the local queue
  draining : List ℕ → Control
  -- the head of a loop of primitives_tls.cpp
  in_tls : Base → (ssl : ℕ) → TlsLoop → (Reply → Script) → Control
  -- the process has ended in a failed check or in a use of an invalid pointer
  aborted : Control
  -- the process has ended by `exit(code)`
  exited : (code : ℕ) → Control

pub record Machine : Type 0 where
  pub world : World
  pub control : Control

abbrev pub machine : World → Control → Machine
machine w c = record { world = w; control = c }

-- A write to a fiber.
unfoldable pub set_fiber : ℕ → (Fiber → Fiber) → World → World
set_fiber f change w = elim (w.fibers f) [
  | none ↦ w
  | some r ↦ record w { fibers = update w.fibers f (some (change r)) }
]

-- The half of `swapcontext` that takes up a context.
unfoldable pub switch_to : ℕ → World → Machine
switch_to f w = elim (w.fibers f) [
  | none ↦ machine w aborted
  | some r ↦ elim r.context [ none ↦ machine w aborted | some c ↦ machine w (continuing c) ]
]

-- `Fiber::yield()` on a stack that goes on as `saved`.
unfoldable pub yield : Context → World → Machine
unfolding set_fiber switch_to
yield saved w =
    switch_to w.main_fiber
      (record (set_fiber w.current_fiber
        (λ r. record r { status = suspended; context = some saved }) w) {
          current_fiber = w.main_fiber;
        })

-- `Fiber::resume(fiber)` on a stack that goes on as `saved`, up to the switch.
unfoldable pub resume : ℕ → Context → World → Machine
unfolding set_fiber switch_to
resume f saved w = elim (w.fibers f) [
  | none ↦ machine w aborted
  | some r ↦ switch_to f (
      set_fiber w.main_fiber (λ m. record m { context = some saved })
        (record (set_fiber f (λ q. record q { status = running }) w) { current_fiber = f }))
]

-- `delete fiber`.
abbrev delete_fiber : ℕ → World → World
delete_fiber f w = record w { fibers = update w.fibers f none }

-- The rest of `Fiber::resume(fiber)`: `none` is the use of a deleted fiber.
unfoldable pub after_resume : ℕ → World → Option World
after_resume f w = elim (w.fibers f) [
  | none ↦ none
  | some r ↦ elim r.status [
    | done ↦ some (record (delete_fiber f w) { current_fiber = w.main_fiber })
    | _ ↦ some w
  ]
]
