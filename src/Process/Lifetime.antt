-- ===== src/Process/Lifetime.antt =====
-- How the process ends.
use runtime_system.Base.{ℕ, Bool, true, false, ◌≡◌, ◌⊎◌, List, ◌++◌}
use runtime_system.State.{World, Base, main_stack, uncaught}
use runtime_system.External.{External}
use runtime_system.Value.{TryCatch, Line, report_exception}
use runtime_system.Machine.{machine, Control, idle, executing, exited}
use runtime_system.Shutdown.{dispose}
use runtime_system.Process.{Process, serving, closing, ended, Reach}

-- The process has called `exit`.
has_exited : Control → Bool
has_exited (exited code) = true
has_exited c = false

module _ (x : External) (alive : World → Bool → Bool) (p : Process) where
  -- `exit(1)` behind `Evaluate`: the entry module has thrown, and the exception was reported.
  abbrev Reported : (code : ℕ) (stderr : List Line) → Type 0
  Reported code ls =
      (t : TryCatch) × (w : World) × Reach x alive p
        (serving (machine w (executing main_stack (uncaught t))))
      × (x.evaluate_is_empty t ≡ true)
      × (code ≡ 1)
      × (ls ≡ w.stderr ++ report_exception t)

  -- `uv_run` has returned in the world, as nothing was alive though `resume_handle` was open.
  abbrev RunReturned : World → Type 0
  RunReturned w = Reach x alive p (serving (machine w idle)) × (alive w true ≡ false)

  -- The ends of the process: it never came to the evaluation of the entry module; or that module threw;
  -- or `uv_run` returned, and the handles were disposed of.
  unfoldable pub Ends : (code : ℕ) (stderr : List Line) → Type 0
  Ends code ls =
      ((p ≡ ended code ls) × (code ≡ 1))
      ⊎ (Reported code ls ⊎ ((w : World) × RunReturned w × (code ≡ 0) × (ls ≡ (dispose w).stderr)))

  -- If the process has called `exit`, then behind an exception of the entry module.
  ExitOk : Control → World → Type 0
  ExitOk (exited code) w = Reported code w.stderr
  ExitOk c w = Unit

  -- What holds of all that the process can come to.
  EndsOk : Process → Type 0
  EndsOk (serving m) = ExitOk m.control m.world
  EndsOk (closing w) = RunReturned w
  EndsOk (ended code ls) = Ends code ls
