-- ===== src/Machine/Uncaught.antt =====
-- An exception of the entry module.
use runtime_system.Base.{Bool-cases, inl, inr}
use runtime_system.Value.{TryCatch}
use runtime_system.State.{World, main_stack, uncaught}
use runtime_system.External.{External}
use runtime_system.Machine.Switch.{Machine, machine, idle, exited}
use runtime_system.Machine.Steps.{execute, evaluated, report}

-- What holds behind the report, and of a process that goes on, holds in both cases.
pub uncaught_cases :
    (P : Machine → Type 0) (x : External) (t : TryCatch) (w : World)
    → P (machine (report t w) (exited 1))
    → P (machine w idle)
    → P (execute x main_stack (uncaught t) w)
unfolding execute evaluated
uncaught_cases P x t w r i = elim (Bool-cases (x.evaluate_is_empty t)) [
  | inl e ↦ rw (e, execute, evaluated) r
  | inr e ↦ rw (e, execute, evaluated) i
]
