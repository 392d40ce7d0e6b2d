-- ===== src/Tests/Windows.antt =====
-- Fibers under `_WIN32`.
use runtime_system.Base.{◌≡◌, refl, [], none, some, arith, update}
use runtime_system.State.{
  Fiber, Context, entry, in_run, in_drain, fiber_stack, finish, running, suspended,
}
use runtime_system.Machine
use runtime_system.Machine.Windows.{
  Thread, stack, goes_on, thread_exit, yield, resume, after_resume, end_fiber,
}
use runtime_system.Machine.Windows.Agreement.{Agrees, posix_of, resume-Agrees, yield-Agrees}
use runtime_system.Machine.Windows.Endings.{IsRunning, end_fiber_kept, nested_run_lost}
use runtime_system.Tests.{started, main_in, waiting_in}

abbrev runs : Fiber
runs = record (waiting_in entry) { status = running }

-- The loop of `OnFibersToResume`, which has resumed the fiber 1.
abbrev in_loop : Context
in_loop = in_drain 1 5 []

-- The main fiber 0 is in the loop, the fiber 1 runs, and has made the fiber 2.
abbrev one_active : Thread
one_active = record {
  world = record (started entry) {
    fibers = update (update (started entry).fibers 1 (some runs)) 2 (some (waiting_in entry));
    current_fiber = 1;
  };
  contexts = update (update (λ f. none) 0 (some (stack in_loop))) 2 (some (stack entry));
  active = 1;
  activity = goes_on entry;
}

one_active-IsRunning : IsRunning 1 in_loop runs one_active
one_active-IsRunning = record {
  apart = ground arith;
  active = refl;
  current = refl;
  fiber = refl;
  main = refl;
}

end_fiber_kept_example :
    ((end_fiber 1 one_active).activity ≡ goes_on in_loop)
    × (after_resume 1 (end_fiber 1 one_active) ≡ some (end_fiber 1 one_active))
    × ((end_fiber 1 one_active).world.fibers 1 ≡ some (record runs { status = suspended }))
    × ((resume 1 in_loop (end_fiber 1 one_active)).activity ≡ thread_exit)
end_fiber_kept_example = end_fiber_kept 1 in_loop in_loop runs one_active one_active-IsRunning

-- The fiber 1 is in `Fiber_Run`, which has resumed the fiber 2.
abbrev one_in_run : Context
one_in_run = in_run (fiber_stack 1) 2 (λ r. finish)

nested_run_lost_example :
    let two_runs = resume 2 one_in_run one_active in
    ((yield (stack entry) two_runs).activity ≡ goes_on in_loop)
    × ((yield (stack entry) two_runs).world.fibers 1 ≡ some runs)
    × ((yield (stack entry) two_runs).contexts 1 ≡ some (stack one_in_run))
    × ((yield (stack entry) two_runs).world.current_fiber ≡ 0)
unfolding resume
nested_run_lost_example =
    nested_run_lost 1 2 in_loop one_in_run (stack entry) runs (waiting_in entry) one_active
      (resume 2 one_in_run one_active) one_active-IsRunning refl (ground arith) (ground arith) refl
      refl refl refl refl refl

-- The main fiber runs.
abbrev main_active : Thread
main_active = record one_active {
  world = record (one_active.world) { current_fiber = 0 };
  active = 0;
}

resume-Agrees_example :
    Agrees (Machine.resume 2 in_loop (posix_of main_active)) (resume 2 in_loop main_active)
resume-Agrees_example =
    resume-Agrees 2 in_loop entry (waiting_in entry) (main_in entry) main_active refl (ground arith)
      refl refl refl

yield-Agrees_example :
    Agrees (Machine.yield entry (posix_of one_active)) (yield (stack entry) one_active)
yield-Agrees_example =
    yield-Agrees 1 entry in_loop runs (main_in entry) one_active refl refl (ground arith) refl refl
      refl
