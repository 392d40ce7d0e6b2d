-- ===== src/Tests/Contexts.antt =====
-- The `AsyncContext`s of a process.

use runtime_system.Base.{◌≡◌, refl, [], ◌∷◌, arith, pos}
use runtime_system.State.{World, Script, Call, call, finish, fiber_stack, running, Operation}
use runtime_system.State.Memory.{fill_context, queue_fiber_to_resume, release_all, delete_context}
use runtime_system.State.Memory.Owned.{count}
use runtime_system.Loader.Entry.{Engine, linked, load_module, load_and_run_modules}
use runtime_system.Machine.{
  completed, after_yield, resume, after_resume, Machine, machine, executing, yield, step, steps,
  idle, aborted, timer_fired, handle_closed, callback, Offers, deliver, swap_queue, start_call,
}
use runtime_system.Machine.Rounds.{IsDraining}
use runtime_system.Handles.{get, find}
use runtime_system.Machine.Classes.{fits, start_call-throw}
use runtime_system.Machine.Closing.{ClosesDeleted, closes_deleted}
use runtime_system.Machine.Places.{OwnsWith, local_queue}
use runtime_system.Machine.Places.Requests.{Finishes}
use runtime_system.Fibers.{fiber_sleep, on_sleep_timer}
use runtime_system.Primitive
use runtime_system.Primitive.{throw}
use runtime_system.Async.{create_result_value, success}
use runtime_system.Shutdown.{boot}
use runtime_system.Process.{
  Process, serving, start, launch, initial_world, Reach, here, next, works, gets, wakes,
}
use runtime_system.Process.Places.{start-Owns, start-Finishes}
use runtime_system.Tests.{answers, waiting_in}
use runtime_system.Tests.Modules.{files}
use runtime_system.Tests.Process.{only_handle}
use runtime_system.Tests.Files.{one_file}
use runtime_system.Tests.Scheduling.{one_runs, one_runs-IsDraining, in_wait}

-- An entry module that sleeps.
abbrev sleeps : Script
sleeps = call (Call.fiber_sleep (pos 10)) (λ r. finish)

abbrev sleeper : Engine
sleeper = record { instantiate = λ resolve m s. linked s; script_of = λ m. sleeps }

abbrev sleeping : Process
sleeping = start files sleeper "runtime" ("main.mjs" ∷ [])

-- It has run to its end, and `main` waits in `uv_run`; the timer fires; `OnFibersToResume` begins.
abbrev waits : Machine
waits = steps answers 3 (boot sleeps initial_world)

abbrev fired : Machine
fired = deliver (timer_fired 0) waits.world

abbrev begins : Machine
begins = swap_queue fired.world

-- It has deleted the context, and `main` waits again.
abbrev emptied : Machine
emptied = steps answers 3 begins

waits-Reach : Reach answers only_handle sleeping (serving waits)
unfolding start launch load_and_run_modules load_module steps
waits-Reach =
    next
      (next (next here (works (boot sleeps initial_world)))
        (works (steps answers 1 (boot sleeps initial_world))))
      (works (steps answers 2 (boot sleeps initial_world)))

waits-idle : waits.control ≡ idle
unfolding steps boot start_call fiber_sleep Primitive.start yield after_yield
waits-idle = refl

fires : Offers (timer_fired 0) waits.world
unfolding Offers steps boot start_call fiber_sleep Primitive.start yield after_yield release_all
fires = (Operation.timer 10, refl, refl)

begins-Reach : Reach answers only_handle sleeping (serving begins)
unfolding Offers deliver callback on_sleep_timer fill_context completed steps boot start_call
    fiber_sleep Primitive.start yield after_yield release_all
begins-Reach =
    next (next waits-Reach (gets (timer_fired 0) waits waits-idle fires)) (wakes fired refl)

start-Owns_example : OwnsWith (local_queue begins.control begins.world) begins.world
start-Owns_example =
    start-Owns answers only_handle files sleeper "runtime" ("main.mjs" ∷ []) begins begins-Reach

start-Finishes_example : Finishes 0 waits.world (callback (timer_fired 0) waits.world)
start-Finishes_example =
    start-Finishes answers only_handle files sleeper "runtime" ("main.mjs" ∷ []) waits waits-Reach
      (timer_fired 0) 0 waits-idle fires refl tt

-- The context of the fiber 1 has a handle that libuv still has to close.
abbrev one_closes : World
one_closes = record one_runs { closing_handles = 5 ∷ [] }

one_closes-IsDraining :
    IsDraining 1 5 (6 ∷ []) (record (waiting_in in_wait) { status = running }) one_closes
one_closes-IsDraining =
    let h = one_runs-IsDraining in
    record { apart = h.apart; main = h.main; current = h.current; resumed = h.resumed }

closes_deleted_example :
    ClosesDeleted 5 (step answers (yield in_wait one_closes))
    × ClosesDeleted 5 (steps answers 2 (machine one_closes (executing (fiber_stack 1) finish)))
unfolding Offers count
closes_deleted_example =
    closes_deleted answers 1 5 (6 ∷ []) (record (waiting_in in_wait) { status = running }) in_wait
      one_closes one_closes-IsDraining (omega arith)

-- The module that sleeps ends in a use of the deleted context.
sleeping_aborts :
    ((steps answers 3 begins).control ≡ idle)
    × Offers (handle_closed 0) (steps answers 3 begins).world
    × ((deliver (handle_closed 0) (steps answers 3 begins).world).control ≡ aborted)
unfolding Offers deliver callback on_sleep_timer fill_context completed steps boot start_call
    fiber_sleep Primitive.start yield after_yield release_all swap_queue queue_fiber_to_resume count
    create_result_value success resume after_resume delete_context
sleeping_aborts = (refl, omega arith, refl)

-- The id 1 names a file, which is no socket.
start_call-throw_example :
    start_call answers (Call.tcp_close 1) one_file ≡ throw "Invalid socket handle" one_file
unfolding fits get find
start_call-throw_example = start_call-throw answers (Call.tcp_close 1) one_file refl
