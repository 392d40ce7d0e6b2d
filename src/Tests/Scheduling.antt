-- ===== src/Tests/Scheduling.antt =====
-- Fibers.
use runtime_system.Base.{
  ◌==◌, if◌then◌else◌, ◌≡◌, refl, [], ◌∷◌, none, some, arith, pos, update, true,
}
use runtime_system.Value.{scalar, integer, TryCatch}
use runtime_system.State.{
  World, Context, entry, in_yield, in_run, in_drain, fiber_stack, give_result, on_context, finish,
  Kind, AsyncContext, Call, running,
}
use runtime_system.Async.{create_result_value, success}
use runtime_system.Machine.{machine, executing, draining, yield, resume, step, steps, start_call}
use runtime_system.Machine.Delivery.{deliver_result}
use runtime_system.Machine.Rounds.{IsDraining, IsNext, drain_goes_on}
use runtime_system.Machine.Frame.{Leaves}
use runtime_system.Machine.Frame.Start.{start_call-Keeps}
use runtime_system.Machine.Nesting.{nested_run}
use runtime_system.State.Memory.Frame.{Keeps}
use runtime_system.Tests.{answers, started, main_in, waiting_in}

-- Where a fiber is that waits for the context 5.
abbrev pub in_wait : Context
in_wait =
    in_yield (fiber_stack 1) (give_result (record { target = on_context 5; held = [] }))
      (λ r. finish)

-- A poll that has ended with the events 1, for the fiber 1.
abbrev polled : AsyncContext
polled = record { fiber = 1; result = pos 1; kind = Kind.poll }

-- The fiber 1 waits for that poll, whose context is 5.
abbrev pub one_waits : World
one_waits = record (started entry) {
  fibers =
      update (λ f. if f == 0 then some (main_in entry) else none) 1 (some (waiting_in in_wait));
  contexts = update (λ c. none) 5 (some polled);
}

deliver_result_example :
    ((steps answers 2 (machine one_waits (draining (5 ∷ 6 ∷ [])))).control
      ≡ executing (fiber_stack 1) finish)
    × ((steps answers 2 (machine one_waits (draining (5 ∷ 6 ∷ [])))).world.current_fiber ≡ 1)
unfolding create_result_value success
deliver_result_example =
    deliver_result answers 5 (6 ∷ []) polled (scalar (integer (pos 1))) one_waits one_waits
      (waiting_in in_wait) (fiber_stack 1) (record { target = on_context 5; held = [] })
      (λ r. finish) refl refl refl refl (ground arith)

-- A lookup that was answered, for the fiber 1.
abbrev answered : AsyncContext
answered = record { fiber = 1; result = pos 0; kind = Kind.dns "localhost" ("127.0.0.1" ∷ []) true }

-- The fiber 1 runs for the context 5, and the context 6 is still to come.
abbrev pub one_runs : World
one_runs = record (started (in_drain 1 5 (6 ∷ []))) {
  contexts = update (λ c. none) 5 (some answered);
  fibers =
      update (λ f. if f == 0 then some (main_in (in_drain 1 5 (6 ∷ []))) else none) 1
        (some (record (waiting_in in_wait) { status = running }));
  current_fiber = 1;
}

pub one_runs-IsDraining :
    IsDraining 1 5 (6 ∷ []) (record (waiting_in in_wait) { status = running }) one_runs
one_runs-IsDraining = record {
  apart = ground arith;
  main = (main_in (in_drain 1 5 (6 ∷ [])), refl, refl);
  current = refl;
  resumed = refl;
}

drain_goes_on_example :
    IsNext one_runs 1 5 (6 ∷ []) (some (waiting_in in_wait)) (step answers (yield in_wait one_runs))
    × IsNext one_runs 1 5
        (6 ∷ [])
        none
        (steps answers 2 (machine one_runs (executing (fiber_stack 1) finish)))
drain_goes_on_example =
    drain_goes_on answers 1 5 (6 ∷ []) (record (waiting_in in_wait) { status = running }) in_wait
      one_runs one_runs-IsDraining

-- What a script throws.
abbrev an_error : TryCatch
an_error = record { exception = "Error"; location = none; stack_trace = none }

start_call-Keeps_example :
    Leaves (Keeps one_runs) (start_call answers (Call.fiber_sleep (pos 10)) one_runs)
start_call-Keeps_example = start_call-Keeps answers (Call.fiber_sleep (pos 10)) one_runs tt

-- The fiber 1 runs, and has made the fiber 2.
abbrev two_made : World
two_made = record one_runs {
  fibers = update one_runs.fibers 2 (some (waiting_in entry));
  next_fiber = 3;
}

nested_run_example :
    let two_starts = resume 2 (in_run (fiber_stack 1) 2 (λ r. finish)) two_made in
    ((step answers (yield in_wait two_starts.world)).control ≡ executing (fiber_stack 1) finish)
    × ((step answers (yield in_wait two_starts.world)).world.current_fiber ≡ 0)
unfolding resume
nested_run_example =
    nested_run answers (fiber_stack 1) (λ r. finish) 2 in_wait two_made
      (resume 2 (in_run (fiber_stack 1) 2 (λ r. finish)) two_made).world
      (main_in (in_drain 1 5 (6 ∷ []))) (waiting_in entry) (ground arith) refl refl refl refl refl
