-- ===== src/Fibers.antt =====
-- fiber.cpp on POSIX: `Fiber::init`, the constructors and the primitives on fibers. The switches of
-- control are in the module `Machine`.
use mathlib.Core.Option
use runtime_system.Base.{ℕ, ◌+◌, ◌-◌, ◌%◌, ◌^◌, ℤ, pos, negsuc, [], Option, none, some, update}
use runtime_system.Value.{fiber}
use runtime_system.State.{World, new, running, Script, finish, entry, Kind, Operation, sleep_done}
use runtime_system.State.Memory.{fill_context, close_member, queue_fiber_to_resume}
use runtime_system.External.{External}
use runtime_system.Primitive.{Outcome, resumes, give, start}

-- `new Fiber(isolate)`, for the main fiber: the address.
abbrev new_main : World → ℕ × World
new_main w =
    let f = w.next_fiber in
    (
      f,
      record w {
        fibers = update w.fibers f (
            some (record { status = running; func = finish; resume_value = none; context = none }));
        next_fiber = f + 1;
        current_fiber = f;
      },
    )

-- `Fiber::init`.
unfoldable pub init : World → World
init w = let (f, w') = new_main w in record w' { main_fiber = f }

-- `new Fiber(isolate, func)`: the address.
unfoldable pub new_fiber : Script → World → ℕ × World
new_fiber func w =
    let f = w.next_fiber in
    (
      f,
      record w {
        fibers = update w.fibers f (
            some (record { status = new; func = func; resume_value = none; context = some entry }));
        next_fiber = f + 1;
      },
    )

-- `Fiber_Run`, up to the switch in `Fiber::resume(f)`.
unfoldable pub fiber_run : Script → World → Outcome
unfolding new_fiber
fiber_run func w = let (f, w') = new_fiber func w in resumes f w'

-- `Fiber_Current`: the `js_object` of the current fiber.
unfoldable pub fiber_current : World → Outcome
fiber_current w = give (fiber w.current_fiber) w

-- The conversion of an `int64_t` to the `uint64_t` that `uv_timer_start` takes.
unfoldable pub to_uint64 : ℤ → ℕ
to_uint64 (pos n) = n % 2 ^ 64
to_uint64 (negsuc n) = 2 ^ 64 - 1 - n % 2 ^ 64

-- `Fiber_Sleep`, up to its `Fiber::yield()`.
unfoldable pub fiber_sleep : External → (ms : ℤ) → World → Outcome
unfolding to_uint64
fiber_sleep x ms w = start x Kind.sleep (Operation.timer (to_uint64 ms)) sleep_done [] w

-- `OnSleepTimer`, which closes the `uv_timer_t` of its context.
unfoldable pub on_sleep_timer : ℕ → World → Option World
unfolding close_member
on_sleep_timer c w =
    Option.map (λ v. close_member c (queue_fiber_to_resume c v)) (fill_context c (pos 0) (λ k. k) w)
