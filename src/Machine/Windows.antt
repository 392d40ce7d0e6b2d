-- ===== src/Machine/Windows.antt =====
-- fiber.cpp under `_WIN32`: `Fiber::yield`, `Fiber::resume` and `fiber_entry`.
pub mod Agreement
pub mod Endings
use runtime_system.Base.{ℕ, ◌+◌, Option, none, some, update, ◌==◌, if◌then◌else◌}
use runtime_system.State.{World, Fiber, running, suspended, done, new, Script, Context, entry}
use runtime_system.Fibers
use runtime_system.Machine.Switch.{set_fiber}

-- What an operating system's fiber does next, when it is switched to: what a stack goes on with, or
-- the end of `fiber_entry`, behind its `yield()`.
pub data OsContext : Type 0 where
  stack : Context → OsContext
  entry_end : OsContext

-- What the thread does. `SwitchToFiber` to the fiber that runs is `unpredictable`, and a fiber whose
-- function returns ends the thread; `invalid` is the use of a deleted fiber.
pub data Activity : Type 0 where
  goes_on : Context → Activity
  unpredictable thread_exit invalid : Activity

-- `context_` of each `Fiber` by its address, and the one that the thread runs. The field `context` of
-- a `Fiber` is that of the other platform, and is not read.
pub record Thread : Type 0 where
  pub world : World
  pub contexts : ℕ → Option OsContext
  pub active : ℕ
  pub activity : Activity

abbrev activity_of : Option OsContext → Activity
activity_of none = invalid
activity_of (some (stack c)) = goes_on c
activity_of (some entry_end) = thread_exit

-- `SwitchToFiber(f->context_)` on a stack that goes on as `saved`.
unfoldable pub switch_to_fiber : (f : ℕ) (saved : OsContext) → Thread → Thread
switch_to_fiber f saved t =
    if f == t.active then record t { activity = unpredictable } else record t {
      contexts = update t.contexts t.active (some saved);
      active = f;
      activity = activity_of (t.contexts f);
    }

-- `Fiber::yield`.
unfoldable pub yield : OsContext → Thread → Thread
unfolding set_fiber switch_to_fiber
yield saved t =
    let w = t.world in
    switch_to_fiber w.main_fiber saved (record t {
      world = record (set_fiber w.current_fiber (λ r. record r { status = suspended }) w) {
        current_fiber = w.main_fiber;
      };
    })

-- `Fiber::resume(fiber)`, up to the switch.
unfoldable pub resume : (f : ℕ) (saved : Context) → Thread → Thread
unfolding set_fiber switch_to_fiber
resume f saved t = switch_to_fiber f (stack saved) (record t {
  world = set_fiber f (λ r. record r { status = running }) (record (t.world) { current_fiber = f });
})

-- The rest of `Fiber::resume(fiber)`, with `~Fiber`: `none` is the use of a deleted fiber.
unfoldable pub after_resume : (f : ℕ) → Thread → Option Thread
after_resume f t =
    let w = t.world in
    elim (w.fibers f) [
      | none ↦ none
      | some r ↦ elim r.status [
        | done ↦ some (record t {
          world = record w { fibers = update w.fibers f none; current_fiber = w.main_fiber };
          contexts = update t.contexts f none;
        })
        | _ ↦ some t
      ]
    ]

-- `Fiber::init` with `Fiber(isolate)`: the thread becomes the main fiber, by `ConvertThreadToFiber`, and
-- goes on as it did.
unfoldable pub init : Activity → World → Thread
unfolding Fibers.init
init a w = record {
  world = Fibers.init w;
  contexts = λ f. none;
  active = w.next_fiber;
  activity = a;
}

-- `new Fiber(isolate, func)`.
unfoldable pub new_fiber : Script → Thread → ℕ × Thread
new_fiber func t =
    let w = t.world in
    let f = w.next_fiber in
    (
      f,
      record t {
        world = record w {
          fibers =
              update w.fibers f
                (some (record { status = new; func = func; resume_value = none; context = none }));
          next_fiber = f + 1;
        };
        contexts = update t.contexts f (some (stack entry));
      },
    )

-- The end of `fiber_entry` of the fiber `self`: `Fiber::run` sets DONE, and `yield()` follows.
unfoldable pub end_fiber : (self : ℕ) → Thread → Thread
unfolding set_fiber yield
end_fiber self t =
    yield entry_end
      (record t { world = set_fiber self (λ r. record r { status = done }) (t.world) })
