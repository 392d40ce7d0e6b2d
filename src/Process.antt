-- ===== src/Process.antt =====
-- main.cpp: the process from `main`'s arguments to its end.
pub mod Starting
pub mod Lifetime
pub mod Stores
pub mod Alive
pub mod Places
use runtime_system.Base.{ℕ, Bool, true, false, ◌≡◌, String, List, [], ◌∷◌, ◌++◌, none}
use Prim.Native.String
use runtime_system.Value.{Line, plain}
use runtime_system.State.{World}
use runtime_system.External.{External}
use runtime_system.Loader.{Files, RuntimeState}
use runtime_system.Loader.Entry.{Engine, Started, evaluates, exits, load_and_run_modules}
use runtime_system.Machine.{Machine, idle, exited}
use runtime_system.Machine.{step}
use runtime_system.Machine.{Event, Offers, deliver, swap_queue}
use runtime_system.Shutdown.{dispose, boot}

-- Where `main` is: in the entry module or in `uv_run`, with `resume_handle` open; behind the
-- `uv_close` of `resume_handle`; or behind its `return`, or an `exit`.
pub data Process : Type 0 where
  serving : Machine → Process
  closing : World → Process
  ended : (code : ℕ) (stderr : List Line) → Process

-- The statics before `main`, and `RuntimeState state`.
abbrev pub initial_world : World
initial_world = record {
  fibers = λ f. none;
  next_fiber = 0;
  current_fiber = 0;
  main_fiber = 0;
  handles = record { store = []; next_id = 0 };
  objects = λ o. none;
  next_object = 0;
  uses = λ o. 0;
  contexts = λ c. none;
  next_context = 0;
  resumable_fibers = [];
  requests = [];
  closing_handles = [];
  tick = 0;
  freed = [];
  closed_files = [];
  next_ssl = 0;
  stdout = [];
  stderr = [];
}

abbrev pub initial_state : RuntimeState
initial_state = record { module_cache = []; next_module = 0; compiled = []; stderr = [] }

-- `main` behind the loading of the entry module: the process ends, or the module is evaluated. `boot`
-- sets `Fiber` and `HandleStore` up, which nothing uses before the evaluation.
unfoldable pub launch : Started → Process
launch (exits ls) = ended 1 ls
launch (evaluates script s) = serving (boot script (record initial_world { stderr = s.stderr }))

-- `main` up to the evaluation of the entry module, on the arguments behind `argv[0]`.
unfoldable pub start : Files → Engine → (argv0 : String) (args : List String) → Process
unfolding launch
start files e argv0 [] =
    ended 1 (plain (String.◌++◌ "Usage: " (String.◌++◌ argv0 " <entry_module.mjs>")) ∷ [])
start files e argv0 (path ∷ rest) = launch (load_and_run_modules files e path initial_state)

-- The steps of the process. `alive` is `uv_loop_alive`: whether libuv has active handles or requests,
-- in the given state and with `resume_handle` open or not; `uv_run` returns once it has none.
pub data Step (x : External) (alive : World → (resume_handle : Bool) → Bool)
    : Process → Process → Type 0 where
  works : (m : Machine) → Step x alive (serving m) (serving (step x m))
  gets :
      (e : Event) (m : Machine)
      → m.control ≡ idle
      → Offers e m.world
      → Step x alive (serving m) (serving (deliver e m.world))
  -- `OnFibersToResume` begins; it runs by steps of the machine.
  wakes : (m : Machine) → m.control ≡ idle → Step x alive (serving m) (serving (swap_queue m.world))
  exits_now :
      (code : ℕ) (m : Machine)
      → m.control ≡ exited code
      → Step x alive (serving m) (ended code m.world.stderr)
  run_returns :
      (m : Machine)
      → m.control ≡ idle
      → alive m.world true ≡ false
      → Step x alive (serving m) (closing m.world)
  disposes : (w : World) → Step x alive (closing w) (ended 0 (dispose w).stderr)

-- What the process can come to.
pub data Reach (x : External) (alive : World → (resume_handle : Bool) → Bool) (p : Process)
    : Process → Type 0 where
  here : Reach x alive p p
  next : {q r : Process} → Reach x alive p q → Step x alive q r → Reach x alive p r
