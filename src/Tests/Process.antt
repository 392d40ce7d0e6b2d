-- ===== src/Tests/Process.antt =====
-- The start and the life of the process.
use runtime_system.Base.{
  true, ℕ, ◌+◌, ◌^◌, ◌≤◌, Bool, ◌≡◌, ◌≢◌, ◌⊎◌, refl, List, [], ◌∷◌, none, some,
}
use runtime_system.Handles
use runtime_system.Handles.{get, find, assign}
use runtime_system.State.Memory.{add_new}
use runtime_system.External.{External, ticked}
use runtime_system.Handles.Ids.{Op, Inv, run, count_adds}
use runtime_system.State.{World, Fiber, done, Script, Call, call, finish, uncaught}
use runtime_system.Udp.{udp_create}
use runtime_system.Machine.{Machine, step, execute, settle, start_call}
use runtime_system.Shutdown.{boot}
use runtime_system.Loader.Entry.{Engine, linked, load_module, load_and_run_modules}
use runtime_system.Process.{
  Process, serving, start, launch, initial_world, Reach, here, next, works,
}
use runtime_system.Process.Starting.{CanStart, Evaluates, Complains, start_iff}
use runtime_system.Process.Alive.{start_fibers}
use runtime_system.Process.Stores.{start-Inv}
use runtime_system.Tests.{answers}
use runtime_system.Tests.Modules.{files}

-- An entry module without imports, which does nothing but throw.
abbrev throws : Engine
throws = record {
  instantiate = λ resolve m s. linked s;
  script_of = λ m. uncaught (record { exception = "Error"; location = none; stack_trace = none });
}

start_iff_example :
    (CanStart files throws ("main.mjs" ∷ [])
      × Evaluates throws (start files throws "runtime" ("main.mjs" ∷ [])))
    ⊎ (¬ CanStart files throws ("main.mjs" ∷ [])
        × Complains files throws ("main.mjs" ∷ []) (start files throws "runtime" ("main.mjs" ∷ [])))
start_iff_example = start_iff files throws "runtime" ("main.mjs" ∷ [])

-- libuv has nothing to do but to keep `resume_handle`.
abbrev pub only_handle : World → Bool → Bool
only_handle w is_open = is_open

abbrev throwing : Process
throwing = start files throws "runtime" ("main.mjs" ∷ [])

-- The result of `Evaluate` is empty for every exception.
abbrev reporting : External
reporting = record answers { evaluate_is_empty = λ t. true }

-- An entry module that makes a UDP socket.
abbrev makes_socket : Script
makes_socket = call Call.udp_create (λ r. finish)

abbrev creates : Engine
creates = record { instantiate = λ resolve m s. linked s; script_of = λ m. makes_socket }

-- The process has made it.
abbrev created : Machine
created = step answers (boot makes_socket initial_world)

created-Reach :
    Reach answers only_handle (start files creates "runtime" ("main.mjs" ∷ [])) (serving created)
unfolding start launch load_and_run_modules load_module
created-Reach = next here (works (boot makes_socket initial_world))

created_socket : get 1 created.world.handles ≡ some 0
unfolding step execute boot start_call udp_create get find settle add_new ticked assign
created_socket = refl

start-Inv_example :
    (os : List (Op ℕ)) × (created.world.handles ≡ run Handles.init os)
    × ((2 ^ 64 ≤ 1 + count_adds os) ⊎ Inv created.world.handles)
start-Inv_example =
    start-Inv answers only_handle files creates "runtime" ("main.mjs" ∷ []) created created-Reach

start_fibers_example :
    ((r : Fiber) × (created.world.fibers created.world.current_fiber ≡ some r))
    × ((r : Fiber) × (created.world.fibers created.world.main_fiber ≡ some r) × (r.status ≢ done))
start_fibers_example =
    start_fibers answers only_handle files creates "runtime" ("main.mjs" ∷ []) created created-Reach
