-- ===== src/Process/Alive.antt =====
-- The statics of `Fiber` in all that the process can come to.
use runtime_system.Base.{ℕ, Bool, ◌≡◌, ◌≢◌, refl, String, List, [], ◌∷◌, none, some, arith}
use runtime_system.State.{World, Fiber, Script, running, done, finish}
use runtime_system.External.{External}
use runtime_system.Fibers
use runtime_system.Loader.{Files}
use runtime_system.Loader.Entry.{Engine, Started, evaluates, exits, load_and_run_modules}
use runtime_system.Machine.{Machine}
use runtime_system.Machine.Alive.{MachineOk}
use runtime_system.Machine.Alive.Steps.{step-MachineOk, deliver-MachineOk, swap_queue-MachineOk}
use runtime_system.Shutdown.{boot}
use runtime_system.Process.{
  Process, serving, closing, ended, start, launch, Step, works, gets, wakes, exits_now, run_returns,
  disposes, Reach, here, next, initial_state, initial_world,
}

unfoldable pub ProcessOk : Process → Type 0
ProcessOk (serving m) = MachineOk m
ProcessOk (closing w) = Unit
ProcessOk (ended code ls) = Unit

boot-MachineOk : (s : Script) (w : World) → ((f : ℕ) → w.fibers f ≡ none) → MachineOk (boot s w)
unfolding boot Fibers.init
boot-MachineOk s w empty = (
  record {
    current_alive = (
      record { status = running; func = finish; resume_value = none; context = none },
      ground arith,
    );
    main_alive = (
      record { status = running; func = finish; resume_value = none; context = none },
      ground arith,
      ground arith,
    );
    room = omega arith;
    saved = λ f r c at is. absurd (ground (arith, empty f));
  },
  tt,
)

launch-ProcessOk : (s : Started) → ProcessOk (launch s)
unfolding ProcessOk launch
launch-ProcessOk (exits ls) = tt
launch-ProcessOk (evaluates script s) =
    boot-MachineOk script (record initial_world { stderr = s.stderr }) (λ f. refl)

start-ProcessOk :
    (files : Files) (e : Engine) (argv0 : String) (args : List String)
    → ProcessOk (start files e argv0 args)
unfolding ProcessOk start
start-ProcessOk files e argv0 [] = tt
start-ProcessOk files e argv0 (path ∷ rest) =
    launch-ProcessOk (load_and_run_modules files e path initial_state)

module _ (x : External) (alive : World → Bool → Bool) where
  Step-ProcessOk : {p q : Process} → Step x alive p q → ProcessOk p → ProcessOk q
  unfolding ProcessOk
  Step-ProcessOk (works m) h = step-MachineOk x m h
  Step-ProcessOk (gets e m i offered) (h, ok) = deliver-MachineOk e m.world h
  Step-ProcessOk (wakes m i) (h, ok) = swap_queue-MachineOk m.world h
  Step-ProcessOk (exits_now code m e) h = tt
  Step-ProcessOk (run_returns m i e) h = tt
  Step-ProcessOk (disposes w) h = tt

  Reach-ProcessOk : {p q : Process} → Reach x alive p q → ProcessOk p → ProcessOk q
  Reach-ProcessOk here h = h
  Reach-ProcessOk (next r t) h = Step-ProcessOk t (Reach-ProcessOk r h)

  -- In all that the process can come to while it serves, whatever scripts do and whatever libuv
  -- reports,
  -- `current_fiber_` and `main_fiber_` point at fibers that were not deleted, and the main fiber is
  -- never done.
  pub start_fibers :
      (files : Files) (e : Engine) (argv0 : String) (args : List String) (m : Machine)
      → Reach x alive (start files e argv0 args) (serving m)
      → ((r : Fiber) × (m.world.fibers m.world.current_fiber ≡ some r))
        × ((r : Fiber) × (m.world.fibers m.world.main_fiber ≡ some r) × (r.status ≢ done))
  unfolding ProcessOk
  start_fibers files e argv0 args m r =
      let (h, ok) = Reach-ProcessOk r (start-ProcessOk files e argv0 args) in
      (h.current_alive, h.main_alive)
