-- ===== src/Process/Places.antt =====
-- The `AsyncContext`s in all that the process can come to.
use runtime_system.Base.{ℕ, Bool, ◌≡◌, String, List, [], ◌∷◌, some, arith, subst, ℕ}
use runtime_system.Value.{Line}
use runtime_system.State.{World, Script}
use runtime_system.State.Memory.Owned.{count, waiting, count_requests, pending_at}
use runtime_system.External.{External}
use runtime_system.Fibers
use runtime_system.Loader.{Files}
use runtime_system.Loader.Entry.{Engine, Started, evaluates, exits, load_and_run_modules}
use runtime_system.Machine.{Machine, idle, Event, Offers, callback}
use runtime_system.Machine.Places.{MachineOwns, local_queue, OwnsWith, OnMain}
use runtime_system.Machine.Places.Steps.{step-MachineOwns}
use runtime_system.Machine.Places.Events.{deliver-MachineOwns, swap_queue-MachineOwns}
use runtime_system.Machine.Places.Requests.{context_of, HasWrapper, Finishes, callback-Finishes}
use runtime_system.Shutdown.{boot}
use runtime_system.Process.{
  Process, serving, closing, ended, start, launch, Step, works, gets, wakes, exits_now, run_returns,
  disposes, Reach, here, next, initial_state, initial_world,
}

unfoldable pub ProcessOwns : Process → Type 0
ProcessOwns (serving m) = MachineOwns m
ProcessOwns (closing w) = Unit
ProcessOwns (ended code ls) = Unit

boot-MachineOwns :
    (s : Script) (err : List Line) → MachineOwns (boot s (record initial_world { stderr = err }))
unfolding boot Fibers.init MachineOwns local_queue waiting count_requests count pending_at
boot-MachineOwns s err = (
  record {
    once = λ c. ground arith;
    made = λ c g. ground arith;
    live = λ c g. ground arith;
    reads_made = λ o c e. ground arith;
    reads_live = λ o c e. ground arith;
    reads_free = λ o c e. ground arith;
    reads_once = λ o p c e f. ground arith;
  },
  λ f r e ne. ground arith,
)

launch-ProcessOwns : (s : Started) → ProcessOwns (launch s)
unfolding ProcessOwns launch
launch-ProcessOwns (exits ls) = tt
launch-ProcessOwns (evaluates script s) = boot-MachineOwns script s.stderr

start-ProcessOwns :
    (files : Files) (e : Engine) (argv0 : String) (args : List String)
    → ProcessOwns (start files e argv0 args)
unfolding ProcessOwns start
start-ProcessOwns files e argv0 [] = tt
start-ProcessOwns files e argv0 (path ∷ rest) =
    launch-ProcessOwns (load_and_run_modules files e path initial_state)

idle-OwnsWith :
    (m : Machine) → m.control ≡ idle → MachineOwns m → OwnsWith [] m.world × OnMain m.world
unfolding MachineOwns local_queue
idle-OwnsWith m i (h, on) = (subst (λ c. OwnsWith (local_queue c m.world) m.world) i h, on)

module _ (x : External) (alive : World → Bool → Bool) where
  Step-ProcessOwns : {p q : Process} → Step x alive p q → ProcessOwns p → ProcessOwns q
  unfolding ProcessOwns
  Step-ProcessOwns (works m) h = step-MachineOwns x m h
  Step-ProcessOwns (gets e m i offered) h =
      let (owns, on) = idle-OwnsWith m i h in deliver-MachineOwns e m.world offered owns on
  Step-ProcessOwns (wakes m i) h =
      let (owns, on) = idle-OwnsWith m i h in swap_queue-MachineOwns m.world owns on
  Step-ProcessOwns (exits_now code m e) h = tt
  Step-ProcessOwns (run_returns m i e) h = tt
  Step-ProcessOwns (disposes w) h = tt

  Reach-ProcessOwns : {p q : Process} → Reach x alive p q → ProcessOwns p → ProcessOwns q
  Reach-ProcessOwns here h = h
  Reach-ProcessOwns (next r t) h = Step-ProcessOwns t (Reach-ProcessOwns r h)

  module _ (files : Files) (e : Engine) (argv0 : String) (args : List String) (m : Machine)
      (reached : Reach x alive (start files e argv0 args) (serving m)) where
    -- In all that the process can come to while it serves, whatever scripts do and whatever libuv reports
    -- of the requests that it holds: a context that waits in `resumable_fibers`, in the local queue of
    -- `OnFibersToResume`, in a request of libuv or as a `pending_read` was not deleted, and it waits in one
    -- of these places alone, once.
    pub start-Owns : OwnsWith (local_queue m.control m.world) m.world
    unfolding ProcessOwns MachineOwns
    start-Owns = (Reach-ProcessOwns reached (start-ProcessOwns files e argv0 args)).0

    -- In all that the process can come to while it waits in `uv_run`: the callback of any
    -- request that libuv holds finds the context, which was not deleted, and puts it at the
    -- end of the queue; so does the callback of any read for which a context is pending on a
    -- socket, if the data pointer of the socket's libuv handle leads to the socket itself. The
    -- sockets of `TCP_Connect` have no such pointer.
    pub start-Finishes :
        (ev : Event) (c : ℕ)
        → m.control ≡ idle
        → Offers ev m.world
        → context_of ev m.world ≡ some c
        → HasWrapper ev m.world
        → Finishes c m.world (callback ev m.world)
    unfolding MachineOwns ProcessOwns
    start-Finishes ev c i offered of has =
        callback-Finishes ev c m.world offered of has
          (idle-OwnsWith m i (Reach-ProcessOwns reached (start-ProcessOwns files e argv0 args))).0
