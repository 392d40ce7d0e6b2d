-- ===== src/Process/Stores.antt =====
-- The handle store in all that the process can come to.
use runtime_system.Base.{
  ℕ, ◌+◌, ◌^◌, ◌≤◌, Bool, ◌≡◌, refl, sym, subst, ◌⊎◌, inl, inr, String, List, [], ◌∷◌, arith,
}
use native.Mathlib.Decide.{dec_lt}
use runtime_system.Handles
use runtime_system.Handles.{Store}
use runtime_system.Handles.Ids.{Op, Inv, run, count_adds, init-Inv, run-Inv}
use runtime_system.State.{World}
use runtime_system.State.Memory.Frame.{IsHistory, IsHistory-refl, IsHistory-trans, IsHistory-same}
use runtime_system.External.{External}
use runtime_system.Loader.{Files}
use runtime_system.Loader.Entry.{Engine, Started, evaluates, exits, load_and_run_modules}
use runtime_system.Machine.{Machine, swap_queue}
use runtime_system.Machine.Stores.{step-Stores, deliver-handles}
use runtime_system.Shutdown.{boot}
use runtime_system.Process.{
  Process, serving, closing, ended, start, launch, Step, works, gets, wakes, exits_now, run_returns,
  disposes, Reach, here, next, initial_state,
}

-- The process still serves from a store that `Add` and `Remove` made of the empty one.
unfoldable pub HasHistory : Process → Type 0
HasHistory (serving m) = IsHistory Handles.init m.world.handles
HasHistory (closing w) = Unit
HasHistory (ended code ls) = Unit

launch-HasHistory : (s : Started) → HasHistory (launch s)
unfolding HasHistory launch boot
launch-HasHistory (exits ls) = tt
launch-HasHistory (evaluates script s) = IsHistory-refl Handles.init

start-HasHistory :
    (files : Files) (e : Engine) (argv0 : String) (args : List String)
    → HasHistory (start files e argv0 args)
unfolding HasHistory start
start-HasHistory files e argv0 [] = tt
start-HasHistory files e argv0 (path ∷ rest) =
    launch-HasHistory (load_and_run_modules files e path initial_state)

run-init-Inv : (os : List (Op ℕ)) → (2 ^ 64 ≤ 1 + count_adds os) ⊎ Inv (run Handles.init os)
unfolding Handles.init
run-init-Inv os = elim (dec_lt (1 + count_adds os) (2 ^ 64)) [
  | yes fits ↦ inr (run-Inv Handles.init os fits init-Inv)
  | no wraps ↦ inl (omega arith)
]

swap_queue-handles : (w : World) → (swap_queue w).world.handles ≡ w.handles
unfolding swap_queue
swap_queue-handles w = refl

module _ (x : External) (alive : World → Bool → Bool) where
  Step-HasHistory : {p q : Process} → Step x alive p q → HasHistory p → HasHistory q
  unfolding HasHistory
  Step-HasHistory (works m) h = IsHistory-trans _ _ _ h (step-Stores x m)
  Step-HasHistory (gets e m i offered) h =
      IsHistory-trans _ _ _ h (IsHistory-same _ _ (deliver-handles e m.world))
  Step-HasHistory (wakes m i) h =
      IsHistory-trans _ _ _ h (IsHistory-same _ _ (swap_queue-handles m.world))
  Step-HasHistory (exits_now code m e) h = tt
  Step-HasHistory (run_returns m i e) h = tt
  Step-HasHistory (disposes w) h = tt

  Reach-HasHistory : {p q : Process} → Reach x alive p q → HasHistory p → HasHistory q
  Reach-HasHistory here h = h
  Reach-HasHistory (next r t) h = Step-HasHistory t (Reach-HasHistory r h)

  -- In all that the process can come to while it serves, whatever scripts do and whatever libuv
  -- reports, the handle store is what a history of `HandleStore::Add` and `Remove` makes of the empty store; and
  -- unless that history hands out all the ids there are, the keys of the store are in strictly rising
  -- order and between 1 and `next_id`, which fits its 64 bits.
  pub start-Inv :
      (files : Files) (e : Engine) (argv0 : String) (args : List String) (m : Machine)
      → Reach x alive (start files e argv0 args) (serving m)
      → (os : List (Op ℕ)) × (m.world.handles ≡ run Handles.init os)
        × ((2 ^ 64 ≤ 1 + count_adds os) ⊎ Inv m.world.handles)
  unfolding HasHistory
  start-Inv files e argv0 args m r =
      let (os, h) = Reach-HasHistory r (start-HasHistory files e argv0 args) in
      (os, h, subst (λ s. (2 ^ 64 ≤ 1 + count_adds os) ⊎ Inv s) (sym h) (run-init-Inv os))
