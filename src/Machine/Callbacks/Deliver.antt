-- ===== src/Machine/Callbacks/Deliver.antt =====
-- The cases of an event while `main` waits in `uv_run`.
use runtime_system.Base.{◌≡◌, refl, Option, none, some}
use runtime_system.State.{World}
use runtime_system.Machine.Switch.{Machine, machine, idle, aborted}
use runtime_system.Machine.Events.{Event, callback, deliver}
use runtime_system.Machine.Callbacks.{callback-QueuesOne}
use runtime_system.Machine.Queues.{QueuesOne}

-- Behind a callback.
abbrev pub delivered : World → Option World → Machine
delivered w o = elim o [ none ↦ machine w aborted | some v ↦ machine v idle ]

pub delivered_cases :
    (P : Machine → Type 0) (w : World) (o : Option World)
    → P (machine w aborted)
    → ((v : World) → o ≡ some v → P (machine v idle))
    → P (delivered w o)
delivered_cases P w none a l = a
delivered_cases P w (some v) a l = l v refl

-- What holds of the end of the process, and behind any callback.
pub deliver_cases :
    (P : Machine → Type 0) (e : Event) (w : World)
    → P (machine w aborted)
    → ((v : World) → QueuesOne w v → P (machine v idle))
    → P (deliver e w)
unfolding deliver
deliver_cases P e w a l =
    delivered_cases P w (callback e w) a (λ v q. l v (callback-QueuesOne e w v q))
