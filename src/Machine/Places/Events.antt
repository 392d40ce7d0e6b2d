-- ===== src/Machine/Places/Events.antt =====
-- The callbacks of libuv while `main` waits in `uv_run`: each context stays in one place, and a
-- request that ends has a context.
use runtime_system.Base.{refl, sym, ap, ◌∙◌, [], arith, inl, inr}
use runtime_system.State.{World}
use runtime_system.State.Memory.Owned.{Owns-less, count, waiting, pending_at}
use runtime_system.Machine.Events.{Event, Offers, callback, deliver, swap_queue}
use runtime_system.Machine.Callbacks.{callback-QueuesOne}
use runtime_system.Machine.Queues.{QueuesOne}
use runtime_system.Machine.Callbacks.Deliver.{delivered, delivered_cases}
use runtime_system.Machine.Callbacks.Places.{callback-Owns}
use runtime_system.Machine.Places.{OwnsWith, OnMain, MachineOwns}
use runtime_system.Machine.Places.Switches.{stopped-MachineOwns}

-- The start of `OnFibersToResume`: the local queue is what was in `resumable_fibers`.
pub swap_queue-MachineOwns : (w : World) → OwnsWith [] w → OnMain w → MachineOwns (swap_queue w)
unfolding swap_queue MachineOwns pending_at waiting count
swap_queue-MachineOwns w h on = (
  Owns-less (λ c. count c []) (λ c. count c w.resumable_fibers) w
      (record w { resumable_fibers = [] }) (omega arith) (λ c lt g. refl) (λ o c lt e. refl)
      (λ c. omega arith) (λ o c e. e) h,
  on,
)

QueuesOne-OnMain : (w v : World) → QueuesOne w v → OnMain w → OnMain v
QueuesOne-OnMain w v q on f r e ne = elim q [
  | inl s ↦ on f r (sym (ap (λ g. g f) s.fibers) ∙ e) (λ is. ne (is ∙ sym s.main))
  | inr (c, s) ↦ on f r (sym (ap (λ g. g f) s.fibers) ∙ e) (λ is. ne (is ∙ sym s.main))
]

called-MachineOwns :
    (e : Event) (w : World)
    → Offers e w
    → OwnsWith [] w
    → OnMain w
    → MachineOwns (delivered w (callback e w))
unfolding MachineOwns
called-MachineOwns e w offered h on =
    delivered_cases MachineOwns w (callback e w) (stopped-MachineOwns [] w h on) λ v is. (
      callback-Owns e (λ c. count c []) w v offered is h,
      QueuesOne-OnMain w v (callback-QueuesOne e w v is) on,
    )

pub deliver-MachineOwns :
    (e : Event) (w : World) → Offers e w → OwnsWith [] w → OnMain w → MachineOwns (deliver e w)
unfolding deliver
deliver-MachineOwns e w offered h on = called-MachineOwns e w offered h on
