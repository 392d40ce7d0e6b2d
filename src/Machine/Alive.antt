-- ===== src/Machine/Alive.antt =====
-- The fibers that `current_fiber_` and `main_fiber_` point at.
pub mod Switches
pub mod Deletion
pub mod Steps
use native.Mathlib.Decide.{ℕ_discrete}
use runtime_system.Base.{
  ℕ, ◌<◌, ◌≡◌, ◌≢◌, refl, sym, ap, subst, update, Option, none, some, arith, Option-cases, inl, inr,
}
use runtime_system.State.{
  World, Fiber, done, Base, main_stack, fiber_stack, Context, entry, in_yield, in_run, in_drain,
}
use runtime_system.Machine.Switch.{
  Machine, Control, idle, executing, continuing, draining, in_tls, aborted, exited, set_fiber,
}

-- A stack of `Fiber::run` is not the main fiber's.
abbrev pub BaseOk : (main : ℕ) → Base → Type 0
BaseOk main main_stack = Unit
BaseOk main (fiber_stack self) = self ≢ main

-- What a context needs of the fiber that it is the context of: the start of a fiber is not in the main
-- one.
abbrev pub ContextOk : (main f : ℕ) → Context → Type 0
ContextOk main f entry = f ≢ main
ContextOk main f (in_yield b c k) = BaseOk main b
ContextOk main f (in_run b g k) = BaseOk main b
ContextOk main f (in_drain g c rest) = Unit

abbrev pub ControlOk : (main current : ℕ) → Control → Type 0
ControlOk main current (executing b s) = BaseOk main b
ControlOk main current (continuing c) = ContextOk main current c
ControlOk main current (in_tls b ssl l k) = BaseOk main b
ControlOk main current _ = Unit

-- Of the fibers by address: the current one and the main one were not deleted, the main one is not
-- done, its address is not used again, and the saved contexts are as they must be.
pub record FibersOk (fibers : ℕ → Option Fiber) (current main next : ℕ) : Type 0 where
  pub current_alive : (r : Fiber) × (fibers current ≡ some r)
  pub main_alive : (r : Fiber) × (fibers main ≡ some r) × (r.status ≢ done)
  pub room : main < next
  pub saved :
      (f : ℕ) (r : Fiber) (c : Context)
      → fibers f ≡ some r
      → r.context ≡ some c
      → ContextOk main f c

abbrev pub WorldOk : World → Type 0
WorldOk w = FibersOk w.fibers w.current_fiber w.main_fiber w.next_fiber

abbrev pub MachineOk : Machine → Type 0
MachineOk m = WorldOk m.world × ControlOk m.world.main_fiber m.world.current_fiber m.control

-- A write to one fiber.
pub update-FibersOk :
    (fibers : ℕ → Option Fiber) (current main next f : ℕ) (r : Fiber)
    → FibersOk fibers current main next
    → (f ≡ main → r.status ≢ done)
    → ((c : Context) → r.context ≡ some c → ContextOk main f c)
    → FibersOk (update fibers f (some r)) current main next
update-FibersOk fibers current main next f r h live ok = record {
  current_alive = elim (ℕ_discrete current f) [
    | yes e ↦ (r, ground arith)
    | no ne ↦ let (q, at) = h.current_alive in (q, ground arith)
  ];
  main_alive = elim (ℕ_discrete main f) [
    | yes e ↦ (r, ground arith, live (sym e))
    | no ne ↦ let (q, at, alive) = h.main_alive in (q, ground arith, alive)
  ];
  room = h.room;
  saved = λ g q c at is. elim (ℕ_discrete g f) [
    | yes e ↦ subst (λ i. ContextOk main i c) (sym e) (ok c (ground arith))
    | no ne ↦ h.saved g q c (ground arith) is
  ];
}

pub set_fiber-WorldOk :
    (f : ℕ) (change : Fiber → Fiber) (w : World)
    → WorldOk w
    → ((r : Fiber) → w.fibers f ≡ some r → f ≡ w.main_fiber → (change r).status ≢ done)
    → ((r : Fiber) (c : Context)
        → w.fibers f ≡ some r
        → (change r).context ≡ some c
        → ContextOk w.main_fiber f c)
    → WorldOk (set_fiber f change w)
unfolding set_fiber
set_fiber-WorldOk f change w h live ok = elim (Option-cases (w.fibers f)) [
  | inl absent ↦ rw (absent, set_fiber) h
  | inr (r, at) ↦
      rw (at, set_fiber)
        (update-FibersOk w.fibers w.current_fiber w.main_fiber w.next_fiber f (change r) h
          (live r at) (λ c. ok r c at))
]

-- Another fiber becomes current.
pub current-FibersOk :
    (fibers : ℕ → Option Fiber) (current main next f : ℕ) (r : Fiber)
    → FibersOk fibers current main next
    → fibers f ≡ some r
    → FibersOk fibers f main next
current-FibersOk fibers current main next f r h at = record {
  current_alive = (r, at);
  main_alive = h.main_alive;
  room = h.room;
  saved = h.saved;
}

-- The same fibers.
pub same-FibersOk :
    (w v : World)
    → v.fibers ≡ w.fibers
    → v.current_fiber ≡ w.current_fiber
    → v.main_fiber ≡ w.main_fiber
    → v.next_fiber ≡ w.next_fiber
    → WorldOk w
    → WorldOk v
same-FibersOk w v f c m n h =
    subst (λ k. FibersOk k v.current_fiber v.main_fiber v.next_fiber) (sym f)
      (subst (λ k. FibersOk w.fibers k v.main_fiber v.next_fiber) (sym c)
        (subst (λ k. FibersOk w.fibers w.current_fiber k v.next_fiber) (sym m)
          (subst (λ k. FibersOk w.fibers w.current_fiber w.main_fiber k) (sym n) h)))
