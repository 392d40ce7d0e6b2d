-- ===== src/Machine/Alive/Switches.antt =====
-- The switches of control between fibers.
use runtime_system.Base.{
  ℕ, ◌≡◌, ◌≢◌, ◌∙◌, refl, sym, ap, subst, update, some, arith, Option-cases, inl, inr,
}
use runtime_system.State.{
  World, Fiber, running, suspended, done, Context, entry, in_yield, in_run, in_drain,
}
use runtime_system.Machine.Switch.{set_fiber, switch_to, yield, resume}
use runtime_system.Machine.Steps.{end_fiber}
use runtime_system.Machine.Alive.{
  ContextOk, WorldOk, MachineOk, update-FibersOk, set_fiber-WorldOk, current-FibersOk,
}

-- A stack that goes on in a primitive, or in the loop of `OnFibersToResume`.
abbrev pub GoesOn : (main : ℕ) → Context → Type 0
GoesOn main c = (f : ℕ) → ContextOk main f c

-- The context of the main fiber is right for whatever is current.
main_context-ContextOk : (main f : ℕ) (c : Context) → ContextOk main main c → ContextOk main f c
main_context-ContextOk main f entry h = absurd (h refl)
main_context-ContextOk main f (in_yield b c k) h = h
main_context-ContextOk main f (in_run b g k) h = h
main_context-ContextOk main f (in_drain g c rest) h = h

switch_to-MachineOk :
    (f : ℕ) (w : World)
    → WorldOk w
    → ((c : Context) → ContextOk w.main_fiber f c → ContextOk w.main_fiber w.current_fiber c)
    → MachineOk (switch_to f w)
unfolding switch_to
switch_to-MachineOk f w h go = elim (Option-cases (w.fibers f)) [
  | inl absent ↦ rw (absent, switch_to) (h, tt)
  | inr (r, at) ↦ elim (Option-cases r.context) [
    | inl empty ↦ rw (at, switch_to, empty) (h, tt)
    | inr (c, is) ↦ rw (at, switch_to, is) (h, go c (h.saved f r c at is))
  ]
]

switch_to_main-MachineOk : (w : World) → WorldOk w → MachineOk (switch_to w.main_fiber w)
switch_to_main-MachineOk w h =
    switch_to-MachineOk w.main_fiber w h (main_context-ContextOk w.main_fiber w.current_fiber)

pub set_fiber-main :
    (f : ℕ) (change : Fiber → Fiber) (w : World) → (set_fiber f change w).main_fiber ≡ w.main_fiber
unfolding set_fiber
set_fiber-main f change w = ground arith

set_fiber-current :
    (f : ℕ) (change : Fiber → Fiber) (w : World)
    → (set_fiber f change w).current_fiber ≡ w.current_fiber
unfolding set_fiber
set_fiber-current f change w = ground arith

main-WorldOk : (w : World) → WorldOk w → WorldOk (record w { current_fiber = w.main_fiber })
main-WorldOk w h =
    let (r, at, alive) = h.main_alive in
    current-FibersOk w.fibers w.current_fiber w.main_fiber w.next_fiber w.main_fiber r h at

pub end_fiber-MachineOk :
    (self : ℕ) (w : World) → self ≢ w.main_fiber → WorldOk w → MachineOk (end_fiber self w)
unfolding end_fiber
end_fiber-MachineOk self w ne h =
    subst (λ m. MachineOk (switch_to m (set_fiber self (λ r. record r { status = done }) w)))
      (set_fiber-main self (λ r. record r { status = done }) w)
      (switch_to_main-MachineOk _ (
        set_fiber-WorldOk self (λ r. record r { status = done }) w h (λ r at e. absurd (ne e))
          (λ r c at is. h.saved self r c at is)))

pub yield-MachineOk :
    (saved : Context) (w : World)
    → GoesOn w.main_fiber saved
    → WorldOk w
    → MachineOk (yield saved w)
unfolding yield
yield-MachineOk saved w go h =
    let u =
      set_fiber w.current_fiber (λ r. record r { status = suspended; context = some saved }) w in
    subst (λ m. MachineOk (switch_to m (record u { current_fiber = m })))
      (set_fiber-main w.current_fiber (λ r. record r { status = suspended; context = some saved })
        w)
      (switch_to_main-MachineOk (record u { current_fiber = u.main_fiber })
        (main-WorldOk u (
          set_fiber-WorldOk w.current_fiber
            (λ r. record r { status = suspended; context = some saved }) w h
            (λ r at e. ground arith)
            (λ r c at is.
              subst (ContextOk w.main_fiber w.current_fiber) (ground arith) (go w.current_fiber)))))

-- A fiber that runs and is current.
abbrev running_world : (f : ℕ) (r : Fiber) → World → World
running_world f r w = record w {
  fibers = update w.fibers f (some (record r { status = running }));
  current_fiber = f;
}

running_world-WorldOk :
    (f : ℕ) (r : Fiber) (w : World)
    → WorldOk w
    → w.fibers f ≡ some r
    → WorldOk (running_world f r w)
running_world-WorldOk f r w h at =
    current-FibersOk _ w.current_fiber w.main_fiber w.next_fiber f (record r { status = running })
      (update-FibersOk w.fibers w.current_fiber w.main_fiber w.next_fiber f
        (record r { status = running }) h (λ e. ground arith) (λ c is. h.saved f r c at is))
      (ground arith)

switched-MachineOk :
    (f : ℕ) (saved : Context) (u : World)
    → GoesOn u.main_fiber saved
    → u.current_fiber ≡ f
    → WorldOk u
    → MachineOk (switch_to f (set_fiber u.main_fiber (λ m. record m { context = some saved }) u))
switched-MachineOk f saved u go cur h =
    switch_to-MachineOk f (set_fiber u.main_fiber (λ m. record m { context = some saved }) u)
      (set_fiber-WorldOk u.main_fiber (λ m. record m { context = some saved }) u h
        (λ q at e. let (p, at', alive) = h.main_alive in ground (arith, alive))
        (λ q c at is. subst (ContextOk u.main_fiber u.main_fiber) (ground arith) (go u.main_fiber)))
      (λ c hc.
        subst
          (λ i.
            ContextOk (set_fiber u.main_fiber (λ m. record m { context = some saved }) u).main_fiber
              i c)
          (sym (set_fiber-current u.main_fiber (λ m. record m { context = some saved }) u ∙ cur))
          hc)

pub set_fiber_found :
    (f : ℕ) (r : Fiber) (change : Fiber → Fiber) (w : World)
    → w.fibers f ≡ some r
    → set_fiber f change w ≡ record w { fibers = update w.fibers f (some (change r)) }
unfolding set_fiber
set_fiber_found f r change w at = rw (at, set_fiber) refl

pub resume_found :
    (f : ℕ) (r : Fiber) (saved : Context) (w : World)
    → w.fibers f ≡ some r
    → resume f saved w
      ≡ switch_to f (
          set_fiber w.main_fiber
            (λ m. record m { context = some saved })
            (record (set_fiber f (λ q. record q { status = running }) w) { current_fiber = f }))
unfolding resume
resume_found f r saved w at = rw (at, resume) refl

pub resume-MachineOk :
    (f : ℕ) (saved : Context) (w : World)
    → GoesOn w.main_fiber saved
    → WorldOk w
    → MachineOk (resume f saved w)
unfolding resume
resume-MachineOk f saved w go h = elim (Option-cases (w.fibers f)) [
  | inl absent ↦ rw (absent, resume) (h, tt)
  | inr (r, at) ↦
      subst MachineOk
        (sym (
          resume_found f r saved w at
          ∙ ap
              (λ u. switch_to f (
                set_fiber w.main_fiber (λ m. record m { context = some saved })
                  (record u { current_fiber = f })))
              (set_fiber_found f r (λ q. record q { status = running }) w at)))
        (switched-MachineOk f saved (running_world f r w) go refl
          (running_world-WorldOk f r w h at))
]
