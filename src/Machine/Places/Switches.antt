-- ===== src/Machine/Places/Switches.antt =====
-- The switches of control leave every context in one place.
use runtime_system.Base.{
  ℕ, ◌≡◌, refl, sym, ap, subst, ◌∙◌, List, [], none, some, arith, Option-cases, ◌⊎◌, inl, inr,
}
use runtime_system.State.{World, Fiber, new, running, suspended, done, Script, Context, entry}
use runtime_system.State.Memory.Frame.{Keeps}
use runtime_system.State.Memory.Owned.{Owns-same, pending_at}
use runtime_system.Fibers.{fiber_run, new_fiber}
use runtime_system.Machine.Switch.{
  machine, aborted, set_fiber, switch_to, yield, resume, after_resume,
}
use runtime_system.Machine.Steps.{end_fiber}
use runtime_system.Machine.Frame.{Leaves}
use runtime_system.Machine.Alive.Switches.{resume_found, set_fiber_found}
use runtime_system.Machine.Alive.Deletion.{Status-cases, after_resume_done, after_resume_other}
use runtime_system.Machine.Places.{
  context_queue, saved_queue, fiber_queue, main_queue, OwnsWith, OnMain, WorldOwns, MachineOwns,
  OwnsWith-nil, with_fiber, with_fiber-WorldOwns, saves-WorldOwns, taken_up, fibers-Owns,
  with_fiber-OnMain,
}

-- The process ends.
pub stopped-MachineOwns :
    (cs : List ℕ) (w : World) → OwnsWith cs w → OnMain w → MachineOwns (machine w aborted)
unfolding MachineOwns
stopped-MachineOwns cs w h on = (OwnsWith-nil cs w h, on)

switch_to-MachineOwns : (f : ℕ) (w : World) → WorldOwns w → MachineOwns (switch_to f w)
unfolding switch_to MachineOwns
switch_to-MachineOwns f w (h, on) = elim (Option-cases (w.fibers f)) [
  | inl absent ↦ rw (absent, switch_to) (stopped-MachineOwns _ w h on)
  | inr (r, at) ↦ elim (Option-cases r.context) [
    | inl empty ↦ rw (at, switch_to, empty) (stopped-MachineOwns _ w h on)
    | inr (c, is) ↦
        rw (at, switch_to, is) (subst (λ cs. OwnsWith cs w) (sym (taken_up f r c w at is on)) h, on)
  ]
]

-- A write to a fiber that keeps its context, or that no longer leads to `OnFibersToResume`.
set_fiber-WorldOwns :
    (f : ℕ) (change : Fiber → Fiber) (w : World)
    → ((r : Fiber)
        → (saved_queue (change r).context ≡ saved_queue r.context)
          ⊎ (saved_queue (change r).context ≡ []))
    → WorldOwns w
    → WorldOwns (set_fiber f change w)
unfolding set_fiber
set_fiber-WorldOwns f change w k h = elim (Option-cases (w.fibers f)) [
  | inl absent ↦ rw (absent, set_fiber) h
  | inr (r, at) ↦
      rw (at, set_fiber)
        (with_fiber-WorldOwns f w.current_fiber (some (change r)) w
          (elim (k r) [ inl e ↦ inl (e ∙ sym (ap fiber_queue at)) | inr e ↦ inr e ]) h)
]

current-WorldOwns : (f : ℕ) (w : World) → WorldOwns w → WorldOwns (record w { current_fiber = f })
current-WorldOwns f w (h, on) = (fibers-Owns _ w w.fibers f h, on)

pub yield-MachineOwns :
    (saved : Context) (w : World)
    → context_queue saved ≡ []
    → WorldOwns w
    → MachineOwns (yield saved w)
unfolding yield
yield-MachineOwns saved w plain h = switch_to-MachineOwns w.main_fiber _ (
    current-WorldOwns w.main_fiber _ (
      set_fiber-WorldOwns w.current_fiber
        (λ r. record r { status = suspended; context = some saved }) w (λ r. inr plain) h))

pub end_fiber-MachineOwns : (self : ℕ) (w : World) → WorldOwns w → MachineOwns (end_fiber self w)
unfolding end_fiber
end_fiber-MachineOwns self w h =
    switch_to-MachineOwns w.main_fiber _
      (set_fiber-WorldOwns self (λ r. record r { status = done }) w (λ r. inl refl) h)

pub set_fiber-OwnsWith :
    (f : ℕ) (change : Fiber → Fiber) (cs : List ℕ) (w : World)
    → OwnsWith cs w
    → OwnsWith cs (set_fiber f change w)
unfolding set_fiber
set_fiber-OwnsWith f change cs w h = elim (Option-cases (w.fibers f)) [
  | inl absent ↦ rw (absent, set_fiber) h
  | inr (r, at) ↦ rw (at, set_fiber) (fibers-Owns _ w _ w.current_fiber h)
]

pub set_fiber-OnMain :
    (f : ℕ) (change : Fiber → Fiber) (w : World)
    → ((r : Fiber) → (change r).context ≡ r.context)
    → OnMain w
    → OnMain (set_fiber f change w)
unfolding set_fiber
set_fiber-OnMain f change w k on = elim (Option-cases (w.fibers f)) [
  | inl absent ↦ rw (absent, set_fiber) on
  | inr (r, at) ↦
      rw (at, set_fiber)
        (with_fiber-OnMain f w.current_fiber (some (change r)) w
          (λ ne. ap saved_queue (k r) ∙ on f r at ne) on)
]

saved-WorldOwns :
    (saved : Context) (w : World)
    → OwnsWith (context_queue saved) w
    → OnMain w
    → WorldOwns (set_fiber w.main_fiber (λ m. record m { context = some saved }) w)
unfolding set_fiber
saved-WorldOwns saved w h on = elim (Option-cases (w.fibers w.main_fiber)) [
  | inl absent ↦
      rw (absent, set_fiber)
        (subst (λ cs. OwnsWith cs w) (sym (ap fiber_queue absent)) (OwnsWith-nil _ w h), on)
  | inr (r, at) ↦ rw (at, set_fiber) (saves-WorldOwns w.current_fiber r saved w at h on)
]

switched-MachineOwns :
    (f : ℕ) (r : Fiber) (saved : Context) (w : World)
    → w.fibers f ≡ some r
    → OwnsWith (context_queue saved) w
    → OnMain w
    → MachineOwns (
        switch_to f (
          set_fiber w.main_fiber
            (λ m. record m { context = some saved })
            (with_fiber f f (some (record r { status = running })) w)))
switched-MachineOwns f r saved w at h on =
    let u = with_fiber f f (some (record r { status = running })) w in
    switch_to-MachineOwns f (set_fiber u.main_fiber (λ m. record m { context = some saved }) u) (
      saved-WorldOwns saved u (fibers-Owns _ w _ f h)
        (with_fiber-OnMain f f (some (record r { status = running })) w (λ ne. on f r at ne) on))

pub resume-MachineOwns :
    (f : ℕ) (saved : Context) (w : World)
    → OwnsWith (context_queue saved) w
    → OnMain w
    → MachineOwns (resume f saved w)
unfolding resume
resume-MachineOwns f saved w h on = elim (Option-cases (w.fibers f)) [
  | inl absent ↦ rw (absent, resume) (stopped-MachineOwns _ w h on)
  | inr (r, at) ↦
      subst MachineOwns
        (sym (
          resume_found f r saved w at
          ∙ ap
              (λ u. switch_to f (
                set_fiber w.main_fiber (λ m. record m { context = some saved })
                  (record u { current_fiber = f })))
              (set_fiber_found f r (λ q. record q { status = running }) w at)))
        (switched-MachineOwns f r saved w at h on)
]

-- A round of `OnFibersToResume`, or `Fiber_Run`, goes on: the fiber is deleted if it is done.
pub after_resume-WorldOwns :
    (f : ℕ) (w v : World) → after_resume f w ≡ some v → WorldOwns w → WorldOwns v
unfolding after_resume
after_resume-WorldOwns f w v e h = elim (Option-cases (w.fibers f)) [
  | inl absent ↦ absurd (ground arith)
  | inr (r, at) ↦ elim (Status-cases r.status) [
    | inl is ↦
        subst WorldOwns (after_resume_done f r w v at is e)
          (with_fiber-WorldOwns f w.main_fiber none w (inr refl) h)
    | inr ne ↦ subst WorldOwns (after_resume_other f r w v at ne e) h
  ]
]

pub after_resume-OwnsWith :
    (f : ℕ) (cs : List ℕ) (w v : World) → after_resume f w ≡ some v → OwnsWith cs w → OwnsWith cs v
unfolding after_resume
after_resume-OwnsWith f cs w v e h = elim (Option-cases (w.fibers f)) [
  | inl absent ↦ absurd (ground arith)
  | inr (r, at) ↦ elim (Status-cases r.status) [
    | inl is ↦
        subst (OwnsWith cs) (after_resume_done f r w v at is e) (fibers-Owns _ w _ w.main_fiber h)
    | inr ne ↦ subst (OwnsWith cs) (after_resume_other f r w v at ne e) h
  ]
]

pub after_resume-OnMain : (f : ℕ) (w v : World) → after_resume f w ≡ some v → OnMain w → OnMain v
unfolding after_resume
after_resume-OnMain f w v e on = elim (Option-cases (w.fibers f)) [
  | inl absent ↦ absurd (ground arith)
  | inr (r, at) ↦ elim (Status-cases r.status) [
    | inl is ↦
        subst (λ u. OnMain u) (after_resume_done f r w v at is e)
          (with_fiber-OnMain f w.main_fiber none w (λ ne. refl) on)
    | inr ne ↦ subst (λ u. OnMain u) (after_resume_other f r w v at ne e) on
  ]
]

-- The world with a new fiber.
abbrev fiber_run_world : Script → World → World
fiber_run_world s w = (new_fiber s w).1

pub fiber_run-WorldOwns : (s : Script) (w : World) → WorldOwns w → Leaves WorldOwns (fiber_run s w)
unfolding fiber_run new_fiber pending_at
fiber_run-WorldOwns s w h =
    let r : Fiber = record { status = new; func = s; resume_value = none; context = some entry } in
    let (h', on) = with_fiber-WorldOwns w.next_fiber w.current_fiber (some r) w (inr refl) h in
    (Owns-same _ _ (fiber_run_world s w) refl refl refl refl (λ o c e. e) h', on)

Keeps-main_queue : (w v : World) → Keeps w v → main_queue v ≡ main_queue w
Keeps-main_queue w v k = λ i. fiber_queue (k.fibers i (k.main i))

pub Keeps-OnMain : (w v : World) → Keeps w v → OnMain w → OnMain v
Keeps-OnMain w v k on f r e ne =
    on f r (sym (ap (λ g. g f) k.fibers) ∙ e) (λ is. ne (is ∙ sym k.main))

pub Keeps-WorldOwns : (w v : World) → WorldOwns w → Keeps w v → WorldOwns v
Keeps-WorldOwns w v (h, on) k =
    (subst (λ cs. OwnsWith cs v) (sym (Keeps-main_queue w v k)) (k.owns _ h), Keeps-OnMain w v k on)
