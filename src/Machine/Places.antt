-- ===== src/Machine/Places.antt =====
-- The `AsyncContext`s while the process runs: the local queue of `OnFibersToResume` is on the stack
-- that the main fiber's context leads back to.
mod Switches
pub mod Steps
pub mod Events
pub mod Requests
use native.Mathlib.Decide.{ℕ_discrete}
use runtime_system.Base.{
  ℕ, ◌+◌, ◌≤◌, ◌≡◌, ◌≢◌, refl, ◌∙◌, sym, ap, subst, update, List, [], ◌∷◌, Option, none, some,
  arith, Option-cases, ◌⊎◌, inl, inr, ◌==◌, if◌then◌else◌,
}
use runtime_system.State.{
  World, Fiber, suspended, running, done, Context, entry, in_yield, in_run, in_drain,
}
use runtime_system.State.Memory.{delete_context}
use runtime_system.State.Memory.Owned.{Owns, Owns-less, Owns-same, count, waiting, pending_at}
use runtime_system.Machine.Switch.{
  Machine, machine, Control, idle, executing, continuing, draining, in_tls, aborted, exited,
  set_fiber, switch_to, yield, resume,
}
use runtime_system.Machine.Steps.{end_fiber}

-- The contexts that a saved machine context still has to resume or delete.
abbrev pub context_queue : Context → List ℕ
context_queue (in_drain f c rest) = c ∷ rest
context_queue _ = []

abbrev pub saved_queue : Option Context → List ℕ
saved_queue none = []
saved_queue (some c) = context_queue c

abbrev pub fiber_queue : Option Fiber → List ℕ
fiber_queue none = []
fiber_queue (some r) = saved_queue r.context

abbrev pub main_queue : World → List ℕ
main_queue w = fiber_queue (w.fibers w.main_fiber)

-- The local queue of `OnFibersToResume`, the context that it resumes included.
unfoldable pub local_queue : Control → World → List ℕ
local_queue idle w = []
local_queue (executing b s) w = main_queue w
local_queue (continuing (in_drain f c rest)) w = c ∷ rest
local_queue (continuing _) w = main_queue w
local_queue (draining cs) w = cs
local_queue (in_tls b ssl l k) w = main_queue w
local_queue aborted w = []
local_queue (exited code) w = []

-- With this local queue, every context is in one place.
abbrev pub OwnsWith : List ℕ → World → Type 0
OwnsWith cs w = Owns (λ c. count c cs) w

-- `OnFibersToResume` runs on the stack of the main fiber alone.
abbrev pub OnMain : World → Type 0
OnMain w = (f : ℕ) (r : Fiber) → w.fibers f ≡ some r → f ≢ w.main_fiber → saved_queue r.context ≡ []

abbrev pub WorldOwns : World → Type 0
WorldOwns w = OwnsWith (main_queue w) w × OnMain w

unfoldable pub MachineOwns : Machine → Type 0
unfolding local_queue
MachineOwns m = OwnsWith (local_queue m.control m.world) m.world × OnMain m.world

-- A shorter local queue.
pub OwnsWith-less :
    (cs ds : List ℕ) (w : World)
    → ((c : ℕ) → count c ds ≤ count c cs)
    → OwnsWith cs w
    → OwnsWith ds w
OwnsWith-less cs ds w less =
    Owns-less (λ c. count c cs) (λ c. count c ds) w w (omega arith) (λ c b g. refl)
      (λ o c b e. refl) (λ c. omega (arith, less c)) (λ o c e. e)

pub OwnsWith-nil : (cs : List ℕ) (w : World) → OwnsWith cs w → OwnsWith [] w
unfolding count
OwnsWith-nil cs w = OwnsWith-less cs [] w (λ c. omega arith)

-- The fibers are not what `Owns` is about.
pub fibers-Owns :
    (l : ℕ → ℕ) (w : World) (fibers : ℕ → Option Fiber) (current : ℕ)
    → Owns l w
    → Owns l (record w { fibers = fibers; current_fiber = current })
unfolding pending_at
fibers-Owns l w fibers current =
    Owns-same l w (record w { fibers = fibers; current_fiber = current }) refl refl refl refl
      (λ o c e. e)

-- A write to a fiber, after which another one is current.
abbrev pub with_fiber : (f current : ℕ) → Option Fiber → World → World
with_fiber f current q w = record w { fibers = update w.fibers f q; current_fiber = current }

pub with_fiber-OnMain :
    (f current : ℕ) (q : Option Fiber) (w : World)
    → (f ≢ w.main_fiber → fiber_queue q ≡ [])
    → OnMain w
    → OnMain (with_fiber f current q w)
with_fiber-OnMain f current q w k on g r at ne = elim (ℕ_discrete g f) [
  | yes e ↦
      let here : update w.fibers f q g ≡ q = ground arith in
      sym (ap fiber_queue at) ∙ ap fiber_queue here ∙ k (subst (λ i. i ≢ w.main_fiber) e ne)
  | no other ↦ on g r (ground arith) ne
]

-- What the main fiber's context leads back to afterwards.
with_fiber-main_queue :
    (f current : ℕ) (q : Option Fiber) (w : World)
    → (main_queue (with_fiber f current q w) ≡ main_queue w)
      ⊎ (main_queue (with_fiber f current q w) ≡ fiber_queue q)
with_fiber-main_queue f current q w = elim (ℕ_discrete w.main_fiber f) [
  | yes e ↦
      let here : update w.fibers f q w.main_fiber ≡ q = ground arith in inr (ap fiber_queue here)
  | no ne ↦
      let there : update w.fibers f q w.main_fiber ≡ w.fibers w.main_fiber = ground arith in
      inl (ap fiber_queue there)
]

pub OnMain-other : (f : ℕ) (w : World) → f ≢ w.main_fiber → OnMain w → fiber_queue (w.fibers f) ≡ []
OnMain-other f w ne on = elim (Option-cases (w.fibers f)) [
  | inl e ↦ ap fiber_queue e
  | inr (r, e) ↦ ap fiber_queue e ∙ on f r e ne
]

-- A fiber that keeps its context, or that no longer leads to `OnFibersToResume`.
pub with_fiber-WorldOwns :
    (f current : ℕ) (q : Option Fiber) (w : World)
    → (fiber_queue q ≡ fiber_queue (w.fibers f)) ⊎ (fiber_queue q ≡ [])
    → WorldOwns w
    → WorldOwns (with_fiber f current q w)
with_fiber-WorldOwns f current q w (inr k) (h, on) = (
  fibers-Owns _ w _ _ (elim (with_fiber-main_queue f current q w) [
    | inl e ↦ subst (λ cs. OwnsWith cs w) (sym e) h
    | inr e ↦ subst (λ cs. OwnsWith cs w) (sym (e ∙ k)) (OwnsWith-nil _ w h)
  ]),
  with_fiber-OnMain f current q w (λ ne. k) on,
)
with_fiber-WorldOwns f current q w (inl k) (h, on) = (
  fibers-Owns _ w _ _ (elim (with_fiber-main_queue f current q w) [
    | inl e ↦ subst (λ cs. OwnsWith cs w) (sym e) h
    | inr e ↦ elim (ℕ_discrete f w.main_fiber) [
      | yes is ↦ subst (λ cs. OwnsWith cs w) (sym (e ∙ k ∙ ap (λ i. fiber_queue (w.fibers i)) is)) h
      | no ne ↦
          subst (λ cs. OwnsWith cs w) (sym (e ∙ k ∙ OnMain-other f w ne on)) (OwnsWith-nil _ w h)
    ]
  ]),
  with_fiber-OnMain f current q w (λ ne. k ∙ OnMain-other f w ne on) on,
)

-- The main fiber saves a context.
pub saves-WorldOwns :
    (current : ℕ) (r : Fiber) (saved : Context) (w : World)
    → w.fibers w.main_fiber ≡ some r
    → OwnsWith (context_queue saved) w
    → OnMain w
    → WorldOwns (with_fiber w.main_fiber current (some (record r { context = some saved })) w)
saves-WorldOwns current r saved w at h on =
    let q : Option Fiber = some (record r { context = some saved }) in
    let here : update w.fibers w.main_fiber q w.main_fiber ≡ q = ground arith in
    (
      fibers-Owns _ w _ _ (subst (λ cs. OwnsWith cs w) (sym (ap fiber_queue here)) h),
      with_fiber-OnMain w.main_fiber current q w (λ ne. absurd (ne refl)) on,
    )

-- What `swapcontext` takes up leads back to where the main fiber's context does.
pub taken_up :
    (f : ℕ) (r : Fiber) (c : Context) (w : World)
    → w.fibers f ≡ some r
    → r.context ≡ some c
    → OnMain w
    → local_queue (continuing c) w ≡ main_queue w
unfolding local_queue
taken_up f r entry w at is on = refl
taken_up f r (in_yield b c k) w at is on = refl
taken_up f r (in_run b g k) w at is on = refl
taken_up f r (in_drain g c rest) w at is on = elim (ℕ_discrete f w.main_fiber) [
  | yes e ↦ sym (ap (λ i. fiber_queue (w.fibers i)) (sym e) ∙ ap fiber_queue at ∙ ap saved_queue is)
  | no ne ↦
      let never : c ∷ rest ≡ [] = ap saved_queue (sym is) ∙ on f r at ne in absurd (ground arith)
]
