-- ===== src/Machine/Delivery.antt =====
-- `OnFibersToResume`: how a result gets to the script that waits for it.
use runtime_system.Base.{ℕ, ◌≡◌, refl, ◌≢◌, ◌∙◌, ap, List, ◌∷◌, some, arith}
use runtime_system.Value.{Value, Reply}
use runtime_system.State.{
  World, Fiber, running, AsyncContext, Script, Context, Base, Waits, give_result, in_yield,
}
use runtime_system.State.Memory.{release_all}
use runtime_system.State.Memory.Frame.{release_all-Keeps}
use runtime_system.External.{External}
use runtime_system.Primitive.{reply_of, resume_value, replies, conclude}
use runtime_system.Async.{create_result_value}
use runtime_system.Machine.Switch.{Machine, machine, executing, continuing, draining, resume}
use runtime_system.Machine.Dispatch.{after_yield}
use runtime_system.Machine.Steps.{steps, step, resume_next, continue}

module _ (x : External) (c : ℕ) (rest : List ℕ) (a : AsyncContext) (v : Value) (w w' : World)
    (r : Fiber) (k : Context) (at_c : w.contexts c ≡ some a)
    (made : create_result_value x a w ≡ some (v, w')) (waiting : w'.fibers a.fiber ≡ some r)
    (saved : r.context ≡ some k) (ne : a.fiber ≢ w'.main_fiber) where
  resume_next-control : (resume_next x c rest w).control ≡ continuing k
  unfolding resume_next resume
  resume_next-control = ground arith

  resume_next-current : (resume_next x c rest w).world.current_fiber ≡ a.fiber
  unfolding resume_next resume
  resume_next-current = ground arith

  resume_next-fiber :
      (resume_next x c rest w).world.fibers a.fiber
      ≡ some (record r { status = running; resume_value = some v })
  unfolding resume_next resume
  resume_next-fiber = ground arith

  resume_next-value : resume_value (resume_next x c rest w).world ≡ some v
  unfolding resume_value
  resume_next-value = ground (arith, resume_next-current, resume_next-fiber)

pub resume_value-release_all :
    (os : List ℕ) (w : World) → resume_value (release_all os w) ≡ resume_value w
unfolding resume_value
resume_value-release_all os w =
    let kept = release_all-Keeps os w in ground (arith, kept.fibers, kept.current)

after_yield-give_result :
    (p : Waits) (w : World) (v : Value)
    → resume_value w ≡ some v
    → after_yield (give_result p) w ≡ replies (reply_of (λ u. u) v) (release_all p.held w)
unfolding after_yield conclude
after_yield-give_result p w v e = ground (arith, resume_value-release_all p.held w)

continue-give_result :
    (b : Base) (p : Waits) (s : Reply → Script) (w : World) (v : Value)
    → resume_value w ≡ some v
    → continue (in_yield b (give_result p) s) w
      ≡ machine (release_all p.held w) (executing b (s (reply_of (λ u. u) v)))
unfolding continue
continue-give_result b p s w v e = rw (after_yield-give_result p w v e) refl

step-continuing :
    (x : External) (k : Context) (n : Machine)
    → n.control ≡ continuing k
    → step x n ≡ continue k n.world
unfolding step
step-continuing x k n e = ground arith

step-draining :
    (x : External) (c : ℕ) (rest : List ℕ) (w : World)
    → step x (machine w (draining (c ∷ rest))) ≡ resume_next x c rest w
unfolding step
step-draining x c rest w = refl

release_all-current : (os : List ℕ) (w : World) → (release_all os w).current_fiber ≡ w.current_fiber
release_all-current os w = let kept = release_all-Keeps os w in kept.current

-- When `OnFibersToResume` takes from its queue a context that was not deleted and whose result can
-- be made, and the fiber of that context is not the main one and waits in a primitive that replies
-- with what it is resumed with (`give_result`), that fiber becomes the current one and goes on
-- behind its `Fiber::yield()` with the value, or the exception, made of the result of that very
-- context.
pub deliver_result :
    (x : External) (c : ℕ) (rest : List ℕ) (a : AsyncContext) (v : Value) (w w' : World) (r : Fiber)
    (b : Base) (p : Waits) (s : Reply → Script)
    → w.contexts c ≡ some a
    → create_result_value x a w ≡ some (v, w')
    → w'.fibers a.fiber ≡ some r
    → r.context ≡ some (in_yield b (give_result p) s)
    → a.fiber ≢ w'.main_fiber
    → ((steps x 2 (machine w (draining (c ∷ rest)))).control
        ≡ executing b (s (reply_of (λ u. u) v)))
      × ((steps x 2 (machine w (draining (c ∷ rest)))).world.current_fiber ≡ a.fiber)
unfolding steps
deliver_result x c rest a v w w' r b p s at_c made waiting saved ne =
    let next = resume_next x c rest w in
    let current = resume_next-current x c rest a v w w' r _ at_c made waiting saved ne in
    let end : steps x 2 (machine w (draining (c ∷ rest)))
        ≡ machine (release_all p.held next.world) (executing b (s (reply_of (λ u. u) v))) =
      ap (step x) (step-draining x c rest w)
      ∙ step-continuing x _ next
          (resume_next-control x c rest a v w w' r _ at_c made waiting saved ne)
      ∙ continue-give_result b p s next.world v
          (resume_next-value x c rest a v w w' r _ at_c made waiting saved ne) in
    (
      ap (λ (n : Machine). n.control) end,
      ap (λ (n : Machine). n.world.current_fiber) end
          ∙ release_all-current p.held next.world
          ∙ current,
    )
