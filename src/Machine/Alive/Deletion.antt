-- ===== src/Machine/Alive/Deletion.antt =====
-- The end of `Fiber::resume`: a fiber that is done is deleted.
use runtime_system.Base.{
  ℕ, ◌≡◌, ◌≢◌, ◌⊎◌, refl, sym, ap, subst, update, none, some, arith, Option-cases, inl, inr,
}
use runtime_system.State.{World, Fiber, Status, new, running, suspended, done}
use runtime_system.Machine.Switch.{after_resume}
use runtime_system.Machine.Alive.{WorldOk}

pub Status-cases : (s : Status) → (s ≡ done) ⊎ (s ≢ done)
Status-cases done = inl refl
Status-cases new = inr (ground arith)
Status-cases running = inr (ground arith)
Status-cases suspended = inr (ground arith)

-- A fiber is deleted.
deleted-WorldOk :
    (f : ℕ) (w : World)
    → f ≢ w.main_fiber
    → WorldOk w
    → WorldOk (record w { fibers = update w.fibers f none; current_fiber = w.main_fiber })
deleted-WorldOk f w ne h =
    let (r, at, alive) = h.main_alive in
    record {
      current_alive = (r, ground (arith, ne));
      main_alive = (r, ground (arith, ne), alive);
      room = h.room;
      saved = λ g q c is cc. h.saved g q c (ground arith) cc;
    }

pub after_resume_done :
    (f : ℕ) (r : Fiber) (w v : World)
    → w.fibers f ≡ some r
    → r.status ≡ done
    → after_resume f w ≡ some v
    → record w { fibers = update w.fibers f none; current_fiber = w.main_fiber } ≡ v
unfolding after_resume
after_resume_done f r w v at is e = ground arith

pub after_resume_other :
    (f : ℕ) (r : Fiber) (w v : World)
    → w.fibers f ≡ some r
    → r.status ≢ done
    → after_resume f w ≡ some v
    → w ≡ v
unfolding after_resume
after_resume_other f r w v at ne e = ground (arith, ne)

pub after_resume-WorldOk :
    (f : ℕ) (w v : World)
    → WorldOk w
    → after_resume f w ≡ some v
    → WorldOk v × (v.main_fiber ≡ w.main_fiber)
unfolding after_resume
after_resume-WorldOk f w v h e = elim (Option-cases (w.fibers f)) [
  | inl absent ↦ absurd (ground arith)
  | inr (r, at) ↦ elim (Status-cases r.status) [
    | inl is ↦
        let (q, at', alive) = h.main_alive in
        let same = after_resume_done f r w v at is e in
        (
          subst WorldOk same (deleted-WorldOk f w (ground (arith, alive)) h),
          sym (ap (λ u. u.main_fiber) same),
        )
    | inr ne ↦
        let same = after_resume_other f r w v at ne e in
        (subst WorldOk same h, sym (ap (λ u. u.main_fiber) same))
  ]
]
