-- ===== src/Handles/Ids.antt =====
-- Histories of a `HandleStore`: the ids that `Add` hands out.
use runtime_system.Base.{ℕ, zero, suc, ◌+◌, ◌^◌, ◌<◌, ◌≤◌, ◌≡◌, refl, List, [], ◌∷◌, none, arith}
use runtime_system.Handles.Table.{
  find-assign, Rising, Below, Below-mono, find-erase, assign-Rising, erase-Rising, assign-Below,
  erase-Below,
}
use runtime_system.Handles.{Store, init, add, remove, get}

pub data Op {ℓ} (A : Type ℓ) : Type ℓ where
  adds : A → Op A
  removes : ℕ → Op A

pub record Inv {ℓ} {A : Type ℓ} (s : Store A) : Type 0 where
  pub positive : 1 ≤ s.next_id
  pub fits : s.next_id < 2 ^ 64
  pub rising : Rising 0 s.store
  pub below : Below s.next_id s.store

-- `n`, `n + 1`, … : the first `k` numbers from `n`.
pub numbers : ℕ → ℕ → List ℕ
numbers n zero = []
numbers n (suc k) = n ∷ numbers (n + 1) k

module _ {ℓ} {A : Type ℓ} where
  unfoldable pub step : Store A → Op A → Store A
  step s (adds a) = (add a s).1
  step s (removes k) = remove k s

  -- The store after a history.
  unfoldable pub run : Store A → List (Op A) → Store A
  run s [] = s
  run s (o ∷ os) = run (step s o) os

  -- The ids that the history hands out.
  pub ids : Store A → List (Op A) → List ℕ
  ids s [] = []
  ids s (adds a ∷ os) = (add a s).0 ∷ ids (step s (adds a)) os
  ids s (removes k ∷ os) = ids (step s (removes k)) os

  unfoldable pub count_adds : List (Op A) → ℕ
  count_adds [] = 0
  count_adds (adds a ∷ os) = suc (count_adds os)
  count_adds (removes k ∷ os) = count_adds os

  pub init-Inv : Inv {A = A} init
  unfolding init
  init-Inv = record { positive = omega arith; fits = omega arith; rising = tt; below = tt }

  add-Inv : (a : A) (s : Store A) → s.next_id + 1 < 2 ^ 64 → Inv s → Inv (add a s).1
  unfolding add
  add-Inv a s h v = record {
    positive = omega arith;
    fits = omega arith;
    rising = assign-Rising s.next_id 0 a s.store (omega arith) v.rising;
    below =
        assign-Below s.next_id _ a s.store (omega arith)
          (Below-mono s.next_id _ s.store (omega arith) v.below);
  }

  remove-Inv : (k : ℕ) (s : Store A) → Inv s → Inv (remove k s)
  unfolding remove
  remove-Inv k s v = record {
    positive = v.positive;
    fits = v.fits;
    rising = erase-Rising k 0 s.store v.rising;
    below = erase-Below k s.next_id s.store v.below;
  }

  pub add-next_id :
      (a : A) (s : Store A) → s.next_id + 1 < 2 ^ 64 → (add a s).1.next_id ≡ s.next_id + 1
  unfolding add
  add-next_id a s h = omega arith

  pub remove-next_id : (k : ℕ) (s : Store A) → (remove k s).next_id ≡ s.next_id
  unfolding remove
  remove-next_id k s = refl

  add-id : (a : A) (s : Store A) → (add a s).0 ≡ s.next_id
  unfolding add
  add-id a s = refl

  pub step-Inv :
      (s : Store A) (o : Op A) (os : List (Op A))
      → s.next_id + count_adds (o ∷ os) < 2 ^ 64
      → Inv s
      → Inv (step s o)
  unfolding step count_adds
  step-Inv s (adds a) os h v = add-Inv a s (omega arith) v
  step-Inv s (removes k) os h v = remove-Inv k s v

  pub step-next_id :
      (s : Store A) (o : Op A) (os : List (Op A))
      → s.next_id + count_adds (o ∷ os) < 2 ^ 64
      → (step s o).next_id + count_adds os < 2 ^ 64
  unfolding step count_adds
  step-next_id s (adds a) os h = omega (arith, add-next_id a s)
  step-next_id s (removes k) os h = omega (arith, remove-next_id k s)

  add-get :
      (a : A) (s : Store A) (k : ℕ) → get k s ≡ none → k < s.next_id → get k (add a s).1 ≡ none
  unfolding get add
  add-get a s k e lt = ground (arith, find-assign s.next_id k a s.store)

  remove-get : (j : ℕ) (s : Store A) (k : ℕ) → get k s ≡ none → Inv s → get k (remove j s) ≡ none
  unfolding get remove
  remove-get j s k e v = ground (arith, find-erase j k 0 s.store v.rising)

  remove-get_self : (k : ℕ) (s : Store A) → Inv s → get k (remove k s) ≡ none
  unfolding get remove
  remove-get_self k s v = ground (arith, find-erase k k 0 s.store v.rising)

  -- As long as `next_id` does not wrap, a history keeps the keys in order and below `next_id`.
  pub run-Inv :
      (s : Store A) (os : List (Op A)) → s.next_id + count_adds os < 2 ^ 64 → Inv s → Inv (run s os)
  unfolding run step count_adds
  run-Inv s [] h v = v
  run-Inv s (adds a ∷ os) h v =
      run-Inv (add a s).1 os (omega (arith, add-next_id a s)) (add-Inv a s (omega arith) v)
  run-Inv s (removes k ∷ os) h v =
      run-Inv (remove k s) os (omega (arith, remove-next_id k s)) (remove-Inv k s v)

  -- As long as `next_id` does not wrap, a history hands out `next_id`, `next_id + 1`, … in order,
  -- whatever it removes between.
  ids-numbers :
      (s : Store A) (os : List (Op A))
      → s.next_id + count_adds os < 2 ^ 64
      → ids s os ≡ numbers s.next_id (count_adds os)
  unfolding ids step numbers count_adds
  ids-numbers s [] h = refl
  ids-numbers s (adds a ∷ os) h = ground (
    arith,
    add-id a s,
    add-next_id a s,
    ids-numbers (add a s).1 os (omega (arith, add-next_id a s)),
  )
  ids-numbers s (removes k ∷ os) h = ground (arith, remove-next_id k s, ids-numbers (remove k s) os)

  get_absent_run :
      (k : ℕ) (s : Store A) (os : List (Op A))
      → Inv s
      → k < s.next_id
      → get k s ≡ none
      → s.next_id + count_adds os < 2 ^ 64
      → get k (run s os) ≡ none
  unfolding run step count_adds
  get_absent_run k s [] v lt e h = e
  get_absent_run k s (adds a ∷ os) v lt e h =
      get_absent_run k (add a s).1 os (add-Inv a s (omega arith) v) (omega (arith, add-next_id a s))
        (add-get a s k e lt) (omega (arith, add-next_id a s))
  get_absent_run k s (removes j ∷ os) v lt e h =
      get_absent_run k (remove j s) os (remove-Inv j s v) (omega (arith, remove-next_id j s))
        (remove-get j s k e v) (omega (arith, remove-next_id j s))

  -- A handle that was removed stays invalid: its id is never handed out again before `next_id`
  -- wraps, so a script that keeps a stale id cannot reach another handle with it.
  pub get-removed :
      (k : ℕ) (s : Store A) (os : List (Op A))
      → Inv s
      → k < s.next_id
      → s.next_id + count_adds os < 2 ^ 64
      → get k (run (remove k s) os) ≡ none
  get-removed k s os v lt h =
      get_absent_run k (remove k s) os (remove-Inv k s v) (omega (arith, remove-next_id k s))
        (remove-get_self k s v) (omega (arith, remove-next_id k s))
