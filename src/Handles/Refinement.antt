-- ===== src/Handles/Refinement.antt =====
-- The store as its clients see it: a partial function from ids to handles, and a counter.
use mathlib.Core.Path.{fun_ext}
use runtime_system.Base.{
  ℕ, ◌+◌, ◌^◌, ◌<◌, ◌≡◌, refl, ◌∙◌, ap, List, [], ◌∷◌, Option, none, some, arith, update,
}
use runtime_system.Handles.Table.{find-assign, find-erase}
use runtime_system.Handles.{Store, add, remove, get}
use runtime_system.Handles.Ids.{
  Op, adds, removes, Inv, step, run, count_adds, step-Inv, step-next_id, add-next_id,
  remove-next_id,
}

pub record Spec {ℓ} (A : Type ℓ) : Type ℓ where
  pub table : ℕ → Option A
  pub next : ℕ

module _ {ℓ} {A : Type ℓ} where
  -- What the store promises: `Add` binds the next id, `Remove` unbinds one.
  unfoldable pub spec_step : Spec A → Op A → Spec A
  spec_step t (adds a) = record { table = update t.table t.next (some a); next = t.next + 1 }
  spec_step t (removes k) = record t { table = update t.table k none }

  unfoldable pub spec_run : Spec A → List (Op A) → Spec A
  spec_run t [] = t
  spec_run t (o ∷ os) = spec_run (spec_step t o) os

  abbrev pub spec_of : Store A → Spec A
  spec_of s = record { table = λ k. get k s; next = s.next_id }

  pub get-add :
      (a : A) (s : Store A) (k : ℕ) → get k (add a s).1 ≡ update (λ j. get j s) s.next_id (some a) k
  unfolding add get
  get-add a s k = grind (arith, find-assign s.next_id k a s.store)

  pub get-remove :
      (j : ℕ) (s : Store A) (k : ℕ) → Inv s → get k (remove j s) ≡ update (λ i. get i s) j none k
  unfolding remove get
  get-remove j s k v = grind (arith, find-erase j k 0 s.store v.rising)

  step-spec_step :
      (s : Store A) (o : Op A) (os : List (Op A))
      → s.next_id + count_adds (o ∷ os) < 2 ^ 64
      → Inv s
      → spec_of (step s o) ≡ spec_step (spec_of s) o
  unfolding step spec_step count_adds
  step-spec_step s (adds a) os h v =
      λ i. record { table = fun_ext (get-add a s) i; next = add-next_id a s (omega arith) i }
  step-spec_step s (removes j) os h v =
      λ i. record { table = fun_ext (λ k. get-remove j s k v) i; next = remove-next_id j s i }

  -- A history of `Add` and `Remove` on the store is the same history on the partial function, while
  -- `next_id` does not wrap.
  pub run-spec_run :
      (s : Store A) (os : List (Op A))
      → Inv s
      → s.next_id + count_adds os < 2 ^ 64
      → spec_of (run s os) ≡ spec_run (spec_of s) os
  unfolding run spec_run
  run-spec_run s [] v h = refl
  run-spec_run s (o ∷ os) v h =
      run-spec_run (step s o) os (step-Inv s o os h v) (step-next_id s o os h)
      ∙ ap (λ t. spec_run t os) (step-spec_step s o os h v)
