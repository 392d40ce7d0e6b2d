-- ===== src/State/Memory/Frame.antt =====
-- What the operations on handles and objects leave alone: the fibers, the queue of `main.cpp` and
-- the contexts that are waited for.
use runtime_system.Base.{
  ℕ, ◌<◌, ◌≤◌, ◌≡◌, refl, sym, ap, ◌∙◌, List, [], ◌∷◌, ◌++◌, none, some, arith, inl, inr,
  Option-cases,
}
use runtime_system.Handles
use runtime_system.Handles.{Store, add, remove}
use runtime_system.Handles.Ids
use runtime_system.Handles.Ids.{Op, adds, removes, run}
use runtime_system.State.{World, Resource, Class}
use runtime_system.State.Memory.{
  new_object, set_class, drop_replaced, store_handle, add_handle, add_new, retain, release,
  release_all, retain_all, remove_handle,
}
use runtime_system.State.Memory.Owned.{Owns, Owns-same, pending_at, pending_of}
use runtime_system.State.Memory.Reading.{
  NoReads, set_class-NoReads, new_object-NoReads, store_handle-NoReads, release-NoReads,
}
use runtime_system.External.{ticked}

-- `t` is what calls of `HandleStore::Add` and `Remove` make of `s`.
abbrev pub IsHistory : Store ℕ → Store ℕ → Type 0
IsHistory s t = (os : List (Op ℕ)) × (t ≡ run s os)

run-append : (s : Store ℕ) (os ps : List (Op ℕ)) → run s (os ++ ps) ≡ run (run s os) ps
unfolding run
run-append s [] ps = refl
run-append s (o ∷ os) ps = run-append (Ids.step s o) os ps

pub IsHistory-refl : (s : Store ℕ) → IsHistory s s
unfolding run
IsHistory-refl s = ([], refl)

pub IsHistory-trans : (s t u : Store ℕ) → IsHistory s t → IsHistory t u → IsHistory s u
IsHistory-trans s t u (os, e) (ps, f) =
    (os ++ ps, f ∙ ap (λ r. run r ps) e ∙ sym (run-append s os ps))

pub add-IsHistory : (o : ℕ) (s t : Store ℕ) → t ≡ (add o s).1 → IsHistory s t
unfolding run Ids.step
add-IsHistory o s t e = (adds o ∷ [], e)

pub remove-IsHistory : (id : ℕ) (s : Store ℕ) → IsHistory s (remove id s)
unfolding run Ids.step
remove-IsHistory id s = (removes id ∷ [], refl)

pub IsHistory-same : (s t : Store ℕ) → t ≡ s → IsHistory s t
unfolding run
IsHistory-same s t e = ([], e)

-- From `w` to `v` no fiber was touched, nothing was queued, and no context of `w` was changed.
pub record Spares (w v : World) : Type 0 where
  pub fibers : v.fibers ≡ w.fibers
  pub current : v.current_fiber ≡ w.current_fiber
  pub main : v.main_fiber ≡ w.main_fiber
  pub next : v.next_fiber ≡ w.next_fiber
  pub queue : v.resumable_fibers ≡ w.resumable_fibers
  pub grows : w.next_context ≤ v.next_context
  pub contexts : (c : ℕ) → c < w.next_context → v.contexts c ≡ w.contexts c

-- From `w` to `v` no fiber was touched, nothing was queued, no context of `w` was changed, and the
-- store was changed by `Add` and `Remove` alone; no context came to another place, but that libuv got
-- a request, or a socket a read, for a new one.
pub record Keeps (w v : World) : Type 0 where
  pub fibers : v.fibers ≡ w.fibers
  pub current : v.current_fiber ≡ w.current_fiber
  pub main : v.main_fiber ≡ w.main_fiber
  pub next : v.next_fiber ≡ w.next_fiber
  pub queue : v.resumable_fibers ≡ w.resumable_fibers
  pub grows : w.next_context ≤ v.next_context
  pub contexts : (c : ℕ) → c < w.next_context → v.contexts c ≡ w.contexts c
  pub history : IsHistory w.handles v.handles
  pub owns : (l : ℕ → ℕ) → Owns l w → Owns l v

pub Spares-Keeps :
    (w v : World)
    → Spares w v
    → IsHistory w.handles v.handles
    → ((l : ℕ → ℕ) → Owns l w → Owns l v)
    → Keeps w v
Spares-Keeps w v p h o = record {
  fibers = p.fibers;
  current = p.current;
  main = p.main;
  next = p.next;
  queue = p.queue;
  grows = p.grows;
  contexts = p.contexts;
  history = h;
  owns = o;
}

pub Keeps-refl : (w : World) → Keeps w w
Keeps-refl w = record {
  fibers = refl;
  current = refl;
  main = refl;
  next = refl;
  queue = refl;
  grows = omega arith;
  contexts = λ c h. refl;
  history = IsHistory-refl w.handles;
  owns = λ l o. o;
}

pub Keeps-trans : (u v w : World) → Keeps u v → Keeps v w → Keeps u w
Keeps-trans u v w p q = record {
  fibers = q.fibers ∙ p.fibers;
  current = q.current ∙ p.current;
  main = q.main ∙ p.main;
  next = q.next ∙ p.next;
  queue = q.queue ∙ p.queue;
  grows = omega (arith, p.grows, q.grows);
  contexts = λ c h. q.contexts c (omega (arith, p.grows)) ∙ p.contexts c h;
  history = IsHistory-trans _ _ _ p.history q.history;
  owns = λ l o. q.owns l (p.owns l o);
}

-- The same with the parts that `Owns` is about.
pub untouched-Keeps :
    (w v : World)
    → Spares w v
    → IsHistory w.handles v.handles
    → v.contexts ≡ w.contexts
    → v.next_context ≡ w.next_context
    → v.requests ≡ w.requests
    → NoReads w v
    → Keeps w v
untouched-Keeps w v p h c n r o = Spares-Keeps w v p h (λ l. Owns-same l w v c n p.queue r o)

pub ticked-Keeps : (w : World) → Keeps w (ticked w)
unfolding ticked pending_at
ticked-Keeps w =
    untouched-Keeps _ _ (ground arith) (IsHistory-same _ _ refl) refl refl refl (λ o c e. e)

pub set_class-Keeps :
    (o : ℕ) (k : Class) (w : World)
    → ((c : ℕ) → pending_of k ≡ some c → pending_at o w ≡ some c)
    → Keeps w (set_class o k w)
unfolding set_class
set_class-Keeps o k w h =
    untouched-Keeps _ _ (ground arith) (IsHistory-same _ _ (ground arith)) (ground arith)
      (ground arith) (ground arith) (set_class-NoReads o k w h)

pub release-Keeps : (o : ℕ) (w : World) → Keeps w (release o w)
unfolding release
release-Keeps o w =
    untouched-Keeps _ _ (ground arith) (IsHistory-same _ _ (ground arith)) (ground arith)
      (ground arith) (ground arith) (release-NoReads o w)

pub new_object-Keeps : (k : Class) (w : World) → pending_of k ≡ none → Keeps w (new_object k w).1
unfolding new_object
new_object-Keeps k w h =
    untouched-Keeps _ _ (ground arith) (IsHistory-same _ _ (ground arith)) refl refl refl
      (new_object-NoReads k w h)

store_handle-Keeps : (o : ℕ) (w : World) → Keeps w (store_handle o w).1
unfolding store_handle
store_handle-Keeps o w =
    untouched-Keeps _ _ (ground arith) (add-IsHistory o w.handles _ (ground arith)) (ground arith)
      (ground arith) (ground arith) (store_handle-NoReads o w)

drop_replaced-Keeps : (w : World) → Keeps w (drop_replaced w)
unfolding drop_replaced
drop_replaced-Keeps w = elim (Option-cases (Handles.get w.handles.next_id w.handles)) [
  | inl e ↦ rw (e, drop_replaced) (Keeps-refl w)
  | inr (o, e) ↦ rw (e, drop_replaced) (release-Keeps o w)
]

pub add_handle-Keeps : (o : ℕ) (w : World) → Keeps w (add_handle o w).1
unfolding add_handle
add_handle-Keeps o w = Keeps-trans _ _ _ (drop_replaced-Keeps w) (store_handle-Keeps o _)

pub add_new-Keeps : (k : Class) (w : World) → pending_of k ≡ none → Keeps w (add_new k w).1
unfolding add_new
add_new-Keeps k w h =
    Keeps-trans _ _ _ (drop_replaced-Keeps w)
      (Keeps-trans _ _ _ (new_object-Keeps k (drop_replaced w) h) (store_handle-Keeps _ _))

pub retain-Keeps : (o : ℕ) (w : World) → Keeps w (retain o w)
unfolding retain pending_at
retain-Keeps o w =
    untouched-Keeps _ _ (ground arith) (IsHistory-same _ _ refl) refl refl refl (λ p c e. e)

pub retain_all-Keeps : (os : List ℕ) (w : World) → Keeps w (retain_all os w)
unfolding retain_all
retain_all-Keeps [] w = Keeps-refl w
retain_all-Keeps (o ∷ os) w = Keeps-trans _ _ _ (retain-Keeps o w) (retain_all-Keeps os _)

pub release_all-Keeps : (os : List ℕ) (w : World) → Keeps w (release_all os w)
unfolding release_all
release_all-Keeps [] w = Keeps-refl w
release_all-Keeps (o ∷ os) w = Keeps-trans _ _ _ (release-Keeps o w) (release_all-Keeps os _)

erased-Keeps : (id : ℕ) (w : World) → Keeps w (record w { handles = remove id w.handles })
unfolding pending_at
erased-Keeps id w =
    untouched-Keeps _ _ (ground arith) (remove-IsHistory id w.handles) refl refl refl (λ o c e. e)

pub remove_handle-Keeps : (id : ℕ) (w : World) → Keeps w (remove_handle id w)
unfolding remove_handle
remove_handle-Keeps id w = elim (Option-cases (Handles.get id w.handles)) [
  | inl e ↦ rw (e, remove_handle) (erased-Keeps id w)
  | inr (o, e) ↦ rw (e, remove_handle) (Keeps-trans _ _ _ (erased-Keeps id w) (release-Keeps o _))
]

pub freed-Keeps : (log : List Resource) (w : World) → Keeps w (record w { freed = log })
unfolding pending_at
freed-Keeps log w =
    untouched-Keeps _ _ (ground arith) (IsHistory-same _ _ refl) refl refl refl (λ o c e. e)
