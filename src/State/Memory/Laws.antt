-- ===== src/State/Memory/Laws.antt =====
-- Handles by their ids: what `HandleStore::Get` finds after the other operations.
use runtime_system.Base.{ℕ, ◌≡◌, refl, List, Option, some, arith}
use mathlib.Core.Option
use runtime_system.Handles
use runtime_system.Handles.Refinement.{get-add}
use runtime_system.State.{World, Class, Resource, Dirent}
use runtime_system.State.Memory.{
  add_new, drop_replaced, store_handle, set_class, get_handle, as_directory, remove_handle, release,
}

add-id : (o : ℕ) (w : World) → (Handles.add o w.handles).0 ≡ w.handles.next_id
unfolding Handles.add
add-id o w = refl

-- Dropping what `Add` replaces changes neither the store nor where the next object will be.
pub drop_replaced-handles : (w : World) → (drop_replaced w).handles ≡ w.handles
unfolding drop_replaced release
drop_replaced-handles w = ground arith

pub drop_replaced-next_object : (w : World) → (drop_replaced w).next_object ≡ w.next_object
unfolding drop_replaced release
drop_replaced-next_object w = ground arith

-- A handle that was just added is found under its id, at its address, as a `T` exactly if it is one.
pub get_handle-add_new :
    {A : Type 0} (cast : Class → Option A) (c : Class) (w : World)
    → get_handle cast (add_new c w).0 (add_new c w).1
      ≡ Option.map (λ a. (w.next_object, a)) (cast c)
unfolding get_handle add_new store_handle
get_handle-add_new cast c w = ground (
  arith,
  get-add w.next_object w.handles w.handles.next_id,
  add-id w.next_object w,
  drop_replaced-handles w,
  drop_replaced-next_object w,
)

-- A write to the fields of a handle is read back under the id that leads to it.
pub get_handle-set_class :
    {A B : Type 0} (cast : Class → Option A) (cast' : Class → Option B) (c : Class) (id o : ℕ)
    (a : A) (w : World)
    → get_handle cast id w ≡ some (o, a)
    → get_handle cast' id (set_class o c w) ≡ Option.map (λ b. (o, b)) (cast' c)
unfolding get_handle set_class
get_handle-set_class cast cast' c id o a w h = ground arith

pub get_handle-freed :
    {A : Type 0} (cast : Class → Option A) (id : ℕ) (w : World) (log : List Resource)
    → get_handle cast id (record w { freed = log }) ≡ get_handle cast id w
unfolding get_handle
get_handle-freed cast id w log = refl

pub set_class-freed : (o : ℕ) (c : Class) (w : World) → (set_class o c w).freed ≡ w.freed
unfolding set_class
set_class-freed o c w = ground arith

-- A handle that frees nothing in its destructor is removed without a trace in the log.
pub remove_handle-freed :
    (id o : ℕ) (d : List Dirent × ℕ) (w : World)
    → get_handle as_directory id w ≡ some (o, d)
    → (remove_handle id w).freed ≡ w.freed
unfolding get_handle remove_handle release
remove_handle-freed id o d w h = ground arith
