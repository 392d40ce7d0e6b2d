-- ===== src/Handles.antt =====
-- `HandleStore` of handles.h and handles.cpp, over any type of pointers to handles.
-- `std::map<uint64_t, …>` is a list of entries in the order of their keys.
mod Table
pub mod Ids
pub mod Refinement
unfoldable pub use Table.{find, assign, erase, keys}
use runtime_system.Base.{ℕ, ◌+◌, ◌%◌, ◌^◌, List, [], ◌∷◌, Option}

pub record Store {ℓ} (A : Type ℓ) : Type ℓ where
  pub store : List (ℕ × A)
  pub next_id : ℕ

module _ {ℓ} {A : Type ℓ} where
  -- `HandleStore::Init`.
  unfoldable pub init : Store A
  init = record { store = []; next_id = 1 }

  -- `HandleStore::Add`: the id, and the new store. `next_id++` wraps at 2 ^ 64.
  unfoldable pub add : A → Store A → ℕ × Store A
  add handle s =
      let id = s.next_id in
      (id, record { store = assign id handle s.store; next_id = (s.next_id + 1) % 2 ^ 64 })

  -- `HandleStore::Remove`.
  unfoldable pub remove : ℕ → Store A → Store A
  remove id s = record s { store = erase id s.store }

  -- The lookup of `HandleStore::Get`.
  unfoldable pub get : ℕ → Store A → Option A
  get id s = find id s.store

  -- `store.clear()` of `HandleStore::Dispose`.
  unfoldable pub clear : Store A → Store A
  clear s = record s { store = [] }
