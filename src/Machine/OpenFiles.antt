-- ===== src/Machine/OpenFiles.antt =====
-- A file from `FS_Open` to `FS_Close`: what the calls in between and those that follow do.
use runtime_system.Base.{
  ℕ, ◌+◌, ◌^◌, ◌<◌, ℤ, ◌≡◌, refl, sym, ap, subst, inl, inr, Option-cases, ◌∙◌, String, List, [],
  ◌∷◌, none, some, arith,
}
use runtime_system.Handles
use runtime_system.Handles.Ids.{Op, Inv, run, count_adds, get-removed}
use runtime_system.Value.{Value, View, id_value, undefined, buf_of_view}
use runtime_system.State.{
  World, Class, file, Dirent, Stat, FsType, Operation, Waits, Cont, give_result,
}
use runtime_system.State.Memory.{
  get_handle, as_file, release, release_all, remove_handle, add_new, store_handle,
}
use runtime_system.State.Memory.Laws.{get_handle-add_new, drop_replaced-handles}
use runtime_system.State.Memory.Frame.{remove_handle-Keeps}
use runtime_system.External.{External}
use runtime_system.Primitive.{replies, throw, start, reply_of, resume_value, conclude}
use runtime_system.Fs.{fs_success, fs_read, fs_write, fs_close, fs_context}
use runtime_system.Machine.Dispatch.{after_yield}
use runtime_system.Machine.Delivery.{resume_value-release_all}

add_new-id : (c : Class) (w : World) → (add_new c w).0 ≡ w.handles.next_id
unfolding add_new store_handle
add_new-id c w = ap (λ s. s.next_id) (drop_replaced-handles w)

fs_read-found :
    (x : External) (id o : ℕ) (fd : ℤ) (path : String) (u : World) (buffer : View) (position : ℤ)
    → get_handle as_file id u ≡ some (o, (fd, path))
    → (fs_read x id buffer position u
        ≡ start x
            (fs_context FsType.fs_read path)
            (Operation.read_file fd (buf_of_view buffer) position)
            give_result
            (o ∷ [])
            u)
      × (fs_write x id buffer position u
          ≡ start x
              (fs_context FsType.fs_write path)
              (Operation.write_file fd (buf_of_view buffer) position)
              give_result
              (o ∷ [])
              u)
unfolding fs_read fs_write
fs_read-found x id o fd path u buffer position e = (rw (e, fs_read) refl, rw (e, fs_write) refl)

module _ (r : ℤ) (path : String) (ds : List Dirent) (s : Stat) (w : World) where
  -- The world after the result of `FS_Open` was made.
  abbrev opened : World
  opened = (fs_success r FsType.fs_open path ds s w).1

  opened-get_handle : get_handle as_file w.handles.next_id opened ≡ some (w.next_object, (r, path))
  unfolding fs_success
  opened-get_handle =
      subst (λ id. get_handle as_file id opened ≡ some (w.next_object, (r, path)))
        (add_new-id (file r path) w) (get_handle-add_new as_file (file r path) w)

  -- The id that the result carries.
  opened-id : (fs_success r FsType.fs_open path ds s w).0 ≡ id_value w.handles.next_id
  unfolding fs_success
  opened-id = ap id_value (add_new-id (file r path) w)

-- The id that `FS_Open` gives leads to the descriptor that libuv gave: `FS_Read` and `FS_Write` with
-- it ask for that descriptor, and their errors name the path.
pub fs_open-fs_read :
    (x : External) (r : ℤ) (path : String) (ds : List Dirent) (s : Stat) (w : World) (v : Value)
    (u : World) (buffer : View) (position : ℤ)
    → fs_success r FsType.fs_open path ds s w ≡ (v, u)
    → (v ≡ id_value w.handles.next_id)
      × (fs_read x w.handles.next_id buffer position u
          ≡ start x
              (fs_context FsType.fs_read path)
              (Operation.read_file r (buf_of_view buffer) position)
              give_result
              (w.next_object ∷ [])
              u)
      × (fs_write x w.handles.next_id buffer position u
          ≡ start x
              (fs_context FsType.fs_write path)
              (Operation.write_file r (buf_of_view buffer) position)
              give_result
              (w.next_object ∷ [])
              u)
fs_open-fs_read x r path ds s w v u buffer position e =
    let (reads, writes) = fs_read-found x w.handles.next_id w.next_object r path u buffer position (
      subst (λ t. get_handle as_file w.handles.next_id t ≡ some (w.next_object, (r, path)))
        (ap (λ p. p.1) e) (opened-get_handle r path ds s w)) in
    (sym (ap (λ p. p.0) e) ∙ opened-id r path ds s w, reads, writes)

release-handles : (o : ℕ) (w : World) → (release o w).handles ≡ w.handles
unfolding release
release-handles o w = ground arith

release_all-handles : (os : List ℕ) (w : World) → (release_all os w).handles ≡ w.handles
unfolding release_all
release_all-handles [] w = refl
release_all-handles (o ∷ os) w = release_all-handles os (release o w) ∙ release-handles o w

remove_handle-handles :
    (id : ℕ) (w : World) → (remove_handle id w).handles ≡ Handles.remove id w.handles
unfolding remove_handle
remove_handle-handles id w = elim (Option-cases (Handles.get id w.handles)) [
  | inl e ↦ rw (e, remove_handle) refl
  | inr (o, e) ↦ rw (e, remove_handle) (release-handles o _)
]

-- The store behind the removal of an id, and the release of what the waiting code held.
closed_store :
    (id : ℕ) (p : Waits) (w : World)
    → (release_all p.held (remove_handle id w)).handles ≡ Handles.remove id w.handles
closed_store id p w = release_all-handles p.held (remove_handle id w) ∙ remove_handle-handles id w

get_handle-absent :
    (id : ℕ) (w : World) → Handles.get id w.handles ≡ none → get_handle as_file id w ≡ none
unfolding get_handle
get_handle-absent id w e = ground arith

-- No later history of the store makes the id lead to a file.
later-absent :
    (id : ℕ) (w u : World) (os : List (Op ℕ))
    → Inv w.handles
    → id < w.handles.next_id
    → w.handles.next_id + count_adds os < 2 ^ 64
    → u.handles ≡ run (Handles.remove id w.handles) os
    → get_handle as_file id u ≡ none
later-absent id w u os v lt fits history =
    get_handle-absent id u (ap (Handles.get id) history ∙ get-removed id w.handles os v lt fits)

resume_value-remove_handle :
    (id : ℕ) (w : World) → resume_value (remove_handle id w) ≡ resume_value w
unfolding resume_value
resume_value-remove_handle id w =
    let kept = remove_handle-Keeps id w in ground (arith, kept.fibers, kept.current)

-- The calls on files with an id that leads to no file.
file_calls-absent :
    (x : External) (id : ℕ) (buffer : View) (position : ℤ) (u : World)
    → get_handle as_file id u ≡ none
    → (fs_read x id buffer position u ≡ throw "Invalid file handle" u)
      × (fs_write x id buffer position u ≡ throw "Invalid file handle" u)
      × (fs_close x id u ≡ throw "Invalid file handle" u)
unfolding fs_read fs_write fs_close
file_calls-absent x id buffer position u e = (ground arith, ground arith, ground arith)

-- When `FS_Close` goes on behind its yield, with an id that was handed out and a store in order,
-- it replies with what libuv reported, and the store has lost the id, also if libuv reported an
-- error. In any later world, whose store comes from that one by a history of `Add` and `Remove` in
-- which `next_id` does not wrap, reading, writing and closing with the id throw.
pub fs_close-file_calls :
    (x : External) (id : ℕ) (p : Waits) (w : World) (v : Value) (os : List (Op ℕ)) (later : World)
    (buffer : View) (position : ℤ)
    → Inv w.handles
    → id < w.handles.next_id
    → w.handles.next_id + count_adds os < 2 ^ 64
    → later.handles ≡ run (Handles.remove id w.handles) os
    → resume_value w ≡ some v
    → ((u : World) × (after_yield (Cont.close_file id p) w
          ≡ replies (reply_of (λ t. undefined) v) u)
        × (u.handles ≡ Handles.remove id w.handles))
      × (fs_read x id buffer position later ≡ throw "Invalid file handle" later)
      × (fs_write x id buffer position later ≡ throw "Invalid file handle" later)
      × (fs_close x id later ≡ throw "Invalid file handle" later)
unfolding after_yield conclude
fs_close-file_calls x id p w v os later buffer position i lt fits history e =
    let (reads, writes, closes) =
      file_calls-absent x id buffer position later (later-absent id w later os i lt fits history) in
    (
      (
        release_all p.held (remove_handle id w),
        ground (
          arith,
          resume_value-release_all p.held (remove_handle id w),
          resume_value-remove_handle id w,
        ),
        closed_store id p w,
      ),
      reads,
      writes,
      closes,
    )
