-- ===== src/Fs/Iteration.antt =====
-- Reading a directory entry by entry, and closing it.
use mathlib.Core.Option
use mathlib.Core.Path.{ap₂}
use runtime_system.Base.{
  ℕ, zero, suc, ◌+◌, ℤ, ◌≡◌, refl, sym, ap, ◌∙◌, String, List, [], ◌∷◌, ◌++◌, map, Option, none,
  some, arith, length, get_elem?, set, All, All-append, append-cons, length-append,
}
use runtime_system.Value.{Reply, returned, null, undefined, object, text, integer}
use runtime_system.State.{World, Dirent, directory, Resource, entry_name}
use runtime_system.State.Memory.{get_handle, as_directory, set_class, remove_handle}
use runtime_system.State.Memory.Laws.{
  get_handle-set_class, get_handle-freed, set_class-freed, remove_handle-freed,
}
use runtime_system.Primitive.{replies}
use runtime_system.Fs.Directories.{
  fs_dir_read, fs_dir_close, free_name, free_names, close_directory,
}
use runtime_system.Fs.Results.{entries_of}

-- `n` calls of `FS_DirRead`: their replies, and the world after them.
pub read_times : ℕ → (id : ℕ) → World → Option (List Reply × World)
read_times zero id w = some ([], w)
read_times (suc n) id w = elim (fs_dir_read id w) [
  | replies r w' ↦ Option.map (λ (rs, v). (r ∷ rs, v)) (read_times n id w')
  | _ ↦ none
]

-- What `FS_DirRead` returns for an entry.
abbrev pub entry_reply : String × ℤ → Reply
entry_reply (n, t) = returned (object (("name", text n) ∷ ("type", integer t) ∷ []))

-- The log of freed resources after the names of some entries were freed in order.
abbrev pub push_names : List (String × ℤ) → List Resource → List Resource
push_names [] log = log
push_names ((n, t) ∷ ds) log = push_names ds (entry_name n ∷ log)

-- The id is that of an open directory at `o` whose entries up to `index` were read and freed, and
-- whose others are `left`.
pub record IsOpen (id o : ℕ) (read : List Dirent) (left : List (String × ℤ)) (w : World)
    : Type 0 where
  pub opened : get_handle as_directory id w ≡ some (o, (read ++ entries_of left, length read))
  pub nameless : All (λ d. d.name ≡ none) read

get_elem?-middle :
    (xs ys : List Dirent) (d : Dirent) → get_elem? (xs ++ d ∷ ys) (length xs) ≡ some d
get_elem?-middle [] ys d = refl
get_elem?-middle (x ∷ xs) ys d = get_elem?-middle xs ys d

set-middle : (xs ys : List Dirent) (d e : Dirent) → set (xs ++ d ∷ ys) (length xs) e ≡ xs ++ e ∷ ys
set-middle [] ys d e = refl
set-middle (x ∷ xs) ys d e = ap (◌∷◌ x) (set-middle xs ys d e)

get_elem?-end : (xs : List Dirent) → get_elem? (xs ++ []) (length xs) ≡ none
get_elem?-end [] = refl
get_elem?-end (x ∷ xs) = get_elem?-end xs

-- The world after `FS_DirRead` has returned the entry behind those in `read`.
abbrev advanced :
    (o : ℕ) (read : List Dirent) (n : String) (t : ℤ) (left : List (String × ℤ)) → World → World
advanced o read n t left w =
    let entry : Dirent = record { name = none; type = t } in
    let v = set_class o (directory (read ++ entry ∷ entries_of left) (length read + 1)) w in
    record v { freed = entry_name n ∷ v.freed }

module _ (id o : ℕ) (read : List Dirent) (n : String) (t : ℤ) (left : List (String × ℤ)) (w : World)
    (h : IsOpen id o read ((n, t) ∷ left) w) where
  fs_dir_read_one : fs_dir_read id w ≡ replies (entry_reply (n, t)) (advanced o read n t left w)
  unfolding fs_dir_read
  fs_dir_read_one = ground (
    arith,
    get_elem?-middle read (entries_of left) (record { name = some n; type = t }),
    set-middle read (entries_of left) (record { name = some n; type = t })
        (record { name = none; type = t }),
  )

  advanced-IsOpen :
      IsOpen id o (read ++ record { name = none; type = t } ∷ []) left (advanced o read n t left w)
  advanced-IsOpen = record {
    opened =
        get_handle-freed as_directory id _ _
        ∙ get_handle-set_class as_directory as_directory _ id o _ w h.opened
        ∙ ap₂ (λ (es : List Dirent) (i : ℕ). some (o, (es, i)))
            (sym (append-cons read (entries_of left) (record { name = none; type = t })))
            (omega (arith, length-append read (record { name = none; type = t } ∷ [])));
    nameless = All-append (λ d. d.name ≡ none) read _ h.nameless (refl, tt);
  }

read_times-suc :
    (id n : ℕ) (w next : World) {r : Reply} {rs : List Reply} {v : World}
    → fs_dir_read id w ≡ replies r next
    → read_times n id next ≡ some (rs, v)
    → read_times (suc n) id w ≡ some (r ∷ rs, v)
unfolding read_times
read_times-suc id n w next e f = ground arith

-- Reading the entries `some_left`: each is returned once, in order, and its name is freed.
reads :
    (id o : ℕ) (read : List Dirent) (some_left left : List (String × ℤ)) (w : World)
    → IsOpen id o read (some_left ++ left) w
    → (v : World) × (read' : List Dirent) × (read_times (length some_left) id w
        ≡ some (map entry_reply some_left, v))
      × (v.freed ≡ push_names some_left w.freed)
      × IsOpen id o read' left v
unfolding read_times
reads id o read [] left w h = (w, read, refl, refl, h)
reads id o read ((n, t) ∷ ds) left w h =
    let next = advanced o read n t (ds ++ left) w in
    let (v, read', replies_eq, log, open') =
      reads id o _ ds left next (advanced-IsOpen id o read n t (ds ++ left) w h) in
    (
      v,
      read',
      read_times-suc id (length ds) w next (fs_dir_read_one id o read n t (ds ++ left) w h)
          replies_eq,
      log ∙ ap (λ l. push_names ds (entry_name n ∷ l)) (set_class-freed o _ w),
      open',
    )

-- At the end `FS_DirRead` returns null and changes nothing.
read_end :
    (id o : ℕ) (read : List Dirent) (w : World)
    → IsOpen id o read [] w
    → fs_dir_read id w ≡ replies (returned null) w
unfolding fs_dir_read
read_end id o read w h = ground (arith, get_elem?-end read)

free_names-push_names :
    (read : List Dirent) (left : List (String × ℤ)) (w : World)
    → All (λ d. d.name ≡ none) read
    → (free_names (read ++ entries_of left) w).freed ≡ push_names left w.freed
unfolding free_names
free_names-push_names [] [] w h = refl
free_names-push_names [] ((n, t) ∷ left) w h = free_names-push_names [] left _ tt
free_names-push_names (d ∷ read) left w h = ground (arith, free_names-push_names read left w h.1)

get_handle-free_name :
    (id : ℕ) (n : Option String) (w : World)
    → get_handle as_directory id (free_name n w) ≡ get_handle as_directory id w
get_handle-free_name id none w = refl
get_handle-free_name id (some n) w = get_handle-freed as_directory id w _

get_handle-free_names :
    (id : ℕ) (ds : List Dirent) (w : World)
    → get_handle as_directory id (free_names ds w) ≡ get_handle as_directory id w
unfolding free_names
get_handle-free_names id [] w = refl
get_handle-free_names id (d ∷ ds) w =
    get_handle-free_names id ds _ ∙ get_handle-free_name id d.name w

push_names-append :
    (xs ys : List (String × ℤ)) (log : List Resource)
    → push_names (xs ++ ys) log ≡ push_names ys (push_names xs log)
push_names-append [] ys log = refl
push_names-append ((n, t) ∷ xs) ys log = push_names-append xs ys (entry_name n ∷ log)

module _ (id o : ℕ) (read : List Dirent) (left : List (String × ℤ)) (w : World)
    (h : IsOpen id o read left w) where
  -- The world after `FS_DirClose`.
  abbrev closed : World
  closed = remove_handle id (close_directory o (read ++ entries_of left) (length read) w)

  fs_dir_close-closed : fs_dir_close id w ≡ replies (returned undefined) closed
  unfolding fs_dir_close
  fs_dir_close-closed = ground arith

  closed-freed : closed.freed ≡ push_names left w.freed
  unfolding close_directory
  closed-freed =
      remove_handle-freed id o ([], length read) _
        (get_handle-set_class as_directory as_directory _ id o _ _
          (get_handle-free_names id (read ++ entries_of left) w ∙ h.opened))
      ∙ set_class-freed o _ _
      ∙ free_names-push_names read left w h.nameless

-- A directory that is read entry by entry gives each entry once, in order, and when it is closed,
-- after any number of reads, the name of each of its entries has been freed once, and nothing else.
pub read_times-close :
    (id o : ℕ) (some_left left : List (String × ℤ)) (w : World)
    → IsOpen id o [] (some_left ++ left) w
    → (v u : World) × (read_times (length some_left) id w ≡ some (map entry_reply some_left, v))
      × (fs_dir_close id v ≡ replies (returned undefined) u)
      × (u.freed ≡ push_names (some_left ++ left) w.freed)
read_times-close id o some_left left w h =
    let (v, read', all, log, open') = reads id o [] some_left left w h in
    (
      v,
      closed id o read' left v open',
      all,
      fs_dir_close-closed id o read' left v open',
      closed-freed id o read' left v open'
          ∙ ap (push_names left) log
          ∙ sym (push_names-append some_left left w.freed),
    )

-- A directory that was read to its end gives null from then on, and nothing changes.
pub read_times-end :
    (id o : ℕ) (entries : List (String × ℤ)) (w : World)
    → IsOpen id o [] (entries ++ []) w
    → (v : World) × (read_times (length entries) id w ≡ some (map entry_reply entries, v))
      × (fs_dir_read id v ≡ replies (returned null) v)
read_times-end id o entries w h =
    let (v, read', all, log, open') = reads id o [] entries [] w h in
    (v, all, read_end id o read' v open')
