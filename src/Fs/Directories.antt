-- ===== src/Fs/Directories.antt =====
-- primitives_fs.cpp: open directories, and the `Close` of its handles.

use runtime_system.Base.{ℕ, ◌+◌, ℤ, String, List, [], ◌∷◌, Option, none, some, get_elem?, set}
use runtime_system.Value.{undefined, null, object, integer, text}
use runtime_system.State.{World, directory, Dirent, entry_name}
use runtime_system.State.Memory.{get_handle, as_directory, set_class, remove_handle}
use runtime_system.External.{ticked}
use runtime_system.Primitive.{Outcome, aborts, throw, give}

-- `free((void*)dent.name); dent.name = nullptr;`
abbrev pub free_name : Option String → World → World
free_name none w = w
free_name (some n) w = record w { freed = entry_name n ∷ w.freed }

abbrev without_name : Dirent → Dirent
without_name d = record d { name = none }

-- The object that `FS_DirRead` returns; a null name is not a string.
read_entry : ℕ → List Dirent → ℕ → Dirent → World → Outcome
read_entry o entries index d w = elim d.name [
  | none ↦ aborts
  | some n ↦ give (object (("name", text n) ∷ ("type", integer d.type) ∷ [])) (
      free_name (some n)
        (set_class o (directory (set entries index (without_name d)) (index + 1)) w))
]

-- `FS_DirRead`.
unfoldable pub fs_dir_read : (id : ℕ) → World → Outcome
unfolding read_entry
fs_dir_read id w = elim (get_handle as_directory id w) [
  | none ↦ throw "Invalid directory handle" w
  | some (o, (entries, index)) ↦ elim (get_elem? entries index) [
    | none ↦ give null w
    | some d ↦ read_entry o entries index d w
  ]
]

-- The loop of `DirectoryHandle::Close`.
unfoldable pub free_names : List Dirent → World → World
free_names [] w = w
free_names (d ∷ ds) w = free_names ds (free_name d.name w)

-- `DirectoryHandle::Close` of the object at an address.
unfoldable pub close_directory : ℕ → List Dirent → ℕ → World → World
unfolding free_names
close_directory o entries index w = set_class o (directory [] index) (free_names entries w)

-- `FileHandle::Close`.
unfoldable pub close_file_handle : (fd : ℤ) → World → World
close_file_handle fd w = record (ticked w) { closed_files = fd ∷ w.closed_files }

-- `FS_DirClose`.
unfoldable pub fs_dir_close : (id : ℕ) → World → Outcome
unfolding close_directory
fs_dir_close id w = elim (get_handle as_directory id w) [
  | none ↦ throw "Invalid directory handle" w
  | some (o, (entries, index)) ↦
      give undefined (remove_handle id (close_directory o entries index w))
]
