-- ===== src/Machine/Frame/Files.antt =====
-- What the primitives of primitives_fs.cpp leave alone.
use runtime_system.Base.{ℕ, ℤ, String, List, [], ◌∷◌, Option, none, some, get_elem?, arith}
use runtime_system.Value.{View}
use runtime_system.State.{World, Operation, FsType, Dirent}
use runtime_system.State.Memory.{get_handle, as_file, as_directory}
use runtime_system.State.Memory.Frame.{
  Keeps, Keeps-refl, Keeps-trans, set_class-Keeps, remove_handle-Keeps, freed-Keeps,
}
use runtime_system.External.{External}
use runtime_system.Machine.Frame.Rules.{Leaves, start-Keeps, by_lookup}
use runtime_system.Fs.{
  fs_open, fs_read, fs_write, fs_close, fs_status, handle_only_call, path_only_call, fs_dir_open,
  fs_dir_read, fs_dir_close, free_name, free_names, close_directory,
}

free_name-Keeps : (n : Option String) (w : World) → Keeps w (free_name n w)
free_name-Keeps none w = Keeps-refl w
free_name-Keeps (some n) w = freed-Keeps _ w

free_names-Keeps : (ds : List Dirent) (w : World) → Keeps w (free_names ds w)
unfolding free_names
free_names-Keeps [] w = Keeps-refl w
free_names-Keeps (d ∷ ds) w = Keeps-trans _ _ _ (free_name-Keeps d.name w) (free_names-Keeps ds _)

module _ (x : External) (w : World) where
  pub fs_open-Keeps : (p : String) (f m : ℤ) → Leaves (Keeps w) (fs_open x p f m w)
  unfolding fs_open
  fs_open-Keeps p f m = start-Keeps x _ _ _ _ w

  pub fs_read-Keeps : (id : ℕ) (v : View) (p : ℤ) → Leaves (Keeps w) (fs_read x id v p w)
  unfolding fs_read
  fs_read-Keeps id v p =
      by_lookup (Keeps w) _ _ (get_handle as_file id w) (Keeps-refl w)
        (λ (o, (fd, path)). start-Keeps x _ _ _ _ w)

  pub fs_write-Keeps : (id : ℕ) (v : View) (p : ℤ) → Leaves (Keeps w) (fs_write x id v p w)
  unfolding fs_write
  fs_write-Keeps id v p =
      by_lookup (Keeps w) _ _ (get_handle as_file id w) (Keeps-refl w)
        (λ (o, (fd, path)). start-Keeps x _ _ _ _ w)

  pub fs_close-Keeps : (id : ℕ) → Leaves (Keeps w) (fs_close x id w)
  unfolding fs_close
  fs_close-Keeps id =
      by_lookup (Keeps w) _ _ (get_handle as_file id w) (Keeps-refl w)
        (λ (o, (fd, path)). start-Keeps x _ _ _ _ w)

  pub fs_status-Keeps : (id : ℕ) → Leaves (Keeps w) (fs_status x id w)
  unfolding fs_status
  fs_status-Keeps id =
      by_lookup (Keeps w) _ _ (get_handle as_file id w) (Keeps-refl w)
        (λ (o, (fd, path)). start-Keeps x _ _ _ _ w)

  pub handle_only_call-Keeps :
      (t : FsType) (op : ℤ → Operation) (id : ℕ) → Leaves (Keeps w) (handle_only_call x t op id w)
  unfolding handle_only_call
  handle_only_call-Keeps t op id =
      by_lookup (Keeps w) _ _ (get_handle as_file id w) (Keeps-refl w)
        (λ (o, (fd, path)). start-Keeps x _ _ _ _ w)

  pub path_only_call-Keeps :
      (t : FsType) (op : String → Operation) (p : String)
      → Leaves (Keeps w) (path_only_call x t op p w)
  unfolding path_only_call
  path_only_call-Keeps t op p = start-Keeps x _ _ _ _ w

  pub fs_dir_open-Keeps : (p : String) → Leaves (Keeps w) (fs_dir_open x p w)
  unfolding fs_dir_open
  fs_dir_open-Keeps p = start-Keeps x _ _ _ _ w

module _ (w : World) where
  pub fs_dir_read-Keeps : (id : ℕ) → Leaves (Keeps w) (fs_dir_read id w)
  unfolding fs_dir_read
  fs_dir_read-Keeps id =
      by_lookup (Keeps w) _ _ (get_handle as_directory id w) (Keeps-refl w) λ (o, (es, i)).
        by_lookup (Keeps w) _ _ (get_elem? es i) (Keeps-refl w) λ d.
          by_lookup (Keeps w) _ _ d.name tt λ n.
            Keeps-trans _ _ _ (set_class-Keeps o _ w (λ c e. ground arith))
              (free_name-Keeps (some n) _)

  pub fs_dir_close-Keeps : (id : ℕ) → Leaves (Keeps w) (fs_dir_close id w)
  unfolding fs_dir_close close_directory
  fs_dir_close-Keeps id =
      by_lookup (Keeps w) _ _ (get_handle as_directory id w) (Keeps-refl w) λ (o, (es, i)).
        Keeps-trans _ _ _
          (Keeps-trans _ _ _ (free_names-Keeps es w) (set_class-Keeps o _ _ (λ c e. ground arith)))
          (remove_handle-Keeps id _)
