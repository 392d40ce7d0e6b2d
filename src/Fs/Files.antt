-- ===== src/Fs/Files.antt =====
-- primitives_fs.cpp: the primitives that make a request and wait for it.

use runtime_system.Base.{ℕ, ℤ, pos, String, [], ◌∷◌, none, some}
use runtime_system.Value.{View, buf_of_view}
use runtime_system.State.{
  World, Class, file, directory, Dirent, Kind, Stat, FsType, Operation, AsyncContext, give_result,
  give_undefined, entry_name,
}
use runtime_system.State
use runtime_system.State.Memory.{get_handle, as_file}
use runtime_system.External.{External}
use runtime_system.Primitive.{Outcome, throw, start}

-- `FSSyscallName`.
unfoldable pub fs_syscall_name : FsType → String
fs_syscall_name FsType.fs_open = "open"
fs_syscall_name FsType.fs_close = "close"
fs_syscall_name FsType.fs_read = "read"
fs_syscall_name FsType.fs_write = "write"
fs_syscall_name FsType.fs_unlink = "unlink"
fs_syscall_name FsType.fs_mkdir = "mkdir"
fs_syscall_name FsType.fs_rmdir = "rmdir"
fs_syscall_name FsType.fs_scandir = "scandir"
fs_syscall_name FsType.fs_stat = "stat"
fs_syscall_name FsType.fs_fstat = "fstat"
fs_syscall_name FsType.fs_fsync = "fsync"
fs_syscall_name FsType.fs_fdatasync = "fdatasync"
fs_syscall_name FsType.fs_custom = "fs_op"

-- An `uv_stat_t` before it is written.
abbrev pub no_stat : Stat
no_stat = record {
  size = pos 0;
  mode = pos 0;
  uid = pos 0;
  gid = pos 0;
  atime = (0, 0);
  mtime = (0, 0);
}

-- `new FSContext(Fiber::get_current(), path)` of a request of a type.
abbrev pub fs_context : FsType → String → Kind
fs_context t path = Kind.fs t path [] no_stat

module _ (x : External) where
  -- `FS_Open`.
  unfoldable pub fs_open : (path : String) (flags mode : ℤ) → World → Outcome
  fs_open path flags mode w =
      start x (fs_context FsType.fs_open path) (Operation.open_file path flags mode) give_result []
        w

  -- `FS_Read`.
  unfoldable pub fs_read : (id : ℕ) (buffer : View) (position : ℤ) → World → Outcome
  fs_read id buffer position w = elim (get_handle as_file id w) [
    | none ↦ throw "Invalid file handle" w
    | some (o, (fd, path)) ↦
        start x (fs_context FsType.fs_read path)
          (Operation.read_file fd (buf_of_view buffer) position) give_result (o ∷ []) w
  ]

  -- `FS_Write`.
  unfoldable pub fs_write : (id : ℕ) (buffer : View) (position : ℤ) → World → Outcome
  fs_write id buffer position w = elim (get_handle as_file id w) [
    | none ↦ throw "Invalid file handle" w
    | some (o, (fd, path)) ↦
        start x (fs_context FsType.fs_write path)
          (Operation.write_file fd (buf_of_view buffer) position) give_result (o ∷ []) w
  ]

  -- `FS_Close`, up to its `Fiber::yield()`.
  unfoldable pub fs_close : (id : ℕ) → World → Outcome
  fs_close id w = elim (get_handle as_file id w) [
    | none ↦ throw "Invalid file handle" w
    | some (o, (fd, path)) ↦
        start x (fs_context FsType.fs_close path) (Operation.close_file fd)
          (State.Cont.close_file id) (o ∷ []) w
  ]

  -- `FS_Status`.
  unfoldable pub fs_status : (id : ℕ) → World → Outcome
  fs_status id w = elim (get_handle as_file id w) [
    | none ↦ throw "Invalid file handle" w
    | some (o, (fd, path)) ↦
        start x (fs_context FsType.fs_fstat path) (Operation.fstat fd) give_result (o ∷ []) w
  ]

  -- `FS_ASYNC_HANDLE_ONLY_CALL`, up to its `Fiber::yield()`; `t` and `op` stand for `func`.
  unfoldable pub handle_only_call : FsType → (ℤ → Operation) → (id : ℕ) → World → Outcome
  handle_only_call t op id w = elim (get_handle as_file id w) [
    | none ↦ throw "Invalid file handle" w
    | some (o, (fd, path)) ↦ start x (fs_context t path) (op fd) give_undefined (o ∷ []) w
  ]

  -- `FS_Sync`.
  unfoldable pub fs_sync : (id : ℕ) → World → Outcome
  unfolding handle_only_call
  fs_sync = handle_only_call FsType.fs_fsync Operation.fsync

  -- `FS_DataSync`.
  unfoldable pub fs_data_sync : (id : ℕ) → World → Outcome
  unfolding handle_only_call
  fs_data_sync = handle_only_call FsType.fs_fdatasync Operation.fdatasync

  -- `FS_ASYNC_PATH_ONLY_CALL`, up to its `Fiber::yield()`.
  unfoldable pub path_only_call : FsType → (String → Operation) → (path : String) → World → Outcome
  path_only_call t op path w = start x (fs_context t path) (op path) give_undefined [] w

  -- `FS_Remove`.
  unfoldable pub fs_remove : (path : String) → World → Outcome
  unfolding path_only_call
  fs_remove = path_only_call FsType.fs_unlink Operation.unlink

  -- `FS_DirMake`.
  unfoldable pub fs_dir_make : (path : String) (mode : ℤ) → World → Outcome
  unfolding path_only_call
  fs_dir_make path mode = path_only_call FsType.fs_mkdir (λ p. Operation.mkdir p mode) path

  -- `FS_DirRemove`.
  unfoldable pub fs_dir_remove : (path : String) → World → Outcome
  unfolding path_only_call
  fs_dir_remove = path_only_call FsType.fs_rmdir Operation.rmdir

  -- `FS_DirOpen`.
  unfoldable pub fs_dir_open : (path : String) → World → Outcome
  fs_dir_open path w =
      start x (fs_context FsType.fs_scandir path) (Operation.scandir path) give_result [] w
