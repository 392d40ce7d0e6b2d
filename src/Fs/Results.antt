-- ===== src/Fs/Results.antt =====
-- primitives_fs.cpp: the callback, and the results of requests.
use mathlib.Core.Option
use runtime_system.Base.{
  ℕ, ◌+◌, ℤ, pos, negsuc, String, List, [], ◌∷◌, ◌++◌, Option, some, is_negative, is_zero,
  if◌then◌else◌, ◌/◌, ◌*◌,
}
use runtime_system.Value.{Value, undefined, object, scalar, bigint, id_value}
use runtime_system.State.{World, file, directory, Dirent, Kind, Stat, FsType}
use runtime_system.State.Memory.{add_new, fill_context, queue_fiber_to_resume}

-- The loop over `uv_fs_scandir_next`.
abbrev pub entries_of : List (String × ℤ) → List Dirent
entries_of [] = []
entries_of ((n, t) ∷ ds) = record { name = some n; type = t } ∷ entries_of ds

-- What `OnFSCallback` writes to its context: `entries` are those that `uv_fs_scandir_next` yields,
-- `stat` what the request points to.
unfoldable pub fill_fs : ℤ → List (String × ℤ) → Stat → Kind → Kind
fill_fs result entries stat (Kind.fs FsType.fs_scandir path ds s) =
    Kind.fs FsType.fs_scandir path (if is_negative result then ds else ds ++ entries_of entries)
      stat
fill_fs result entries stat (Kind.fs t path ds s) = Kind.fs t path ds stat
fill_fs result entries stat k = k

-- `OnFSCallback`.
unfoldable pub on_fs_callback : ℕ → ℤ → List (String × ℤ) → Stat → World → Option World
unfolding fill_fs
on_fs_callback c result entries stat w =
    Option.map (queue_fiber_to_resume c) (fill_context c result (fill_fs result entries stat) w)

-- `(tv_sec * 1000) + (tv_nsec / 1000000)`.
abbrev pub millis : ℕ × ℕ → ℕ
millis (sec, nsec) = sec * 1000 + nsec / 1000000

-- `SET_STAT_FIELD` for each field.
unfoldable pub stat_value : Stat → Value
stat_value s = object (
    ("size", bigint s.size)
    ∷ ("mode", bigint s.mode)
    ∷ ("uid", bigint s.uid)
    ∷ ("gid", bigint s.gid)
    ∷ ("atimeMs", bigint (pos (millis s.atime)))
    ∷ ("mtimeMs", bigint (pos (millis s.mtime)))
    ∷ [])

-- `FSContext::CreateResultValue` when `result` is not negative.
unfoldable pub fs_success : ℤ → FsType → String → List Dirent → Stat → World → Value × World
fs_success result FsType.fs_open path ds s w =
    let (id, w') = add_new (file result path) w in (id_value id, w')
fs_success result FsType.fs_read path ds s w =
    (scalar (bigint (if is_zero result then negsuc 0 else result)), w)
fs_success result FsType.fs_write path ds s w = (scalar (bigint result), w)
fs_success result FsType.fs_scandir path ds s w =
    let (id, w') = add_new (directory ds 0) w in (id_value id, w')
fs_success result FsType.fs_stat path ds s w = (stat_value s, w)
fs_success result FsType.fs_fstat path ds s w = (stat_value s, w)
fs_success result t path ds s w = (undefined, w)
