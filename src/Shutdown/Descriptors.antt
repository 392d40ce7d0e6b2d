-- ===== src/Shutdown/Descriptors.antt =====
-- `HandleStore::Dispose` and the files that are still open.
use runtime_system.Base.{
  ℕ, ℤ, String, ◌≡◌, refl, ◌∙◌, ap, List, [], ◌∷◌, Option, none, some, arith, inl, inr,
  Option-cases,
}
use runtime_system.State.{World, Dirent, BaseHandle, Class, file, directory, net, udp}
use runtime_system.State.Memory.{as_file, set_class, release}
use runtime_system.Tcp.{close_net}
use runtime_system.Udp.{close_udp}
use runtime_system.Fs.{close_directory, close_file_handle, free_names, free_name}
use runtime_system.External.{ticked}
use runtime_system.Shutdown.{close_class, close_handle, close_all, release_entries, dispose}

-- The descriptor of the object at an address, if it is a `FileHandle`.
unfoldable pub fd_at : ℕ → World → Option ℤ
fd_at o w = elim (w.objects o) [
  | none ↦ none
  | some h ↦ elim (as_file h.class) [ none ↦ none | some (fd, path) ↦ some fd ]
]

-- A descriptor is put on the log of those that were closed.
abbrev pub log_fd : Option ℤ → List ℤ → List ℤ
log_fd none log = log
log_fd (some fd) log = fd ∷ log

-- The log after the files among some entries were closed in order.
unfoldable pub log_files : List (ℕ × ℕ) → World → List ℤ → List ℤ
log_files [] w log = log
log_files ((id, o) ∷ rest) w log = log_files rest w (log_fd (fd_at o w) log)

-- The names of a directory are not among what is read of a file.
free_name-same :
    (n : Option String) (w : World)
    → ((free_name n w).objects ≡ w.objects) × ((free_name n w).closed_files ≡ w.closed_files)
free_name-same none w = (refl, refl)
free_name-same (some n) w = (refl, refl)

free_names-same :
    (ds : List Dirent) (w : World)
    → ((free_names ds w).objects ≡ w.objects) × ((free_names ds w).closed_files ≡ w.closed_files)
unfolding free_names
free_names-same [] w = (refl, refl)
free_names-same (d ∷ ds) w =
    let (o, c) = free_names-same ds (free_name d.name w) in
    let (o', c') = free_name-same d.name w in (o ∙ o', c ∙ c')

fd_at-objects : (o : ℕ) (v w : World) → v.objects ≡ w.objects → fd_at o v ≡ fd_at o w
unfolding fd_at
fd_at-objects o v w e = rw e refl

-- A write to an object that is no file.
set_class-fd_at :
    (p o : ℕ) (c : Class) (h : BaseHandle) (w : World)
    → w.objects p ≡ some h
    → as_file h.class ≡ none
    → as_file c ≡ none
    → fd_at o (set_class p c w) ≡ fd_at o w
unfolding set_class fd_at
set_class-fd_at p o c h w at a b = ground arith

set_class-closed_files :
    (p : ℕ) (c : Class) (w : World) → (set_class p c w).closed_files ≡ w.closed_files
unfolding set_class
set_class-closed_files p c w = ground arith

close_class-fd_at :
    (p o : ℕ) (c : Class) (h : BaseHandle) (w : World)
    → w.objects p ≡ some h
    → h.class ≡ c
    → fd_at o (close_class p c w) ≡ fd_at o w
unfolding close_class close_directory close_file_handle fd_at ticked
close_class-fd_at p o (file fd path) h w at e = refl
close_class-fd_at p o (directory es i) h w at e =
    set_class-fd_at p o (directory [] i) h (free_names es w)
      (ap (λ (f : ℕ → Option BaseHandle). f p) (free_names-same es w).0 ∙ at) (ap as_file e) refl
    ∙ fd_at-objects o (free_names es w) w (free_names-same es w).0
close_class-fd_at p o (net n) h w at e = set_class-fd_at p o _ h w at (ap as_file e) refl
close_class-fd_at p o (udp u) h w at e = set_class-fd_at p o _ h w at (ap as_file e) refl
close_class-fd_at p o c h w at e = refl

close_class-closed_files :
    (o : ℕ) (c : Class) (h : BaseHandle) (w : World)
    → w.objects o ≡ some h
    → h.class ≡ c
    → (close_class o c w).closed_files ≡ log_fd (fd_at o w) w.closed_files
unfolding close_class close_directory close_file_handle fd_at
close_class-closed_files o (file fd path) h w at e = ground arith
close_class-closed_files o (directory es i) h w at e =
    ground
      (arith, (free_names-same es w).1, set_class-closed_files o (directory [] i) (free_names es w))
close_class-closed_files o (net n) h w at e =
    ground (arith, set_class-closed_files o (net (close_net n)) w)
close_class-closed_files o (udp u) h w at e =
    ground (arith, set_class-closed_files o (udp (close_udp u)) w)
close_class-closed_files o c h w at e = ground arith

close_handle-fd_at : (p o : ℕ) (w : World) → fd_at o (close_handle p w) ≡ fd_at o w
unfolding close_handle
close_handle-fd_at p o w = elim (Option-cases (w.objects p)) [
  | inl e ↦ rw (e, close_handle) refl
  | inr (h, e) ↦ rw (e, close_handle) (close_class-fd_at p o h.class h w e refl)
]

closed_none :
    (o : ℕ) (w : World) → w.objects o ≡ none → w.closed_files ≡ log_fd (fd_at o w) w.closed_files
unfolding fd_at
closed_none o w e = ground arith

close_handle-closed_files :
    (o : ℕ) (w : World) → (close_handle o w).closed_files ≡ log_fd (fd_at o w) w.closed_files
unfolding close_handle
close_handle-closed_files o w = elim (Option-cases (w.objects o)) [
  | inl e ↦ rw (e, close_handle) (closed_none o w e)
  | inr (h, e) ↦ rw (e, close_handle) (close_class-closed_files o h.class h w e refl)
]

log_files-close_handle :
    (es : List (ℕ × ℕ)) (p : ℕ) (w : World) (log : List ℤ)
    → log_files es (close_handle p w) log ≡ log_files es w log
unfolding log_files
log_files-close_handle [] p w log = refl
log_files-close_handle ((id, o) ∷ es) p w log =
    log_files-close_handle es p w _
    ∙ ap (λ fd. log_files es w (log_fd fd log)) (close_handle-fd_at p o w)

close_all-closed_files :
    (es : List (ℕ × ℕ)) (w : World) → (close_all es w).closed_files ≡ log_files es w w.closed_files
unfolding close_all log_files
close_all-closed_files [] w = refl
close_all-closed_files ((id, o) ∷ es) w =
    close_all-closed_files es (close_handle o w)
    ∙ ap (log_files es (close_handle o w)) (close_handle-closed_files o w)
    ∙ log_files-close_handle es o w _

release-closed_files :
    (o : ℕ) (w : World)
    → ((release o w).closed_files ≡ w.closed_files) × ((release o w).handles ≡ w.handles)
unfolding release
release-closed_files o w = ground arith

release_entries-closed_files :
    (es : List (ℕ × ℕ)) (w : World)
    → ((release_entries es w).closed_files ≡ w.closed_files)
      × ((release_entries es w).handles ≡ w.handles)
unfolding release_entries
release_entries-closed_files [] w = (refl, refl)
release_entries-closed_files ((id, o) ∷ es) w =
    let (c, h) = release_entries-closed_files es (release o w) in
    let (c', h') = release-closed_files o w in (c ∙ c', h ∙ h')

-- `HandleStore::Dispose` closes the descriptor of each `FileHandle` that is left in the store, once
-- for each of its ids and in the order of the ids, and no other descriptor, and leaves the store
-- empty.
pub dispose-closed_files :
    (w : World)
    → ((dispose w).closed_files ≡ log_files w.handles.store w w.closed_files)
      × ((dispose w).handles.store ≡ [])
unfolding dispose
dispose-closed_files w =
    let (c, h) = release_entries-closed_files w.handles.store _ in
    (c ∙ close_all-closed_files w.handles.store w, ap (λ s. s.store) h)
