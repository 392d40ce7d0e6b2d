-- ===== src/Shutdown.antt =====
-- `HandleStore::Dispose` of handles.cpp, with the `Close` of each class of handles, and the set-up
-- of main.cpp.
pub mod Descriptors
use runtime_system.Base.{ℕ, List, [], ◌∷◌, none, some}
use runtime_system.Handles
use runtime_system.State.{
  World, Class, file, directory, net, udp, tls_context, tls, key, cert, Script, main_stack,
}
use runtime_system.State.Memory.{set_class, release}
use runtime_system.Fs.{close_file_handle, close_directory}
use runtime_system.Tcp.{close_net}
use runtime_system.Udp.{close_udp}
use runtime_system.Fibers
use runtime_system.Machine.{Machine, machine, executing}

-- `Close()` of the object at an address: what each class does.
unfoldable pub close_class : ℕ → Class → World → World
close_class o (file fd path) w = close_file_handle fd w
close_class o (directory entries index) w = close_directory o entries index w
close_class o (net n) w = set_class o (net (close_net n)) w
close_class o (udp u) w = set_class o (udp (close_udp u)) w
close_class o (tls_context ctx resolver) w = w
close_class o (tls ssl n) w = w
close_class o (key k) w = w
close_class o (cert c) w = w

-- The virtual call `handle->Close()`.
unfoldable pub close_handle : ℕ → World → World
unfolding close_class
close_handle o w = elim (w.objects o) [ none ↦ w | some h ↦ close_class o h.class w ]

-- The loop of `HandleStore::Dispose`.
unfoldable pub close_all : List (ℕ × ℕ) → World → World
close_all [] w = w
close_all ((id, o) ∷ rest) w = close_all rest (close_handle o w)

-- The `shared_ptr`s of the store, dropped by `store.clear()`.
unfoldable pub release_entries : List (ℕ × ℕ) → World → World
release_entries [] w = w
release_entries ((id, o) ∷ rest) w = release_entries rest (release o w)

-- `HandleStore::Dispose`.
unfoldable pub dispose : World → World
unfolding close_all release_entries Handles.clear
dispose w =
    let w' = close_all w.handles.store w in
    release_entries w.handles.store (record w' { handles = Handles.clear w'.handles })

-- `main` from `Fiber::init` to the evaluation of the entry module: `entry_module` is its script.
unfoldable pub boot : Script → World → Machine
unfolding Handles.init Fibers.init
boot entry_module w =
    let w' = Fibers.init w in
    machine (record w' { handles = Handles.init }) (executing main_stack entry_module)
