-- ===== src/Lib.antt =====
-- A model of the C++ runtime: fibers on an event loop, and the primitives that scripts call on
-- `__primordials`.
--
-- The program. `main` (main.cpp) starts V8, `Fiber` and `HandleStore`, resolves and runs the entry
-- module (module_loader.inc), and waits in `uv_run`. A script calls primitives; one that has to wait
-- makes an `AsyncContext`, asks libuv, and gives up its stack by `Fiber::yield()` (fiber.cpp). The
-- callback of libuv writes the result to the context and calls `QueueFiberToResume`;
-- `OnFibersToResume` takes the contexts from the queue, makes a value of each by
-- `CreateResultValue`, and resumes the fiber. Files, sockets and TLS sessions are objects behind
-- `shared_ptr`s that scripts name by the ids of `HandleStore` (handles.h, handles.cpp).
--
-- The files.
--   Base: the shared names: the native numbers with Boolean tests, a version of the integers and of
--     the list functions over them, and families `ℕ → A`.
--   Value: JavaScript values, replies, buffers, error messages, and the lines of `ReportException`
--     (primitives.h).
--   Handles: `HandleStore` over any type of pointers. `Handles.add` is `Add`, `remove` is `Remove`,
--     `get` is `Get`; the `std::map` is a list of entries in the order of its keys. Handles/Table has
--     the lemmas on it, Handles/Ids histories of calls, Handles/Refinement the store as a function.
--   State: `World`, the whole state: the statics of `Fiber`, the fibers by address, the handle store,
--     the objects and their `use_count()`, the contexts, the queue `resumable_fibers`, the requests
--     that libuv holds, and a log of what was freed. State/Calls has scripts (what a script calls, and
--     how it goes on from the reply) and the code behind each `Fiber::yield()`, State/Objects the
--     handle classes, State/Contexts the classes of contexts, State/Memory the operations on objects.
--   External: the answers of libuv, OpenSSL and V8, as functions of the number of calls made before, and
--     whether `Module::Evaluate` shows an exception by an empty result.
--   Primitive: what a primitive leads to: a reply, a wait, the resumption of a fiber, one more round
--     of a TLS loop, or the end of the process; and `print` of main.cpp.
--   Fs, Tcp, Udp, Dns, Tls, Encoding, Fibers: primitives_fs.cpp, primitives_tcp.cpp,
--     primitives_udp.cpp, primitives_dns.cpp, primitives_tls.cpp, primitives_encoding.cpp and the
--     primitives of fiber.cpp; `fs_open` is `FS_Open`, `on_read` is `OnRead`, and so on.
--   Async: `CreateResultValue` of every class of contexts.
--   Machine: how control moves. Machine/Switch has `Fiber::yield` and `Fiber::resume` on POSIX,
--     Machine/Windows the same and `fiber_entry` under `_WIN32`, over the fibers of the operating system,
--     Machine/Dispatch the primitive behind each call, Machine/Steps one step of the process, Machine/Events
--     the callbacks of libuv. The others are about scripts and fibers in the machine.
--   Shutdown: `HandleStore::Dispose`, and `main` up to the entry module.
--   Primordials: the `Initialize…` functions, as the properties that they set.
--   Loader: `ResolveModuleCallback` and its cache; Loader/Entry has `LoadAndRunModules`.
--   Process: `main` from its arguments to its end. `Process.start` is what precedes the evaluation of the
--     entry module, `Step` what can happen next: a step of the machine, a callback of libuv, `exit`, the
--     return of `uv_run`, and `HandleStore::Dispose` with the return of `main`; `OnFibersToResume` begins by
--     the step `wakes` and runs by steps of the machine. Machine/Alive,
--     Machine/Stores and Machine/Frame have what a step leaves as it was, Machine/Places where each
--     `AsyncContext` waits (State/Memory/Owned), and Process/Places puts it together.
--   Tests: sample states, and the theorems on them.
--
-- Choices. Pointers are numbers, and an object that was deleted is `none` at its address; a use of an
-- invalid pointer or a failed check of V8 ends the process (`aborts`). `next_id`, the conversions of
-- ids to BigInts, of milliseconds to `uint64_t` and of lengths to `unsigned int` wrap at the width of
-- their type; addresses do not run out. libuv ends a request that it holds once, and a `uv_close` of
-- a member of a context that was called (`Offers`); it may report on streams and sockets at any time.
-- `ucontext_t` is what the stack that it saves does next. A loop of primitives_tls.cpp may never end,
-- so it runs one round a step and there is no fuel: `steps` says how many steps the process makes, and
-- nothing is claimed of a state that it need not reach.
--
-- Not modelled: the set-up of V8, ICU and OpenSSL, which only calls libraries; the instantiation and
-- evaluation of modules, which are V8's (`Engine` stands for them); the BIOs that keys and certificates
-- are read from, and what `uv_fs_req_cleanup` frees, which libraries made; the memory of libuv's own
-- handles but for those in contexts, of which `alive` says whether any is active; stdlib.js, which is a
-- script; times before 1970 in file statuses. `SSL_accept` calls `OnCertCallback`, which runs the
-- resolver script: Tls/Sni is about that callback on its own, and no script runs within a round of a TLS
-- loop here.
pub mod Base
pub mod Value
pub mod Handles
pub mod State
pub mod External
pub mod Primitive
pub mod Fs
pub mod Tcp
pub mod Udp
pub mod Dns
pub mod Tls
pub mod Fibers
pub mod Encoding
pub mod Async
pub mod Machine
pub mod Shutdown
pub mod Process
pub mod Primordials
pub mod Loader
pub mod Tests
