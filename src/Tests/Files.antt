-- ===== src/Tests/Files.antt =====
-- Open files, and the callbacks of requests.
use runtime_system.Base.{pos, negsuc, ◌≡◌, refl, [], ◌∷◌, none, some, update, arith}
use runtime_system.Value.{View, id_value, error}
use runtime_system.State.{
  World, file, entry, FsType, Operation, give_result, on_context, Cont, Kind, af_inet,
}
use runtime_system.Handles
use runtime_system.Handles.Ids.{Inv, run, adds, count_adds}
use runtime_system.Value.{thrown}
use runtime_system.Primitive.{start, replies, throw, resume_value}
use runtime_system.External.{External}
use runtime_system.Fs.{fs_success, fs_read, fs_write, fs_close, fs_context, no_stat}
use runtime_system.Value.{buf_of_view, throw_uv}
use runtime_system.Dns.{dns_resolve, family_of}
use runtime_system.Dns.Failures.{dns_resolve-refused}
use runtime_system.Machine.{after_yield, callback, timer_fired, completed, take_request}
use runtime_system.Machine.OpenFiles.{fs_open-fs_read, fs_close-file_calls}
use runtime_system.Machine.Callbacks.{callback-QueuesOne}
use runtime_system.Machine.Queues.{QueuesOne}
use runtime_system.Fibers.{on_sleep_timer}
use runtime_system.Shutdown.{dispose}
use runtime_system.Shutdown.Descriptors.{fd_at, log_files, dispose-closed_files}
use runtime_system.State.Memory.{fill_context, queue_fiber_to_resume}
use runtime_system.Tests.{answers, started, with_handle, main_in}

abbrev a_view : View
a_view = record { buffer = 0; offset = 0; byte_length = 16 }

-- The file "a" with the descriptor 3, under the id 1 at 0. The current fiber was resumed with the
-- error of a request.
abbrev pub one_file : World
one_file = record (with_handle (file (pos 3) "a") (started entry)) {
  fibers =
      update (λ f. none) 0
        (some (record (main_in entry) { resume_value = some (error "close error") }));
}

fs_open-fs_read_example :
    let u = (fs_success (pos 3) FsType.fs_open "a" [] no_stat (started entry)).1 in
    ((fs_success (pos 3) FsType.fs_open "a" [] no_stat (started entry)).0 ≡ id_value 1)
    × (fs_read answers 1 a_view (pos 0) u
        ≡ start answers
            (fs_context FsType.fs_read "a")
            (Operation.read_file (pos 3) (buf_of_view a_view) (pos 0))
            give_result
            (0 ∷ [])
            u)
    × (fs_write answers 1 a_view (pos 0) u
        ≡ start answers
            (fs_context FsType.fs_write "a")
            (Operation.write_file (pos 3) (buf_of_view a_view) (pos 0))
            give_result
            (0 ∷ [])
            u)
fs_open-fs_read_example =
    fs_open-fs_read answers (pos 3) "a" [] no_stat (started entry)
      (fs_success (pos 3) FsType.fs_open "a" [] no_stat (started entry)).0
      (fs_success (pos 3) FsType.fs_open "a" [] no_stat (started entry)).1 a_view (pos 0) refl

one_file-Inv : Inv one_file.handles
one_file-Inv = record {
  positive = omega arith;
  fits = omega arith;
  rising = (omega arith, tt);
  below = (omega arith, tt);
}

-- Later, another file is open, under the id 2.
abbrev other_file : World
other_file = record one_file { handles = run (Handles.remove 1 one_file.handles) (adds 0 ∷ []) }

fs_close-file_calls_example :
    ((u : World) × (after_yield
          (Cont.close_file 1 (record { target = on_context 0; held = [] }))
          one_file
        ≡ replies (thrown "close error") u)
      × (u.handles ≡ Handles.remove 1 one_file.handles))
    × (fs_read answers 1 a_view (pos 0) other_file ≡ throw "Invalid file handle" other_file)
    × (fs_write answers 1 a_view (pos 0) other_file ≡ throw "Invalid file handle" other_file)
    × (fs_close answers 1 other_file ≡ throw "Invalid file handle" other_file)
unfolding resume_value count_adds
fs_close-file_calls_example =
    fs_close-file_calls answers 1 (record { target = on_context 0; held = [] }) one_file
      (error "close error") (adds 0 ∷ []) other_file a_view (pos 0) one_file-Inv (omega arith)
      (omega arith) refl refl

dispose-closed_files_example :
    ((dispose one_file).closed_files ≡ pos 3 ∷ []) × ((dispose one_file).handles.store ≡ [])
unfolding fd_at log_files
dispose-closed_files_example = dispose-closed_files one_file

-- The timer of the context 0 is running.
abbrev asleep : World
asleep = record (started entry) {
  contexts = update (λ c. none) 0 (some (record { fiber = 1; result = pos 0; kind = Kind.sleep }));
  next_context = 1;
  requests = (0, Operation.timer 10) ∷ [];
}

-- The timer has fired.
abbrev awake : World
awake = record asleep {
  contexts =
      update asleep.contexts 0 (some (record { fiber = 1; result = pos 0; kind = Kind.sleep }));
  requests = [];
  resumable_fibers = 0 ∷ [];
  closing_handles = 0 ∷ [];
}

callback-QueuesOne_example : QueuesOne asleep awake
unfolding callback on_sleep_timer completed take_request fill_context queue_fiber_to_resume
callback-QueuesOne_example = callback-QueuesOne (timer_fired 0) asleep awake refl

-- libuv refuses every request.
abbrev refuses : External
refuses = record answers { submit = λ t op. negsuc 2 }

dns_resolve-refused_example :
    (v : World) × (dns_resolve refuses "localhost" "A" asleep
      ≡ replies (throw_uv (λ r. "error") (negsuc 2) "getaddrinfo" "localhost") v)
    × (v.contexts 1 ≡ none)
    × (v.requests ≡ asleep.requests)
    × (v.resumable_fibers ≡ [])
unfolding family_of
dns_resolve-refused_example = dns_resolve-refused refuses "localhost" "A" af_inet 2 asleep refl refl
