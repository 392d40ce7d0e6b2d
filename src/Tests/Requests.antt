-- ===== src/Tests/Requests.antt =====
-- Directories, sockets and the results of requests.
use runtime_system.Base.{
  update, ℤ, ◌≡◌, refl, [], ◌∷◌, none, some, arith, pos, negsuc, map, is_negative, ◌&&◌, List,
  String,
}
use runtime_system.Value.{returned, undefined}
use runtime_system.State.{World, directory, net, NetHandle, entry, Kind, AsyncContext, entry_name}
use runtime_system.Handles.{get, find}
use runtime_system.State.Memory.{get_handle}
use runtime_system.Primitive.{replies}
use runtime_system.Fs.{fs_dir_close, entries_of}
use runtime_system.Fs.Iteration.{IsOpen, read_times, entry_reply, read_times-close}
use runtime_system.Async.{create_result_value, failure}
use runtime_system.Async.Errors.{is_error, reports, create_result_value-is_error}
use runtime_system.Tcp.{on_uv_connection, net_at, on_alloc, on_read, connect_success, uv_handle}
use runtime_system.Tcp.Sockets.{Wakes, on_uv_connection-Wakes, connected_unreadable}
use runtime_system.Tcp.Reads.{on_read-pending_read}
use runtime_system.Tests.{answers, started, with_handle}

abbrev names : List (String × ℤ)
names = ("a", pos 1) ∷ ("b", pos 2) ∷ []

-- The handle 1 is that of an open directory with the entries `names`.
abbrev listing : World
listing = with_handle (directory (entries_of names) 0) (started entry)

listing-IsOpen : IsOpen 1 0 [] names listing
unfolding get_handle get find
listing-IsOpen = record { opened = refl; nameless = tt }

read_times-close_example :
    (v u : World) × (read_times 1 1 listing ≡ some (map entry_reply (("a", pos 1) ∷ []), v))
    × (fs_dir_close 1 v ≡ replies (returned undefined) u)
    × (u.freed ≡ entry_name "b" ∷ entry_name "a" ∷ [])
read_times-close_example =
    read_times-close 1 0 (("a", pos 1) ∷ []) (("b", pos 2) ∷ []) listing listing-IsOpen

abbrev a_write : ℤ → AsyncContext
a_write r = record {
  fiber = 1;
  result = r;
  kind = Kind.write (record { buffer = 0; base = 0; len = 8 });
}

create_result_value-is_error_example :
    is_error (failure answers (negsuc 31) (a_write (negsuc 31)).kind)
    ≡ (is_negative (negsuc 31) && reports (a_write (negsuc 31)).kind (negsuc 31))
unfolding create_result_value
create_result_value-is_error_example =
    create_result_value-is_error answers (a_write (negsuc 31)) (started entry) _ (started entry)
      (λ server e. ground arith) refl

-- A listening socket at 0 with the handle 1, and two fibers that accept on it.
abbrev server : NetHandle
server = record { handle = uv_handle (some 0) 9; accept_queue = 1 ∷ 2 ∷ []; pending_read = none }

abbrev listening : World
listening = with_handle (net server) (started entry)

on_uv_connection-Wakes_example :
    Wakes 0 (pos 0) server listening (on_uv_connection 0 (pos 0) listening)
unfolding net_at
on_uv_connection-Wakes_example = on_uv_connection-Wakes 0 (pos 0) server listening refl refl

connected_unreadable_example :
    let v = (connect_success answers (uv_handle none 9) listening).1 in
    (on_alloc 1 v ≡ none) × ((nread : ℤ) → on_read 1 nread v ≡ none)
connected_unreadable_example = connected_unreadable answers 9 listening

-- A socket at 0 with a pending read for the context 5.
abbrev reading_net : NetHandle
reading_net = record { handle = uv_handle (some 0) 9; accept_queue = []; pending_read = some 5 }

abbrev a_read : AsyncContext
a_read = record {
  fiber = 1;
  result = pos 0;
  kind = Kind.read (record { buffer = 0; base = 0; len = 8 });
}

abbrev reading_world : World
reading_world = record (with_handle (net reading_net) (started entry)) {
  contexts = update (λ c. none) 5 (some a_read);
}

on_read-pending_read_example :
    (v : World) × (on_read 0 (pos 3) reading_world ≡ some v)
    × (v.contexts 5 ≡ some (record a_read { result = pos 3 }))
    × (v.resumable_fibers ≡ 5 ∷ [])
    × (net_at 0 v ≡ some (record reading_net { pending_read = none }))
unfolding net_at
on_read-pending_read_example =
    on_read-pending_read 0 5 (pos 3) reading_net a_read reading_world refl refl refl refl
