-- ===== src/State/Memory.antt =====
-- What the primitives do with the memory: `HandleStore` with the objects behind it, `shared_ptr`
-- counts and destructors, and `new AsyncContext`.
pub mod Laws
pub mod Frame
pub mod Owned
pub mod Reading
pub mod Requests
use runtime_system.Base.{
  ℕ, ◌+◌, ◌-◌, String, List, [], ◌∷◌, ◌++◌, Option, none, some, ℤ, pos, update, ◌==◌, if◌then◌else◌,
}
use runtime_system.Handles
use runtime_system.State.{
  World, BaseHandle, Class, file, directory, net, udp, tls_context, tls, key, cert, NetHandle,
  UdpHandle, Dirent, AsyncContext, Kind, Resource, ssl_session, ssl_ctx, evp_pkey, x509_cert,
  addr_result,
}

-- `std::make_shared<…>(…)`: the address, with one reference.
unfoldable pub new_object : Class → World → ℕ × World
new_object c w =
    let o = w.next_object in
    (
      o,
      record w {
        objects = update w.objects o (some (record { id = 0; class = c }));
        uses = update w.uses o 1;
        next_object = o + 1;
      },
    )

-- A write to the fields that the class of an object adds.
unfoldable pub set_class : ℕ → Class → World → World
set_class o c w = elim (w.objects o) [
  | none ↦ w
  | some h ↦ record w { objects = update w.objects o (some (record h { class = c })) }
]

set_id : ℕ → ℕ → World → World
set_id o id w = elim (w.objects o) [
  | none ↦ w
  | some h ↦ record w { objects = update w.objects o (some (record h { id = id })) }
]

-- The object behind an id, whatever its class.
unfoldable pub get_object : ℕ → World → Option (ℕ × BaseHandle)
get_object id w = elim (Handles.get id w.handles) [
  | none ↦ none
  | some o ↦ elim (w.objects o) [ none ↦ none | some h ↦ some (o, h) ]
]

-- `std::dynamic_pointer_cast<T>`, with the fields of `T`.
abbrev pub as_file : Class → Option (ℤ × String)
as_file (file fd path) = some (fd, path)
as_file _ = none

abbrev pub as_directory : Class → Option (List Dirent × ℕ)
as_directory (directory entries index) = some (entries, index)
as_directory _ = none

abbrev pub as_net : Class → Option NetHandle
as_net (net n) = some n
as_net _ = none

abbrev pub as_udp : Class → Option UdpHandle
as_udp (udp u) = some u
as_udp _ = none

abbrev pub as_tls_context : Class → Option (ℕ × ℕ)
as_tls_context (tls_context ctx resolver) = some (ctx, resolver)
as_tls_context _ = none

abbrev pub as_tls : Class → Option (ℕ × ℕ)
as_tls (tls ssl n) = some (ssl, n)
as_tls _ = none

abbrev pub as_key : Class → Option ℕ
as_key (key k) = some k
as_key _ = none

abbrev pub as_cert : Class → Option ℕ
as_cert (cert x) = some x
as_cert _ = none

-- `HandleStore::Get<T>(id)`: the address and the fields, if the id is in use for a `T`.
unfoldable pub get_handle : {A : Type 0} → (Class → Option A) → ℕ → World → Option (ℕ × A)
unfolding get_object
get_handle cast id w = elim (get_object id w) [
  | none ↦ none
  | some (o, h) ↦ elim (cast h.class) [ none ↦ none | some a ↦ some (o, a) ]
]

-- One more `shared_ptr` to an object.
unfoldable pub retain : ℕ → World → World
retain o w = record w { uses = update w.uses o (w.uses o + 1) }

-- The resource that the destructor of a class frees, and the `shared_ptr` among its fields.
abbrev pub owned_resource : Class → List Resource
owned_resource (tls_context ctx resolver) = ssl_ctx ctx ∷ []
owned_resource (tls ssl n) = ssl_session ssl ∷ []
owned_resource (key k) = evp_pkey k ∷ []
owned_resource (cert x) = x509_cert x ∷ []
owned_resource _ = []

abbrev pub member : Class → Option ℕ
member (tls ssl n) = some n
member _ = none

-- One `shared_ptr` less; the last one deletes the object. A `NetHandle` holds no other object, so
-- the reference that a `TLSHandle` holds is dropped by `drop_plain`.
unfoldable pub drop_plain : ℕ → World → World
drop_plain o w =
    let w' = record w { uses = update w.uses o (w.uses o - 1) } in
    if w.uses o == 1
    then (elim (w.objects o) [
      | none ↦ w'
      | some h ↦ record w' {
        objects = update w.objects o none;
        freed = owned_resource h.class ++ w.freed;
      }
    ])
    else w'

drop_member : Option ℕ → World → World
drop_member none w = w
drop_member (some n) w = drop_plain n w

unfoldable pub release : ℕ → World → World
unfolding drop_plain drop_member
release o w =
    let w' = drop_plain o w in
    if w.uses o == 1
    then (elim (w.objects o) [ none ↦ w' | some h ↦ drop_member (member h.class) w' ])
    else w'

-- The entry that `store[id] = handle` replaces, once `next_id` has wrapped: its `shared_ptr` is dropped.
unfoldable pub drop_replaced : World → World
unfolding release
drop_replaced w = elim (Handles.get w.handles.next_id w.handles) [ none ↦ w | some o ↦ release o w ]

-- The rest of `HandleStore::Add(handle)`: the id, which the handle stores too.
unfoldable pub store_handle : ℕ → World → ℕ × World
unfolding set_id Handles.add
store_handle o w =
    let (id, s) = Handles.add o w.handles in (id, set_id o id (record w { handles = s }))

-- `HandleStore::Add(handle)`, which takes the reference over: the id.
unfoldable pub add_handle : ℕ → World → ℕ × World
unfolding drop_replaced store_handle
add_handle o w = store_handle o (drop_replaced w)

-- `HandleStore::Add(std::make_shared<…>(…))`. What is replaced is dropped before the new handle is made
-- and not behind it: its destructor knows nothing of the new handle.
unfoldable pub add_new : Class → World → ℕ × World
unfolding new_object drop_replaced store_handle
add_new c w = let (o, w') = new_object c (drop_replaced w) in store_handle o w'

-- The locals of a primitive go out of scope.
unfoldable pub release_all : List ℕ → World → World
release_all [] w = w
release_all (o ∷ os) w = release_all os (release o w)

unfoldable pub retain_all : List ℕ → World → World
retain_all [] w = w
retain_all (o ∷ os) w = retain_all os (retain o w)

-- `HandleStore::Remove(id)`.
unfoldable pub remove_handle : ℕ → World → World
unfolding Handles.remove Handles.get
remove_handle id w =
    let w' = record w { handles = Handles.remove id w.handles } in
    elim (Handles.get id w.handles) [ none ↦ w' | some o ↦ release o w' ]

-- `new …Context(Fiber::get_current(), …)`, with `result(0)`: the address.
unfoldable pub new_context : Kind → World → ℕ × World
new_context k w =
    let c = w.next_context in
    (
      c,
      record w {
        contexts =
            update w.contexts c
              (some (record { fiber = w.current_fiber; result = pos 0; kind = k }));
        next_context = c + 1;
      },
    )

-- What the destructor of a context frees: `~DNSContext` calls `uv_freeaddrinfo`.
unfoldable pub owned_result : ℕ → Option AsyncContext → List Resource
owned_result c none = []
owned_result c (some a) = elim a.kind [
  | Kind.dns hostname addresses has_result ↦ if has_result then addr_result c ∷ [] else []
  | _ ↦ []
]

-- `delete context`.
unfoldable pub delete_context : ℕ → World → World
unfolding owned_result
delete_context c w = record w {
  contexts = update w.contexts c none;
  freed = owned_result c (w.contexts c) ++ w.freed;
}

-- The `AsyncContext` part of a callback: `context->result = result;` and the fields of the derived
-- class. `none` is a use of a deleted context.
unfoldable pub fill_context : ℕ → ℤ → (Kind → Kind) → World → Option World
fill_context c result f w = elim (w.contexts c) [
  | none ↦ none
  | some a ↦ some (record w {
    contexts = update w.contexts c (some (record a { result = result; kind = f a.kind }));
  })
]

-- `uv_close` of the handle that is a member of a context.
unfoldable pub close_member : ℕ → World → World
close_member c w = record w { closing_handles = w.closing_handles ++ c ∷ [] }

-- `QueueFiberToResume(context)` of main.cpp.
unfoldable pub queue_fiber_to_resume : ℕ → World → World
queue_fiber_to_resume c w = record w { resumable_fibers = w.resumable_fibers ++ c ∷ [] }
