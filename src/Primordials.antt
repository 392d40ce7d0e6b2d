-- ===== src/Primordials.antt =====
-- The `Initialize…` functions: the properties of `__primordials`.
use text.Mathlib.Text.{◌==◌ as str_eq}
use runtime_system.Base.{String, List, [], ◌∷◌, Option, none, some, if◌then◌else◌}

-- The C++ function behind a `v8::FunctionTemplate`.
pub data Method : Type 0 where
  fs_open fs_read fs_write fs_close fs_status fs_sync fs_data_sync fs_remove fs_dir_open fs_dir_read
        fs_dir_close fs_dir_make fs_dir_remove :
      Method
  tcp_listen tcp_accept tcp_connect tcp_read tcp_write tcp_close tcp_poll : Method
  udp_create udp_listen udp_read udp_write udp_close : Method
  dns_resolve : Method
  tls_create_context tls_parse_key tls_parse_cert tls_accept tls_connect tls_read tls_write
        tls_close :
      Method
  encoding_encode encoding_decode : Method
  fiber_run fiber_current fiber_sleep : Method
  handles_free : Method

-- `object->Set(context, key, value)`.
unfoldable pub set_property {ℓ} : {A : Type ℓ} → String → A → List (String × A) → List (String × A)
set_property k a [] = (k, a) ∷ []
set_property k a ((j, b) ∷ rest) =
    if str_eq j k then (k, a) ∷ rest else (j, b) ∷ set_property k a rest

-- `object[key]` in a script.
unfoldable pub property {ℓ} : {A : Type ℓ} → String → List (String × A) → Option A
property k [] = none
property k ((j, a) ∷ rest) = if str_eq j k then some a else property k rest

-- The `SET_METHOD`s of a new object, in their order.
unfoldable pub set_methods :
    List (String × Method) → List (String × Method) → List (String × Method)
unfolding set_property
set_methods [] obj = obj
set_methods ((name, func) ∷ rest) obj = set_methods rest (set_property name func obj)

abbrev pub Exports : Type 0
Exports = List (String × List (String × Method))

-- `InitializeFS`.
unfoldable pub initialize_fs : Exports → Exports
unfolding set_property set_methods
initialize_fs = set_property "fs" (
    set_methods
      (("open", Method.fs_open)
        ∷ ("read", Method.fs_read)
        ∷ ("write", Method.fs_write)
        ∷ ("close", Method.fs_close)
        ∷ ("status", Method.fs_status)
        ∷ ("sync", Method.fs_sync)
        ∷ ("dataSync", Method.fs_data_sync)
        ∷ ("remove", Method.fs_remove)
        ∷ ("dirOpen", Method.fs_dir_open)
        ∷ ("dirRead", Method.fs_dir_read)
        ∷ ("dirClose", Method.fs_dir_close)
        ∷ ("dirMake", Method.fs_dir_make)
        ∷ ("dirRemove", Method.fs_dir_remove)
        ∷ [])
      [])

-- `InitializeTCP`.
unfoldable pub initialize_tcp : Exports → Exports
unfolding set_property set_methods
initialize_tcp = set_property "tcp" (
    set_methods
      (("listen", Method.tcp_listen)
        ∷ ("accept", Method.tcp_accept)
        ∷ ("connect", Method.tcp_connect)
        ∷ ("read", Method.tcp_read)
        ∷ ("write", Method.tcp_write)
        ∷ ("close", Method.tcp_close)
        ∷ ("poll", Method.tcp_poll)
        ∷ [])
      [])

-- `InitializeUDP`.
unfoldable pub initialize_udp : Exports → Exports
unfolding set_property set_methods
initialize_udp = set_property "udp" (
    set_methods
      (("create", Method.udp_create)
        ∷ ("listen", Method.udp_listen)
        ∷ ("read", Method.udp_read)
        ∷ ("write", Method.udp_write)
        ∷ ("close", Method.udp_close)
        ∷ [])
      [])

-- `InitializeDNS`.
unfoldable pub initialize_dns : Exports → Exports
unfolding set_property set_methods
initialize_dns = set_property "dns" (set_methods (("resolve", Method.dns_resolve) ∷ []) [])

-- `InitializeTLS`.
unfoldable pub initialize_tls : Exports → Exports
unfolding set_property set_methods
initialize_tls = set_property "tls" (
    set_methods
      (("createContext", Method.tls_create_context)
        ∷ ("parseKey", Method.tls_parse_key)
        ∷ ("parseCert", Method.tls_parse_cert)
        ∷ ("accept", Method.tls_accept)
        ∷ ("connect", Method.tls_connect)
        ∷ ("read", Method.tls_read)
        ∷ ("write", Method.tls_write)
        ∷ ("close", Method.tls_close)
        ∷ [])
      [])

-- `InitializeEncoding`.
unfoldable pub initialize_encoding : Exports → Exports
unfolding set_property set_methods
initialize_encoding =
    set_property "encoding" (
      set_methods (("encode", Method.encoding_encode) ∷ ("decode", Method.encoding_decode) ∷ []) [])

-- `InitializeFibers`.
unfoldable pub initialize_fibers : Exports → Exports
unfolding set_property set_methods
initialize_fibers = set_property "fiber" (
    set_methods
      (("run", Method.fiber_run)
        ∷ ("current", Method.fiber_current)
        ∷ ("sleep", Method.fiber_sleep)
        ∷ [])
      [])

-- `InitializeHandles`.
unfoldable pub initialize_handles : Exports → Exports
unfolding set_property set_methods
initialize_handles = set_property "handles" (set_methods (("free", Method.handles_free) ∷ []) [])

-- `__primordials`, as `main` fills it.
unfoldable pub primordials : Exports
unfolding initialize_fs initialize_tcp initialize_udp initialize_dns initialize_tls
    initialize_encoding initialize_fibers initialize_handles
primordials = initialize_handles (
    initialize_fibers (
      initialize_encoding
        (initialize_tls (initialize_dns (initialize_udp (initialize_tcp (initialize_fs [])))))))

-- `__primordials[group][name]`.
unfoldable pub find_method : (group name : String) → Exports → Option Method
unfolding property
find_method group name exports = elim (property group exports) [
  | none ↦ none
  | some obj ↦ property name obj
]
