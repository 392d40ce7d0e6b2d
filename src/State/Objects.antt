-- ===== src/State/Objects.antt =====
-- The handle classes of handles.h. A pointer is an address, a resource of libuv or OpenSSL a number.
use runtime_system.Base.{ℕ, ℤ, Bool, String, List, Option}

-- A `uv_dirent_t`: its `name` is `nullptr` once it is freed.
pub record Dirent : Type 0 where
  pub name : Option String
  pub type : ℤ

-- What the code uses of a `uv_tcp_t` or `uv_udp_t`: `data`, the socket, whether `uv_close` was
-- called, and whether reading was started and not stopped.
pub record UvHandle : Type 0 where
  pub user : Option ℕ
  pub socket : ℕ
  pub is_closing : Bool
  pub is_reading : Bool

pub record NetHandle : Type 0 where
  pub handle : UvHandle
  pub accept_queue : List ℕ
  pub pending_read : Option ℕ

pub record UdpHandle : Type 0 where
  pub handle : UvHandle
  pub pending_read : Option ℕ

-- One constructor for each class derived from `BaseHandle`.
pub data Class : Type 0 where
  file : (fd : ℤ) (path : String) → Class
  directory : (entries : List Dirent) (index : ℕ) → Class
  net : NetHandle → Class
  udp : UdpHandle → Class
  tls_context : (ctx resolver : ℕ) → Class
  tls : (ssl net_handle : ℕ) → Class
  key : (pkey : ℕ) → Class
  cert : (x509 : ℕ) → Class

pub record BaseHandle : Type 0 where
  pub id : ℕ
  pub class : Class
