-- ===== src/Tls/Certificates.antt =====
-- primitives_tls.cpp: the SNI callback.
use runtime_system.Base.{ℕ, Bool, String, Option, none, some, if◌then◌else◌}
use runtime_system.State.{World}
use runtime_system.State.Memory.{get_handle, as_key, as_cert}

-- `SSL_TLSEXT_ERR_NOACK` and `SSL_TLSEXT_ERR_OK`.
pub data Ack : Type 0 where
  noack ok : Ack

-- The end of `OnCertCallback`, with the two ids that the resolver returned. `use_key` and
-- `use_cert` tell whether `SSL_use_PrivateKey` and `SSL_use_certificate` return 1.
unfoldable pub use_pair : (use_key use_cert : ℕ → Bool) → ℕ × ℕ → World → Ack
use_pair use_key use_cert (key_id, cert_id) w = elim (get_handle as_key key_id w) [
  | none ↦ noack
  | some (o, k) ↦ elim (get_handle as_cert cert_id w) [
    | none ↦ noack
    | some (p, c) ↦ if use_key k then (if use_cert c then ok else noack) else noack
  ]
]

-- `OnCertCallback`. `resolver` is the function behind `cert_resolver`, if the context has one: from
-- a server name to the ids of a key and a certificate, or `none` if it throws.
unfoldable pub on_cert_callback :
    (use_key use_cert : ℕ → Bool)
    → (resolver : Option (String → World → Option (ℕ × ℕ) × World)) → (servername : Option String)
    → World
    → Ack × World
on_cert_callback use_key use_cert resolver servername w = elim resolver [
  | none ↦ (noack, w)
  | some f ↦ elim servername [
    | none ↦ (noack, w)
    | some name ↦
        let (answer, w') = f name w in
        (elim answer [ none ↦ noack | some pair ↦ use_pair use_key use_cert pair w' ], w')
  ]
]
