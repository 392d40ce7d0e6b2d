-- ===== src/Tls/Sni.antt =====
-- The answers of the SNI callback.
use runtime_system.Base.{
  ℕ, ◌≡◌, ◌↔◌, Bool, true, String, Option, some, arith, inl, inr, Option-cases,
}
use runtime_system.State.{World}
use runtime_system.State.Memory.{get_handle, as_key, as_cert}
use runtime_system.Tls.Certificates.{ok, use_pair, on_cert_callback}

-- The pair of ids is that of a key and of a certificate that OpenSSL takes.
pub record IsUsable (use_key use_cert : ℕ → Bool) (key_id cert_id : ℕ) (w : World) : Type 0 where
  pub key : (o : ℕ) × (k : ℕ) × (get_handle as_key key_id w ≡ some (o, k)) × (use_key k ≡ true)
  pub cert : (o : ℕ) × (c : ℕ) × (get_handle as_cert cert_id w ≡ some (o, c)) × (use_cert c ≡ true)

module _ (use_key use_cert : ℕ → Bool) where
  use_pair-key :
      (key_id cert_id : ℕ) (w : World)
      → use_pair use_key use_cert (key_id, cert_id) w ≡ ok
      → (o : ℕ) × (k : ℕ) × (get_handle as_key key_id w ≡ some (o, k)) × (use_key k ≡ true)
  unfolding use_pair
  use_pair-key key_id cert_id w e = elim (Option-cases (get_handle as_key key_id w)) [
    | inl gone ↦ absurd (ground arith)
    | inr ((o, k), found) ↦ (o, k, found, ground arith)
  ]

  use_pair-cert :
      (key_id cert_id : ℕ) (w : World)
      → use_pair use_key use_cert (key_id, cert_id) w ≡ ok
      → (o : ℕ) × (c : ℕ) × (get_handle as_cert cert_id w ≡ some (o, c)) × (use_cert c ≡ true)
  unfolding use_pair
  use_pair-cert key_id cert_id w e = elim (Option-cases (get_handle as_cert cert_id w)) [
    | inl gone ↦ absurd (ground arith)
    | inr ((o, c), found) ↦ (o, c, found, ground arith)
  ]

  use_pair-ok :
      (key_id cert_id : ℕ) (w : World)
      → IsUsable use_key use_cert key_id cert_id w
      → use_pair use_key use_cert (key_id, cert_id) w ≡ ok
  unfolding use_pair
  use_pair-ok key_id cert_id w u = ground arith

  module _ (resolver : Option (String → World → Option (ℕ × ℕ) × World))
      (servername : Option String) (w : World) where
    -- The callback accepts: there are a resolver and a server name, and the resolver's answer is
    -- the pair of a usable key and a usable certificate in the state that it leaves.
    abbrev pub Accepts : Type 0
    Accepts =
        (f : String → World → Option (ℕ × ℕ) × World) × (name : String) × (key_id : ℕ)
        × (cert_id : ℕ) × (resolver ≡ some f)
        × (servername ≡ some name)
        × ((f name w).0 ≡ some (key_id, cert_id))
        × IsUsable use_key use_cert key_id cert_id (f name w).1

    accepted :
        (f : String → World → Option (ℕ × ℕ) × World) (name : String) (key_id cert_id : ℕ)
        → resolver ≡ some f
        → servername ≡ some name
        → (f name w).0 ≡ some (key_id, cert_id)
        → IsUsable use_key use_cert key_id cert_id (f name w).1
        → (on_cert_callback use_key use_cert resolver servername w).0 ≡ ok
    unfolding on_cert_callback
    accepted f name key_id cert_id r s a u =
        ground (arith, use_pair-ok key_id cert_id (f name w).1 u)

    answered :
        (on_cert_callback use_key use_cert resolver servername w).0 ≡ ok
        → (f : String → World → Option (ℕ × ℕ) × World) × (name : String) × (key_id : ℕ)
          × (cert_id : ℕ) × (resolver ≡ some f)
          × (servername ≡ some name)
          × ((f name w).0 ≡ some (key_id, cert_id))
          × (use_pair use_key use_cert (key_id, cert_id) (f name w).1 ≡ ok)
    unfolding on_cert_callback
    answered e = elim (Option-cases resolver) [
      | inl missing ↦ absurd (ground arith)
      | inr (f, r) ↦ elim (Option-cases servername) [
        | inl missing ↦ absurd (ground arith)
        | inr (name, s) ↦ elim (Option-cases (f name w).0) [
          | inl missing ↦ absurd (ground arith)
          | inr ((key_id, cert_id), a) ↦ (f, name, key_id, cert_id, r, s, a, ground arith)
        ]
      ]
    ]

    -- The SNI callback accepts exactly if there are a resolver and a server name and the resolver
    -- answers with the ids of a key and of a certificate that OpenSSL takes.
    pub on_cert_callback_iff :
        ((on_cert_callback use_key use_cert resolver servername w).0 ≡ ok) ↔ Accepts
    on_cert_callback_iff = (
      λ e.
          let (f, name, key_id, cert_id, r, s, a, u) = answered e in
          (
            f,
            name,
            key_id,
            cert_id,
            r,
            s,
            a,
            record {
              key = use_pair-key key_id cert_id (f name w).1 u;
              cert = use_pair-cert key_id cert_id (f name w).1 u;
            },
          ),
      λ (f, name, key_id, cert_id, r, s, a, u). accepted f name key_id cert_id r s a u,
    )
