-- ===== src/Tls/Calls.antt =====
-- primitives_tls.cpp: the primitives, up to their loops.
use runtime_system.Base.{ℕ, ◌+◌, String, List, [], ◌∷◌, none, some}
use runtime_system.Value.{View, id_value}
use runtime_system.State.{
  World, tls_context, tls, key, cert, accepting, connecting, reading, writing, closing,
}
use runtime_system.State.Memory.{
  get_handle, as_tls_context, as_net, as_tls, add_new, new_object, retain, retain_all,
}
use runtime_system.External.{External, ticked}
use runtime_system.Primitive.{Outcome, spins, aborts, throw, give}

-- `SSL_new`: the next session.
new_ssl : World → ℕ × World
unfolding ticked
new_ssl w = (w.next_ssl, record (ticked w) { next_ssl = w.next_ssl + 1 })

-- `std::make_shared<TLSHandle>(ssl, net_handle)`, which holds the `NetHandle` too.
new_tls : (ssl net_handle : ℕ) → World → ℕ × World
unfolding new_object retain
new_tls ssl n w = new_object (tls ssl n) (retain n w)

module _ (x : External) where
  -- `TLS_CreateContext`.
  unfoldable pub tls_create_context : (resolver : ℕ) → World → Outcome
  tls_create_context resolver w = elim (x.ssl_ctx_new w.tick) [
    | none ↦ throw "SSL_CTX_new failed" (ticked w)
    | some ctx ↦
        let (id, w') = add_new (tls_context ctx resolver) (ticked w) in give (id_value id) w'
  ]

  -- `TLS_ParseKey`.
  unfoldable pub tls_parse_key : (bytes : List ℕ) → World → Outcome
  tls_parse_key bytes w = elim (x.parse_key bytes) [
    | none ↦ throw "Failed to parse private key" w
    | some k ↦ let (id, w') = add_new (key k) w in give (id_value id) w'
  ]

  -- `TLS_ParseCert`.
  unfoldable pub tls_parse_cert : (bytes : List ℕ) → World → Outcome
  tls_parse_cert bytes w = elim (x.parse_cert bytes) [
    | none ↦ throw "Failed to parse certificate" w
    | some c ↦ let (id, w') = add_new (cert c) w in give (id_value id) w'
  ]

  -- `TLS_Accept`, up to its loop. The result of `uv_fileno` is not looked at.
  unfoldable pub tls_accept : (ctx_id net_handle_id : ℕ) → World → Outcome
  unfolding new_ssl new_tls
  tls_accept ctx_id net_handle_id w = elim (get_handle as_tls_context ctx_id w) [
    | none ↦ throw "Invalid context or socket handle" w
    | some (c, ctx) ↦ elim (get_handle as_net net_handle_id w) [
      | none ↦ throw "Invalid context or socket handle" w
      | some (n, h) ↦
          let (ssl, w₁) = new_ssl (retain_all (c ∷ n ∷ []) w) in
          let (s, w₂) = new_tls ssl n (ticked w₁) in spins ssl (accepting c n s) w₂
    ]
  ]

  -- `TLS_Connect`, up to its loop. A null `SSL_CTX*` is used as it is.
  unfoldable pub tls_connect : (net_handle_id : ℕ) (host : String) → World → Outcome
  unfolding new_ssl new_tls
  tls_connect net_handle_id host w = elim (get_handle as_net net_handle_id w) [
    | none ↦ throw "Invalid socket handle" w
    | some (n, h) ↦ elim (x.ssl_ctx_new w.tick) [
      | none ↦ aborts
      | some ctx ↦
          let (ssl, w₁) = new_ssl (ticked (retain n w)) in
          let (s, w₂) = new_tls ssl n (ticked w₁) in spins ssl (connecting n s ctx) w₂
    ]
  ]

-- `TLS_Read`, up to its loop.
unfoldable pub tls_read : (id : ℕ) (buffer : View) → World → Outcome
tls_read id buffer w = elim (get_handle as_tls id w) [
  | none ↦ throw "Invalid TLS socket handle" w
  | some (o, (ssl, n)) ↦ spins ssl (reading o buffer) (retain o w)
]

-- `TLS_Write`, up to its loop.
unfoldable pub tls_write : (id : ℕ) (buffer : View) → World → Outcome
tls_write id buffer w = elim (get_handle as_tls id w) [
  | none ↦ throw "Invalid TLS socket handle" w
  | some (o, (ssl, n)) ↦ spins ssl (writing o buffer) (retain o w)
]

-- `TLS_Close`, up to its loop.
unfoldable pub tls_close : (id : ℕ) → World → Outcome
tls_close id w = elim (get_handle as_tls id w) [
  | none ↦ throw "Invalid TLS socket handle" w
  | some (o, (ssl, n)) ↦ spins ssl (closing id o) (retain o w)
]
