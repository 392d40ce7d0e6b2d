-- ===== src/Machine/Frame/Sessions.antt =====
-- What the primitives of primitives_tls.cpp leave alone up to their loops.
use runtime_system.Base.{ℕ, ◌+◌, refl, String, List, [], ◌∷◌, arith}
use runtime_system.Value.{View}
use runtime_system.State.{World}
use runtime_system.State.Memory.{get_handle, as_net, as_tls, as_tls_context}
use runtime_system.State.Memory.Frame.{
  Keeps, untouched-Keeps, IsHistory-refl, Keeps-refl, Keeps-trans, ticked-Keeps, add_new-Keeps,
  new_object-Keeps, retain-Keeps, retain_all-Keeps,
}
use runtime_system.State.Memory.Owned.{pending_at}
use runtime_system.External.{External, ticked}
use runtime_system.Machine.Frame.Rules.{Leaves, by_lookup}
use runtime_system.Tls.{
  tls_create_context, tls_parse_key, tls_parse_cert, tls_accept, tls_connect, tls_read, tls_write,
  tls_close,
}

-- `SSL_new`.
new_session-Keeps : (w : World) → Keeps w (record (ticked w) { next_ssl = w.next_ssl + 1 })
unfolding ticked pending_at
new_session-Keeps w =
    untouched-Keeps _ _ (ground arith) (IsHistory-refl w.handles) refl refl refl (λ o c e. e)

module _ (x : External) (w : World) where
  pub tls_create_context-Keeps : (f : ℕ) → Leaves (Keeps w) (tls_create_context x f w)
  unfolding tls_create_context
  tls_create_context-Keeps f =
      by_lookup (Keeps w) _ _ (x.ssl_ctx_new w.tick) (ticked-Keeps w)
        (λ ctx. Keeps-trans _ _ _ (ticked-Keeps w) (add_new-Keeps _ (ticked w) refl))

  pub tls_parse_key-Keeps : (bytes : List ℕ) → Leaves (Keeps w) (tls_parse_key x bytes w)
  unfolding tls_parse_key
  tls_parse_key-Keeps bytes =
      by_lookup (Keeps w) _ _ (x.parse_key bytes) (Keeps-refl w) (λ k. add_new-Keeps _ w refl)

  pub tls_parse_cert-Keeps : (bytes : List ℕ) → Leaves (Keeps w) (tls_parse_cert x bytes w)
  unfolding tls_parse_cert
  tls_parse_cert-Keeps bytes =
      by_lookup (Keeps w) _ _ (x.parse_cert bytes) (Keeps-refl w) (λ k. add_new-Keeps _ w refl)

  pub tls_accept-Keeps : (c n : ℕ) → Leaves (Keeps w) (tls_accept x c n w)
  unfolding tls_accept
  tls_accept-Keeps c n =
      by_lookup (Keeps w) _ _ (get_handle as_tls_context c w) (Keeps-refl w) λ (oc, ctx).
        by_lookup (Keeps w) _ _ (get_handle as_net n w) (Keeps-refl w) λ (o, h).
          Keeps-trans _ _ _ (retain_all-Keeps (oc ∷ o ∷ []) w) (
            Keeps-trans _ _ _ (new_session-Keeps _) (
              Keeps-trans _ _ _ (ticked-Keeps _)
                (Keeps-trans _ _ _ (retain-Keeps o _) (new_object-Keeps _ _ refl))))

  pub tls_connect-Keeps : (n : ℕ) (host : String) → Leaves (Keeps w) (tls_connect x n host w)
  unfolding tls_connect
  tls_connect-Keeps n host =
      by_lookup (Keeps w) _ _ (get_handle as_net n w) (Keeps-refl w) λ (o, h).
        by_lookup (Keeps w) _ _ (x.ssl_ctx_new w.tick) tt λ ctx.
          Keeps-trans _ _ _ (retain-Keeps o w) (
            Keeps-trans _ _ _ (ticked-Keeps _) (
              Keeps-trans _ _ _ (new_session-Keeps _) (
                Keeps-trans _ _ _ (ticked-Keeps _)
                  (Keeps-trans _ _ _ (retain-Keeps o _) (new_object-Keeps _ _ refl)))))

module _ (w : World) where
  pub tls_read-Keeps : (id : ℕ) (v : View) → Leaves (Keeps w) (tls_read id v w)
  unfolding tls_read
  tls_read-Keeps id v =
      by_lookup (Keeps w) _ _ (get_handle as_tls id w) (Keeps-refl w)
        (λ (o, (ssl, n)). retain-Keeps o w)

  pub tls_write-Keeps : (id : ℕ) (v : View) → Leaves (Keeps w) (tls_write id v w)
  unfolding tls_write
  tls_write-Keeps id v =
      by_lookup (Keeps w) _ _ (get_handle as_tls id w) (Keeps-refl w)
        (λ (o, (ssl, n)). retain-Keeps o w)

  pub tls_close-Keeps : (id : ℕ) → Leaves (Keeps w) (tls_close id w)
  unfolding tls_close
  tls_close-Keeps id =
      by_lookup (Keeps w) _ _ (get_handle as_tls id w) (Keeps-refl w)
        (λ (o, (ssl, n)). retain-Keeps o w)
