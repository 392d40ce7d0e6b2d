-- ===== src/Machine/Frame/Datagrams.antt =====
-- What the primitives of primitives_udp.cpp and primitives_dns.cpp leave alone.
use runtime_system.Base.{
  ℕ, ℤ, ◌≡◌, refl, ◌∙◌, some, false, String, [], is_some, is_zero, not, true, arith,
}
use runtime_system.Value.{View, buf_of_view}
use runtime_system.State.{World, Kind, Operation, udp, UdpHandle}
use runtime_system.State.Memory.{get_handle, as_udp, new_context}
use runtime_system.State.Memory.Frame.{
  Keeps, Keeps-refl, Keeps-trans, ticked-Keeps, set_class-Keeps, add_new-Keeps, retain-Keeps,
  remove_handle-Keeps,
}
use runtime_system.State.Memory.Reading.{udp_pending}
use runtime_system.State.Memory.Requests.{asked, asked-Keeps, refused-Keeps, reading-Keeps}
use runtime_system.External.{External, submit, ticked}
use runtime_system.Machine.Frame.Rules.{
  Leaves, start-Keeps, by_lookup, by_lookup_known, by_test, by_test_known,
}
use runtime_system.Udp.{udp_create, udp_listen, udp_read, udp_write, udp_close, close_udp}
use runtime_system.Dns.{dns_resolve, family_of}

closes : (u : UdpHandle) (c : ℕ) → (close_udp u).pending_read ≡ some c → u.pending_read ≡ some c
unfolding close_udp
closes u c e = ground arith

module _ (x : External) (w : World) where
  pub udp_create-Keeps : Leaves (Keeps w) (udp_create x w)
  unfolding udp_create
  udp_create-Keeps = Keeps-trans _ _ _ (ticked-Keeps w) (add_new-Keeps _ (ticked w) refl)

  pub udp_listen-Keeps : (id : ℕ) (h : String) (p : ℤ) → Leaves (Keeps w) (udp_listen x id h p w)
  unfolding udp_listen
  udp_listen-Keeps id h p =
      by_lookup (Keeps w) _ _ (get_handle as_udp id w) (Keeps-refl w) λ (o, u).
        by_test (Keeps w) (not (is_zero (x.udp_bind w.tick h p))) _ _ (ticked-Keeps w)
          (ticked-Keeps w)

  pub udp_read-Keeps : (id : ℕ) (v : View) → Leaves (Keeps w) (udp_read x id v w)
  unfolding udp_read
  udp_read-Keeps id v = by_lookup (Keeps w) _ _ (get_handle as_udp id w) (Keeps-refl w) λ (o, u).
      by_test (Keeps w) (is_some u.pending_read) _ _ (Keeps-refl w) (
        Keeps-trans _ _ _
          (reading-Keeps o
            (λ c. udp (record u {
              pending_read = some c;
              handle = record (u.handle) { is_reading = true };
            }))
            (Kind.recv (buf_of_view v) "" 0) w refl)
          (retain-Keeps o _))

  pub udp_write-Keeps :
      (id : ℕ) (v : View) (h : String) (p : ℤ) → Leaves (Keeps w) (udp_write x id v h p w)
  unfolding udp_write
  udp_write-Keeps id v h p =
      by_lookup (Keeps w) _ _ (get_handle as_udp id w) (Keeps-refl w)
        (λ (o, u). start-Keeps x _ _ _ _ w)

  pub udp_close-Keeps : (id : ℕ) → Leaves (Keeps w) (udp_close x id w)
  unfolding udp_close
  udp_close-Keeps id =
      by_lookup_known (Keeps w) _ _ (get_handle as_udp id w) (Keeps-refl w) λ (o, u) found.
        Keeps-trans _ _ _ (set_class-Keeps o _ w (λ c e. udp_pending id o u w found ∙ closes u c e))
          (remove_handle-Keeps id _)

  refused_same :
      (k : Kind) (op : Operation)
      → is_zero (submit x w.next_context op (new_context k w).1).0 ≡ false
      → (asked x k op w).requests ≡ w.requests
  unfolding submit new_context
  refused_same k op e = ground arith

  pub dns_resolve-Keeps : (h t : String) → Leaves (Keeps w) (dns_resolve x h t w)
  unfolding dns_resolve
  dns_resolve-Keeps h t = by_lookup (Keeps w) _ _ (family_of t) (Keeps-refl w) λ f.
      let k = Kind.dns h [] false in
      let op = Operation.getaddrinfo h f in
      by_test_known (Keeps w) (is_zero (submit x w.next_context op (new_context k w).1).0) _ _
        (λ e. asked-Keeps x k op w) (λ e. refused-Keeps x k op w (refused_same k op e))
