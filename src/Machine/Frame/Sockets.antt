-- ===== src/Machine/Frame/Sockets.antt =====
-- What the primitives of primitives_tcp.cpp leave alone.
use runtime_system.Base.{ℕ, ℤ, ◌≡◌, refl, ◌∙◌, some, String, is_some, is_zero, not, true, arith}
use runtime_system.Value.{View, buf_of_view}
use runtime_system.State.{World, Cont, Waits, Kind, net, NetHandle}
use runtime_system.State.Memory.{get_handle, as_net}
use runtime_system.State.Memory.Frame.{
  Keeps, Keeps-refl, Keeps-trans, ticked-Keeps, set_class-Keeps, release-Keeps, new_object-Keeps,
  add_handle-Keeps, retain-Keeps, remove_handle-Keeps,
}
use runtime_system.State.Memory.Reading.{net_pending}
use runtime_system.State.Memory.Requests.{reading-Keeps}
use runtime_system.External.{External, ticked}
use runtime_system.Machine.Frame.Rules.{
  Leaves, start-Keeps, by_lookup, by_lookup_known, by_test, Leaves-Keeps,
}
use runtime_system.Tcp.{
  close_net, new_net, tcp_listen, tcp_accept, tcp_connect, tcp_read, tcp_write, tcp_close,
  tcp_poll_then,
}

closes : (n : NetHandle) (c : ℕ) → (close_net n).pending_read ≡ some c → n.pending_read ≡ some c
unfolding close_net
closes n c e = ground arith

module _ (x : External) (w : World) where
  new_net-Keeps : Keeps w (new_net x w).1
  unfolding new_net
  new_net-Keeps = Keeps-trans _ _ _ (ticked-Keeps w) (new_object-Keeps _ _ refl)

  pub tcp_listen-Keeps : (h : String) (p : ℤ) → Leaves (Keeps w) (tcp_listen x h p w)
  unfolding tcp_listen
  tcp_listen-Keeps h p =
      let w₁ = (new_net x w).1 in
      let w₂ = ticked w₁ in
      let bound = Keeps-trans _ _ _ new_net-Keeps (ticked-Keeps _) in
      let listening = Keeps-trans _ _ _ bound (ticked-Keeps _) in
      by_test (Keeps w) (not (is_zero (x.tcp_bind w₁.tick h p))) _ _
        (Keeps-trans _ _ _ bound (release-Keeps _ _))
        (by_test (Keeps w) (not (is_zero (x.listen w₂.tick (x.socket w.tick)))) _ _
          (Keeps-trans _ _ _ listening (release-Keeps _ _))
          (Keeps-trans _ _ _ listening (add_handle-Keeps _ _)))

  pub tcp_accept-Keeps : (id : ℕ) → Leaves (Keeps w) (tcp_accept x id w)
  unfolding tcp_accept
  tcp_accept-Keeps id =
      by_lookup_known (Keeps w) _ _ (get_handle as_net id w) (Keeps-refl w) λ (o, n) found.
        Keeps-trans _ _ _ (set_class-Keeps o _ w (λ c e. net_pending id o n w found ∙ e))
          (retain-Keeps o _)

  pub tcp_connect-Keeps : (h : String) (p : ℤ) → Leaves (Keeps w) (tcp_connect x h p w)
  unfolding tcp_connect
  tcp_connect-Keeps h p =
      Leaves-Keeps w (ticked w) _ (ticked-Keeps w) (start-Keeps x _ _ _ _ (ticked w))

  pub tcp_read-Keeps : (id : ℕ) (v : View) → Leaves (Keeps w) (tcp_read x id v w)
  unfolding tcp_read
  tcp_read-Keeps id v = by_lookup (Keeps w) _ _ (get_handle as_net id w) (Keeps-refl w) λ (o, n).
      by_test (Keeps w) (is_some n.pending_read) _ _ (Keeps-refl w) (
        Keeps-trans _ _ _
          (reading-Keeps o
            (λ c. net (record n {
              pending_read = some c;
              handle = record (n.handle) { is_reading = true };
            }))
            (Kind.read (buf_of_view v)) w refl)
          (retain-Keeps o _))

  pub tcp_write-Keeps : (id : ℕ) (v : View) → Leaves (Keeps w) (tcp_write x id v w)
  unfolding tcp_write
  tcp_write-Keeps id v =
      by_lookup (Keeps w) _ _ (get_handle as_net id w) (Keeps-refl w)
        (λ (o, n). start-Keeps x _ _ _ _ w)

  pub tcp_close-Keeps : (id : ℕ) → Leaves (Keeps w) (tcp_close x id w)
  unfolding tcp_close
  tcp_close-Keeps id =
      by_lookup_known (Keeps w) _ _ (get_handle as_net id w) (Keeps-refl w) λ (o, n) found.
        Keeps-trans _ _ _ (set_class-Keeps o _ w (λ c e. net_pending id o n w found ∙ closes n c e))
          (remove_handle-Keeps id _)

  pub tcp_poll_then-Keeps :
      (next : Waits → Cont) (id : ℕ) (e : ℤ) → Leaves (Keeps w) (tcp_poll_then x next id e w)
  unfolding tcp_poll_then
  tcp_poll_then-Keeps next id e =
      by_lookup (Keeps w) _ _ (get_handle as_net id w) (Keeps-refl w) λ (o, n).
        by_lookup (Keeps w) _ _ (x.fileno w.tick n.handle.socket) (ticked-Keeps w)
          λ fd. Leaves-Keeps w (ticked w) _ (ticked-Keeps w) (start-Keeps x _ _ _ _ (ticked w))
