-- ===== src/State/Memory/Reading.antt =====
-- What the operations on objects do to the `pending_read`s.
use native.Mathlib.Decide.{ℕ_discrete}
use runtime_system.Base.{ℕ, ◌≡◌, none, some, arith}
use runtime_system.State.{World, Class, NetHandle, UdpHandle}
use runtime_system.State.Memory.{
  new_object, set_class, store_handle, release, get_handle, as_net, as_udp,
}
use runtime_system.State.Memory.Owned.{pending_at, pending_of}

-- A socket of `v` that reads, reads in `w`.
abbrev pub NoReads : World → World → Type 0
NoReads w v = (o c : ℕ) → pending_at o v ≡ some c → pending_at o w ≡ some c

pub set_class-NoReads :
    (o : ℕ) (k : Class) (w : World)
    → ((c : ℕ) → pending_of k ≡ some c → pending_at o w ≡ some c)
    → NoReads w (set_class o k w)
unfolding set_class pending_at
set_class-NoReads o k w h p c e = elim (ℕ_discrete p o) [
  | yes is ↦ ground (arith, h c)
  | no ne ↦ ground arith
]

pub new_object-NoReads :
    (k : Class) (w : World) → pending_of k ≡ none → NoReads w (new_object k w).1
unfolding new_object pending_at
new_object-NoReads k w h o c e = ground arith

pub store_handle-NoReads : (o : ℕ) (w : World) → NoReads w (store_handle o w).1
unfolding store_handle pending_at
store_handle-NoReads o w p c e = ground arith

pub release-NoReads : (o : ℕ) (w : World) → NoReads w (release o w)
unfolding release pending_at
release-NoReads o w p c e = ground arith

-- The sockets that ids find.
pub net_pending :
    (id o : ℕ) (n : NetHandle) (w : World)
    → get_handle as_net id w ≡ some (o, n)
    → pending_at o w ≡ n.pending_read
unfolding get_handle pending_at
net_pending id o n w e = ground arith

pub udp_pending :
    (id o : ℕ) (u : UdpHandle) (w : World)
    → get_handle as_udp id w ≡ some (o, u)
    → pending_at o w ≡ u.pending_read
unfolding get_handle pending_at
udp_pending id o u w e = ground arith
