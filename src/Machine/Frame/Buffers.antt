-- ===== src/Machine/Frame/Buffers.antt =====
-- The buffers that the primitives hand to libuv: `GetUint8ArrayBufferData` and `uv_buf_init`.
use runtime_system.Base.{
  ℕ, ◌+◌, ◌≤◌, ℤ, ◌≡◌, refl, ◌⊎◌, inl, inr, String, [], ◌∷◌, ◌++◌, Bool, if◌then◌else◌, true, false,
  is_zero, arith,
}
use runtime_system.Value.{View, Buf, buf_of_view}
use runtime_system.State.{World, Kind, Operation, Waits, Cont}
use runtime_system.State.Memory.{
  get_handle, as_file, as_net, as_udp, new_context, retain_all, retain,
}
use runtime_system.External.{External, submit, ticked}
use runtime_system.Primitive.{start}
use runtime_system.Fs.{fs_read, fs_write}
use runtime_system.Tcp.{tcp_write}
use runtime_system.Udp.{udp_write}
use runtime_system.Machine.Frame.Rules.{Leaves, by_lookup}

-- The buffer lies in the view.
abbrev pub IsWithin : View → Buf → Type 0
IsWithin v b =
    (b.buffer ≡ v.buffer) × (v.offset ≤ b.base) × (b.base + b.len ≤ v.offset + v.byte_length)

-- The operation has a buffer, which lies in the view.
abbrev pub Uses : View → Operation → Type 0
Uses v (Operation.read_file fd b position) = IsWithin v b
Uses v (Operation.write_file fd b position) = IsWithin v b
Uses v (Operation.write_stream socket b) = IsWithin v b
Uses v (Operation.udp_send socket b host port) = IsWithin v b
Uses v op = ⊥

-- From `w` to `u`, libuv was handed one request at most, and it uses the view alone.
abbrev pub Asks : View → World → World → Type 0
Asks v w u =
    (u.requests ≡ w.requests)
    ⊎ ((c : ℕ) × (op : Operation) × (u.requests ≡ w.requests ++ (c, op) ∷ []) × Uses v op)

buf_of_view-IsWithin : (v : View) → IsWithin v (buf_of_view v)
unfolding buf_of_view
buf_of_view-IsWithin v = ground arith

module _ (x : External) (v : View) where
  retain-Asks :
      (b : Bool) (o c : ℕ) (op : Operation) (w t u : World)
      → t.requests ≡ w.requests
      → u.requests ≡ w.requests ++ (c, op) ∷ []
      → Uses v op
      → Asks v w (retain o (if b then u else t))
  unfolding retain
  retain-Asks true o c op w t u e f h = inr (c, op, f, h)
  retain-Asks false o c op w t u e f h = inl e

  start-Asks :
      (k : Kind) (op : Operation) (next : Waits → Cont) (o : ℕ) (w : World)
      → Uses v op
      → Leaves (Asks v w) (start x k op next (o ∷ []) w)
  unfolding start submit new_context retain_all retain ticked
  start-Asks k op next o w h =
      retain-Asks (is_zero (x.submit w.tick op)) o w.next_context op w _ _ refl refl h

-- A primitive that reads or writes hands libuv one request at most, whose buffer lies in the
-- `Uint8Array` that the script gave: it begins at or behind its offset and ends before its end, also
-- where the length is cut to 32 bits.
pub io_calls-Asks :
    (x : External) (id : ℕ) (v : View) (position port : ℤ) (host : String) (w : World)
    → Leaves (Asks v w) (fs_read x id v position w)
      × Leaves (Asks v w) (fs_write x id v position w)
      × Leaves (Asks v w) (tcp_write x id v w)
      × Leaves (Asks v w) (udp_write x id v host port w)
unfolding fs_read fs_write tcp_write udp_write
io_calls-Asks x id v position port host w = (
  by_lookup (Asks v w) _ _ (get_handle as_file id w) (inl refl)
      (λ a. start-Asks x v _ _ _ _ w (buf_of_view-IsWithin v)),
  by_lookup (Asks v w) _ _ (get_handle as_file id w) (inl refl)
      (λ a. start-Asks x v _ _ _ _ w (buf_of_view-IsWithin v)),
  by_lookup (Asks v w) _ _ (get_handle as_net id w) (inl refl)
      (λ a. start-Asks x v _ _ _ _ w (buf_of_view-IsWithin v)),
  by_lookup (Asks v w) _ _ (get_handle as_udp id w) (inl refl)
      (λ a. start-Asks x v _ _ _ _ w (buf_of_view-IsWithin v)),
)
