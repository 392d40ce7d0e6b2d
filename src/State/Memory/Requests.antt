-- ===== src/State/Memory/Requests.antt =====
-- A new context, and the request of libuv, or the read of a socket, that it is for.
use runtime_system.Base.{ℕ, ◌+◌, ◌≤◌, ◌≡◌, ◌==◌, if◌then◌else◌, List, [], ◌∷◌, ◌++◌, some, arith}
use runtime_system.State.{World, Class, Kind, Operation}
use runtime_system.State.Memory.{new_context, delete_context, set_class}
use runtime_system.State.Memory.Frame.{Keeps, Spares-Keeps, IsHistory-same}
use runtime_system.State.Memory.Owned.{
  Owns-new, Owns-read, Owns-less, waiting, count_requests, pending_at, pending_of, count,
}
use runtime_system.External.{External, ticked, submit}

pub count-append :
    (c d : ℕ) (ds : List ℕ) → count c (ds ++ d ∷ []) ≡ count c ds + (if d == c then 1 else 0)
unfolding count
count-append c d [] = ground arith
count-append c d (e ∷ ds) = omega (arith, count-append c d ds)

count_requests-append :
    (c d : ℕ) (op : Operation) (rs : List (ℕ × Operation))
    → count_requests c (rs ++ (d, op) ∷ []) ≡ count_requests c rs + (if d == c then 1 else 0)
unfolding count_requests
count_requests-append c d op [] = ground arith
count_requests-append c d op ((e, p) ∷ rs) = omega (arith, count_requests-append c d op rs)

-- A context and a request for it.
abbrev pub asked : External → Kind → Operation → World → World
asked x k op w = (submit x w.next_context op (new_context k w).1).1

asked-waiting :
    (x : External) (k : Kind) (op : Operation) (w : World) (c : ℕ)
    → waiting c (asked x k op w) ≤ waiting c w + (if w.next_context == c then 1 else 0)
unfolding waiting submit new_context
asked-waiting x k op w c = ground (arith, count_requests-append c w.next_context op w.requests)

pub asked-Keeps : (x : External) (k : Kind) (op : Operation) (w : World) → Keeps w (asked x k op w)
unfolding submit new_context pending_at
asked-Keeps x k op w = Spares-Keeps _ _ (ground arith) (IsHistory-same _ _ (ground arith)) (λ l.
    Owns-new l l w (asked x k op w) (ground arith) (λ c h. ground arith) (ground arith)
      (λ c ne. ground (arith, asked-waiting x k op w c, ne))
      (ground (arith, asked-waiting x k op w w.next_context)) (λ o c e. ground arith))

-- A context and the deletion of it.
pub refused-Keeps :
    (x : External) (k : Kind) (op : Operation) (w : World)
    → (asked x k op w).requests ≡ w.requests
    → Keeps w (delete_context w.next_context (asked x k op w))
unfolding submit new_context pending_at delete_context waiting
refused-Keeps x k op w h = Spares-Keeps _ _ (ground arith) (IsHistory-same _ _ (ground arith)) (λ l.
    Owns-less l l w (delete_context w.next_context (asked x k op w)) (ground arith)
      (λ c lt g. ground arith) (λ o c lt e. ground arith) (λ c. ground arith)
      (λ o c e. ground arith))

-- A context for which the object at `o`, now `f c`, reads.
abbrev pub reading : (o : ℕ) (f : ℕ → Class) → Kind → World → World
reading o f k w = set_class o (f w.next_context) (ticked (new_context k w).1)

pub reading-Keeps :
    (o : ℕ) (f : ℕ → Class) (k : Kind) (w : World)
    → pending_of (f w.next_context) ≡ some w.next_context
    → Keeps w (reading o f k w)
unfolding set_class ticked new_context pending_at waiting
reading-Keeps o f k w h = Spares-Keeps _ _ (ground arith) (IsHistory-same _ _ (ground arith)) (λ l.
    Owns-read o l w (reading o f k w) (ground arith) (λ c lt. ground arith) (ground arith)
      (λ c. ground arith) (λ c e. ground arith) (λ p c ne e. ground arith))
