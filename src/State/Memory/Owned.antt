-- ===== src/State/Memory/Owned.antt =====
-- Who uses an `AsyncContext`: libuv, in a request or through a `pending_read`, or main.cpp, in
-- `resumable_fibers` or in the local queue of `OnFibersToResume`.
use native.Mathlib.Decide.{ℕ_discrete}
use runtime_system.Base.{
  ℕ, ◌+◌, ◌<◌, ◌≤◌, ◌≡◌, ◌≢◌, ◌==◌, if◌then◌else◌, sym, ap, List, [], ◌∷◌, Option, none, some, true,
  is_some, arith,
}
use runtime_system.State.{World, Class, net, udp, Operation}

-- How often a context is in a queue.
unfoldable pub count : ℕ → List ℕ → ℕ
count c [] = 0
count c (d ∷ ds) = (if d == c then 1 else 0) + count c ds

-- How many requests libuv has for a context.
unfoldable pub count_requests : ℕ → List (ℕ × Operation) → ℕ
count_requests c [] = 0
count_requests c ((d, op) ∷ rs) = (if d == c then 1 else 0) + count_requests c rs

unfoldable pub waiting : ℕ → World → ℕ
unfolding count count_requests
waiting c w = count c w.resumable_fibers + count_requests c w.requests

abbrev pub pending_of : Class → Option ℕ
pending_of (net n) = n.pending_read
pending_of (udp u) = u.pending_read
pending_of _ = none

-- The `pending_read` of the object at an address.
unfoldable pub pending_at : ℕ → World → Option ℕ
pending_at o w = elim (w.objects o) [ none ↦ none | some h ↦ pending_of h.class ]

-- With the local queues `l` of `OnFibersToResume`, no context is in two places: it is once in a queue
-- or in a request and no socket reads for it, or one socket reads for it. A context in any place was
-- made by `new_context` and not deleted.
pub record Owns (l : ℕ → ℕ) (w : World) : Type 0 where
  pub once : (c : ℕ) → l c + waiting c w ≤ 1
  pub made : (c : ℕ) → 1 ≤ l c + waiting c w → c < w.next_context
  pub live : (c : ℕ) → 1 ≤ l c + waiting c w → is_some (w.contexts c) ≡ true
  pub reads_made : (o c : ℕ) → pending_at o w ≡ some c → c < w.next_context
  pub reads_live : (o c : ℕ) → pending_at o w ≡ some c → is_some (w.contexts c) ≡ true
  pub reads_free : (o c : ℕ) → pending_at o w ≡ some c → l c + waiting c w ≡ 0
  pub reads_once : (o p c : ℕ) → pending_at o w ≡ some c → pending_at p w ≡ some c → o ≡ p

-- No context came to another place.
pub Owns-less :
    (l m : ℕ → ℕ) (w v : World)
    → w.next_context ≤ v.next_context
    → ((c : ℕ)
        → c < w.next_context
        → 1 ≤ m c + waiting c v
        → is_some (v.contexts c) ≡ is_some (w.contexts c))
    → ((o c : ℕ)
        → c < w.next_context
        → pending_at o v ≡ some c
        → is_some (v.contexts c) ≡ is_some (w.contexts c))
    → ((c : ℕ) → m c + waiting c v ≤ l c + waiting c w)
    → ((o c : ℕ) → pending_at o v ≡ some c → pending_at o w ≡ some c)
    → Owns l w
    → Owns m v
Owns-less l m w v grows same same_read less reads h = record {
  once = λ c. omega (arith, less c, h.once c);
  made = λ c g. omega (arith, grows, h.made c (omega (arith, less c, g)));
  live = λ c g.
      let old : 1 ≤ l c + waiting c w = omega (arith, less c, g) in
      let kept = same c (h.made c old) g in rw kept (h.live c old);
  reads_made = λ o c e. omega (arith, grows, h.reads_made o c (reads o c e));
  reads_live = λ o c e.
      rw (same_read o c (h.reads_made o c (reads o c e)) e) (h.reads_live o c (reads o c e));
  reads_free = λ o c e. omega (arith, less c, h.reads_free o c (reads o c e));
  reads_once = λ o p c e f. h.reads_once o p c (reads o c e) (reads p c f);
}

-- An address that was not used yet is in no place.
pub fresh_free :
    (l : ℕ → ℕ) (w : World) → Owns l w → l w.next_context + waiting w.next_context w ≡ 0
fresh_free l w h = elim (ℕ_discrete (l w.next_context + waiting w.next_context w) 0) [
  | yes e ↦ e
  | no ne ↦ absurd (omega (arith, ne, h.made w.next_context (omega (arith, ne))))
]

-- A new context, for which libuv has a request, or which is queued.
pub Owns-new :
    (l m : ℕ → ℕ) (w v : World)
    → v.next_context ≡ w.next_context + 1
    → ((c : ℕ) → c < w.next_context → v.contexts c ≡ w.contexts c)
    → is_some (v.contexts w.next_context) ≡ true
    → ((c : ℕ) → c ≢ w.next_context → m c + waiting c v ≤ l c + waiting c w)
    → m w.next_context + waiting w.next_context v ≤ l w.next_context + waiting w.next_context w + 1
    → ((o c : ℕ) → pending_at o v ≡ some c → pending_at o w ≡ some c)
    → Owns l w
    → Owns m v
Owns-new l m w v grows same new less one reads h = record {
  once = λ c. elim (ℕ_discrete c w.next_context) [
    | yes e ↦ rw e (omega (arith, one, fresh_free l w h))
    | no ne ↦ omega (arith, less c ne, h.once c)
  ];
  made = λ c g. elim (ℕ_discrete c w.next_context) [
    | yes e ↦ omega (arith, grows, e)
    | no ne ↦ omega (arith, grows, h.made c (omega (arith, less c ne, g)))
  ];
  live = λ c g. elim (ℕ_discrete c w.next_context) [
    | yes e ↦ rw e new
    | no ne ↦
        let old : 1 ≤ l c + waiting c w = omega (arith, less c ne, g) in
        rw (same c (h.made c old)) (h.live c old)
  ];
  reads_made = λ o c e. omega (arith, grows, h.reads_made o c (reads o c e));
  reads_live =
      λ o c e. rw (same c (h.reads_made o c (reads o c e))) (h.reads_live o c (reads o c e));
  reads_free = λ o c e.
      let before = h.reads_made o c (reads o c e) in
      omega (arith, less c (omega (arith, before)), h.reads_free o c (reads o c e));
  reads_once = λ o p c e f. h.reads_once o p c (reads o c e) (reads p c f);
}

-- A new context, for which the socket at `s` reads.
pub Owns-read :
    (s : ℕ) (l : ℕ → ℕ) (w v : World)
    → v.next_context ≡ w.next_context + 1
    → ((c : ℕ) → c < w.next_context → v.contexts c ≡ w.contexts c)
    → is_some (v.contexts w.next_context) ≡ true
    → ((c : ℕ) → waiting c v ≡ waiting c w)
    → ((c : ℕ) → pending_at s v ≡ some c → c ≡ w.next_context)
    → ((o c : ℕ) → o ≢ s → pending_at o v ≡ some c → pending_at o w ≡ some c)
    → Owns l w
    → Owns l v
Owns-read s l w v grows same new less this reads h = record {
  once = λ c. omega (arith, less c, h.once c);
  made = λ c g. omega (arith, grows, h.made c (omega (arith, less c, g)));
  live = λ c g.
      let old : 1 ≤ l c + waiting c w = omega (arith, less c, g) in
      rw (same c (h.made c old)) (h.live c old);
  reads_made = λ o c e. elim (ℕ_discrete o s) [
    | yes is ↦ omega (arith, grows, this c (rw (sym is) e))
    | no ne ↦ omega (arith, grows, h.reads_made o c (reads o c ne e))
  ];
  reads_live = λ o c e. elim (ℕ_discrete o s) [
    | yes is ↦ rw (this c (rw (sym is) e)) new
    | no ne ↦ rw (same c (h.reads_made o c (reads o c ne e))) (h.reads_live o c (reads o c ne e))
  ];
  reads_free = λ o c e. elim (ℕ_discrete o s) [
    | yes is ↦ rw (this c (rw (sym is) e)) (omega (arith, less w.next_context, fresh_free l w h))
    | no ne ↦ omega (arith, less c, h.reads_free o c (reads o c ne e))
  ];
  reads_once = λ o p c e f. elim (ℕ_discrete o s) [
    | yes a ↦ elim (ℕ_discrete p s) [
      | yes b ↦ omega (arith, a, b)
      | no b ↦ absurd (omega (arith, this c (rw (sym a) e), h.reads_made p c (reads p c b f)))
    ]
    | no a ↦ elim (ℕ_discrete p s) [
      | yes b ↦ absurd (omega (arith, this c (rw (sym b) f), h.reads_made o c (reads o c a e)))
      | no b ↦ h.reads_once o p c (reads o c a e) (reads p c b f)
    ]
  ];
}

-- The parts that this is about are the same, but for sockets that read no more.
pub Owns-same :
    (l : ℕ → ℕ) (w v : World)
    → v.contexts ≡ w.contexts
    → v.next_context ≡ w.next_context
    → v.resumable_fibers ≡ w.resumable_fibers
    → v.requests ≡ w.requests
    → ((o c : ℕ) → pending_at o v ≡ some c → pending_at o w ≡ some c)
    → Owns l w
    → Owns l v
unfolding waiting
Owns-same l w v contexts next queue requests reads h =
    Owns-less l l w v (omega (arith, next)) (λ c b g. ap (λ k. is_some (k c)) contexts)
      (λ o c b e. ap (λ k. is_some (k c)) contexts) (λ c. rw (queue, requests) (omega arith)) reads
      h

-- The context `r` for which the socket at `p` reads comes to another place.
pub Owns-moved :
    (p r : ℕ) (l : ℕ → ℕ) (w v : World)
    → pending_at p w ≡ some r
    → v.next_context ≡ w.next_context
    → ((c : ℕ) → is_some (v.contexts c) ≡ is_some (w.contexts c))
    → ((c : ℕ) → c ≢ r → waiting c v ≤ waiting c w)
    → waiting r v ≤ waiting r w + 1
    → ((o c : ℕ) → pending_at o v ≡ some c → (o ≢ p) × (pending_at o w ≡ some c))
    → Owns l w
    → Owns l v
Owns-moved p r l w v at next same less one reads h = record {
  once = λ c. elim (ℕ_discrete c r) [
    | yes e ↦ rw e (omega (arith, one, h.reads_free p r at))
    | no ne ↦ omega (arith, less c ne, h.once c)
  ];
  made = λ c g. elim (ℕ_discrete c r) [
    | yes e ↦ omega (arith, next, e, h.reads_made p r at)
    | no ne ↦ omega (arith, next, h.made c (omega (arith, less c ne, g)))
  ];
  live = λ c g. elim (ℕ_discrete c r) [
    | yes e ↦ rw (e, same r) (h.reads_live p r at)
    | no ne ↦ rw (same c) (h.live c (omega (arith, less c ne, g)))
  ];
  reads_made = λ o c e. let (ne, f) = reads o c e in omega (arith, next, h.reads_made o c f);
  reads_live = λ o c e. let (ne, f) = reads o c e in rw (same c) (h.reads_live o c f);
  reads_free = λ o c e.
      let (ne, f) = reads o c e in
      elim (ℕ_discrete c r) [
        | yes is ↦ absurd (ne (h.reads_once o p r (rw (sym is) f) at))
        | no other ↦ omega (arith, less c other, h.reads_free o c f)
      ];
  reads_once = λ o q c e f. h.reads_once o q c (reads o c e).1 (reads q c f).1;
}
