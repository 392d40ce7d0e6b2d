-- ===== src/Dns/Failures.antt =====
-- How `DNS_Resolve` fails before it waits.
use runtime_system.Base.{ℕ, ◌≡◌, refl, String, [], false, none, some, negsuc, arith}
use runtime_system.Value.{throw_uv}
use runtime_system.State.{World, Operation, Family, Kind}
use runtime_system.State.Memory.{new_context, delete_context}
use runtime_system.External.{External, submit, ticked}
use runtime_system.Primitive.{replies}
use runtime_system.Dns.{dns_resolve, family_of}

submit-refused :
    (x : External) (c n : ℕ) (op : Operation) (w : World)
    → x.submit w.tick op ≡ negsuc n
    → submit x c op w ≡ (negsuc n, ticked w)
unfolding submit
submit-refused x c n op w e = ground arith

-- The world after the refusal.
abbrev refused_world : String → World → World
refused_world hostname w =
    delete_context w.next_context (ticked (new_context (Kind.dns hostname [] false) w).1)

refused_world-fields :
    (hostname : String) (w : World)
    → ((refused_world hostname w).contexts w.next_context ≡ none)
      × ((refused_world hostname w).requests ≡ w.requests)
      × ((refused_world hostname w).resumable_fibers ≡ w.resumable_fibers)
unfolding new_context delete_context ticked
refused_world-fields hostname w = (ground arith, refl, refl)

refused_reply :
    (x : External) (hostname rrtype : String) (f : Family) (n : ℕ) (w : World)
    → family_of rrtype ≡ some f
    → x.submit w.tick (Operation.getaddrinfo hostname f) ≡ negsuc n
    → dns_resolve x hostname rrtype w
      ≡ replies (throw_uv x.strerror (negsuc n) "getaddrinfo" hostname) (refused_world hostname w)
unfolding dns_resolve new_context
refused_reply x hostname rrtype f n w known e = ground (
  arith,
  submit-refused x w.next_context n (Operation.getaddrinfo hostname f)
      (new_context (Kind.dns hostname [] false) w).1 e,
)

-- A lookup that libuv refuses throws at once: the context is deleted, libuv holds no new request,
-- and no fiber was queued.
pub dns_resolve-refused :
    (x : External) (hostname rrtype : String) (f : Family) (n : ℕ) (w : World)
    → family_of rrtype ≡ some f
    → x.submit w.tick (Operation.getaddrinfo hostname f) ≡ negsuc n
    → (v : World) × (dns_resolve x hostname rrtype w
        ≡ replies (throw_uv x.strerror (negsuc n) "getaddrinfo" hostname) v)
      × (v.contexts w.next_context ≡ none)
      × (v.requests ≡ w.requests)
      × (v.resumable_fibers ≡ w.resumable_fibers)
dns_resolve-refused x hostname rrtype f n w known refused =
    let (contexts, requests, queue) = refused_world-fields hostname w in
    (
      refused_world hostname w,
      refused_reply x hostname rrtype f n w known refused,
      contexts,
      requests,
      queue,
    )
