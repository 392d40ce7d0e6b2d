-- ===== src/Tests/Sessions.antt =====
-- TLS sessions.
use runtime_system.Base.{
  ℕ, ◌*◌, ◌+◌, ◌≡◌, ◌↔◌, refl, [], ◌∷◌, Option, none, some, arith, pos, negsuc, update, true, ltb,
  if◌then◌else◌, String, inl,
}
use runtime_system.State.{
  World, tls, net, entry, accepting, reading, TlsLoop, main_stack, finish, ssl_session, key, cert,
}
use runtime_system.Handles.{get, find}
use runtime_system.State.Memory.{release, get_handle}
use runtime_system.External.{External, zero_return, want_read, other_error}
use runtime_system.Primitive.{throw, aborts}
use runtime_system.Tcp.{uv_handle}
use runtime_system.Tls.{loop_net_id, net_of, ok, use_pair, on_cert_callback, tls_round, after_loop}
use runtime_system.Tls.Rounds.{IsLocal, accept_failed-freed, tls_round_closed}
use runtime_system.Tls.Sni.{Accepts, on_cert_callback_iff}
use runtime_system.Machine.{machine, in_tls, steps, settle}
use runtime_system.Machine.Spinning.{steps-eof, steps-after_loop}
use runtime_system.Tests.{answers, started}

-- The peer has closed the stream.
abbrev at_eof : External
at_eof = record answers { ssl_call = λ t ssl l. pos 0; ssl_get_error = λ t ssl r. zero_return }

abbrev a_read : TlsLoop
a_read = reading 2 (record { buffer = 0; offset = 0; byte_length = 16 })

steps-eof_example :
    steps at_eof 1000 (machine (started entry) (in_tls main_stack 7 a_read (λ r. finish)))
    ≡ machine
        (record (started entry) { tick = 0 + 2 * 1000 })
        (in_tls main_stack 7 a_read (λ r. finish))
steps-eof_example =
    steps-eof at_eof 7 a_read main_stack (λ r. finish) (λ t. refl) (λ t. refl) 1000 (started entry)

-- OpenSSL returns 0 until 100 calls were made, then 1.
abbrev at_last : External
at_last = record answers {
  ssl_call = λ t ssl l. if ltb t 100 then pos 0 else pos 1;
  ssl_get_error = λ t ssl r. other_error;
}

steps-after_loop_example :
    steps at_last 51 (machine (started entry) (in_tls main_stack 7 a_read (λ r. finish)))
    ≡ settle
        (after_loop 7 a_read (pos 1) (record (started entry) { tick = 102 }))
        main_stack
        (λ r. finish)
        (record (started entry) { tick = 100 })
steps-after_loop_example =
    steps-after_loop at_last 7 a_read main_stack (λ r. finish) (pos 1) 50 (started entry)
      (λ i lt. (ground arith, ground arith, ground arith)) (refl, refl, ground arith, ground arith)

-- A socket at 1, its context at 0, and a session 7 on it at 2, which the primitive alone holds. The
-- socket's handle 4 was freed.
abbrev accepting_world : World
accepting_world = record (started entry) {
  objects =
      update
        (update (λ o. none) 1
          (some (record {
            id = 4;
            class =
                net (record {
                  handle = uv_handle (some 1) 9;
                  accept_queue = [];
                  pending_read = none;
                });
          })))
        2 (some (record { id = 0; class = tls 7 1 }));
  next_object = 3;
  uses = update (update (update (λ o. 0) 0 2) 1 3) 2 1;
}

session-IsLocal : IsLocal 7 2 1 accepting_world
session-IsLocal = record {
  unshared = refl;
  apart = ground arith;
  shared = omega arith;
  is_tls = (record { id = 0; class = tls 7 1 }, refl, refl);
}

accept_failed-freed_example :
    (v : World) × (after_loop 7 (accepting 0 1 2) (negsuc 0) accepting_world
      ≡ throw "SSL_accept failed" (release 0 v))
    × (v.freed ≡ ssl_session 7 ∷ ssl_session 7 ∷ [])
accept_failed-freed_example =
    accept_failed-freed 7 0 1 2 (negsuc 0) accepting_world session-IsLocal refl

abbrev wants : External
wants = record answers { ssl_call = λ t ssl l. negsuc 0; ssl_get_error = λ t ssl r. want_read }

tls_round_closed_example : tls_round wants 7 a_read accepting_world ≡ aborts
unfolding loop_net_id net_of get_handle get find
tls_round_closed_example = tls_round_closed wants 7 a_read accepting_world 4 (inl refl) refl refl

-- A resolver that answers with the handles 1 and 2.
abbrev resolves : String → World → Option (ℕ × ℕ) × World
resolves name w = (some (1, 2), w)

-- A key and a certificate, under the ids 1 and 2.
abbrev certified : World
certified = record (started entry) {
  handles = record { store = (1, 0) ∷ (2, 1) ∷ []; next_id = 3 };
  objects =
      update (update (λ o. none) 0 (some (record { id = 1; class = key 5 }))) 1
        (some (record { id = 2; class = cert 6 }));
  next_object = 2;
  uses = update (update (λ o. 0) 0 1) 1 1;
}

-- It accepts them.
certified_ok :
    (on_cert_callback (λ k. true) (λ c. true) (some resolves) (some "a") certified).0 ≡ ok
unfolding on_cert_callback use_pair get_handle get find
certified_ok = refl

on_cert_callback_iff_example :
    ((on_cert_callback (λ k. true) (λ c. true) (some resolves) (some "a") certified).0 ≡ ok)
    ↔ Accepts (λ k. true) (λ c. true) (some resolves) (some "a") certified
on_cert_callback_iff_example =
    on_cert_callback_iff (λ k. true) (λ c. true) (some resolves) (some "a") certified
