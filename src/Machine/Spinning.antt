-- ===== src/Machine/Spinning.antt =====
-- A loop of primitives_tls.cpp that never ends: the machine stays at its head.
use runtime_system.Base.{
  ℕ, zero, suc, ◌+◌, ◌*◌, ◌<◌, ℤ, pos, false, is_zero, subst, ◌≡◌, ◌≢◌, ◌∙◌, ap, arith,
}
use runtime_system.Value.{Reply}
use runtime_system.State.{World, TlsLoop, Script, Base}
use runtime_system.External.{External, zero_return, want_read, want_write}
use runtime_system.Tls.{after_loop}
use runtime_system.Tls.Rounds.{tls_round-zero, tls_round-after_loop}
use runtime_system.Machine.Switch.{Machine, machine, in_tls}
use runtime_system.Machine.Steps.{step, steps, settle}

module _ (x : External) (ssl : ℕ) (l : TlsLoop) (b : Base) (k : Reply → Script)
    (eof : (tick : ℕ) → x.ssl_call tick ssl l ≡ pos 0)
    (why : (tick : ℕ) → x.ssl_get_error tick ssl (pos 0) ≡ zero_return) where
  step-eof :
      (w : World)
      → step x (machine w (in_tls b ssl l k))
        ≡ machine (record w { tick = w.tick + 1 + 1 }) (in_tls b ssl l k)
  unfolding step settle
  step-eof w = ground (
    arith,
    why (w.tick + 1),
    tls_round-zero x ssl l w (eof w.tick) (ground (arith, why (w.tick + 1)))
        (ground (arith, why (w.tick + 1))),
  )

  -- Once the peer has closed the stream, so that each call returns 0 with `SSL_ERROR_ZERO_RETURN`,
  -- the loop goes round for ever: after any number of steps the process is at its head, with
  -- nothing changed, and neither the script nor `uv_run` gets control again.
  pub steps-eof :
      (n : ℕ) (w : World)
      → steps x n (machine w (in_tls b ssl l k))
        ≡ machine (record w { tick = w.tick + 2 * n }) (in_tls b ssl l k)
  unfolding steps
  steps-eof zero w = ap (λ t. machine (record w { tick = t }) (in_tls b ssl l k)) (omega arith)
  steps-eof (suc n) w =
      ap (steps x n) (step-eof w)
      ∙ steps-eof n (record w { tick = w.tick + 1 + 1 })
      ∙ ap (λ t. machine (record w { tick = t }) (in_tls b ssl l k)) (omega arith)

-- The loop goes round `n` times: the call returns 0 and OpenSSL does not ask to wait.
abbrev pub Spins : External → (ssl : ℕ) → TlsLoop → (n tick : ℕ) → Type 0
Spins x ssl l n tick =
    (i : ℕ)
    → i < n
    → (x.ssl_call (tick + 2 * i) ssl l ≡ pos 0)
      × (x.ssl_get_error (tick + 2 * i + 1) ssl (pos 0) ≢ want_read)
      × (x.ssl_get_error (tick + 2 * i + 1) ssl (pos 0) ≢ want_write)

-- The call at a time returns `r`, which is not 0, and OpenSSL does not ask to wait.
abbrev pub Returns : External → (ssl : ℕ) → TlsLoop → ℤ → (tick : ℕ) → Type 0
Returns x ssl l r tick =
    (x.ssl_call tick ssl l ≡ r)
    × (is_zero r ≡ false)
    × (x.ssl_get_error (tick + 1) ssl r ≢ want_read)
    × (x.ssl_get_error (tick + 1) ssl r ≢ want_write)

module _ (x : External) (ssl : ℕ) (l : TlsLoop) (b : Base) (k : Reply → Script) (r : ℤ) where
  Spins-next : (n tick : ℕ) → Spins x ssl l (suc n) tick → Spins x ssl l n (tick + 1 + 1)
  Spins-next n tick h i lt =
      subst
        (λ t.
          (x.ssl_call t ssl l ≡ pos 0)
          × (x.ssl_get_error (t + 1) ssl (pos 0) ≢ want_read)
          × (x.ssl_get_error (t + 1) ssl (pos 0) ≢ want_write))
        (omega arith) (h (suc i) (omega arith))

  step-Spins :
      (n : ℕ) (w : World)
      → Spins x ssl l (suc n) w.tick
      → step x (machine w (in_tls b ssl l k))
        ≡ machine (record w { tick = w.tick + 1 + 1 }) (in_tls b ssl l k)
  unfolding step settle
  step-Spins n w h =
      let (e, nr, nw) = h 0 (omega arith) in
      ap (λ o. settle o b k w)
        (tls_round-zero x ssl l w (ground (arith, e)) (ground (arith, nr)) (ground (arith, nw)))

  -- The code behind the loop, after a call at a time.
  behind : World → (tick : ℕ) → Machine
  behind w tick =
      settle (after_loop ssl l r (record w { tick = tick + 2 })) b k (record w { tick = tick })

  step-Returns :
      (w : World)
      → Returns x ssl l r w.tick
      → step x (machine w (in_tls b ssl l k)) ≡ behind w w.tick
  unfolding step behind
  step-Returns w (e, nz, nr, nw) =
      ap (λ o. settle o b k w) (tls_round-after_loop x ssl l r w e nz nr nw)
      ∙ ap (λ t. settle (after_loop ssl l r (record w { tick = t })) b k w) (omega arith)

  -- A loop of primitives_tls.cpp ends: if the SSL call returns 0 for `n` rounds, without a wish to
  -- wait, and then a result `r` that is not 0, the process is after `n + 1` steps in the code behind
  -- the loop, with `r`, and nothing has changed but the calls made.
  pub steps-after_loop :
      (n : ℕ) (w : World)
      → Spins x ssl l n w.tick
      → Returns x ssl l r (w.tick + 2 * n)
      → steps x (suc n) (machine w (in_tls b ssl l k))
        ≡ settle
            (after_loop ssl l r (record w { tick = w.tick + 2 * n + 2 }))
            b
            k
            (record w { tick = w.tick + 2 * n })
  unfolding steps behind
  steps-after_loop zero w h g =
      step-Returns w (subst (Returns x ssl l r) (omega arith) g) ∙ ap (behind w) (omega arith)
  steps-after_loop (suc n) w h g =
      ap (λ m. steps x n (step x m)) (step-Spins n w h)
      ∙ steps-after_loop n (record w { tick = w.tick + 1 + 1 }) (Spins-next n w.tick h)
          (subst (Returns x ssl l r) (omega arith) g)
      ∙ ap (behind w) (omega arith)
