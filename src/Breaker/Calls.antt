-- ===== src/Breaker/Calls.antt =====
-- What a call through the breaker does (`call_sync` in breaker.py).
use voice_os.Prelude.{
  ℕ, ◌+◌, ◌<◌, ◌≤◌, ◌≡◌, false, [], Result, ok, err, arith, inl, inr, Result-cases,
}
use voice_os.Breaker.{
  closed, open_state, CircuitBreaker, circuit_open, raised, before_call, record_success,
  record_failure, call_sync,
}

module _ {W E A : Type 0} (fn : W → (Result E A) × W) (now later : ℕ) (b : CircuitBreaker)
    (w : W) where
  -- During the cooldown a call fails at once: the function is not invoked, the breaker unchanged.
  pub open_fails_fast :
      b.state ≡ open_state
      → now < b.opened_at + b.config.cooldown_ms
      → call_sync fn now later b w ≡ (err circuit_open, b, w)
  unfolding call_sync before_call
  open_fails_fast o early = ground arith

  -- After the cooldown the next call is a probe: a success closes the breaker with no failure on
  -- record, and the caller has its result; a failure opens it anew from the time of the failure,
  -- and the caller has the exception.
  pub probe_decides :
      b.state ≡ open_state
      → b.opened_at + b.config.cooldown_ms ≤ now
      → let (r, c, v) = call_sync fn now later b w in
        (v ≡ (fn w).1)
        × (c.half_open_probe_in_flight ≡ false)
        × (c.failure_timestamps ≡ [])
        × ((a : A) → (fn w).0 ≡ ok a → (r ≡ ok a) × (c.state ≡ closed))
        × ((e : E)
            → (fn w).0 ≡ err e
            → (r ≡ err (raised e)) × (c.state ≡ open_state) × (c.opened_at ≡ later))
  unfolding call_sync before_call record_success record_failure
  probe_decides o late = elim (Result-cases (fn w).0) [
    | inl (a, e) ↦
        (ground arith, ground arith, ground arith, λ a f. ground arith, λ x f. ground arith)
    | inr (x, e) ↦
        (ground arith, ground arith, ground arith, λ a f. ground arith, λ x f. ground arith)
  ]
