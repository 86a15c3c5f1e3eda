-- ===== src/Examples/Breaker.antt =====
-- The theorems about the circuit breaker (breaker.py) at a breaker that trips at two failures.
use voice_os.Prelude.{
  ℕ, suc, ◌+◌, ◌≡◌, ◌≢◌, ◌≤◌, ◌<◌, refl, false, List, [], ◌∷◌, ◌++◌, Result, err, length, arith,
}
use voice_os.Breaker.{closed, open_state, CircuitBreaker}
use voice_os.Breaker.Machine.{IsSound, admissions, one_probe}
use voice_os.Breaker.Trips.{fail_all, Burst-trips}

abbrev breaker : CircuitBreaker
breaker = record {
  config = record { failure_threshold = 2; window_ms = 1_000; cooldown_ms = 500 };
  state = closed;
  failure_timestamps = 100 ∷ [];
  opened_at = 0;
  half_open_probe_in_flight = false;
  notified = [];
}

abbrev opened : CircuitBreaker
opened = record breaker { state = open_state; failure_timestamps = []; opened_at = 200 }

abbrev burst : List ℕ
burst = 200 ∷ []

closed_open : open_state ≢ closed
closed_open e = cc

Burst-trips_example :
    (breaker.config.failure_threshold ≤ length breaker.failure_timestamps + length burst
      → (fail_all burst breaker).state ≡ open_state)
    × (length breaker.failure_timestamps + length burst < breaker.config.failure_threshold
        → fail_all burst breaker
          ≡ record breaker { failure_timestamps = breaker.failure_timestamps ++ burst })
Burst-trips_example =
    Burst-trips 100 burst breaker refl ((omega arith, omega arith), tt)
      ((omega arith, omega arith), tt) (omega arith)

one_probe_example : admissions (300 ∷ 800 ∷ 900 ∷ []) opened ≤ 1
one_probe_example = one_probe (300 ∷ 800 ∷ 900 ∷ []) opened closed_open

breaker-IsSound : IsSound breaker
breaker-IsSound = record { probing = λ e. cc; below = omega arith }

-- A call that fails, and leaves a mark in its world.
abbrev failing : ℕ → (Result ℕ ℕ) × ℕ
failing w = (err 7, suc w)
