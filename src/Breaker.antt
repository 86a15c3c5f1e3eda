-- ===== src/Breaker.antt =====
-- The circuit breaker (src/libs/circuit_breaker/breaker.py). Times and durations are whole
-- milliseconds; a difference `now - t` is compared by adding `t` on the other side. The wrapped
-- call is a function on a world `W`, so that it shows whether it was invoked. The calls of
-- `on_state_change`, which returns nothing, are the list `notified`, the latest first.
pub mod Machine
pub mod Trips
pub mod Calls
pub mod Registry
use voice_os.Prelude.{
  ℕ, ◌+◌, Key, Bool, true, false, ◌&&◌, Option, none, some, List, [], ◌∷◌, ◌++◌, keep, Result, ok,
  err, leb, if◌then◌else◌, length,
}
use voice_os.Prelude.Dict.{Dict, lookup, insert}

pub data CircuitState : Type 0 where
  closed open_state half_open : CircuitState

pub record CircuitBreakerConfig : Type 0 where
  pub failure_threshold : ℕ
  pub window_ms : ℕ
  pub cooldown_ms : ℕ

abbrev pub default_config : CircuitBreakerConfig
default_config = record { failure_threshold = 5; window_ms = 30_000; cooldown_ms = 30_000 }

pub record CircuitBreaker : Type 0 where
  pub config : CircuitBreakerConfig
  pub state : CircuitState
  pub failure_timestamps : List ℕ
  pub opened_at : ℕ
  pub half_open_probe_in_flight : Bool
  pub notified : List CircuitState

-- `config or CircuitBreakerConfig()`
unfoldable pub new_breaker : Option CircuitBreakerConfig → CircuitBreaker
new_breaker config = record {
  config = elim config [ none ↦ default_config | some c ↦ c ];
  state = closed;
  failure_timestamps = [];
  opened_at = 0;
  half_open_probe_in_flight = false;
  notified = [];
}

abbrev pub transition : CircuitState → CircuitBreaker → CircuitBreaker
transition new_state b = record b { state = new_state; notified = new_state ∷ b.notified }

abbrev pub is_open : CircuitState → Bool
is_open open_state = true
is_open _ = false

abbrev pub is_half_open : CircuitState → Bool
is_half_open half_open = true
is_half_open _ = false

unfoldable pub maybe_end_cooldown : ℕ → CircuitBreaker → CircuitBreaker
maybe_end_cooldown now b =
    if is_open b.state && leb (b.opened_at + b.config.cooldown_ms) now
    then record (transition half_open b) { half_open_probe_in_flight = false }
    else b

-- Whether the call is admitted; `false` is the CircuitOpenError.
unfoldable pub before_call : ℕ → CircuitBreaker → Bool × CircuitBreaker
unfolding maybe_end_cooldown
before_call now b =
    let c = maybe_end_cooldown now b in
    if is_open c.state
    then (false, c)
    else if is_half_open c.state
    then if c.half_open_probe_in_flight
      then (false, c)
      else (true, record c { half_open_probe_in_flight = true })
    else (true, c)

-- Opening: the transition, the time, and no failures on record.
abbrev pub trip : ℕ → CircuitBreaker → CircuitBreaker
trip now b = record (transition open_state b) { opened_at = now; failure_timestamps = [] }

-- The failures that are still in the window.
abbrev pub recent : ℕ → ℕ → List ℕ → List ℕ
recent now window_ms = keep (λ t. leb now (window_ms + t))

unfoldable pub record_failure : ℕ → CircuitBreaker → CircuitBreaker
record_failure now b =
    let ts = recent now b.config.window_ms (b.failure_timestamps ++ (now ∷ [])) in
    let c : CircuitBreaker = record b { failure_timestamps = ts } in
    if is_half_open b.state
    then trip now (record b { half_open_probe_in_flight = false })
    else if leb b.config.failure_threshold (length ts)
    then trip now c
    else c

unfoldable pub record_success : CircuitBreaker → CircuitBreaker
record_success b =
    let c : CircuitBreaker =
      if is_half_open b.state
      then transition closed (record b { half_open_probe_in_flight = false })
      else b in
    record c { failure_timestamps = [] }

-- What `call_sync` raises.
pub data CallError (E : Type 0) : Type 0 where
  circuit_open : CallError E
  raised : E → CallError E

module _ {W E A : Type 0} where
  -- The `except` and the `else` of the call, once `fn` has ended.
  settle : ℕ → (Result E A) × W → CircuitBreaker → (Result (CallError E) A) × CircuitBreaker × W
  settle later (ok a, w) b = (ok a, record_success b, w)
  settle later (err e, w) b = (err (raised e), record_failure later b, w)

  unfoldable pub call_sync :
      (W → (Result E A) × W)
      → ℕ
      → ℕ
      → CircuitBreaker
      → W
      → (Result (CallError E) A) × CircuitBreaker × W
  unfolding settle
  call_sync fn now later b w =
      let (admitted, c) = before_call now b in
      let done = settle later (fn w) c in if admitted then done else (err circuit_open, c, w)

-- The breakers by service name, and the configuration of those to come.
pub record CircuitBreakerRegistry : Type 0 where
  pub registry_default : CircuitBreakerConfig
  pub breakers : Dict CircuitBreaker

unfoldable pub get_or_create :
    Key
    → Option CircuitBreakerConfig
    → CircuitBreakerRegistry
    → CircuitBreaker × CircuitBreakerRegistry
get_or_create service_name config r = elim (lookup service_name r.breakers) [
  | some b ↦ (b, r)
  | none ↦
      let b = new_breaker (some (elim config [ none ↦ r.registry_default | some c ↦ c ])) in
      (b, record r { breakers = insert service_name b r.breakers })
]

unfoldable pub get : Key → CircuitBreakerRegistry → Option CircuitBreaker
get service_name r = lookup service_name r.breakers
