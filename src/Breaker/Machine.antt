-- ===== src/Breaker/Machine.antt =====
-- The invariant of the breaker's state machine (breaker.py), over every order of admissions,
-- successes and failures, as concurrent calls may bring them.
use voice_os.Prelude.{
  ℕ, suc, ◌<◌, ◌≤◌, ◌≡◌, ◌≢◌, inl, inr, Bool-cases, if◌then◌else◌, refl, Bool, true, false, List,
  [], ◌∷◌, length, arith,
}
use voice_os.Breaker.{
  CircuitState, closed, open_state, half_open, CircuitBreaker, before_call, record_failure,
  record_success,
}

-- A probe is under way only in HALF_OPEN, and fewer failures are on record than trip the breaker.
pub record IsSound (b : CircuitBreaker) : Type 0 where
  pub probing : b.half_open_probe_in_flight ≡ true → b.state ≡ half_open
  pub below : length b.failure_timestamps < b.config.failure_threshold

-- One event of a run: a call asks to be admitted, or a call that was admitted ends.
pub data Event : Type 0 where
  ask : ℕ → Event
  succeed : Event
  fail : ℕ → Event

abbrev pub step : Event → CircuitBreaker → CircuitBreaker
step (ask now) b = (before_call now b).1
step succeed b = record_success b
step (fail now) b = record_failure now b

abbrev pub run : List Event → CircuitBreaker → CircuitBreaker
run [] b = b
run (e ∷ es) b = run es (step e b)

step-IsSound : (e : Event) (b : CircuitBreaker) → IsSound b → IsSound (step e b)
unfolding before_call record_failure record_success
step-IsSound (ask now) b s = ground arith
step-IsSound succeed b s = ground arith
step-IsSound (fail now) b s = ground arith

-- Along every run of a breaker for which this holds at the start, the probe flag is up only in
-- HALF_OPEN, and the failures on record are fewer than the threshold.
pub run-IsSound : (es : List Event) (b : CircuitBreaker) → IsSound b → IsSound (run es b)
run-IsSound [] b s = s
run-IsSound (e ∷ es) b s = run-IsSound es (step e b) (step-IsSound e b s)

-- The diagram of the breaker. A failure that comes in late opens an open breaker again.
infix 40 ◌⟶◌
pub data ◌⟶◌ : CircuitState → CircuitState → Type 0 where
  stay : {s : CircuitState} → s ⟶ s
  tripped : closed ⟶ open_state
  cooled : open_state ⟶ half_open
  recovered : half_open ⟶ closed
  relapsed : half_open ⟶ open_state

ruleset edges = (stay, tripped, cooled, recovered, relapsed)

-- Every event follows an edge of the diagram: no shortcut from OPEN to CLOSED, none from CLOSED
-- to HALF_OPEN.
pub step-⟶ : (e : Event) (b : CircuitBreaker) → b.state ⟶ (step e b).state
unfolding before_call record_failure record_success
step-⟶ (ask now) b = grind (arith, edges)
step-⟶ succeed b = grind (arith, edges)
step-⟶ (fail now) b = grind (arith, edges)

abbrev pub has_success : List Event → Bool
has_success [] = false
has_success (succeed ∷ es) = true
has_success (_ ∷ es) = has_success es

stays_shut :
    (e : Event) (b : CircuitBreaker)
    → has_success (e ∷ []) ≡ false
    → b.state ≢ closed
    → (step e b).state ≢ closed
unfolding before_call record_failure
stays_shut (ask now) b q h = ground arith
stays_shut succeed b q h = cc
stays_shut (fail now) b q h = ground arith

-- A breaker that is not closed is never closed again without a success on record.
pub closes_by_success :
    (es : List Event) (b : CircuitBreaker)
    → b.state ≢ closed
    → (run es b).state ≡ closed
    → has_success es ≡ true
closes_by_success [] b h c = absurd (h c)
closes_by_success (ask now ∷ es) b h c =
    closes_by_success es (step (ask now) b) (stays_shut (ask now) b refl h) c
closes_by_success (succeed ∷ es) b h c = refl
closes_by_success (fail now ∷ es) b h c =
    closes_by_success es (step (fail now) b) (stays_shut (fail now) b refl h) c

-- How many of the calls that ask at these times are let through, while none of them ends.
abbrev pub admissions : List ℕ → CircuitBreaker → ℕ
admissions [] b = 0
admissions (now ∷ ts) b =
    let (admitted, c) = before_call now b in
    let rest = admissions ts c in if admitted then suc rest else rest

probing_refuses :
    (now : ℕ) (b : CircuitBreaker)
    → b.state ≡ half_open
    → b.half_open_probe_in_flight ≡ true
    → before_call now b ≡ (false, b)
unfolding before_call
probing_refuses now b h p = ground arith

probing_admits_none :
    (ts : List ℕ) (b : CircuitBreaker)
    → b.state ≡ half_open
    → b.half_open_probe_in_flight ≡ true
    → admissions ts b ≡ 0
probing_admits_none [] b h p = refl
probing_admits_none (now ∷ ts) b h p =
    ground (arith, probing_refuses now b h p, probing_admits_none ts b h p)

unclosed_ask :
    (now : ℕ) (b : CircuitBreaker)
    → b.state ≢ closed
    → let (admitted, c) = before_call now b in
      (c.state ≢ closed)
      × (admitted ≡ true → (c.state ≡ half_open) × (c.half_open_probe_in_flight ≡ true))
unfolding before_call
unclosed_ask now b h = (ground arith, λ a. ground arith)

-- However many calls ask, and whenever, as long as none that was let through has ended: a breaker
-- that is open or half open lets at most one through.
pub one_probe : (ts : List ℕ) (b : CircuitBreaker) → b.state ≢ closed → admissions ts b ≤ 1
one_probe [] b h = omega arith
one_probe (now ∷ ts) b h =
    let c = (before_call now b).1 in
    let (shut, probe) = unclosed_ask now b h in
    elim (Bool-cases (before_call now b).0) [
      | inl yes_a ↦
          let (half, flag) = probe yes_a in ground (arith, probing_admits_none ts c half flag)
      | inr no_a ↦ ground (arith, one_probe ts c shut)
    ]
