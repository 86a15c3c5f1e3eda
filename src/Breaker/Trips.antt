-- ===== src/Breaker/Trips.antt =====
-- When the breaker trips (`_record_failure` in breaker.py).
use voice_os.Prelude.{
  ℕ, suc, ◌+◌, ◌<◌, ◌≤◌, ◌≡◌, refl, ap, ◌∙◌, List, [], ◌∷◌, ◌++◌, All, length, length-append, arith,
  ltb, inl, inr, Bool-cases,
}
use mathlib.Core.List.{append-nil, append_assoc}
use voice_os.Breaker.{closed, open_state, CircuitBreaker, recent, record_failure}

-- A burst of failures, in one window that begins at `a`.
abbrev pub Burst : ℕ → ℕ → List ℕ → Type 0
Burst a window_ms = All (λ t. (a ≤ t) × (t ≤ a + window_ms))

abbrev pub fail_all : List ℕ → CircuitBreaker → CircuitBreaker
fail_all [] b = b
fail_all (t ∷ ts) b = fail_all ts (record_failure t b)

Burst-append :
    (a w t : ℕ) (ts : List ℕ) → Burst a w ts → (a ≤ t) × (t ≤ a + w) → Burst a w (ts ++ (t ∷ []))
Burst-append a w t [] h p = (p, tt)
Burst-append a w t (x ∷ ts) h p = (h.0, Burst-append a w t ts h.1 p)

recent-Burst : (a w now : ℕ) (ts : List ℕ) → now ≤ a + w → Burst a w ts → recent now w ts ≡ ts
recent-Burst a w now [] n h = refl
recent-Burst a w now (x ∷ ts) n h = ground (arith, recent-Burst a w now ts n h.1)

one_failure :
    (a t : ℕ) (b : CircuitBreaker)
    → b.state ≡ closed
    → Burst a b.config.window_ms b.failure_timestamps
    → (a ≤ t) × (t ≤ a + b.config.window_ms)
    → suc (length b.failure_timestamps) < b.config.failure_threshold
    → record_failure t b ≡ record b { failure_timestamps = b.failure_timestamps ++ (t ∷ []) }
unfolding record_failure
one_failure a t b c h p n =
    let ts = b.failure_timestamps ++ (t ∷ []) in
    ground (
      arith,
      recent-Burst a b.config.window_ms t ts p.1
          (Burst-append a b.config.window_ms t b.failure_timestamps h p),
      length-append b.failure_timestamps (t ∷ []),
    )

last_failure :
    (a t : ℕ) (b : CircuitBreaker)
    → b.state ≡ closed
    → Burst a b.config.window_ms b.failure_timestamps
    → (a ≤ t) × (t ≤ a + b.config.window_ms)
    → b.config.failure_threshold ≤ suc (length b.failure_timestamps)
    → (record_failure t b).state ≡ open_state
unfolding record_failure
last_failure a t b c h p n =
    let ts = b.failure_timestamps ++ (t ∷ []) in
    ground (
      arith,
      recent-Burst a b.config.window_ms t ts p.1
          (Burst-append a b.config.window_ms t b.failure_timestamps h p),
      length-append b.failure_timestamps (t ∷ []),
    )

stays_open :
    (t : ℕ) (b : CircuitBreaker) → b.state ≡ open_state → (record_failure t b).state ≡ open_state
unfolding record_failure
stays_open t b o = ground arith

fail_all_open :
    (ts : List ℕ) (b : CircuitBreaker) → b.state ≡ open_state → (fail_all ts b).state ≡ open_state
fail_all_open [] b o = o
fail_all_open (t ∷ ts) b o = fail_all_open ts (record_failure t b) (stays_open t b o)

-- A closed breaker in a burst of failures, those on record included: it is open after it if they
-- are as many as the threshold, and if they are fewer it is closed with all of them on record.
pub Burst-trips :
    (a : ℕ) (ts : List ℕ) (b : CircuitBreaker)
    → b.state ≡ closed
    → Burst a b.config.window_ms b.failure_timestamps
    → Burst a b.config.window_ms ts
    → length b.failure_timestamps < b.config.failure_threshold
    → (b.config.failure_threshold ≤ length b.failure_timestamps + length ts
        → (fail_all ts b).state ≡ open_state)
      × (length b.failure_timestamps + length ts < b.config.failure_threshold
          → fail_all ts b ≡ record b { failure_timestamps = b.failure_timestamps ++ ts })
Burst-trips a [] b c h k n = (λ m. absurd (omega arith), λ m. rw (append-nil b.failure_timestamps))
Burst-trips a (t ∷ ts) b c h k n =
    let w = b.config.window_ms in
    let old = b.failure_timestamps in
    elim (Bool-cases (ltb (suc (length old)) b.config.failure_threshold)) [
      | inr many ↦ (
        λ m. fail_all_open ts (record_failure t b) (last_failure a t b c h k.0 (ground arith)),
        λ m. absurd (ground arith),
      )
      | inl few ↦
          let more = length-append old (t ∷ []) in
          let (trips, keeps) =
            Burst-trips a ts (record b { failure_timestamps = old ++ (t ∷ []) }) c
              (Burst-append a w t old h k.0) k.1 (ground (arith, more)) in
          let one = ap (fail_all ts) (one_failure a t b c h k.0 (ground arith)) in
          (
            λ m. ap (λ x. x.state) one ∙ trips (omega (arith, more)),
            λ m. one ∙ keeps (omega (arith, more)) ∙ rw append_assoc,
          )
    ]
