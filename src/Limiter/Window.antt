-- ===== src/Limiter/Window.antt =====
-- The limiter (rate_limiter.py) against a log of the requests that it allowed.
use voice_os.Prelude.{
  ℕ, suc, ◌+◌, ◌-◌, ◌*◌, ◌/◌, ◌≤◌, ◌<◌, ◌≡◌, refl, Key, true, false, none, some, List, [], ◌∷◌, ltb,
  leb, if◌then◌else◌, length, arith, Option-cases, Bool-cases, inl, inr, sym, ◌∙◌,
}
use voice_os.Prelude.Dict.{lookup, insert, values}
use voice_os.Limiter.{
  SortedSet, zremrangebyscore, slide, check_rate, lowest_score, retry_after, RateLimitResult,
}

-- How many of the times are in the window that ends at t.
abbrev pub live : ℕ → ℕ → List ℕ → ℕ
live window t [] = 0
live window t (a ∷ log) =
    let rest = live window t log in if leb (a + window) t then rest else suc rest

-- The log after a check.
abbrev pub logged : ℕ → RateLimitResult → List ℕ → List ℕ
logged now r log = if r.allowed then now ∷ log else log

-- The checks of one key: the time of the last one, the sorted set, and the times of the requests
-- that were allowed, the latest first. Time does not go back, and members are new.
pub data Checks (limit window_seconds : ℕ) : ℕ → SortedSet → List ℕ → Type 0 where
  start : Checks limit window_seconds 0 [] []
  next :
      {last : ℕ} {z : SortedSet} {log : List ℕ} (now : ℕ) (member : Key)
      → Checks limit window_seconds last z log
      → last ≤ now
      → lookup member z ≡ none
      → Checks limit window_seconds now
          (check_rate limit window_seconds now member z).1
          (logged now (check_rate limit window_seconds now member z).0 log)

live-zremrangebyscore :
    (window now t : ℕ) (z : SortedSet)
    → now ≤ t
    → live window t (values (zremrangebyscore now window z)) ≡ live window t (values z)
unfolding zremrangebyscore
live-zremrangebyscore window now t [] h = refl
live-zremrangebyscore window now t (e ∷ z) h =
    ground (arith, live-zremrangebyscore window now t z h)

live-kept :
    (window now : ℕ) (z : SortedSet)
    → live window now (values (zremrangebyscore now window z))
      ≡ length (zremrangebyscore now window z)
unfolding zremrangebyscore
live-kept window now [] = refl
live-kept window now (e ∷ z) = ground (arith, live-kept window now z)

kept-lookup :
    (window now : ℕ) (k : Key) (z : SortedSet)
    → lookup k z ≡ none
    → lookup k (zremrangebyscore now window z) ≡ none
unfolding zremrangebyscore
kept-lookup window now k [] h = refl
kept-lookup window now k (e ∷ z) h = ground (arith, kept-lookup window now k z)

live-insert :
    (window t : ℕ) (k : Key) (s : ℕ) (z : SortedSet)
    → lookup k z ≡ none
    → live window t (values (insert k s z)) ≡ live window t (s ∷ values z)
live-insert window t k s [] h = refl
live-insert window t k s (e ∷ z) h = ground (arith, live-insert window t k s z)

live_later : (window t u : ℕ) (log : List ℕ) → t ≤ u → live window u log ≤ live window t log
live_later window t u [] h = omega arith
live_later window t u (a ∷ log) h = ground (arith, live_later window t u log h)

-- What the script counts is what the log has in the window.
slide-values :
    (limit now window t : ℕ) (member : Key) (z : SortedSet)
    → now ≤ t
    → lookup member z ≡ none
    → live window t (values (slide now window limit member z).1)
      ≡ live window t (if (slide now window limit member z).0.0 then now ∷ values z else values z)
unfolding slide
slide-values limit now window t member z h fresh =
    elim (Bool-cases (ltb (length (zremrangebyscore now window z)) limit)) [
      | inl below ↦ ground (
        arith,
        live-insert window t member now (zremrangebyscore now window z)
            (kept-lookup window now member z fresh),
        live-zremrangebyscore window now t z h,
      )
      | inr full ↦ ground (arith, live-zremrangebyscore window now t z h)
    ]

-- The result of a check is that of the script.
check_rate-allowed :
    (limit w now : ℕ) (member : Key) (z : SortedSet)
    → (check_rate limit w now member z).0.allowed ≡ (slide now (w * 1_000_000) limit member z).0.0
unfolding check_rate
check_rate-allowed limit w now member z = refl

check_rate-set :
    (limit w now : ℕ) (member : Key) (z : SortedSet)
    → (check_rate limit w now member z).1 ≡ (slide now (w * 1_000_000) limit member z).1
unfolding check_rate
check_rate-set limit w now member z = refl

live-log :
    {limit w last : ℕ} {z : SortedSet} {log : List ℕ}
    → Checks limit w last z log
    → (t : ℕ) → last ≤ t
    → live (w * 1_000_000) t (values z) ≡ live (w * 1_000_000) t log
unfolding check_rate
live-log start t h = refl
live-log {limit} {w} (next {last} {z} {log} now member c later fresh) t h =
    let before = live-log c t (omega arith) in
    let step = slide-values limit now (w * 1_000_000) t member z h fresh in
    elim (Bool-cases (slide now (w * 1_000_000) limit member z).0.0) [
      | inl yes_allowed ↦ ground (arith, before, step)
      | inr no_allowed ↦ ground (arith, before, step)
    ]

-- A check decides as if it counted the requests that were allowed within the window before it:
-- it allows exactly when they are fewer than the limit, and reports what remains of the limit.
-- Clocks do not go back and members are new.
pub counts_the_window :
    {limit w last : ℕ} {z : SortedSet} {log : List ℕ} (now : ℕ) (member : Key)
    → Checks limit w last z log
    → last ≤ now
    → let r = (check_rate limit w now member z).0 in
      (r.allowed ≡ ltb (live (w * 1_000_000) now log) limit)
      × (r.remaining ≡ (
          if r.allowed
          then limit - (live (w * 1_000_000) now log + 1)
          else limit - live (w * 1_000_000) now log))
unfolding check_rate slide
counts_the_window {limit} {w} {last} {z} {log} now member c later =
    let before = live-log c now later in
    let count : length (zremrangebyscore now (w * 1_000_000) z) ≡ live (w * 1_000_000) now log =
      sym (live-kept (w * 1_000_000) now z)
      ∙ live-zremrangebyscore (w * 1_000_000) now now z (omega arith)
      ∙ before in
    elim (Bool-cases (ltb (length (zremrangebyscore now (w * 1_000_000) z)) limit)) [
      | inl below ↦ ground (arith, count)
      | inr full ↦ ground (arith, count)
    ]

-- At no time are more requests allowed within the window than the limit, on clocks that do not go
-- back and with new members.
pub window_limited :
    {limit w last : ℕ} {z : SortedSet} {log : List ℕ}
    → Checks limit w last z log
    → (t : ℕ) → last ≤ t
    → live (w * 1_000_000) t log ≤ limit
window_limited start t h = omega arith
window_limited {limit} {w} (next {last} {z} {log} now member c later fresh) t h =
    let (decided, _) = counts_the_window now member c later in
    let before = window_limited c now later in
    let aging = live_later (w * 1_000_000) now t log h in
    elim (Bool-cases (check_rate limit w now member z).0.allowed) [
      | inl yes_allowed ↦ ground (arith, decided, before, aging)
      | inr no_allowed ↦ ground (arith, decided, before, aging)
    ]

live-length : (window t : ℕ) (z : SortedSet) → live window t (values z) ≤ length z
live-length window t [] = omega arith
live-length window t (x ∷ z) = ground (arith, live-length window t z)

lowest_ages :
    (window t s : ℕ) (z : SortedSet)
    → lowest_score z ≡ some s
    → s + window ≤ t
    → live window t (values z) < length z
unfolding lowest_score
lowest_ages window t s [] e h = ground arith
lowest_ages window t s (x ∷ z) e h = elim (Option-cases (lowest_score z)) [
  | inl n ↦ ground (arith, live-length window t z)
  | inr (u, q) ↦ elim (Bool-cases (leb (u + window) t)) [
    | inl old ↦ ground (arith, lowest_ages window t u z q)
    | inr young ↦ ground (arith, live-length window t z)
  ]
]

lowest_none : (z : SortedSet) → lowest_score z ≡ none → length z ≡ 0
unfolding lowest_score
lowest_none [] h = refl
lowest_none (x ∷ z) h = ground arith

-- The set that a refusal leaves, a millisecond after the time it names: one of its members is out of the window.
refused_ages :
    (limit w now : ℕ) (member : Key) (z : SortedSet)
    → 0 < limit
    → (check_rate limit w now member z).0.allowed ≡ false
    → let (r, z') = check_rate limit w now member z in
      live (w * 1_000_000) (now + (r.retry_after_ms + 1) * 1_000) (values z') < length z'
unfolding check_rate slide retry_after
refused_ages limit w now member z p refused =
    elim (Option-cases (lowest_score (zremrangebyscore now (w * 1_000_000) z))) [
      | inl n ↦ ground (arith, lowest_none (zremrangebyscore now (w * 1_000_000) z) n)
      | inr (s, q) ↦ ground (
        arith,
        lowest_ages (w * 1_000_000) (now + (((s + w * 1_000_000) - now) / 1_000 + 1) * 1_000) s
            (zremrangebyscore now (w * 1_000_000) z) q,
      )
    ]

refused-length :
    (limit w now : ℕ) (member : Key) (z : SortedSet)
    → (check_rate limit w now member z).0.allowed ≡ false
    → length (check_rate limit w now member z).1 ≡ live (w * 1_000_000) now (values z)
unfolding check_rate slide
refused-length limit w now member z refused =
    ground (arith, live-kept (w * 1_000_000) now z, live-zremrangebyscore (w * 1_000_000) now now z)

-- A caller that was refused and waits a millisecond longer than the whole milliseconds of the
-- result is allowed, if nobody else was in between, the limit is not 0, clocks do not go back and
-- members are new.
pub retry_is_allowed :
    {limit w last : ℕ} {z : SortedSet} {log : List ℕ} (now : ℕ) (member again : Key)
    → Checks limit w last z log
    → last ≤ now
    → lookup member z ≡ none
    → 0 < limit
    → (check_rate limit w now member z).0.allowed ≡ false
    → let (r, z') = check_rate limit w now member z in
      (check_rate limit w (now + (r.retry_after_ms + 1) * 1_000) again z').0.allowed ≡ true
retry_is_allowed {limit} {w} {last} {z} {log} now member again c later fresh p refused =
    let r = (check_rate limit w now member z).0 in
    let t = now + (r.retry_after_ms + 1) * 1_000 in
    let c' = next now member c later fresh in
    let (decided, _) = counts_the_window t again c' (omega arith) in
    let ages = refused_ages limit w now member z p refused in
    let size = refused-length limit w now member z refused in
    let within = window_limited c now later in
    ground (arith, decided, ages, size, within, live-log c now later, live-log c' t (omega arith))
