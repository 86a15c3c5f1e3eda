-- ===== src/Examples/Limits.antt =====
-- The theorems about the rate limiter (rate_limiter.py) at a limit of 1 in a second.
use voice_os.Prelude.{◌+◌, ◌-◌, ◌*◌, ◌≡◌, ◌≤◌, refl, true, [], ◌∷◌, ltb, if◌then◌else◌, arith}
use voice_os.Limiter.{check_rate}
use voice_os.Limiter.Window.{
  Checks, start, next, live, counts_the_window, window_limited, retry_is_allowed,
}

-- One request at 100_000 is allowed.
first_check : Checks 1 1 100_000 ((7, 100_000) ∷ []) (100_000 ∷ [])
unfolding check_rate
first_check = next 100_000 7 start (omega arith) refl

counts_the_window_example :
    let r = (check_rate 1 1 600_000 8 ((7, 100_000) ∷ [])).0 in
    (r.allowed ≡ ltb (live (1 * 1_000_000) 600_000 (100_000 ∷ [])) 1)
    × (r.remaining ≡ (
        if r.allowed
        then 1 - (live (1 * 1_000_000) 600_000 (100_000 ∷ []) + 1)
        else 1 - live (1 * 1_000_000) 600_000 (100_000 ∷ [])))
counts_the_window_example = counts_the_window 600_000 8 first_check (omega arith)

window_limited_example : live (1 * 1_000_000) 900_000 (100_000 ∷ []) ≤ 1
window_limited_example = window_limited first_check 900_000 (omega arith)

retry_is_allowed_example :
    let (r, z') = check_rate 1 1 600_000 8 ((7, 100_000) ∷ []) in
    (check_rate 1 1 (600_000 + (r.retry_after_ms + 1) * 1_000) 9 z').0.allowed ≡ true
unfolding check_rate
retry_is_allowed_example =
    retry_is_allowed 600_000 8 9 first_check (omega arith) refl (omega arith) refl
