-- ===== src/Limiter.antt =====
-- The rate limiter (src/libs/redis_client/rate_limiter.py), with the sorted sets of its script as
-- the emulation that stands beside it has them (`_fake_sliding_window_handler`, on the client of
-- tests/fixtures/redis.py): a dict from members to scores. The script is one step. Times are whole
-- microseconds; a member, `f"{now}:{uuid4()}"`, is an argument.
pub mod Window
use voice_os.Prelude.{
  ℕ, ◌+◌, ◌-◌, ◌*◌, ◌/◌, Key, Bool, true, false, not, Option, none, some, List, [], ◌∷◌, ltb, leb,
  ◌==◌, if◌then◌else◌, length, min,
}
use voice_os.Prelude.Dict.{Dict, lookup, insert}

abbrev pub SortedSet : Type 0
SortedSet = Dict ℕ

-- ZREMRANGEBYSCORE key -inf (now - window)
unfoldable pub zremrangebyscore : ℕ → ℕ → SortedSet → SortedSet
zremrangebyscore now window [] = []
zremrangebyscore now window (e ∷ z) =
    let rest = zremrangebyscore now window z in if leb (e.1 + window) now then rest else e ∷ rest

-- ZRANGE key 0 0 WITHSCORES: the lowest score.
unfoldable pub lowest_score : SortedSet → Option ℕ
lowest_score [] = none
lowest_score (e ∷ z) = elim (lowest_score z) [ none ↦ some e.1 | some s ↦ some (min e.1 s) ]

-- The script: is it allowed, and the count after it.
unfoldable pub slide : ℕ → ℕ → ℕ → Key → SortedSet → (Bool × ℕ) × SortedSet
unfolding zremrangebyscore
slide now window limit member z =
    let kept = zremrangebyscore now window z in
    let count = length kept in
    if ltb count limit then ((true, count + 1), insert member now kept) else ((false, count), kept)

pub record RateLimitResult : Type 0 where
  pub allowed : Bool
  pub remaining : ℕ
  pub retry_after_ms : ℕ

-- `max(0.0, (oldest + window) - now)` is the subtraction that stops at 0, and `int(… * 1000)` cuts
-- it to whole milliseconds.
unfoldable pub retry_after : ℕ → ℕ → SortedSet → ℕ
unfolding lowest_score
retry_after now window z = elim (lowest_score z) [
  | none ↦ 0
  | some s ↦ ((s + window) - now) / 1_000
]

unfoldable pub check_rate :
    ℕ → ℕ → (now : ℕ) → (member : Key) → SortedSet → RateLimitResult × SortedSet
unfolding slide retry_after
check_rate limit window_seconds now member z =
    let window = window_seconds * 1_000_000 in
    let ((allowed, count_after), z') = slide now window limit member z in
    (
      record {
        allowed = allowed;
        remaining = limit - count_after;
        retry_after_ms = if allowed then 0 else retry_after now window z';
      },
      z',
    )
