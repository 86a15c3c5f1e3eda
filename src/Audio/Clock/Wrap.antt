-- ===== src/Audio/Clock/Wrap.antt =====
-- The clock across the wrap-around of the RTP timestamp (`timestamp_ms` and `wall_ms` in clock.py).
use voice_os.Prelude.{ℕ, ◌+◌, ◌*◌, ◌%◌, ◌≤◌, ◌<◌, ◌≡◌, some, arith}
use voice_os.Audio.Clock.{SessionClock, timestamp_ms, wall_ms, rtp_delta}

-- The difference comes back, also when the sum has wrapped around.
rtp_delta-wrapped :
    (origin d : ℕ) → d < 4_294_967_296 → rtp_delta ((origin + d) % 4_294_967_296) origin ≡ d
rtp_delta-wrapped origin d h = omega arith

-- A timestamp d samples after the origin, wrapped to 32 bits, is d samples on the clock, up to
-- half the range; one that is further on, that is behind the origin, is at 0. The wall time is the
-- origin's plus that.
pub clock_wraps :
    (c : SessionClock) (origin wall d : ℕ)
    → c.rtp_origin ≡ some origin
    → c.wall_origin_ms ≡ some wall
    → d < 4_294_967_296
    → let rtp_ts = (origin + d) % 4_294_967_296 in
      (d ≤ 2_147_483_647
        → (timestamp_ms rtp_ts c ≡ (d * 1_000, c.sample_rate))
          × (wall_ms rtp_ts c ≡ (wall * c.sample_rate + d * 1_000, c.sample_rate)))
      × (2_147_483_647 < d → timestamp_ms rtp_ts c ≡ (0, 1))
unfolding timestamp_ms wall_ms
clock_wraps c origin wall d e w h = (
  λ near.
      (ground (arith, rtp_delta-wrapped origin d h), ground (arith, rtp_delta-wrapped origin d h)),
  λ far. ground (arith, rtp_delta-wrapped origin d h),
)
