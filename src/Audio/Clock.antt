-- ===== src/Audio/Clock.antt =====
-- The session clock (src/services/audio_session_manager/clock.py). A number of milliseconds that
-- the source divides out as a float is a fraction here, its numerator and its denominator.
pub mod Wrap
use voice_os.Prelude.{
  ℕ, ◌+◌, ◌-◌, ◌*◌, ◌%◌, Bool, true, false, Option, none, some, ltb, if◌then◌else◌,
}

pub record SessionClock : Type 0 where
  pub sample_rate : ℕ
  pub rtp_origin : Option ℕ
  pub wall_origin_ms : Option ℕ

abbrev pub new_clock : SessionClock
new_clock = record { sample_rate = 8_000; rtp_origin = none; wall_origin_ms = none }

abbrev pub anchor : ℕ → ℕ → SessionClock → SessionClock
anchor rtp_ts wall_ts c = elim c.rtp_origin [
  | none ↦ record c { rtp_origin = some rtp_ts; wall_origin_ms = some wall_ts }
  | some _ ↦ c
]

abbrev pub is_anchored : SessionClock → Bool
is_anchored c = elim c.rtp_origin [ none ↦ false | some _ ↦ true ]

-- `(rtp_ts - origin) & 0xFFFF_FFFF`, the difference modulo 2 ^ 32.
abbrev pub rtp_delta : ℕ → ℕ → ℕ
rtp_delta rtp_ts origin =
    (rtp_ts % 4_294_967_296 + (4_294_967_296 - origin % 4_294_967_296)) % 4_294_967_296

unfoldable pub timestamp_ms : ℕ → SessionClock → ℕ × ℕ
timestamp_ms rtp_ts c = elim c.rtp_origin [
  | none ↦ (0, 1)
  | some origin ↦
      let delta = rtp_delta rtp_ts origin in
      if ltb 2_147_483_647 delta then (0, 1) else (delta * 1_000, c.sample_rate)
]

unfoldable pub wall_ms : ℕ → SessionClock → ℕ × ℕ
unfolding timestamp_ms
wall_ms rtp_ts c = elim c.rtp_origin [
  | none ↦ (0, 1)
  | some _ ↦ elim c.wall_origin_ms [
    | none ↦ (0, 1)
    | some wall ↦ let (num, den) = timestamp_ms rtp_ts c in (wall * den + num, den)
  ]
]
