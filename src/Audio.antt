-- ===== src/Audio.antt =====
-- The audio session of a call (src/services/audio_session_manager) and the frame contract
-- (src/libs/contracts/audio.py). Times are whole milliseconds; the PCM samples are a list of
-- signed 16-bit numbers, a sign and a magnitude each.
pub mod JitterBuffer
pub mod Concealer
pub mod Clock
pub mod Session
use voice_os.Prelude.{ℕ, Key, Bool, List}

pub record AudioConfig : Type 0 where
  pub sample_rate : ℕ
  pub encoding : Key
  pub channels : ℕ
  pub frame_duration_ms : ℕ

-- A PCM sample: is it negative, and its magnitude.
abbrev pub Sample : Type 0
Sample = Bool × ℕ

pub record AudioFrame : Type 0 where
  pub pcm_data : List Sample
  pub seq : ℕ
  pub rtp_ts : ℕ
  pub recv_ts : ℕ
  pub config : AudioConfig
  pub is_plc : Bool

-- What a frame of negative `rtp_ts` raises, and `min` of an empty buffer.
pub data AudioError : Type 0 where
  validation_error value_error : AudioError
