-- ===== src/Audio/Session.antt =====
-- The state machine of one call's audio (src/services/audio_session_manager/session.py).
pub mod Gap
pub mod Stream
pub mod Stall
pub mod Losses
pub mod InOrder
pub mod Overflow
use voice_os.Prelude.{
  ℕ, suc, zero, ◌+◌, ◌-◌, ◌*◌, ◌/◌, Key, Bool, true, false, Option, none, some, List, [], ◌∷◌,
  Result, ok, err, ◌>>=◌, ltb, if◌then◌else◌, length,
}
use voice_os.Audio.{AudioFrame, AudioError}
use voice_os.Audio.JitterBuffer.{JitterBuffer, new_jitter_buffer, push, pop_ready, drain}
use voice_os.Audio.Clock.{SessionClock, new_clock, anchor}
use voice_os.Audio.Concealer.{Concealer, feed, conceal}

pub data SessionState : Type 0 where
  connecting active barge_in ending closed : SessionState

pub record AudioSession : Type 0 where
  pub call_id : Key
  pub tenant_id : Key
  pub state : SessionState
  pub jitter_buffer : JitterBuffer
  pub plc : Concealer
  pub clock : SessionClock
  pub last_seq : Option ℕ

abbrev pub new_session : Key → Key → AudioSession
new_session call_id tenant_id = record {
  call_id = call_id;
  tenant_id = tenant_id;
  state = connecting;
  jitter_buffer = new_jitter_buffer;
  plc = none;
  clock = new_clock;
  last_seq = none;
}

-- `_MEDIA_ACTIVE_STATES`
abbrev pub is_media_active : SessionState → Bool
is_media_active active = true
is_media_active barge_in = true
is_media_active _ = false

-- The first lines of `push_frame`: the first frame starts the session.
unfoldable pub connect : AudioFrame → AudioSession → AudioSession
connect frame s = elim s.state [
  | connecting ↦ record s { state = active; clock = anchor frame.rtp_ts frame.recv_ts s.clock }
  | _ ↦ s
]

abbrev pub push_all : List AudioFrame → JitterBuffer → Result AudioError JitterBuffer
push_all [] b = ok b
push_all (f ∷ fs) b = push f b >>= λ b'. push_all fs b'

-- The frames that stand in for the missing ones before `frame`.
unfoldable pub fill_gap : AudioFrame → AudioSession → Result AudioError (List AudioFrame)
fill_gap frame s = elim s.last_seq [
  | none ↦ ok []
  | some last ↦
      if ltb (suc last) frame.seq
      then (let gap = frame.seq - suc last in
          let rtp_per_frame = frame.config.frame_duration_ms * (frame.config.sample_rate / 1000) in
          conceal gap (suc last) frame.rtp_ts (gap * rtp_per_frame) s.plc)
      else ok []
]

-- `push_frame` in a state that takes frames. What raises leaves the session as it was: nothing
-- of it is written before the frames of the gap are there. (A buffer without room for one frame
-- does not arise: `new_session` gives it 50.)
unfoldable pub accept_frame :
    AudioFrame → AudioSession → Result AudioError (List AudioFrame × AudioSession)
unfolding fill_gap
accept_frame frame s = do
  concealed ← fill_gap frame s
  filled ← push_all concealed s.jitter_buffer
  pushed ← push frame filled
  let (output, b) = pop_ready (suc (length pushed.buffer)) pushed
  ok (output, record s { jitter_buffer = b; plc = feed frame s.plc; last_seq = some frame.seq })

unfoldable pub push_frame :
    AudioFrame → AudioSession → Result AudioError (List AudioFrame) × AudioSession
unfolding connect accept_frame
push_frame frame s0 =
    let s : AudioSession = connect frame s0 in
    if is_media_active s.state
    then elim (accept_frame frame s) [ ok (output, s') ↦ (ok output, s') | err e ↦ (err e, s) ]
    else (ok [], s)

unfoldable pub on_barge_in : AudioSession → AudioSession
on_barge_in s = elim s.state [ active ↦ record s { state = barge_in } | _ ↦ s ]

unfoldable pub on_barge_in_end : AudioSession → AudioSession
on_barge_in_end s = elim s.state [ barge_in ↦ record s { state = active } | _ ↦ s ]

unfoldable pub begin_ending : AudioSession → AudioSession
begin_ending s = if is_media_active s.state then record s { state = ending } else s

unfoldable pub close : AudioSession → AudioSession
unfolding drain
close s = elim s.state [
  | ending ↦ record s { jitter_buffer = (drain s.jitter_buffer).1; state = closed }
  | _ ↦ s
]
