-- ===== src/Examples/Sound.antt =====
-- The theorems about the audio session (services/audio_session_manager) at a session that has
-- handed on the frame 10.
use voice_os.Prelude.{
  ◌+◌, ◌*◌, err, ℕ, suc, ◌+◌, ◌*◌, ◌≡◌, refl, true, false, some, List, [], ◌∷◌, ok, arith, length,
}
use voice_os.Audio.{AudioFrame, validation_error}
use voice_os.Audio.Clock.{SessionClock, new_clock}
use voice_os.Audio.JitterBuffer.{JitterBuffer, new_jitter_buffer}
use voice_os.Audio.JitterBuffer.Bounds.{
  IsBounded, Operation, push_op, pop_op, drain_op, operate_all, memory-IsBounded,
}
use voice_os.Audio.JitterBuffer.Order.{IsIndexed, IsRun}
use voice_os.Audio.Session.{AudioSession, active, push_frame}
use voice_os.Audio.Session.Stall.{IsLost, stream, silent_after_loss}
use voice_os.Audio.Session.Losses.{IsSteady, long_gap-IsLost}
use voice_os.Audio.Session.InOrder.{in_order_through}
use voice_os.Audio.Session.Overflow.{wrapped_gap_raises}

abbrev frame : ℕ → AudioFrame
frame n = record {
  pcm_data = (false, 300) ∷ (true, 41) ∷ [];
  seq = n;
  rtp_ts = 160 * n;
  recv_ts = 20 * n;
  config = record { sample_rate = 8_000; encoding = 0; channels = 1; frame_duration_ms = 20 };
  is_plc = false;
}

abbrev session : AudioSession
session = record {
  call_id = 1;
  tenant_id = 2;
  state = active;
  jitter_buffer = record new_jitter_buffer { next_seq = some 11; last_arrival = some 200 };
  plc = some (frame 10);
  clock = record new_clock { rtp_origin = some 0; wall_origin_ms = some 0 };
  last_seq = some 10;
}

session-IsSteady : IsSteady 10 session
session-IsSteady = (refl, refl, refl, omega arith, refl, (frame 10, refl))

in_order_through_example :
    let (out, s') = stream (frame 11 ∷ frame 12 ∷ []) session in
    (out ≡ (frame 11 ∷ frame 12 ∷ [])) × IsSteady (10 + length (frame 11 ∷ frame 12 ∷ [])) s'
in_order_through_example =
    in_order_through 10 (frame 11 ∷ frame 12 ∷ []) session session-IsSteady (refl, (refl, tt))

long_gap-IsLost_example :
    (out : List AudioFrame) × (s' : AudioSession) × (push_frame (frame 20) session ≡ (ok out, s'))
    × IsRun (suc 10) out
    × (length out ≡ 3)
    × IsLost (10 + 4) s'
long_gap-IsLost_example =
    long_gap-IsLost 9 10 (frame 20) session session-IsSteady (omega arith) (omega arith)
      (omega arith)

-- A session that waits for the frame 14, with 20 behind it.
abbrev waiting : AudioSession
waiting = record session {
  jitter_buffer = record new_jitter_buffer { buffer = (20, frame 20) ∷ []; next_seq = some 14 };
  last_seq = some 20;
}

waiting-IsLost : IsLost 14 waiting
waiting-IsLost =
    (refl, (refl, refl, ((refl, tt), λ k f found. ground arith)), (20, refl, omega arith))

silent_after_loss_example : (stream (frame 21 ∷ frame 22 ∷ []) waiting).0 ≡ []
silent_after_loss_example =
    silent_after_loss 14 (frame 21 ∷ frame 22 ∷ []) waiting waiting-IsLost
      (omega arith, (omega arith, tt))

abbrev operations : List Operation
operations = push_op (frame 5) ∷ push_op (frame 3) ∷ pop_op ∷ drain_op ∷ []

memory-IsBounded_example :
    (b' : JitterBuffer) × (operate_all operations new_jitter_buffer ≡ ok b') × IsBounded b'
memory-IsBounded_example =
    memory-IsBounded operations new_jitter_buffer
      (omega arith, omega arith, omega arith, omega arith)

abbrev two_frames : JitterBuffer
two_frames = record new_jitter_buffer { buffer = (5, frame 5) ∷ (3, frame 3) ∷ [] }

two_frames-IsIndexed : IsIndexed two_frames.buffer
two_frames-IsIndexed = ((refl, (refl, tt)), λ k f found. ground arith)

-- The frame 13 with an RTP timestamp that has just wrapped around.
abbrev wrapped : AudioFrame
wrapped = record {
  pcm_data = [];
  seq = 13;
  rtp_ts = 40;
  recv_ts = 260;
  config = record { sample_rate = 8_000; encoding = 0; channels = 1; frame_duration_ms = 20 };
  is_plc = false;
}

wrapped_gap_raises_example : push_frame wrapped session ≡ (err validation_error, session)
wrapped_gap_raises_example =
    wrapped_gap_raises 1 10 wrapped session session-IsSteady (omega arith) (omega arith)

-- A clock whose origin is close to the end of the range.
abbrev late_clock : SessionClock
late_clock = record new_clock { rtp_origin = some 4_294_967_000; wall_origin_ms = some 50 }
