-- ===== src/Examples/Voices.antt =====
-- The theorems about voice activity (vad_endpointing) at the service with its default thresholds.
use voice_os.Prelude.{
  ℕ, ◌+◌, ◌/◌, ◌%◌, ◌≡◌, ◌⊎◌, refl, false, true, some, List, [], ◌∷◌, ◌++◌, length, arith, All, err,
  Result,
}
use voice_os.Vad.{VadEvent, VadError, EndpointDetector, in_silence}
use voice_os.Vad.Turns.{hear, phase_of, Orderly, hear-Orderly}
use voice_os.Vad.Service.{VadService, Frame, process_frame, window_bytes}
use voice_os.Vad.Service.Windows.{process_frame_ends}
use voice_os.Vad.Service.Decisions.{Step, window, playback, listen, IsPlain, listen-IsPlain}

abbrev endpoint_default : EndpointDetector
endpoint_default = record {
  start_threshold_ms = 100;
  end_threshold_ms = 600;
  max_end_threshold_ms = 1_200;
  frame_size_ms = 32;
  state = in_silence;
  consecutive_speech_ms = 0;
  consecutive_silence_ms = 0;
  false_endpoint_count = 0;
  speech_start_ms = 0;
}

-- The model's state is nothing, and it answers 0.
abbrev service_default : VadService (Unit {0})
service_default = record {
  vad = record { speech_threshold = 500; silence_threshold = 350 };
  model = tt;
  endpoint = endpoint_default;
  bargein = record {
    barge_in_threshold = 650;
    required_duration_ms = 200;
    frame_size_ms = 32;
    playback_active = false;
    playback_seq = 0;
    sustained_ms = 0;
    fired = false;
  };
  max_duration_ms = 800;
  running = true;
  pcm_buffer = [];
  total_frames = 0;
  speech_frames = 0;
  barge_in_pending = false;
  barge_in_speech_start_ms = 0;
  barge_in_detected_at_ms = 0;
  barge_in_emitted = false;
  last_frame_was_speech = false;
}

-- Speech in four windows, and then silence.
abbrev short_word : List (ℕ × ℕ)
short_word = (900, 32) ∷ (900, 64) ∷ (900, 96) ∷ (900, 128) ∷ (10, 160) ∷ []

hear-Orderly_example : Orderly (phase_of endpoint_default) (hear 1 2 short_word endpoint_default).0
hear-Orderly_example = hear-Orderly 1 2 short_word endpoint_default

abbrev two_samples : Frame
two_samples = record { sample_rate = 16_000; is_pcm16le = true; pcm_data = 1 ∷ 2 ∷ 3 ∷ 4 ∷ [] }

process_frame_ends_example :
    (r : Result VadError (List VadEvent) × VadService (Unit {0})) × (process_frame
        (λ s w. (0, s))
        two_samples
        1
        2
        20
        service_default
      ≡ some r)
    × (((e : VadError) × (r.0 ≡ err e))
        ⊎ ((length r.1.pcm_buffer
              ≡ length (service_default.pcm_buffer ++ two_samples.pcm_data) % window_bytes)
            × (r.1.total_frames
                ≡ service_default.total_frames
                  + length (service_default.pcm_buffer ++ two_samples.pcm_data) / window_bytes)))
process_frame_ends_example =
    process_frame_ends (λ s w. (0, s)) two_samples 1 2 20 service_default refl refl

-- The agent speaks, and the customer says something for 224 ms.
abbrev interruption : List Step
interruption =
    playback true 5
    ∷ window 900 32
    ∷ window 900 64
    ∷ window 900 96
    ∷ window 900 128
    ∷ window 900 160
    ∷ window 900 192
    ∷ window 900 224
    ∷ window 10 256
    ∷ []

listen-IsPlain_example : All IsPlain (listen 1 2 interruption service_default).0
listen-IsPlain_example =
    listen-IsPlain 1 2 0 interruption service_default (ground arith) (ground arith)
