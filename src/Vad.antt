-- ===== src/Vad.antt =====
-- Voice activity (src/services/vad_endpointing): VADEngine's tests, EndpointDetector,
-- BargeinDetector and BackchannelDiscriminator, as vad_engine.py, endpoint_detector.py,
-- bargein_detector.py and backchannel.py have them. A probability and a threshold are
-- thousandths; times are milliseconds of the call.
use voice_os.Prelude.{
  ℕ, ◌+◌, ◌-◌, ◌*◌, ◌%◌, Key, Bool, true, false, not, ◌&&◌, Option, none, some, List, [], ◌∷◌, ltb,
  leb, ◌==◌, if◌then◌else◌, min, Result, ok, err, ◌>>◌, raise_if,
}
pub mod Turns
pub mod Service

-- What is published.
pub data VadEvent : Type 0 where
  speech_start : (call_id tenant_id start_ms energy_db : ℕ) → VadEvent
  speech_end : (call_id tenant_id start_ms end_ms duration_ms : ℕ) → VadEvent
  bargein_detected : (call_id tenant_id detected_at_ms playback_seq : ℕ) → VadEvent
  backchannel_detected : (call_id tenant_id detected_at_ms duration_ms : ℕ) → VadEvent

pub data VadError : Type 0 where
  value_error : VadError
  invalid_event : VadError

-- VADEngine, without the model that it asks.
pub record VadEngine : Type 0 where
  pub speech_threshold : ℕ
  pub silence_threshold : ℕ

unfoldable pub new_engine : ℕ → ℕ → Result VadError VadEngine
new_engine speech_threshold silence_threshold =
    raise_if
      (not (
        ltb 0 silence_threshold
        && ltb silence_threshold speech_threshold
        && leb speech_threshold 1_000))
      value_error
    >> ok (record { speech_threshold = speech_threshold; silence_threshold = silence_threshold })

unfoldable pub is_speech : VadEngine → ℕ → Bool
is_speech e probability = leb e.speech_threshold probability

unfoldable pub is_silence : VadEngine → ℕ → Bool
is_silence e probability = ltb probability e.silence_threshold

pub data SpeechState : Type 0 where
  in_silence in_speech post_speech : SpeechState

pub record EndpointDetector : Type 0 where
  pub start_threshold_ms : ℕ
  pub end_threshold_ms : ℕ
  pub max_end_threshold_ms : ℕ
  pub frame_size_ms : ℕ
  pub state : SpeechState
  pub consecutive_speech_ms : ℕ
  pub consecutive_silence_ms : ℕ
  pub false_endpoint_count : ℕ
  pub speech_start_ms : ℕ

unfoldable pub new_endpoint : ℕ → ℕ → ℕ → ℕ → Result VadError EndpointDetector
new_endpoint start_threshold_ms end_threshold_ms max_end_threshold_ms frame_size_ms =
    raise_if (start_threshold_ms == 0) value_error
    >> raise_if (end_threshold_ms == 0) value_error
    >> raise_if (ltb max_end_threshold_ms end_threshold_ms) value_error
    >> raise_if (frame_size_ms == 0) value_error
    >> ok (record {
      start_threshold_ms = start_threshold_ms;
      end_threshold_ms = end_threshold_ms;
      max_end_threshold_ms = max_end_threshold_ms;
      frame_size_ms = frame_size_ms;
      state = in_silence;
      consecutive_speech_ms = 0;
      consecutive_silence_ms = 0;
      false_endpoint_count = 0;
      speech_start_ms = 0;
    })

-- EndpointDetector._advance_state
unfoldable pub advance_state :
    Bool → ℕ → Key → Key → ℕ → EndpointDetector → List VadEvent × EndpointDetector
advance_state speech call_time_ms call_id tenant_id energy_db d = elim d.state [
  | in_silence ↦
      let start = call_time_ms - d.consecutive_speech_ms in
      if leb d.start_threshold_ms d.consecutive_speech_ms
      then (
        speech_start call_id tenant_id start energy_db ∷ [],
        record d { speech_start_ms = start; state = in_speech },
      )
      else ([], d)
  | in_speech ↦
      let duration = call_time_ms - d.speech_start_ms in
      if leb d.end_threshold_ms d.consecutive_silence_ms
      then (
        speech_end call_id tenant_id d.speech_start_ms call_time_ms duration ∷ [],
        record d { state = post_speech },
      )
      else ([], d)
  | post_speech ↦
      let count = d.false_endpoint_count + 1 in
      if speech
      then (
        [],
        record d {
          false_endpoint_count = count;
          end_threshold_ms =
              if count % 3 == 0
              then min (d.end_threshold_ms + 200) d.max_end_threshold_ms
              else d.end_threshold_ms;
          state = in_speech;
          consecutive_silence_ms = 0;
        },
      )
      else if leb (d.end_threshold_ms * 2) d.consecutive_silence_ms
      then ([], record d { state = in_silence })
      else ([], d)
]

-- The counters, before the state is advanced.
unfoldable pub count_frame : Bool → EndpointDetector → EndpointDetector
count_frame is_speech d =
    if is_speech
    then record d {
      consecutive_speech_ms = d.consecutive_speech_ms + d.frame_size_ms;
      consecutive_silence_ms = 0;
    }
    else record d {
      consecutive_silence_ms = d.consecutive_silence_ms + d.frame_size_ms;
      consecutive_speech_ms = 0;
    }

-- EndpointDetector.process
unfoldable pub detect_endpoint :
    ℕ → ℕ → Key → Key → ℕ → ℕ → EndpointDetector → List VadEvent × EndpointDetector
unfolding advance_state count_frame
detect_endpoint speech_probability call_time_ms call_id tenant_id energy_db speech_threshold d =
    let speech = leb speech_threshold speech_probability in
    advance_state speech call_time_ms call_id tenant_id energy_db (count_frame speech d)

unfoldable pub reset_endpoint : EndpointDetector → EndpointDetector
reset_endpoint d = record d {
  state = in_silence;
  consecutive_speech_ms = 0;
  consecutive_silence_ms = 0;
  false_endpoint_count = 0;
  speech_start_ms = 0;
}

pub record BargeinDetector : Type 0 where
  pub barge_in_threshold : ℕ
  pub required_duration_ms : ℕ
  pub frame_size_ms : ℕ
  pub playback_active : Bool
  pub playback_seq : ℕ
  pub sustained_ms : ℕ
  pub fired : Bool

unfoldable pub new_bargein : ℕ → ℕ → ℕ → Result VadError BargeinDetector
new_bargein barge_in_threshold required_duration_ms frame_size_ms =
    raise_if (not (ltb 0 barge_in_threshold && leb barge_in_threshold 1_000)) value_error
    >> raise_if (required_duration_ms == 0) value_error
    >> raise_if (frame_size_ms == 0) value_error
    >> ok (record {
      barge_in_threshold = barge_in_threshold;
      required_duration_ms = required_duration_ms;
      frame_size_ms = frame_size_ms;
      playback_active = false;
      playback_seq = 0;
      sustained_ms = 0;
      fired = false;
    })

unfoldable pub reset_candidate : BargeinDetector → BargeinDetector
reset_candidate b = record b { sustained_ms = 0; fired = false }

unfoldable pub set_detector_playback : Bool → ℕ → BargeinDetector → BargeinDetector
unfolding reset_candidate
set_detector_playback active playback_seq b =
    let b' : BargeinDetector = record b { playback_active = active; playback_seq = playback_seq } in
    if active then b' else reset_candidate b'

-- BargeinDetector.process
unfoldable pub detect_bargein :
    ℕ → ℕ → Key → Key → BargeinDetector → Option VadEvent × BargeinDetector
unfolding reset_candidate
detect_bargein speech_probability call_time_ms call_id tenant_id b =
    let b' : BargeinDetector = record b { sustained_ms = b.sustained_ms + b.frame_size_ms } in
    if not b.playback_active
    then (none, reset_candidate b)
    else if ltb b.barge_in_threshold speech_probability
    then if leb b.required_duration_ms b'.sustained_ms && not b.fired
      then (
        some (bargein_detected call_id tenant_id call_time_ms b.playback_seq),
        record b' { fired = true },
      )
      else (none, b')
    else (none, reset_candidate b)

unfoldable pub reset_bargein : BargeinDetector → BargeinDetector
unfolding reset_candidate
reset_bargein b = reset_candidate (record b { playback_active = false; playback_seq = 0 })

-- BackchannelDiscriminator.classify; the duration is end_ms - start_ms, and an event with a
-- negative one is refused.
unfoldable pub classify : ℕ → ℕ → ℕ → Key → Key → Result VadError (Option VadEvent)
classify max_duration_ms start_ms end_ms call_id tenant_id =
    if ltb end_ms (start_ms + max_duration_ms)
    then raise_if (ltb end_ms start_ms) invalid_event
      >> ok (some (backchannel_detected call_id tenant_id end_ms (end_ms - start_ms)))
    else ok none
