-- ===== src/Vad/Service.antt =====
-- VADEndpointingService (src/services/vad_endpointing/service.py). The VAD model
-- (VADModelProtocol) is a parameter: `predict` takes its state and a window to a probability and
-- the next state, `reset` is its reset.
pub mod Windows
pub mod Notices
pub mod Decisions
use voice_os.Prelude.{
  ℕ, zero, suc, ◌+◌, ◌-◌, ◌*◌, Key, Bool, true, false, not, ◌&&◌, Option, none, some, List, [], ◌∷◌,
  ◌++◌, ltb, leb, ◌==◌, if◌then◌else◌, length, Result, ok, err, ◌>>=◌, ◌>>◌, raise_if,
}
use voice_os.Vad.{
  VadEvent, speech_start, speech_end, bargein_detected, backchannel_detected, VadError, value_error,
  VadEngine, is_speech, EndpointDetector, BargeinDetector, detect_endpoint, detect_bargein,
  classify, reset_endpoint, reset_bargein, set_detector_playback,
}

pub record VadService (S : Type 0) : Type 0 where
  pub vad : VadEngine
  pub model : S
  pub endpoint : EndpointDetector
  pub bargein : BargeinDetector
  pub max_duration_ms : ℕ
  pub running : Bool
  pub pcm_buffer : List ℕ
  pub total_frames : ℕ
  pub speech_frames : ℕ
  pub barge_in_pending : Bool
  pub barge_in_speech_start_ms : ℕ
  pub barge_in_detected_at_ms : ℕ
  pub barge_in_emitted : Bool
  pub last_frame_was_speech : Bool

-- WINDOW_SIZE_SAMPLES of two bytes each
unfoldable pub window_bytes : ℕ
window_bytes = 512 * 2

-- `buffer[:n]` and `buffer[n:]`
abbrev pub take : ℕ → List ℕ → List ℕ
take zero xs = []
take (suc n) [] = []
take (suc n) (x ∷ xs) = x ∷ take n xs

abbrev pub drop : ℕ → List ℕ → List ℕ
drop zero xs = xs
drop (suc n) [] = []
drop (suc n) (x ∷ xs) = drop n xs

pub record Frame : Type 0 where
  pub sample_rate : ℕ
  pub is_pcm16le : Bool
  pub pcm_data : List ℕ

-- `bargein_raw.playback_seq if bargein_raw else 0`
unfoldable pub raw_seq : Option VadEvent → ℕ
raw_seq none = 0
raw_seq (some (bargein_detected _ _ _ seq)) = seq
raw_seq (some _) = 0

-- `isinstance(event, VADSpeechEnd)`, with its end_ms
unfoldable pub ending : VadEvent → Option ℕ
ending (speech_end _ _ _ end_ms _) = some end_ms
ending _ = none

module _ {S : Type 0} where
  unfoldable pub reset_barge_in_state : VadService S → VadService S
  reset_barge_in_state s = record s {
    barge_in_pending = false;
    barge_in_detected_at_ms = 0;
    barge_in_speech_start_ms = 0;
    barge_in_emitted = false;
  }

  unfoldable pub start : (S → S) → VadService S → VadService S
  unfolding reset_endpoint reset_bargein
  start reset s = record s {
    running = true;
    model = reset s.model;
    endpoint = reset_endpoint s.endpoint;
    bargein = reset_bargein s.bargein;
    pcm_buffer = [];
  }

  unfoldable pub stop : VadService S → VadService S
  stop s = record s { running = false }

  unfoldable pub set_playback_active : Bool → ℕ → VadService S → VadService S
  unfolding set_detector_playback reset_barge_in_state
  set_playback_active active playback_seq s =
      let s' : VadService S = record s {
        bargein = set_detector_playback active playback_seq s.bargein;
      } in
      if active then s' else reset_barge_in_state s'

  -- A first trigger makes the candidate.
  unfoldable pub note_trigger : Option VadEvent → ℕ → VadService S → VadService S
  note_trigger raw call_time_ms s = elim raw [
    | none ↦ s
    | some _ ↦ if s.barge_in_pending then s else record s {
      barge_in_pending = true;
      barge_in_detected_at_ms = call_time_ms;
      barge_in_speech_start_ms = call_time_ms - 200;
    }
  ]

  -- The end of an utterance decides the candidate that is open. What is raised leaves the service
  -- as it was.
  unfoldable pub arbitrate :
      Key
      → Key
      → Option VadEvent
      → VadEvent
      → VadService S
      → Result VadError (List VadEvent) × VadService S
  unfolding classify reset_barge_in_state raw_seq ending
  arbitrate call_id tenant_id raw event s = elim (ending event) [
    | none ↦ (ok (event ∷ []), s)
    | some end_ms ↦
        if s.barge_in_pending && not s.barge_in_emitted
        then elim (classify s.max_duration_ms s.barge_in_speech_start_ms end_ms call_id tenant_id) [
          | err e ↦ (err e, s)
          | ok (some b) ↦ (ok (b ∷ event ∷ []), reset_barge_in_state s)
          | ok none ↦ (
            ok (
                bargein_detected call_id tenant_id s.barge_in_detected_at_ms (raw_seq raw)
                ∷ event
                ∷ []),
            reset_barge_in_state (record s { barge_in_emitted = true }),
          )
        ]
        else (ok (event ∷ []), s)
  ]

  -- The loop over the events of the endpoint detector.
  unfoldable pub arbitrate_all :
      Key
      → Key
      → Option VadEvent
      → List VadEvent
      → VadService S
      → Result VadError (List VadEvent) × VadService S
  unfolding arbitrate
  arbitrate_all call_id tenant_id raw [] s = (ok [], s)
  arbitrate_all call_id tenant_id raw (event ∷ events) s =
      let (out, s') = arbitrate call_id tenant_id raw event s in
      let (more, s'') = arbitrate_all call_id tenant_id raw events s' in
      elim out [ err e ↦ (err e, s') | ok xs ↦ (more >>= (λ ys. ok (xs ++ ys)), s'') ]

  -- An utterance that goes on is a barge-in before it ends.
  unfoldable pub emit_early : Key → Key → ℕ → VadService S → List VadEvent × VadService S
  emit_early call_id tenant_id call_time_ms s =
      if s.barge_in_pending
        && not s.barge_in_emitted
        && s.last_frame_was_speech
        && leb (s.barge_in_speech_start_ms + s.max_duration_ms) call_time_ms
      then (
        bargein_detected call_id tenant_id s.barge_in_detected_at_ms 0 ∷ [],
        record s { barge_in_emitted = true },
      )
      else ([], s)

  -- The first half of _process_window: what the detectors say of the probability.
  unfoldable pub notice :
      ℕ → Key → Key → ℕ → VadService S → (List VadEvent × Option VadEvent) × VadService S
  unfolding is_speech detect_endpoint detect_bargein note_trigger
  notice probability call_id tenant_id call_time_ms s =
      let speech = is_speech s.vad probability in
      let (events, endpoint) =
        detect_endpoint probability call_time_ms call_id tenant_id 0 500 s.endpoint in
      let (raw, bargein) = detect_bargein probability call_time_ms call_id tenant_id s.bargein in
      let heard : VadService S = record s {
        total_frames = s.total_frames + 1;
        last_frame_was_speech = speech;
        speech_frames = if speech then s.speech_frames + 1 else s.speech_frames;
        endpoint = endpoint;
        bargein = bargein;
      } in
      ((events, raw), note_trigger raw call_time_ms heard)

  -- The second half: what is put out.
  unfoldable pub put_out :
      List VadEvent
      → Option VadEvent
      → Key
      → Key
      → ℕ
      → VadService S
      → Result VadError (List VadEvent) × VadService S
  unfolding arbitrate_all emit_early
  put_out events raw call_id tenant_id call_time_ms s =
      let (out, s') = arbitrate_all call_id tenant_id raw events s in
      let (early, s'') = emit_early call_id tenant_id call_time_ms s' in
      elim out [ err e ↦ (err e, s') | ok xs ↦ (ok (xs ++ early), s'') ]

  unfoldable pub judge_window :
      ℕ → Key → Key → ℕ → VadService S → Result VadError (List VadEvent) × VadService S
  unfolding notice put_out
  judge_window probability call_id tenant_id call_time_ms s =
      let ((events, raw), s') = notice probability call_id tenant_id call_time_ms s in
      put_out events raw call_id tenant_id call_time_ms s'

module _ {S : Type 0} (predict : S → List ℕ → ℕ × S) where
  -- VADEngine.process_window checks the size; _process_window goes on with the probability.
  unfoldable pub process_window :
      List ℕ → Key → Key → ℕ → VadService S → Result VadError (List VadEvent) × VadService S
  unfolding judge_window
  process_window window call_id tenant_id call_time_ms s =
      let (probability, model) = predict s.model window in
      if length window == window_bytes
      then judge_window probability call_id tenant_id call_time_ms (record s { model = model })
      else (err value_error, s)

  -- The loop of process_frame, on fuel; `none` means that the fuel ran out.
  unfoldable pub process_windows :
      ℕ → Key → Key → ℕ → VadService S → Option (Result VadError (List VadEvent) × VadService S)
  unfolding process_window
  process_windows zero call_id tenant_id call_time_ms s = none
  process_windows (suc fuel) call_id tenant_id call_time_ms s =
      let cut : VadService S = record s { pcm_buffer = drop window_bytes s.pcm_buffer } in
      let (out, s') =
        process_window (take window_bytes s.pcm_buffer) call_id tenant_id call_time_ms cut in
      let rest = process_windows fuel call_id tenant_id call_time_ms s' in
      if leb window_bytes (length s.pcm_buffer)
      then elim out [
        | err e ↦ some (err e, s')
        | ok xs ↦ elim rest [
          | none ↦ none
          | some (more, s'') ↦ some (more >>= (λ ys. ok (xs ++ ys)), s'')
        ]
      ]
      else some (ok [], s)

  unfoldable pub process_frame :
      Frame → Key → Key → ℕ → VadService S → Option (Result VadError (List VadEvent) × VadService S)
  unfolding process_windows
  process_frame frame call_id tenant_id call_time_ms s =
      let buffer = s.pcm_buffer ++ frame.pcm_data in
      if frame.sample_rate == 16_000 && frame.is_pcm16le
      then process_windows (suc (length buffer)) call_id tenant_id call_time_ms
          (record s { pcm_buffer = buffer })
      else some (err value_error, s)
