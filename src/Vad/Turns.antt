-- ===== src/Vad/Turns.antt =====
-- What EndpointDetector (endpoint_detector.py) publishes over a call.
use voice_os.Prelude.{
  ℕ, ◌*◌, ◌≡◌, refl, Key, Bool, true, false, List, [], ◌∷◌, ◌++◌, leb, Bool-cases, inl, inr,
}
use voice_os.Vad.{
  VadEvent, speech_start, speech_end, EndpointDetector, SpeechState, in_silence, in_speech,
  post_speech, advance_state, count_frame, detect_endpoint,
}

-- The windows of a call, each with its probability and its time.
abbrev pub hear : Key → Key → List (ℕ × ℕ) → EndpointDetector → List VadEvent × EndpointDetector
hear call_id tenant_id [] d = ([], d)
hear call_id tenant_id (w ∷ ws) d =
    let (events, d') = detect_endpoint w.0 w.1 call_id tenant_id 0 500 d in
    let (more, d'') = hear call_id tenant_id ws d' in (events ++ more, d'')

-- Where a listener is: before an utterance, in one, or after the end of one that may go on. It
-- knows when the utterance began.
pub data Phase : Type 0 where
  idle : Phase
  talking ended : ℕ → Phase

abbrev pub phase_of : EndpointDetector → Phase
phase_of d = elim d.state [
  | in_silence ↦ idle
  | in_speech ↦ talking d.speech_start_ms
  | post_speech ↦ ended d.speech_start_ms
]

-- A start comes before an utterance or after the end of one, an end comes in one or after its last
-- end, and has the time that it began at.
pub data Orderly : Phase → List VadEvent → Type 0 where
  over : {p : Phase} → Orderly p []
  starts :
      {call_id tenant_id start energy : ℕ} {events : List VadEvent}
      → Orderly (talking start) events
      → Orderly idle (speech_start call_id tenant_id start energy ∷ events)
  ends :
      {call_id tenant_id start end duration : ℕ} {events : List VadEvent}
      → Orderly (ended start) events
      → Orderly (talking start) (speech_end call_id tenant_id start end duration ∷ events)
  goes_on :
      {start : ℕ} {events : List VadEvent}
      → Orderly (talking start) events
      → Orderly (ended start) events
  passes : {start : ℕ} {events : List VadEvent} → Orderly idle events → Orderly (ended start) events

-- The detector in the given state.
abbrev pub at_state : SpeechState → EndpointDetector → EndpointDetector
at_state s d = record d { state = s }

Orderly-advance_state :
    (s : SpeechState) (speech : Bool) (call_time_ms call_id tenant_id : ℕ) (d : EndpointDetector)
    (more : List VadEvent)
    → Orderly
        (phase_of (advance_state speech call_time_ms call_id tenant_id 0 (at_state s d)).1)
        more
    → Orderly
        (phase_of (at_state s d))
        ((advance_state speech call_time_ms call_id tenant_id 0 (at_state s d)).0 ++ more)
unfolding advance_state
Orderly-advance_state in_silence speech t c k d more h =
    elim (Bool-cases (leb d.start_threshold_ms d.consecutive_speech_ms)) [
      | inl e ↦ rw e (starts (rw e at h))
      | inr e ↦ rw e (rw e at h)
    ]
Orderly-advance_state in_speech speech t c k d more h =
    elim (Bool-cases (leb d.end_threshold_ms d.consecutive_silence_ms)) [
      | inl e ↦ rw e (ends (rw e at h))
      | inr e ↦ rw e (rw e at h)
    ]
Orderly-advance_state post_speech true t c k d more h = goes_on h
Orderly-advance_state post_speech false t c k d more h =
    elim (Bool-cases (leb (d.end_threshold_ms * 2) d.consecutive_silence_ms)) [
      | inl e ↦ rw e (passes (rw e at h))
      | inr e ↦ rw e (rw e at h)
    ]

phase_of-count_frame :
    (speech : Bool) (d : EndpointDetector) → phase_of (count_frame speech d) ≡ phase_of d
unfolding count_frame
phase_of-count_frame true d = refl
phase_of-count_frame false d = refl

-- Whatever the windows: the events of a detector are in order.
pub hear-Orderly :
    (call_id tenant_id : Key) (ws : List (ℕ × ℕ)) (d : EndpointDetector)
    → Orderly (phase_of d) (hear call_id tenant_id ws d).0
unfolding detect_endpoint
hear-Orderly c k [] d = over
hear-Orderly c k (w ∷ ws) d =
    let speech = leb 500 w.0 in
    let counted : EndpointDetector = count_frame speech d in
    rw (← phase_of-count_frame speech d) (
      Orderly-advance_state counted.state speech w.1 c k counted
        (hear c k ws (advance_state speech w.1 c k 0 counted).1).0
        (hear-Orderly c k ws (advance_state speech w.1 c k 0 counted).1))
