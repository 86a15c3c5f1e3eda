-- ===== src/Vad/Service/Notices.antt =====
-- What the detectors tell the service (service.py) of one window, against the time of its candidate.
use voice_os.Prelude.{ℕ, ◌+◌, ◌≤◌, ◌<◌, ◌≡◌, true, Option, none, some, List, All, arith}
use voice_os.Vad.{
  VadEvent, EndpointDetector, BargeinDetector, advance_state, count_frame, detect_endpoint,
  detect_bargein, reset_candidate,
}
use voice_os.Vad.Service.{VadService, notice, note_trigger, ending}

-- The endpoint detector, when its windows are at least a frame apart.
abbrev IsAdaptive : EndpointDetector → Type 0
IsAdaptive d = d.end_threshold_ms ≤ d.max_end_threshold_ms

-- An end is published in a silent window, after the silence that it takes, at its time.
abbrev EndsSilent : ℕ → ℕ → EndpointDetector → VadEvent → Type 0
EndsSilent probability t d e = elim (ending e) [
  | none ↦ Unit
  | some end_ms ↦
      (end_ms ≡ t) × (probability < 500) × (d.end_threshold_ms ≤ d.consecutive_silence_ms)
]

abbrev Endpoints : ℕ → ℕ → EndpointDetector → List VadEvent × EndpointDetector → Type 0
Endpoints probability t d r =
    (r.1.frame_size_ms ≡ d.frame_size_ms)
    × (IsAdaptive r.1)
    × (d.end_threshold_ms ≤ r.1.end_threshold_ms)
    × (r.1.consecutive_silence_ms ≤ d.consecutive_silence_ms + d.frame_size_ms)
    × (500 ≤ probability → r.1.consecutive_silence_ms ≡ 0)
    × All (EndsSilent probability t r.1) r.0

detect_endpoint-Endpoints :
    (probability t c k : ℕ) (d : EndpointDetector)
    → IsAdaptive d
    → 1 ≤ d.end_threshold_ms
    → Endpoints probability t d (detect_endpoint probability t c k 0 500 d)
unfolding detect_endpoint advance_state count_frame ending
detect_endpoint-Endpoints p t c k d h pos = ground arith

-- A trigger comes in a window above the threshold, when speech has lasted.
abbrev Triggers : ℕ → BargeinDetector → Option VadEvent × BargeinDetector → Type 0
Triggers probability b r =
    (r.1.frame_size_ms ≡ b.frame_size_ms)
    × (r.1.required_duration_ms ≡ b.required_duration_ms)
    × (r.1.barge_in_threshold ≡ b.barge_in_threshold)
    × (r.1.sustained_ms ≤ b.sustained_ms + b.frame_size_ms)
    × (elim r.0 [
      | none ↦ Unit
      | some e ↦ (b.barge_in_threshold < probability) × (b.required_duration_ms ≤ r.1.sustained_ms)
    ])

detect_bargein-Triggers :
    (probability t c k : ℕ) (b : BargeinDetector)
    → Triggers probability b (detect_bargein probability t c k b)
unfolding detect_bargein reset_candidate
detect_bargein-Triggers p t c k b = ground arith

module _ {S : Type 0} where
  -- The candidate that is open began at least 200 ms and the silence since before the last window,
  -- at `last`.
  abbrev pub IsTimed : ℕ → VadService S → Type 0
  IsTimed last s =
      (s.barge_in_pending ≡ true
        → s.barge_in_speech_start_ms + (200 + s.endpoint.consecutive_silence_ms) ≤ last)
      × (s.bargein.sustained_ms ≤ last)
      × (s.endpoint.end_threshold_ms ≤ s.endpoint.max_end_threshold_ms)
      × (1 ≤ s.endpoint.end_threshold_ms)
      × (s.max_duration_ms ≤ s.endpoint.end_threshold_ms + 200)
      × (500 ≤ s.bargein.barge_in_threshold)
      × (200 ≤ s.bargein.required_duration_ms)
      × (s.bargein.frame_size_ms ≤ s.endpoint.frame_size_ms)

  -- An end that meets an open candidate comes too late for a backchannel, and without a trigger.
  abbrev pub IsLate : Option VadEvent → VadService S → VadEvent → Type 0
  IsLate raw s e = elim (ending e) [
    | none ↦ Unit
    | some end_ms ↦
        (raw ≡ none)
        × (s.barge_in_pending ≡ true → s.barge_in_speech_start_ms + s.max_duration_ms ≤ end_ms)
  ]

  pub notice-IsTimed :
      (probability c k t last : ℕ) (s : VadService S)
      → IsTimed last s
      → last + s.endpoint.frame_size_ms ≤ t
      → IsTimed t (notice probability c k t s).1
        × All
            (IsLate (notice probability c k t s).0.1 (notice probability c k t s).1)
            (notice probability c k t s).0.0
  unfolding notice note_trigger
  notice-IsTimed p c k t last s (pend, sustained, adaptive, pos, late, thr, dur, size) d =
      let ends = detect_endpoint-Endpoints p t c k s.endpoint adaptive pos in
      let triggers = detect_bargein-Triggers p t c k s.bargein in ground arith
