-- ===== src/Vad/Service/Decisions.antt =====
-- What the service (service.py) makes of a candidate for a barge-in, window after window.
use voice_os.Prelude.{
  ap, ◌∙◌, ℕ, ◌+◌, ◌≤◌, ◌≡◌, refl, Key, Bool, Option, List, [], ◌∷◌, ◌++◌, All, All-mono, arith,
  Option-cases, inl, inr, Result, ok, err, ◌>>=◌,
}
use voice_os.Vad.{
  VadEvent, bargein_detected, backchannel_detected, VadError, classify, advance_state, count_frame,
  detect_endpoint, set_detector_playback,
}
use voice_os.Vad.Service.{
  VadService, judge_window, notice, put_out, arbitrate_all, arbitrate, emit_early, note_trigger,
  reset_barge_in_state, ending, set_playback_active,
}
use voice_os.Vad.Service.Notices.{IsTimed, IsLate, notice-IsTimed}

-- No backchannel, and no barge-in with a sequence number.
abbrev pub IsPlain : VadEvent → Type 0
IsPlain (backchannel_detected _ _ _ _) = ⊥
IsPlain (bargein_detected _ _ _ seq) = seq ≡ 0
IsPlain _ = Unit

-- What a window published; nothing if it raised.
abbrev pub published : Result VadError (List VadEvent) → List VadEvent
published (ok events) = events
published (err _) = []

All-append : (xs ys : List VadEvent) → All IsPlain xs → All IsPlain ys → All IsPlain (xs ++ ys)
All-append [] ys h k = k
All-append (x ∷ xs) ys h k = (h.0, All-append xs ys h.1 k)

module _ {S : Type 0} where
  notice-IsPlain :
      (probability c k t : ℕ) (s : VadService S) → All IsPlain (notice probability c k t s).0.0
  unfolding notice detect_endpoint advance_state
  notice-IsPlain p c k t s = ground arith

  arbitrate-IsPlain :
      (c k last : ℕ) (raw : Option VadEvent) (event : VadEvent) (s : VadService S)
      → IsTimed last s
      → IsPlain event
      → IsLate raw s event
      → All IsPlain (published (arbitrate c k raw event s).0)
        × IsTimed last (arbitrate c k raw event s).1
  unfolding arbitrate classify reset_barge_in_state
  arbitrate-IsPlain c k last raw event s h plain late = elim (Option-cases (ending event)) [
    | inl e ↦ ground arith
    | inr (end_ms, e) ↦ ground arith
  ]

  arbitrate-IsLate :
      (c k : ℕ) (raw : Option VadEvent) (event next : VadEvent) (s : VadService S)
      → IsLate raw s next
      → IsLate raw (arbitrate c k raw event s).1 next
  unfolding arbitrate reset_barge_in_state
  arbitrate-IsLate c k raw event next s late = ground arith

  -- What is put together of two parts, if the first one did not raise.
  joined :
      (last : ℕ) (out more : Result VadError (List VadEvent)) (s s' : VadService S)
      → All IsPlain (published out)
      → All IsPlain (published more)
      → IsTimed last s
      → IsTimed last s'
      → let r : Result VadError (List VadEvent) × VadService S = elim out [
        | err e ↦ (err e, s)
        | ok xs ↦ (more >>= (λ ys. ok (xs ++ ys)), s')
      ] in
        All IsPlain (published r.0) × IsTimed last r.1
  joined last (err e) more s s' h k t t' = (tt, t)
  joined last (ok xs) (err e) s s' h k t t' = (tt, t')
  joined last (ok xs) (ok ys) s s' h k t t' = (All-append xs ys h k, t')

  arbitrate_all-IsPlain :
      (c k last : ℕ) (raw : Option VadEvent) (events : List VadEvent) (s : VadService S)
      → IsTimed last s
      → All IsPlain events
      → All (IsLate raw s) events
      → All IsPlain (published (arbitrate_all c k raw events s).0)
        × IsTimed last (arbitrate_all c k raw events s).1
  unfolding arbitrate_all
  arbitrate_all-IsPlain c k last raw [] s h plain late = (tt, h)
  arbitrate_all-IsPlain c k last raw (event ∷ events) s h plain late =
      let (first, h') = arbitrate-IsPlain c k last raw event s h plain.0 late.0 in
      let later = All-mono _ _ events (λ next. arbitrate-IsLate c k raw event next s) late.1 in
      let (more, h'') = arbitrate_all-IsPlain c k last raw events _ h' plain.1 later in
      joined last _ _ _ _ first more h' h''

  emit_early-IsPlain :
      (c k t last : ℕ) (s : VadService S)
      → IsTimed last s
      → All IsPlain (emit_early c k t s).0 × IsTimed last (emit_early c k t s).1
  unfolding emit_early
  emit_early-IsPlain c k t last s h = ground arith

  put_out-IsPlain :
      (events : List VadEvent) (raw : Option VadEvent) (c k t last : ℕ) (s : VadService S)
      → IsTimed last s
      → All IsPlain events
      → All (IsLate raw s) events
      → All IsPlain (published (put_out events raw c k t s).0)
        × IsTimed last (put_out events raw c k t s).1
  unfolding put_out
  put_out-IsPlain events raw c k t last s h plain late =
      let (first, h') = arbitrate_all-IsPlain c k last raw events s h plain late in
      let (early, h'') = emit_early-IsPlain c k t last _ h' in
      joined last _ (ok _) _ _ first early h' h''

-- What a caller does: it plays audio or stops, or hands on a window that the model has judged.
pub data Step : Type 0 where
  playback : (active : Bool) (playback_seq : ℕ) → Step
  window : (probability time : ℕ) → Step

-- Each window comes at least a frame after the one before, the first one after `last`.
abbrev pub Spaced : ℕ → ℕ → List Step → Type 0
Spaced frame last [] = Unit
Spaced frame last (playback _ _ ∷ steps) = Spaced frame last steps
Spaced frame last (window _ time ∷ steps) = (last + frame ≤ time) × Spaced frame time steps

module _ {S : Type 0} where
  abbrev pub listen : Key → Key → List Step → VadService S → List VadEvent × VadService S
  listen c k [] s = ([], s)
  listen c k (playback active seq ∷ steps) s = listen c k steps (set_playback_active active seq s)
  listen c k (window probability time ∷ steps) s =
      let (out, s') = judge_window probability c k time s in
      let (more, s'') = listen c k steps s' in (published out ++ more, s'')

  set_playback_active-IsTimed :
      (last : ℕ) (active : Bool) (seq : ℕ) (s : VadService S)
      → IsTimed last s
      → IsTimed last (set_playback_active active seq s)
        × ((set_playback_active active seq s).endpoint ≡ s.endpoint)
  unfolding set_playback_active set_detector_playback reset_barge_in_state
  set_playback_active-IsTimed last active seq s h = ground arith

  frame_size-notice :
      (probability c k t : ℕ) (s : VadService S)
      → (notice probability c k t s).1.endpoint.frame_size_ms ≡ s.endpoint.frame_size_ms
  unfolding notice note_trigger detect_endpoint count_frame advance_state
  frame_size-notice p c k t s = ground arith

  endpoint-arbitrate_all :
      (c k : ℕ) (raw : Option VadEvent) (events : List VadEvent) (s : VadService S)
      → (arbitrate_all c k raw events s).1.endpoint ≡ s.endpoint
  unfolding arbitrate_all arbitrate reset_barge_in_state
  endpoint-arbitrate_all c k raw [] s = refl
  endpoint-arbitrate_all c k raw (event ∷ events) s =
      ground (arith, endpoint-arbitrate_all c k raw events (arbitrate c k raw event s).1)

  endpoint-put_out :
      (events : List VadEvent) (raw : Option VadEvent) (c k t : ℕ) (s : VadService S)
      → (put_out events raw c k t s).1.endpoint ≡ s.endpoint
  unfolding put_out emit_early
  endpoint-put_out events raw c k t s = ground (arith, endpoint-arbitrate_all c k raw events s)

  frame_size-judge_window :
      (probability c k t : ℕ) (s : VadService S)
      → (judge_window probability c k t s).1.endpoint.frame_size_ms ≡ s.endpoint.frame_size_ms
  unfolding judge_window
  frame_size-judge_window p c k t s =
      let ((events, raw), s') = notice p c k t s in
      ap (λ d. d.frame_size_ms) (endpoint-put_out events raw c k t s') ∙ frame_size-notice p c k t s

  judge_window-IsPlain :
      (probability c k t last : ℕ) (s : VadService S)
      → IsTimed last s
      → last + s.endpoint.frame_size_ms ≤ t
      → All IsPlain (published (judge_window probability c k t s).0)
        × IsTimed t (judge_window probability c k t s).1
  unfolding judge_window
  judge_window-IsPlain p c k t last s h d =
      let ((events, raw), s') = notice p c k t s in
      let (timed, late) = notice-IsTimed p c k t last s h d in
      put_out-IsPlain events raw c k t t s' timed (notice-IsPlain p c k t s) late

  -- Whatever a caller plays and the customer says, with windows at least a frame apart, thresholds
  -- for a barge-in of at least 500 and 200 ms, and an end threshold that is at most 200 ms below
  -- the longest backchannel: no backchannel is ever published, and every barge-in has the
  -- playback_seq 0.
  pub listen-IsPlain :
      (call_id tenant_id last : ℕ) (steps : List Step) (s : VadService S)
      → IsTimed last s
      → Spaced s.endpoint.frame_size_ms last steps
      → All IsPlain (listen call_id tenant_id steps s).0
  listen-IsPlain c k last [] s h d = tt
  listen-IsPlain c k last (playback active seq ∷ steps) s h d =
      let (h', same) = set_playback_active-IsTimed last active seq s h in
      listen-IsPlain c k last steps (set_playback_active active seq s) h'
        (rw (ap (λ e. e.frame_size_ms) same) d)
  listen-IsPlain c k last (window probability time ∷ steps) s h d =
      let (first, h') = judge_window-IsPlain probability c k time last s h d.0 in
      let s' = (judge_window probability c k time s).1 in
      All-append _ _ first (
        listen-IsPlain c k time steps s' h'
          (rw (frame_size-judge_window probability c k time s) d.1))
