-- ===== src/Vad/Service/Windows.antt =====
-- The loop of process_frame (service.py) ends, and takes every whole window.
use voice_os.Prelude.{
  ◌⊎◌, ◌∙◌, ap, leb→le, ==_iff, ℕ, zero, suc, ◌+◌, ◌-◌, ◌/◌, ◌%◌, ◌≤◌, ◌<◌, ◌≡◌, refl, Key, true,
  Option, some, List, [], ◌∷◌, ◌++◌, leb, length, arith, Bool-cases, Result-cases, inl, inr, Result,
  ok, err, ◌>>=◌,
}
use voice_os.Vad.{VadEvent, VadError}
use voice_os.Vad.Service.{
  VadService, window_bytes, take, drop, Frame, process_window, process_windows, process_frame,
  judge_window, notice, put_out, arbitrate_all, arbitrate, emit_early, note_trigger,
  reset_barge_in_state,
}

-- One whole window less, or none.
next_window :
    (l : ℕ)
    → window_bytes ≤ l
    → (l - window_bytes < l)
      × ((l - window_bytes) % window_bytes ≡ l % window_bytes)
      × (1 + (l - window_bytes) / window_bytes ≡ l / window_bytes)
unfolding window_bytes
next_window l h = (omega (arith, h), omega (arith, h), omega (arith, h))

last_window : (l n : ℕ) → l < window_bytes → (l ≡ l % window_bytes) × (n ≡ n + l / window_bytes)
unfolding window_bytes
last_window l n h = (omega (arith, h), omega (arith, h))

length-take : (n : ℕ) (xs : List ℕ) → n ≤ length xs → length (take n xs) ≡ n
length-take zero xs h = refl
length-take (suc n) [] h = omega arith
length-take (suc n) (x ∷ xs) h = omega (arith, length-take n xs (omega arith))

length-drop : (n : ℕ) (xs : List ℕ) → length (drop n xs) ≡ length xs - n
length-drop zero xs = omega arith
length-drop (suc n) [] = omega arith
length-drop (suc n) (x ∷ xs) = omega (arith, length-drop n xs)

module _ {S : Type 0} where
  -- What the service counts of its audio.
  abbrev audio : VadService S → List ℕ × ℕ
  audio s = (s.pcm_buffer, s.total_frames)

  audio-arbitrate :
      (call_id tenant_id : Key) (raw : Option VadEvent) (event : VadEvent) (s : VadService S)
      → audio (arbitrate call_id tenant_id raw event s).1 ≡ audio s
  unfolding arbitrate reset_barge_in_state
  audio-arbitrate c k raw event s = ground arith

  audio-note_trigger :
      (raw : Option VadEvent) (t : ℕ) (s : VadService S) → audio (note_trigger raw t s) ≡ audio s
  unfolding note_trigger
  audio-note_trigger raw t s = ground arith

  audio-emit_early : (c k t : ℕ) (s : VadService S) → audio (emit_early c k t s).1 ≡ audio s
  unfolding emit_early
  audio-emit_early c k t s = ground arith

  audio-arbitrate_all :
      (c k : Key) (raw : Option VadEvent) (events : List VadEvent) (s : VadService S)
      → audio (arbitrate_all c k raw events s).1 ≡ audio s
  unfolding arbitrate_all
  audio-arbitrate_all c k raw [] s = refl
  audio-arbitrate_all c k raw (event ∷ events) s = ground (
    arith,
    audio-arbitrate c k raw event s,
    audio-arbitrate_all c k raw events (arbitrate c k raw event s).1,
  )

  audio-put_out :
      (events : List VadEvent) (raw : Option VadEvent) (c k : Key) (t : ℕ) (s : VadService S)
      → audio (put_out events raw c k t s).1 ≡ audio s
  unfolding put_out
  audio-put_out events raw c k t s = ground (
    arith,
    audio-arbitrate_all c k raw events s,
    audio-emit_early c k t (arbitrate_all c k raw events s).1,
  )

  audio-notice :
      (probability : ℕ) (c k : Key) (t : ℕ) (s : VadService S)
      → audio (notice probability c k t s).1 ≡ (s.pcm_buffer, s.total_frames + 1)
  unfolding notice note_trigger
  audio-notice probability c k t s = ground arith

  -- One window is counted, and the buffer is left alone.
  audio-judge_window :
      (probability : ℕ) (c k : Key) (t : ℕ) (s : VadService S)
      → audio (judge_window probability c k t s).1 ≡ (s.pcm_buffer, s.total_frames + 1)
  unfolding judge_window
  audio-judge_window probability c k t s =
      let ((events, raw), s') = notice probability c k t s in
      audio-put_out events raw c k t s' ∙ audio-notice probability c k t s

module _ {S : Type 0} (predict : S → List ℕ → ℕ × S) (call_id tenant_id call_time_ms : ℕ) where
  -- A whole window is judged: its size is right.
  process_window-judge_window :
      (window : List ℕ) (s : VadService S)
      → length window ≡ window_bytes
      → audio (process_window predict window call_id tenant_id call_time_ms s).1
        ≡ (s.pcm_buffer, s.total_frames + 1)
  unfolding process_window
  process_window-judge_window window s h =
      rw (h, (==_iff window_bytes window_bytes).1 refl)
        (audio-judge_window (predict s.model window).0 call_id tenant_id call_time_ms
          (record s { model = (predict s.model window).1 }))

  -- What the loop returns, and if it did not raise then every whole window is taken.
  abbrev pub TakesAll : VadService S → Result VadError (List VadEvent) × VadService S → Type 0
  TakesAll s r =
      (events : List VadEvent)
      → r.0 ≡ ok events
      → (length r.1.pcm_buffer ≡ length s.pcm_buffer % window_bytes)
        × (r.1.total_frames ≡ s.total_frames + length s.pcm_buffer / window_bytes)

  judged :
      (s : VadService S)
      → window_bytes ≤ length s.pcm_buffer
      → audio
          (process_window predict
            (take window_bytes s.pcm_buffer)
            call_id
            tenant_id
            call_time_ms
            (record s { pcm_buffer = drop window_bytes s.pcm_buffer })).1
        ≡ (drop window_bytes s.pcm_buffer, s.total_frames + 1)
  judged s h =
      process_window-judge_window (take window_bytes s.pcm_buffer) _
        (length-take window_bytes s.pcm_buffer h)

  -- A loop that takes all of what is left after one window takes all.
  then_TakesAll :
      (xs : List VadEvent) (s s' : VadService S)
      (r : Result VadError (List VadEvent) × VadService S)
      → window_bytes ≤ length s.pcm_buffer
      → audio s' ≡ (drop window_bytes s.pcm_buffer, s.total_frames + 1)
      → TakesAll s' r
      → TakesAll s (r.0 >>= (λ ys. ok (xs ++ ys)), r.1)
  then_TakesAll xs s s' r h e all events p = elim (Result-cases r.0) [
    | inr (x, bad) ↦ absurd (ground (arith, bad, p))
    | inl (ys, fine) ↦
        let (left, taken) = all ys fine in
        let (_, same, more) = next_window (length s.pcm_buffer) h in
        let buffer : s'.pcm_buffer ≡ drop window_bytes s.pcm_buffer = ap (λ a. a.0) e in
        let total : s'.total_frames ≡ s.total_frames + 1 = ap (λ a. a.1) e in
        let cut : length s'.pcm_buffer ≡ length s.pcm_buffer - window_bytes =
          rw buffer (length-drop window_bytes s.pcm_buffer) in
        (
          left ∙ ap (λ l. l % window_bytes) cut ∙ same,
          omega (arith, taken, total, more, ap (λ l. l / window_bytes) cut),
        )
  ]

  process_windows-TakesAll :
      (fuel : ℕ) (s : VadService S)
      → length s.pcm_buffer < fuel
      → (r : Result VadError (List VadEvent) × VadService S) × ((process_windows predict fuel
              call_id tenant_id call_time_ms s
            ≡ some r)
          × TakesAll s r)
  unfolding process_windows
  process_windows-TakesAll zero s h = elim h [ ]
  process_windows-TakesAll (suc fuel) s h =
      let cut : VadService S = record s { pcm_buffer = drop window_bytes s.pcm_buffer } in
      let (out, s') =
        process_window predict (take window_bytes s.pcm_buffer) call_id tenant_id call_time_ms
          cut in
      elim (Bool-cases (leb window_bytes (length s.pcm_buffer))) [
        | inr few ↦ ((ok [], s), (rw few refl, λ events e. last_window _ _ (ground arith)))
        | inl enough ↦
            let whole : window_bytes ≤ length s.pcm_buffer = leb→le _ _ enough in
            let taken = judged s whole in
            elim (Result-cases out) [
              | inr (e, raised) ↦
                  ((err e, s'), (rw (enough, raised) refl, λ events p. absurd (cc p)))
              | inl (xs, fine) ↦
                  let shorter : length s'.pcm_buffer < fuel = omega (
                    arith,
                    h,
                    (next_window _ whole).0,
                    length-drop window_bytes s.pcm_buffer,
                    ap (λ a. length a.0) taken,
                  ) in
                  let (r, (returned, all)) = process_windows-TakesAll fuel s' shorter in
                  (
                    (r.0 >>= (λ ys. ok (xs ++ ys)), r.1),
                    (rw (enough, fine, returned) refl, then_TakesAll xs s s' r whole taken all),
                  )
            ]
      ]

-- For every 16 kHz PCM frame, every model and every state, `process_frame` returns. It has raised,
-- or it has judged every whole window of what was buffered and the frame: as many as there are,
-- and what is left in the buffer is less than one.
pub process_frame_ends :
    {S : Type 0} (predict : S → List ℕ → ℕ × S) (frame : Frame) (call_id tenant_id : Key)
    (call_time_ms : ℕ) (s : VadService S)
    → frame.sample_rate ≡ 16_000
    → frame.is_pcm16le ≡ true
    → (r : Result VadError (List VadEvent) × VadService S) × (process_frame predict frame call_id
          tenant_id call_time_ms s
        ≡ some r)
      × (((e : VadError) × (r.0 ≡ err e))
          ⊎ ((length r.1.pcm_buffer ≡ length (s.pcm_buffer ++ frame.pcm_data) % window_bytes)
              × (r.1.total_frames
                  ≡ s.total_frames + length (s.pcm_buffer ++ frame.pcm_data) / window_bytes)))
unfolding process_frame
process_frame_ends predict frame c k t s rate pcm =
    let buffer = s.pcm_buffer ++ frame.pcm_data in
    let fed : VadService _ = record s { pcm_buffer = buffer } in
    let (r, (returned, all)) =
      process_windows-TakesAll predict c k t (suc (length buffer)) fed (omega arith) in
    elim (Result-cases r.0) [
      | inr (e, bad) ↦ (r, rw (rate, pcm) returned, inl (e, bad))
      | inl (events, fine) ↦ (r, rw (rate, pcm) returned, inr (all events fine))
    ]
