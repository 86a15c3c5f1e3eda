-- ===== src/Audio/Session/Stall.antt =====
-- What becomes of a session once a frame is lost for good (`push_frame` of session.py, `pop` of
-- jitter_buffer.py).
use voice_os.Prelude.{
  ℕ, suc, ◌+◌, ◌-◌, ◌*◌, ◌/◌, min, ◌≤◌, ◌<◌, ◌≡◌, refl, true, none, some, List, [], ◌∷◌, ◌++◌, inl,
  inr, Result, ok, err, ltb, length, arith, All, Bool-cases, Result-cases,
}
use voice_os.Prelude.Dict.{lookup, lookup-erase, lookup-insert}
use voice_os.Audio.{AudioFrame, AudioError}
use voice_os.Audio.JitterBuffer.{JitterBuffer, push, pop_ready}
use voice_os.Audio.JitterBuffer.Order.{IsIndexed, pop_expecting, pop_ready_stop}
use voice_os.Audio.Concealer.{Concealer, conceal, feed}
use voice_os.Audio.Session.{
  AudioSession, is_media_active, connect, push_all, fill_gap, accept_frame, push_frame,
}
use voice_os.Audio.Session.Gap.{
  evict_branches, evict-IsIndexed, insert-IsIndexed, push-eq_ok, concealed_from-IsRun, IsRun-All,
}

-- The buffer waits for the number n, which is not there.
abbrev pub Awaits : ℕ → JitterBuffer → Type 0
Awaits n b = (b.next_seq ≡ some n) × (lookup n b.buffer ≡ none) × IsIndexed b.buffer

push-Awaits :
    (n : ℕ) (f : AudioFrame) (b b' : JitterBuffer)
    → push f b ≡ ok b'
    → n < f.seq
    → Awaits n b
    → Awaits n b'
push-Awaits n f b b' e above (next, missing, i) =
    let (d, q, buffer, same, _) = push-eq_ok f b b' e in
    let gone : lookup n d ≡ none = elim (evict_branches b d q) [
      | inl kept ↦ ground arith
      | inr (k, dropped) ↦ ground (arith, lookup-erase k n b.buffer i.0)
    ] in
    (
      ground arith,
      ground (arith, lookup-insert f.seq n f d),
      rw buffer (insert-IsIndexed f d (evict-IsIndexed b d q i)),
    )

push_all-Awaits :
    (n : ℕ) (fs : List AudioFrame) (b b' : JitterBuffer)
    → push_all fs b ≡ ok b'
    → All (λ f. n < f.seq) fs
    → Awaits n b
    → Awaits n b'
push_all-Awaits n [] b b' e h w = ground arith
push_all-Awaits n (f ∷ fs) b b' e h w = elim (Result-cases (push f b)) [
  | inr (x, q) ↦ ground arith
  | inl (b1, q) ↦ push_all-Awaits n fs b1 b' (ground arith) h.1 (push-Awaits n f b b1 q h.0 w)
]

conceal-All :
    (gap start rtp back n : ℕ) (last : Concealer) (fs : List AudioFrame)
    → conceal gap start rtp back last ≡ ok fs
    → n < start
    → All (λ f. n < f.seq) fs
unfolding conceal
conceal-All gap start rtp back n none fs e h = let empty : fs ≡ [] = ground arith in rw empty tt
conceal-All gap start rtp back n (some ref) fs e h =
    IsRun-All (start + 0) n fs (omega arith)
      (concealed_from-IsRun (min gap 3) start rtp back ref 0 fs e).0

fill_gap-All :
    (n last : ℕ) (f : AudioFrame) (s : AudioSession) (fs : List AudioFrame)
    → fill_gap f s ≡ ok fs
    → s.last_seq ≡ some last
    → n ≤ last
    → All (λ g. n < g.seq) fs
unfolding fill_gap
fill_gap-All n last f s fs e q h = elim (Bool-cases (ltb (suc last) f.seq)) [
  | inr no_gap ↦ let empty : fs ≡ [] = ground arith in rw empty tt
  | inl later ↦
      let gap = f.seq - suc last in
      conceal-All gap (suc last) f.rtp_ts
        (gap * (f.config.frame_duration_ms * (f.config.sample_rate / 1000))) n s.plc fs
        (ground arith) (omega arith)
]

-- A session that waits for the number n, with a later frame behind it.
abbrev pub IsLost : ℕ → AudioSession → Type 0
IsLost n s =
    (is_media_active s.state ≡ true)
    × Awaits n s.jitter_buffer
    × ((last : ℕ) × (s.last_seq ≡ some last) × (n ≤ last))

pop_ready_waits :
    (fuel n : ℕ) (b : JitterBuffer)
    → Awaits n b
    → ((pop_ready (suc fuel) b).0 ≡ []) × Awaits n (pop_ready (suc fuel) b).1
pop_ready_waits fuel n b (next, missing, i) = elim (pop_expecting n b next) [
  | inl (_, p) ↦
      rw (pop_ready_stop fuel b (record b { next_seq = some n }) p) (refl, (refl, missing, i))
  | inr (f, found, p) ↦ ground arith
]

-- What `accept_frame` returns for the buffer with every frame pushed.
abbrev pub after_push : AudioFrame → AudioSession → JitterBuffer → List AudioFrame × AudioSession
after_push f s b =
    let (output, b') = pop_ready (suc (length b.buffer)) b in
    (output, record s { jitter_buffer = b'; plc = feed f s.plc; last_seq = some f.seq })

accept_frame-IsLost :
    (n : ℕ) (f : AudioFrame) (s : AudioSession) (x : List AudioFrame × AudioSession)
    → accept_frame f s ≡ ok x
    → n < f.seq
    → IsLost n s
    → (x.0 ≡ []) × IsLost n x.1
unfolding accept_frame
accept_frame-IsLost n f s x e above (act, w, (last, q, h)) = elim (Result-cases (fill_gap f s)) [
  | inr (a, p) ↦ ground arith
  | inl (fs, p) ↦ elim (Result-cases (push_all fs s.jitter_buffer)) [
    | inr (a, p1) ↦ ground arith
    | inl (b1, p1) ↦ elim (Result-cases (push f b1)) [
      | inr (a, p2) ↦ ground arith
      | inl (b2, p2) ↦
          let w1 =
            push_all-Awaits n fs s.jitter_buffer b1 p1 (fill_gap-All n last f s fs p q h) w in
          let (silent, w2) =
            pop_ready_waits (length b2.buffer) n b2 (push-Awaits n f b1 b2 p2 above w1) in
          let same : x ≡ after_push f s b2 = ground arith in
          rw same (silent, (act, w2, (f.seq, refl, omega arith)))
    ]
  ]
]

-- The frames that come in, in this order, and all that comes out; what raises puts out nothing.
abbrev pub output_of : Result AudioError (List AudioFrame) → List AudioFrame
output_of (ok out) = out
output_of (err e) = []

abbrev pub stream : List AudioFrame → AudioSession → List AudioFrame × AudioSession
stream [] s = ([], s)
stream (f ∷ fs) s =
    let (r, s') = push_frame f s in let (rest, last) = stream fs s' in (output_of r ++ rest, last)

pub push_frame-eq_ok :
    (f : AudioFrame) (s : AudioSession) (x : List AudioFrame × AudioSession)
    → is_media_active s.state ≡ true
    → accept_frame f s ≡ ok x
    → push_frame f s ≡ (ok x.0, x.1)
unfolding push_frame connect
push_frame-eq_ok f s x h e = let same : connect f s ≡ s = ground arith in ground arith

pub push_frame-eq_err :
    (f : AudioFrame) (s : AudioSession) (a : AudioError)
    → is_media_active s.state ≡ true
    → accept_frame f s ≡ err a
    → push_frame f s ≡ (err a, s)
unfolding push_frame connect
push_frame-eq_err f s a h e = let same : connect f s ≡ s = ground arith in ground arith

push_frame-IsLost :
    (n : ℕ) (f : AudioFrame) (s : AudioSession)
    → n < f.seq
    → IsLost n s
    → (output_of (push_frame f s).0 ≡ []) × IsLost n (push_frame f s).1
push_frame-IsLost n f s above h = elim (Result-cases (accept_frame f s)) [
  | inl (x, e) ↦ rw (push_frame-eq_ok f s x h.0 e) (accept_frame-IsLost n f s x e above h)
  | inr (a, e) ↦ rw (push_frame-eq_err f s a h.0 e) (refl, h)
]

-- Once a session waits for a number that is not buffered, and has seen one as high or higher, it
-- puts out nothing for any later frames, however many: not one of them is ever handed on.
pub silent_after_loss :
    (n : ℕ) (fs : List AudioFrame) (s : AudioSession)
    → IsLost n s
    → All (λ f. n < f.seq) fs
    → (stream fs s).0 ≡ []
silent_after_loss n [] s h above = refl
silent_after_loss n (f ∷ fs) s h above =
    let (silent, h') = push_frame-IsLost n f s above.0 h in
    let rest = silent_after_loss n fs (push_frame f s).1 h' above.1 in ground arith
