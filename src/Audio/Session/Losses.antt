-- ===== src/Audio/Session/Losses.antt =====
-- A session before and after a gap of any length (`push_frame` in session.py, `conceal` in plc.py).
use voice_os.Prelude.{
  ℕ, suc, zero, ◌+◌, ◌-◌, ◌*◌, ◌/◌, min, ◌≤◌, ◌<◌, ◌≡◌, refl, Key, true, false, some, List, [], ◌∷◌,
  inl, inr, ok, ◌==◌, ◌||◌, length, arith, sym, ap, Bool-cases, Result-cases, ◌∙◌,
}
use voice_os.Prelude.Dict.{Dict, has}
use voice_os.Audio.{AudioFrame}
use voice_os.Audio.JitterBuffer.{JitterBuffer, push, pop, pop_ready}
use voice_os.Audio.JitterBuffer.Bounds.{pop_branches}
use voice_os.Audio.JitterBuffer.Order.{IsRun}
use voice_os.Audio.Concealer.{Concealer, conceal, feed}
use voice_os.Audio.Session.{
  AudioSession, is_media_active, push_all, fill_gap, accept_frame, push_frame,
}
use voice_os.Audio.Session.Gap.{push-eq_ok, concealed_from-IsRun, concealed_from_total}
use voice_os.Audio.Session.Stream.{Holds, Holds_ext, between, push_all-Holds, push-Holds, taken}
use voice_os.Audio.Session.Stall.{after_push, push_frame-eq_ok, IsLost}

-- A session that has handed on everything up to the number `last`.
abbrev pub IsSteady : ℕ → AudioSession → Type 0
IsSteady last s =
    (is_media_active s.state ≡ true)
    × (s.jitter_buffer.buffer ≡ [])
    × (s.jitter_buffer.next_seq ≡ some (suc last))
    × (4 ≤ s.jitter_buffer.max_depth)
    × (s.last_seq ≡ some last)
    × ((ref : AudioFrame) × (s.plc ≡ some ref))

-- What the frame's RTP timestamp must have room for, over a gap of g frames.
abbrev pub gap_rtp : ℕ → AudioFrame → ℕ
gap_rtp g f = g * (f.config.frame_duration_ms * (f.config.sample_rate / 1000))

pub IsRun_at : (n m : ℕ) (fs : List AudioFrame) → n ≡ m → IsRun n fs → IsRun m fs
IsRun_at n m fs e r = rw (sym e) r

-- The frames of the gap: as many as it has, and three at most.
fill_gap_run :
    (g last : ℕ) (f : AudioFrame) (s : AudioSession)
    → IsSteady last s
    → f.seq ≡ suc last + g
    → gap_rtp g f ≤ f.rtp_ts
    → (fs : List AudioFrame) × (fill_gap f s ≡ ok fs) × IsRun (suc last) fs × (length fs ≡ min g 3)
unfolding fill_gap conceal
fill_gap_run zero last f s h e r = ([], ground arith, tt, refl)
fill_gap_run (suc g) last f s h e r =
    let (ref, has_ref) = h.5 in
    let (fs, q) =
      concealed_from_total (min (suc g) 3) (suc last) f.rtp_ts (gap_rtp (suc g) f) ref 0 r in
    let (run, size) =
      concealed_from-IsRun (min (suc g) 3) (suc last) f.rtp_ts (gap_rtp (suc g) f) ref 0 fs q in
    let gap : f.seq - suc last ≡ suc g = omega arith in
    (fs, ground arith, IsRun_at (suc last + 0) (suc last) fs (omega arith) run, size)

push_all-depth :
    (fs : List AudioFrame) (b b' : JitterBuffer)
    → push_all fs b ≡ ok b'
    → b'.max_depth ≡ b.max_depth
push_all-depth [] b b' e = ground arith
push_all-depth (f ∷ fs) b b' e = elim (Result-cases (push f b)) [
  | inr (x, q) ↦ ground arith
  | inl (b1, q) ↦ push_all-depth fs b1 b' (ground arith) ∙ (push-eq_ok f b b1 q).4
]

module _ (g last : ℕ) (f : AudioFrame) (s : AudioSession) (h : IsSteady last s)
    (e : f.seq ≡ suc last + g) (r : gap_rtp g f ≤ f.rtp_ts) where
  -- What the frame and the gap before it do to the session.
  accepted :
      (b : JitterBuffer) × (push_frame f s ≡ (ok (after_push f s b).0, (after_push f s b).1))
      × Holds
          (suc last)
          0
          (λ k. (suc last + g == k) || between (suc last) (min g 3) (λ _. false) k)
          b
      × (b.max_depth ≡ s.jitter_buffer.max_depth)
  unfolding accept_frame
  accepted =
      let (fs, filled, run, size) = fill_gap_run g last f s h e r in
      let empty : Holds (suc last) (length fs + 1) (λ _. false) s.jitter_buffer =
        (h.2, ground (arith, size), rw (h.1) (tt, λ k x found. ground arith), λ k. rw (h.1) refl) in
      let (b1, e1, h1) =
        push_all-Holds (suc last) 1 (suc last) (λ _. false) fs s.jitter_buffer run empty in
      let (b2, e2, h2) =
        push-Holds (suc last) 0 (between (suc last) (length fs) (λ _. false)) f b1 h1 in
      (
        b2,
        push_frame-eq_ok f s (after_push f s b2) h.0 (ground arith),
        Holds_ext (suc last) 0 _ _ b2 (λ k. ground (arith, size)) h2,
        (push-eq_ok f b1 b2 e2).4 ∙ push_all-depth fs s.jitter_buffer b1 e1,
      )

pop-depth : (b : JitterBuffer) → (pop b).1.max_depth ≡ b.max_depth
pop-depth b = elim (pop_branches b) [
  | inl (q, p) ↦ ap (λ x. x.1.max_depth) p
  | inr (n, f, x, found, p) ↦ ap (λ y. y.1.max_depth) p
]

pop_ready-depth : (fuel : ℕ) (b : JitterBuffer) → (pop_ready fuel b).1.max_depth ≡ b.max_depth
pop_ready-depth zero b = refl
pop_ready-depth (suc fuel) b = ground (arith, pop-depth b, pop_ready-depth fuel (pop b).1)

pub feed-some :
    (f : AudioFrame) (last : Concealer)
    → ((ref : AudioFrame) × (last ≡ some ref))
    → (ref : AudioFrame) × (feed f last ≡ some ref)
unfolding feed
feed-some f last (ref, e) = elim (Bool-cases f.is_plc) [
  | inl plc ↦ (ref, ground arith)
  | inr real ↦ (f, ground arith)
]

nothing_held : (d : Dict AudioFrame) → ((k : Key) → has k d ≡ false) → d ≡ []
nothing_held [] h = refl
nothing_held (x ∷ d) h = absurd (ground (arith, h x.0))

module _ (g last : ℕ) (f : AudioFrame) (s : AudioSession) (h : IsSteady last s)
    (e : f.seq ≡ suc last + g) (r : gap_rtp g f ≤ f.rtp_ts) where
  -- In a session that has handed on everything so far, and for a frame whose RTP timestamp is not
  -- below the samples of the gap: after a gap of at most three frames, `push_frame` hands on
  -- concealed frames for it and the frame itself, in order: g + 1 frames from the first missing
  -- number on. The session has then handed on everything up to the frame.
  pub short_gap_concealed :
      g ≤ 3
      → (out : List AudioFrame) × (s' : AudioSession) × (push_frame f s ≡ (ok out, s'))
        × IsRun (suc last) out
        × (length out ≡ suc g)
        × IsSteady f.seq s'
  short_gap_concealed few =
      let (b, p, held, depth) = accepted g last f s h e r in
      let (run, indexed, size, next, left) = taken (suc last) (min g 3) g b held (omega arith) in
      (
        (after_push f s b).0,
        (after_push f s b).1,
        p,
        run,
        ground (arith, size),
        (
          h.0,
          nothing_held (after_push f s b).1.jitter_buffer.buffer (λ k. ground (arith, left k)),
          ground (arith, next, size),
          rw (pop_ready-depth (suc (length b.buffer)) b ∙ depth) h.3,
          refl,
          feed-some f s.plc h.5,
        ),
      )

  -- In a session that has handed on everything so far, and for a frame whose RTP timestamp is not
  -- below the samples of the gap: after a gap of more than three frames, `push_frame` hands on
  -- three concealed frames and not the frame, and the session then waits for the fourth missing
  -- number.
  pub long_gap-IsLost :
      3 < g
      → (out : List AudioFrame) × (s' : AudioSession) × (push_frame f s ≡ (ok out, s'))
        × IsRun (suc last) out
        × (length out ≡ 3)
        × IsLost (last + 4) s'
  long_gap-IsLost many =
      let (b, p, held, depth) = accepted g last f s h e r in
      let (run, indexed, size, next, left) = taken (suc last) (min g 3) g b held (omega arith) in
      (
        (after_push f s b).0,
        (after_push f s b).1,
        p,
        run,
        ground (arith, size),
        (
          h.0,
          (ground (arith, next, size), ground (arith, left (last + 4)), indexed),
          (f.seq, refl, omega arith),
        ),
      )
