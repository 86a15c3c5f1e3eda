-- ===== src/Audio/Session/InOrder.antt =====
-- A session whose frames come in order, from the first on (`push_frame` in session.py).
use voice_os.Prelude.{
  ℕ, suc, ◌+◌, ◌≤◌, ◌≡◌, ◌⊎◌, refl, Key, true, false, none, some, List, [], ◌∷◌, inl, inr, ok,
  length, arith, ap, ◌∙◌,
}
use voice_os.Audio.{AudioFrame}
use voice_os.Audio.JitterBuffer.{JitterBuffer, pop, pop_ready, expected_seq, lowest}
use voice_os.Audio.JitterBuffer.Order.{IsRun, pop_ready_more, pop_ready_stop}
use voice_os.Audio.Concealer.{feed}
use voice_os.Audio.Session.{
  AudioSession, is_media_active, connect, fill_gap, accept_frame, push_frame, new_session,
}
use voice_os.Audio.Session.Stream.{push_room}
use voice_os.Audio.Session.Stall.{stream, push_frame-eq_ok}
use voice_os.Audio.Session.Losses.{IsSteady, IsRun_at, feed-some}

-- A buffer that holds just the frame it looks for.
pop_ready-single :
    (n : ℕ) (f : AudioFrame) (b : JitterBuffer)
    → b.buffer ≡ (n, f) ∷ []
    → expected_seq b ≡ some n
    → pop_ready 2 b ≡ (f ∷ [], record b { buffer = []; next_seq = some (suc n) })
unfolding pop
pop_ready-single n f b e x =
    let b1 : JitterBuffer = record b { buffer = []; next_seq = some (suc n) } in
    pop_ready_more 1 f b b1 (ground arith) ∙ ap (λ y. (f ∷ y.0, y.1)) (pop_ready_stop 0 b1 b1 refl)

-- The next frame when the buffer is empty.
module _ (f : AudioFrame) (s : AudioSession) (act : is_media_active s.state ≡ true)
    (empty : s.jitter_buffer.buffer ≡ []) (deep : 4 ≤ s.jitter_buffer.max_depth)
    (next : (s.jitter_buffer.next_seq ≡ none) ⊎ (s.jitter_buffer.next_seq ≡ some f.seq))
    (ref : (r : AudioFrame) × (feed f s.plc ≡ some r)) where
  expects :
      (b : JitterBuffer)
      → b.buffer ≡ (f.seq, f) ∷ []
      → b.next_seq ≡ s.jitter_buffer.next_seq
      → expected_seq b ≡ some f.seq
  unfolding expected_seq lowest
  expects b e q = elim next [ inl n ↦ ground arith | inr n ↦ ground arith ]

  pub single :
      fill_gap f s ≡ ok []
      → (s' : AudioSession) × (push_frame f s ≡ (ok (f ∷ []), s')) × IsSteady f.seq s'
  unfolding accept_frame
  single filled =
      let (b, e, buffer, same, depth) = push_room f s.jitter_buffer (ground (arith, empty)) in
      let held : b.buffer ≡ (f.seq, f) ∷ [] = ground arith in
      let b1 : JitterBuffer = record b { buffer = []; next_seq = some (suc f.seq) } in
      let out = pop_ready-single f.seq f b held (expects b held same) in
      let s' : AudioSession = record s {
        jitter_buffer = b1;
        plc = feed f s.plc;
        last_seq = some f.seq;
      } in
      (
        s',
        push_frame-eq_ok f s (f ∷ [], s') act (ground arith),
        (act, refl, refl, ground arith, refl, ref),
      )

no_gap :
    (last : ℕ) (f : AudioFrame) (s : AudioSession)
    → IsSteady last s
    → f.seq ≡ suc last
    → fill_gap f s ≡ ok []
unfolding fill_gap
no_gap last f s h e = ground arith

-- A session that has handed on everything up to `last` hands on the frames that follow, if they
-- come in order without a gap, and only them, and again has handed on everything.
pub in_order_through :
    (last : ℕ) (fs : List AudioFrame) (s : AudioSession)
    → IsSteady last s
    → IsRun (suc last) fs
    → let (out, s') = stream fs s in (out ≡ fs) × IsSteady (last + length fs) s'
in_order_through last [] s h run = (refl, ground (arith, h))
in_order_through last (f ∷ fs) s h run =
    let (s', p, h') =
      single f s h.0 h.1 h.3 (inr (ground (arith, h.2, run.0))) (feed-some f s.plc h.5)
        (no_gap last f s h run.0) in
    let (same, steady) =
      in_order_through f.seq fs s' h'
        (IsRun_at (suc (suc last)) (suc f.seq) fs (omega (arith, run.0)) run.1) in
    let count : last + suc (length fs) ≡ f.seq + length fs = omega (arith, run.0) in
    rw p (ap (λ out. f ∷ out) same, rw count steady)

-- The first frame of a call is handed on at once, and the session has then handed on everything
-- up to it.
pub first_frame_through :
    (call_id tenant_id : Key) (f : AudioFrame)
    → f.is_plc ≡ false
    → (s : AudioSession) × (push_frame f (new_session call_id tenant_id) ≡ (ok (f ∷ []), s))
      × IsSteady f.seq s
unfolding push_frame connect fill_gap feed
first_frame_through call_id tenant_id f real =
    let s1 : AudioSession = connect f (new_session call_id tenant_id) in
    single f s1 refl refl (omega arith) (inl refl) (f, ground arith) refl
