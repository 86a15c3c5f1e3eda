-- ===== src/Audio/Session/Overflow.antt =====
-- A gap whose first frame would have a negative RTP timestamp (`push_frame` in session.py, and the
-- contract of audio.py), as after a wrap-around.
use voice_os.Prelude.{ℕ, suc, ◌+◌, ◌-◌, min, ◌<◌, ◌≡◌, err, arith}
use voice_os.Audio.{AudioFrame, validation_error}
use voice_os.Audio.Concealer.{conceal, concealed_from, concealed}
use voice_os.Audio.Session.{AudioSession, fill_gap, accept_frame, push_frame}
use voice_os.Audio.Session.Stall.{push_frame-eq_err}
use voice_os.Audio.Session.Losses.{IsSteady, gap_rtp}

refused :
    (n start rtp back : ℕ) (ref : AudioFrame)
    → rtp < back
    → concealed_from (suc n) start rtp back ref 0 ≡ err validation_error
unfolding concealed_from concealed
refused n start rtp back ref h = ground arith

fill_gap_refused :
    (g last : ℕ) (f : AudioFrame) (s : AudioSession)
    → IsSteady last s
    → f.seq ≡ suc last + suc g
    → f.rtp_ts < gap_rtp (suc g) f
    → fill_gap f s ≡ err validation_error
unfolding fill_gap conceal
fill_gap_refused g last f s h e r =
    let (ref, has_ref) = h.5 in
    let gap : f.seq - suc last ≡ suc g = omega arith in
    let count : min (suc g) 3 ≡ suc (min g 2) = omega arith in
    ground (arith, refused (min g 2) (suc last) f.rtp_ts (gap_rtp (suc g) f) ref r)

-- When a frame's RTP timestamp is smaller than the samples of the gap before it, as after a
-- wrap-around, `push_frame` raises and the session is as before: the frame is lost, and the gap
-- stands for the next one.
pub wrapped_gap_raises :
    (g last : ℕ) (f : AudioFrame) (s : AudioSession)
    → IsSteady last s
    → f.seq ≡ suc last + suc g
    → f.rtp_ts < gap_rtp (suc g) f
    → push_frame f s ≡ (err validation_error, s)
unfolding accept_frame
wrapped_gap_raises g last f s h e r =
    push_frame-eq_err f s validation_error h.0 (ground (arith, fill_gap_refused g last f s h e r))
