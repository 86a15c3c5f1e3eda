-- ===== src/Audio/Concealer.antt =====
-- Concealment of lost frames (src/services/audio_session_manager/plc.py). The fade factor of the
-- frame `i` is 1 / 2 ^ i, and `int` rounds towards 0, so a magnitude is divided by 2 ^ i.
use voice_os.Prelude.{
  ℕ, suc, zero, ◌+◌, ◌-◌, ◌*◌, ◌/◌, min, true, Option, none, some, List, [], ◌∷◌, map, Result, ok,
  err, ◌>>=◌, ltb, if◌then◌else◌, not,
}
use voice_os.Audio.{AudioFrame, Sample, AudioError, validation_error}

-- `PacketLossConcealer._last_frame`
abbrev pub Concealer : Type 0
Concealer = Option AudioFrame

abbrev pub max_conceal_frames : ℕ
max_conceal_frames = 3

unfoldable pub feed : AudioFrame → Concealer → Concealer
feed frame last = if not frame.is_plc then some frame else last

-- `2 ** i`
abbrev pub two_to : ℕ → ℕ
two_to zero = 1
two_to (suc i) = 2 * two_to i

-- A sample of the frame `i`, clamped to 16 bits.
abbrev pub fade_sample : ℕ → Sample → Sample
fade_sample i (negative, magnitude) =
    (negative, min (magnitude / two_to i) (if negative then 32768 else 32767))

abbrev pub fade : ℕ → List Sample → List Sample
fade i pcm = map (fade_sample i) pcm

-- The frame `i` of a gap that starts at `start_seq`, whose first RTP timestamp is
-- `rtp_ts - back`. A negative timestamp is refused by the contract.
unfoldable pub concealed : ℕ → ℕ → ℕ → AudioFrame → ℕ → Result AudioError AudioFrame
concealed start_seq rtp_ts back ref i =
    let at = rtp_ts + i * (ref.config.frame_duration_ms * (ref.config.sample_rate / 1000)) in
    if ltb at back
    then err validation_error
    else ok (record {
      pcm_data = fade i ref.pcm_data;
      seq = start_seq + i;
      rtp_ts = at - back;
      recv_ts = ref.recv_ts;
      config = ref.config;
      is_plc = true;
    })

-- The frames from `i` on, `n` of them.
unfoldable pub concealed_from : ℕ → ℕ → ℕ → ℕ → AudioFrame → ℕ → Result AudioError (List AudioFrame)
unfolding concealed
concealed_from zero start_seq rtp_ts back ref i = ok []
concealed_from (suc n) start_seq rtp_ts back ref i =
    let rest = concealed_from n start_seq rtp_ts back ref (suc i) in
    do frame ← concealed start_seq rtp_ts back ref i; frames ← rest; ok (frame ∷ frames)

unfoldable pub conceal : ℕ → ℕ → ℕ → ℕ → Concealer → Result AudioError (List AudioFrame)
unfolding concealed_from
conceal n_frames start_seq rtp_ts back last = elim last [
  | none ↦ ok []
  | some ref ↦ concealed_from (min n_frames max_conceal_frames) start_seq rtp_ts back ref 0
]
