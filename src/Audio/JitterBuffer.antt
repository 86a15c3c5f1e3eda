-- ===== src/Audio/JitterBuffer.antt =====
-- The jitter buffer (src/services/audio_session_manager/jitter_buffer.py). Its arithmetic on
-- floats is exact here: the mean of the samples is a quotient, rounded down where the source has
-- `int`.
pub mod Bounds
pub mod Order
use voice_os.Prelude.{
  ℕ, suc, zero, ◌+◌, ◌-◌, ◌*◌, ◌/◌, min, max, Key, Bool, true, false, Option, none, some, List, [],
  ◌∷◌, Result, ok, err, ltb, leb, ◌==◌, if◌then◌else◌, length,
}
use voice_os.Prelude.Dict.{Dict, lookup, insert, erase, keys}
use voice_os.Audio.{AudioFrame, AudioError, value_error}

pub record JitterBuffer : Type 0 where
  pub target_delay_ms : ℕ
  pub min_delay_ms : ℕ
  pub max_delay_ms : ℕ
  pub max_reorder : ℕ
  pub max_depth : ℕ
  pub buffer : Dict AudioFrame
  pub next_seq : Option ℕ
  pub jitter_samples : List ℕ
  pub last_arrival : Option ℕ

abbrev pub new_jitter_buffer : JitterBuffer
new_jitter_buffer = record {
  target_delay_ms = 80;
  min_delay_ms = 20;
  max_delay_ms = 200;
  max_reorder = 5;
  max_depth = 50;
  buffer = [];
  next_seq = none;
  jitter_samples = [];
  last_arrival = none;
}

-- `min(self._buffer)`, the lowest key.
unfoldable pub lowest : Dict AudioFrame → Option ℕ
lowest [] = none
lowest (e ∷ d) = elim (lowest d) [ none ↦ some e.0 | some k ↦ some (min e.0 k) ]

abbrev pub sum : List ℕ → ℕ
sum [] = 0
sum (x ∷ xs) = x + sum xs

-- `deque(maxlen=50)`, newest first.
abbrev pub newest : ℕ → List ℕ → List ℕ
newest zero xs = []
newest (suc n) [] = []
newest (suc n) (x ∷ xs) = x ∷ newest n xs

-- `abs((now - last) - expected)`
abbrev pub deviation : ℕ → ℕ → ℕ → ℕ
deviation now last expected =
    if leb (last + expected) now then now - (last + expected) else (last + expected) - now

unfoldable pub update_jitter : AudioFrame → JitterBuffer → JitterBuffer
update_jitter frame b = elim b.last_arrival [
  | none ↦ record b { last_arrival = some frame.recv_ts }
  | some last ↦
      let expected = frame.config.frame_duration_ms in
      let samples = newest 50 (deviation frame.recv_ts last expected ∷ b.jitter_samples) in
      let new_target = (2 * sum samples + expected * length samples) / length samples in
      record b {
        jitter_samples = samples;
        target_delay_ms = max b.min_delay_ms (min new_target b.max_delay_ms);
        last_arrival = some frame.recv_ts;
      }
]

-- The buffer with room for one more frame.
unfoldable pub evict : JitterBuffer → Result AudioError (Dict AudioFrame)
unfolding lowest
evict b =
    if leb b.max_depth (length b.buffer)
    then elim (lowest b.buffer) [ none ↦ err value_error | some k ↦ ok (erase k b.buffer) ]
    else ok b.buffer

unfoldable pub push : AudioFrame → JitterBuffer → Result AudioError JitterBuffer
unfolding evict update_jitter
push frame b = elim (evict b) [
  | err e ↦ err e
  | ok d ↦ ok (update_jitter frame (record b { buffer = insert frame.seq frame d }))
]

-- The sequence number that the next `pop` looks for.
unfoldable pub expected_seq : JitterBuffer → Option ℕ
unfolding lowest
expected_seq b = elim b.next_seq [ none ↦ lowest b.buffer | some n ↦ some n ]

unfoldable pub pop : JitterBuffer → Option AudioFrame × JitterBuffer
unfolding expected_seq
pop b = elim b.buffer [
  | [] ↦ (none, b)
  | _ ∷ _ ↦ elim (expected_seq b) [
    | none ↦ (none, b)
    | some n ↦ elim (lookup n b.buffer) [
      | none ↦ (none, record b { next_seq = some n })
      | some frame ↦ (some frame, record b { buffer = erase n b.buffer; next_seq = some (suc n) })
    ]
  ]
]

-- `sorted` on the keys, by insertion.
abbrev pub insert_sorted : Key → List Key → List Key
insert_sorted k [] = k ∷ []
insert_sorted k (x ∷ xs) = if leb k x then k ∷ x ∷ xs else x ∷ insert_sorted k xs

abbrev pub sorted : List Key → List Key
sorted [] = []
sorted (x ∷ xs) = insert_sorted x (sorted xs)

-- `[self._buffer[seq] for seq in seqs]`; every key asked for is there.
abbrev pub frames_at : List Key → Dict AudioFrame → List AudioFrame
frames_at [] d = []
frames_at (k ∷ ks) d = elim (lookup k d) [ none ↦ frames_at ks d | some f ↦ f ∷ frames_at ks d ]

unfoldable pub drain : JitterBuffer → List AudioFrame × JitterBuffer
drain b = (frames_at (sorted (keys b.buffer)) b.buffer, record b { buffer = []; next_seq = none })

-- `while True: ready = pop()`, with one turn of fuel for each frame and one for the end.
abbrev pub pop_ready : ℕ → JitterBuffer → List AudioFrame × JitterBuffer
pop_ready zero b = ([], b)
pop_ready (suc fuel) b =
    let (ready, b') = pop b in
    let (rest, last) = pop_ready fuel b' in
    elim ready [ none ↦ ([], b') | some frame ↦ (frame ∷ rest, last) ]
