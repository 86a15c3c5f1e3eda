-- ===== src/Audio/JitterBuffer/Bounds.antt =====
-- The memory and the delay of the jitter buffer (jitter_buffer.py), over sequences of its
-- operations.
use voice_os.Prelude.{
  ℕ, suc, ◌+◌, ◌*◌, ◌/◌, min, max, ◌≤◌, ◌<◌, ◌≡◌, refl, ◌⊎◌, Key, Bool-cases, Option, Option-cases,
  List-cases, none, some, List, [], ◌∷◌, inl, inr, Result, ok, ◌>>=◌, leb, ◌==◌, length, arith,
}
use voice_os.Prelude.Dict.{Dict, lookup, insert, erase}
use voice_os.Audio.{AudioFrame, AudioError}
use voice_os.Audio.JitterBuffer.{
  JitterBuffer, lowest, sum, newest, deviation, update_jitter, evict, push, pop, drain,
  expected_seq,
}

length-insert :
    (k : Key) (f : AudioFrame) (d : Dict AudioFrame) → length (insert k f d) ≤ suc (length d)
length-insert k f [] = omega arith
length-insert k f (e ∷ d) = ground (arith, length-insert k f d)

pub length-erase :
    (k : Key) (f : AudioFrame) (d : Dict AudioFrame)
    → lookup k d ≡ some f
    → suc (length (erase k d)) ≡ length d
length-erase k f [] h = ground arith
length-erase k f (e ∷ d) h = ground (arith, length-erase k f d)

pub lowest-lookup :
    (d : Dict AudioFrame) (k : ℕ) → lowest d ≡ some k → (f : AudioFrame) × (lookup k d ≡ some f)
unfolding lowest
lowest-lookup [] k h = ground arith
lowest-lookup (e ∷ d) k h = elim (Option-cases (lowest d)) [
  | inl n ↦ (e.1, ground arith)
  | inr (j, q) ↦ elim (Bool-cases (e.0 == k)) [
    | inl same ↦ (e.1, ground arith)
    | inr other ↦ let (f, found) = lowest-lookup d j q in (f, ground arith)
  ]
]

lowest-eq_none : (d : Dict AudioFrame) → lowest d ≡ none → d ≡ []
unfolding lowest
lowest-eq_none [] h = refl
lowest-eq_none (e ∷ d) h = ground arith

-- Room for one more frame.
evict_total :
    (b : JitterBuffer)
    → 0 < b.max_depth
    → length b.buffer ≤ b.max_depth
    → (d : Dict AudioFrame) × (evict b ≡ ok d) × (suc (length d) ≤ b.max_depth)
unfolding evict
evict_total b p h = elim (Bool-cases (leb b.max_depth (length b.buffer))) [
  | inr below ↦ (b.buffer, ground arith, ground arith)
  | inl full ↦ elim (Option-cases (lowest b.buffer)) [
    | inl n ↦ absurd (ground (arith, lowest-eq_none b.buffer n))
    | inr (k, q) ↦
        let (f, found) = lowest-lookup b.buffer k q in
        (erase k b.buffer, ground arith, ground (arith, length-erase k f b.buffer found))
  ]
]

-- Within the memory and the delays that the buffer was made with.
abbrev pub IsBounded : JitterBuffer → Type 0
IsBounded b =
    (0 < b.max_depth)
    × (length b.buffer ≤ b.max_depth)
    × (b.min_delay_ms ≤ b.target_delay_ms)
    × (b.target_delay_ms ≤ b.max_delay_ms)

update_jitter-eq_none :
    (f : AudioFrame) (b : JitterBuffer)
    → b.last_arrival ≡ none
    → update_jitter f b ≡ record b { last_arrival = some f.recv_ts }
unfolding update_jitter
update_jitter-eq_none f b e = ground arith

update_jitter-eq_some :
    (f : AudioFrame) (b : JitterBuffer) (last : ℕ)
    → b.last_arrival ≡ some last
    → update_jitter f b ≡ (
        let expected = f.config.frame_duration_ms in
        let samples = newest 50 (deviation f.recv_ts last expected ∷ b.jitter_samples) in
        let new_target = (2 * sum samples + expected * length samples) / length samples in
        record b {
          jitter_samples = samples;
          target_delay_ms = max b.min_delay_ms (min new_target b.max_delay_ms);
          last_arrival = some f.recv_ts;
        })
unfolding update_jitter
update_jitter-eq_some f b last e = ground arith

update_jitter-IsBounded :
    (f : AudioFrame) (b : JitterBuffer) → IsBounded b → IsBounded (update_jitter f b)
unfolding update_jitter
update_jitter-IsBounded f b h = elim (Option-cases b.last_arrival) [
  | inl n ↦ rw (update_jitter-eq_none f b n) h
  | inr (last, e) ↦ rw (update_jitter-eq_some f b last e) (h.0, h.1, omega arith, ground (arith, h))
]

push_total :
    (f : AudioFrame) (b : JitterBuffer)
    → IsBounded b
    → (b' : JitterBuffer) × (push f b ≡ ok b') × IsBounded b'
unfolding push
push_total f b h =
    let (d, e, room) = evict_total b h.0 h.1 in
    let b1 : JitterBuffer = record b { buffer = insert f.seq f d } in
    (
      update_jitter f b1,
      ground arith,
      update_jitter-IsBounded f b1 (h.0, ground (arith, length-insert f.seq f d), h.2, h.3),
    )

-- A `pop` finds nothing, or the frame that it looks for.
pub pop_branches :
    (b : JitterBuffer)
    → ((q : Option ℕ) × (pop b ≡ (none, record b { next_seq = q })))
      ⊎ ((n : ℕ) × (f : AudioFrame) × (expected_seq b ≡ some n)
          × (lookup n b.buffer ≡ some f)
          × (pop b ≡ (some f, record b { buffer = erase n b.buffer; next_seq = some (suc n) })))
unfolding pop
pop_branches b = elim (List-cases b.buffer) [
  | inl empty ↦ inl (b.next_seq, ground arith)
  | inr (x, r, full) ↦ elim (Option-cases (expected_seq b)) [
    | inl none_expected ↦ inl (b.next_seq, ground arith)
    | inr (n, e) ↦ elim (Option-cases (lookup n b.buffer)) [
      | inl missing ↦ inl (some n, ground arith)
      | inr (f, found) ↦ inr (n, f, e, found, ground arith)
    ]
  ]
]

pop-IsBounded : (b : JitterBuffer) → IsBounded b → IsBounded (pop b).1
pop-IsBounded b h = elim (pop_branches b) [
  | inl (q, e) ↦ rw e h
  | inr (n, f, x, found, e) ↦ rw e (h.0, ground (arith, length-erase n f b.buffer found), h.2, h.3)
]

-- One operation; `pop` and `drain` without what they return.
pub data Operation : Type 0 where
  push_op : AudioFrame → Operation
  pop_op drain_op : Operation

abbrev pub operate : Operation → JitterBuffer → Result AudioError JitterBuffer
operate (push_op f) b = push f b
operate pop_op b = ok (pop b).1
operate drain_op b = ok (drain b).1

abbrev pub operate_all : List Operation → JitterBuffer → Result AudioError JitterBuffer
operate_all [] b = ok b
operate_all (o ∷ os) b = operate o b >>= λ b'. operate_all os b'

operate_total :
    (o : Operation) (b : JitterBuffer)
    → IsBounded b
    → (b' : JitterBuffer) × (operate o b ≡ ok b') × IsBounded b'
unfolding drain
operate_total (push_op f) b h = push_total f b h
operate_total pop_op b h = ((pop b).1, refl, pop-IsBounded b h)
operate_total drain_op b h = ((drain b).1, refl, (h.0, omega arith, h.2, h.3))

-- A buffer within its bounds takes any operations in any order: none raises, and it stays within
-- its depth and its delays.
pub memory-IsBounded :
    (os : List Operation) (b : JitterBuffer)
    → IsBounded b
    → (b' : JitterBuffer) × (operate_all os b ≡ ok b') × IsBounded b'
memory-IsBounded [] b h = (b, refl, h)
memory-IsBounded (o ∷ os) b h =
    let (b1, e, h1) = operate_total o b h in
    let (b', e', h') = memory-IsBounded os b1 h1 in (b', ground arith, h')
