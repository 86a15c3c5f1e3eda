-- ===== src/Audio/Session/Gap.antt =====
-- What the pushes of `push_frame` do to the jitter buffer (jitter_buffer.py), and the numbers of
-- the concealed frames (plc.py).
use voice_os.Prelude.{
  ℕ, suc, zero, ◌+◌, ◌≤◌, ◌<◌, ◌≡◌, ◌≢◌, ◌⊎◌, refl, Key, List, [], ◌∷◌, inl, inr, ok, err, leb,
  length, arith, All, Bool-cases, Option-cases, Result-cases,
}
use voice_os.Prelude.Dict.{Dict, insert, erase, lookup-insert, insert-IsKeyed}
use voice_os.Audio.{AudioFrame, AudioError}
use voice_os.Audio.JitterBuffer.{JitterBuffer, evict, push, lowest, update_jitter}
use voice_os.Audio.JitterBuffer.Order.{IsIndexed, erase-IsIndexed, IsRun}
use voice_os.Audio.Concealer.{concealed_from, concealed}

pub evict_branches :
    (b : JitterBuffer) (d : Dict AudioFrame)
    → evict b ≡ ok d
    → (d ≡ b.buffer) ⊎ ((k : Key) × (d ≡ erase k b.buffer))
unfolding evict
evict_branches b d e = elim (Bool-cases (leb b.max_depth (length b.buffer))) [
  | inr below ↦ inl (ground arith)
  | inl full ↦ elim (Option-cases (lowest b.buffer)) [
    | inl n ↦ ground arith
    | inr (k, q) ↦ inr (k, ground arith)
  ]
]

pub evict-IsIndexed :
    (b : JitterBuffer) (d : Dict AudioFrame) → evict b ≡ ok d → IsIndexed b.buffer → IsIndexed d
evict-IsIndexed b d e i = elim (evict_branches b d e) [
  | inl same ↦ rw same i
  | inr (k, same) ↦ rw same (erase-IsIndexed k b.buffer i)
]

pub insert-IsIndexed :
    (f : AudioFrame) (d : Dict AudioFrame) → IsIndexed d → IsIndexed (insert f.seq f d)
insert-IsIndexed f d i =
    (insert-IsKeyed f.seq f d i.0, λ k g found. ground (arith, lookup-insert f.seq k f d, i.1 k g))

-- What a push keeps and changes.
pub push-eq_ok :
    (f : AudioFrame) (b b' : JitterBuffer)
    → push f b ≡ ok b'
    → (d : Dict AudioFrame) × (evict b ≡ ok d)
      × (b'.buffer ≡ insert f.seq f d)
      × (b'.next_seq ≡ b.next_seq)
      × (b'.max_depth ≡ b.max_depth)
unfolding push update_jitter
push-eq_ok f b b' e = elim (Result-cases (evict b)) [
  | inr (x, q) ↦ ground arith
  | inl (d, q) ↦ (d, q, ground arith, ground arith, ground arith)
]

pub concealed-seq :
    (start rtp back : ℕ) (ref : AudioFrame) (i : ℕ) (f : AudioFrame)
    → concealed start rtp back ref i ≡ ok f
    → f.seq ≡ start + i
unfolding concealed
concealed-seq start rtp back ref i f e = ground arith

-- The concealed frames stand in for consecutive numbers.
pub concealed_from-IsRun :
    (n start rtp back : ℕ) (ref : AudioFrame) (i : ℕ) (fs : List AudioFrame)
    → concealed_from n start rtp back ref i ≡ ok fs
    → IsRun (start + i) fs × (length fs ≡ n)
unfolding concealed_from
concealed_from-IsRun zero start rtp back ref i fs e =
    let empty : fs ≡ [] = ground arith in rw empty (tt, refl)
concealed_from-IsRun (suc n) start rtp back ref i fs e =
    elim (Result-cases (concealed start rtp back ref i)) [
      | inr (x, q) ↦ ground arith
      | inl (f, q) ↦ elim (Result-cases (concealed_from n start rtp back ref (suc i))) [
        | inr (x, r) ↦ ground arith
        | inl (gs, r) ↦
            let both : fs ≡ f ∷ gs = ground arith in
            let (run, len) = concealed_from-IsRun n start rtp back ref (suc i) gs r in
            let next : suc (start + i) ≡ start + suc i = omega arith in
            rw both ((concealed-seq start rtp back ref i f q, rw next run), ground (arith, len))
      ]
    ]

pub IsRun-All : (n m : ℕ) (fs : List AudioFrame) → m < n → IsRun n fs → All (λ f. m < f.seq) fs
IsRun-All n m [] h r = tt
IsRun-All n m (f ∷ fs) h r = (ground (arith, r.0), IsRun-All (suc n) m fs (omega (arith, h)) r.1)

not_refused :
    (start rtp back : ℕ) (ref : AudioFrame) (i : ℕ) (a : AudioError)
    → back ≤ rtp
    → concealed start rtp back ref i ≢ err a
unfolding concealed
not_refused start rtp back ref i a h q = ground arith

concealed_total :
    (start rtp back : ℕ) (ref : AudioFrame) (i : ℕ)
    → back ≤ rtp
    → (f : AudioFrame) × (concealed start rtp back ref i ≡ ok f)
concealed_total start rtp back ref i h = elim (Result-cases (concealed start rtp back ref i)) [
  | inl x ↦ x
  | inr (a, q) ↦ absurd (not_refused start rtp back ref i a h q)
]

pub concealed_from_total :
    (n start rtp back : ℕ) (ref : AudioFrame) (i : ℕ)
    → back ≤ rtp
    → (fs : List AudioFrame) × (concealed_from n start rtp back ref i ≡ ok fs)
unfolding concealed_from
concealed_from_total zero start rtp back ref i h = ([], refl)
concealed_from_total (suc n) start rtp back ref i h =
    let (f, e) = concealed_total start rtp back ref i h in
    let (fs, r) = concealed_from_total n start rtp back ref (suc i) h in (f ∷ fs, ground arith)
