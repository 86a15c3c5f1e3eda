-- ===== src/Audio/Session/Stream.antt =====
-- What `push_frame` (session.py) hands on while frames come in order, and over a gap.
use voice_os.Prelude.{
  ℕ, suc, ◌+◌, ◌≤◌, ◌<◌, ◌≡◌, ◌≢◌, refl, Key, Bool, false, none, some, List, [], ◌∷◌, inl, inr, ok,
  ltb, leb, ◌==◌, ◌&&◌, ◌||◌, if◌then◌else◌, length, arith, Bool-cases, ◌∙◌, not,
}
use voice_os.Prelude.Dict.{Dict, lookup, has, insert, lookup-insert}
use voice_os.Audio.{AudioFrame}
use voice_os.Audio.JitterBuffer.{JitterBuffer, evict, push, pop_ready, update_jitter}
use voice_os.Audio.JitterBuffer.Order.{IsIndexed, IsRun, pop_ready_run}
use voice_os.Audio.Session.{push_all}
use voice_os.Audio.Session.Gap.{insert-IsIndexed}

-- A push into a buffer that has room adds the frame and nothing else.
pub push_room :
    (f : AudioFrame) (b : JitterBuffer)
    → length b.buffer < b.max_depth
    → (b' : JitterBuffer) × (push f b ≡ ok b')
      × (b'.buffer ≡ insert f.seq f b.buffer)
      × (b'.next_seq ≡ b.next_seq)
      × (b'.max_depth ≡ b.max_depth)
unfolding push evict update_jitter
push_room f b h = (
  update_jitter f (record b { buffer = insert f.seq f b.buffer }),
  ground arith,
  ground arith,
  ground arith,
  ground arith,
)

-- A buffer that holds the frames of `present`, and looks for the number n.
abbrev pub Holds : ℕ → ℕ → (Key → Bool) → JitterBuffer → Type 0
Holds n room present b =
    (b.next_seq ≡ some n)
    × (length b.buffer + room ≤ b.max_depth)
    × IsIndexed b.buffer
    × ((k : Key) → has k b.buffer ≡ present k)

length-insert :
    (k : Key) (f : AudioFrame) (d : Dict AudioFrame) → length (insert k f d) ≤ suc (length d)
length-insert k f [] = omega arith
length-insert k f (e ∷ d) = ground (arith, length-insert k f d)

pub push-Holds :
    (n room : ℕ) (present : Key → Bool) (f : AudioFrame) (b : JitterBuffer)
    → Holds n (suc room) present b
    → (b' : JitterBuffer) × (push f b ≡ ok b') × Holds n room (λ k. (f.seq == k) || present k) b'
push-Holds n room present f b (next, fits, i, holds) =
    let (b', e, buffer, same, depth) = push_room f b (omega arith) in
    (
      b',
      e,
      (
        ground arith,
        ground (arith, length-insert f.seq f b.buffer),
        rw buffer (insert-IsIndexed f b.buffer i),
        λ k. ground (arith, lookup-insert f.seq k f b.buffer, holds k),
      ),
    )

pub Holds_ext :
    (n room : ℕ) (p q : Key → Bool) (b : JitterBuffer)
    → ((k : Key) → p k ≡ q k)
    → Holds n room p b
    → Holds n room q b
Holds_ext n room p q b same (next, fits, i, holds) = (next, fits, i, λ k. holds k ∙ same k)

-- The numbers m, m + 1, up to m + c, and the others.
abbrev pub between : ℕ → ℕ → (Key → Bool) → Key → Bool
between m c present k = (leb m k && ltb k (m + c)) || present k

pub push_all-Holds :
    (n room m : ℕ) (present : Key → Bool) (fs : List AudioFrame) (b : JitterBuffer)
    → IsRun m fs
    → Holds n (length fs + room) present b
    → (b' : JitterBuffer) × (push_all fs b ≡ ok b')
      × Holds n room (between m (length fs) present) b'
push_all-Holds n room m present [] b r h = (
  b,
  refl,
  Holds_ext n room present (between m 0 present) b (λ k. ground arith)
      (h.0, omega (arith, h.1), h.2, h.3),
)
push_all-Holds n room m present (f ∷ fs) b r h =
    let more : Holds n (suc (length fs + room)) present b = (h.0, omega (arith, h.1), h.2, h.3) in
    let (b1, e1, h1) = push-Holds n (length fs + room) present f b more in
    let first = λ (k : Key). (f.seq == k) || present k in
    let (b', e', h') = push_all-Holds n room (suc m) first fs b1 r.1 h1 in
    (
      b',
      ground arith,
      Holds_ext n room (between (suc m) (length fs) first) (between m (suc (length fs)) present) b'
          (λ k. ground (arith, r.0)) h',
    )

-- How far the loop gets: to the first number that is missing.
first_missing :
    (n c g m : ℕ) (d : Dict AudioFrame)
    → ((k : Key) → has k d ≡ ((n + g == k) || between n c (λ _. false) k))
    → lookup (n + m) d ≡ none
    → ((k : Key) → n ≤ k → k < n + m → lookup k d ≢ none)
    → c ≤ g
    → m ≡ (if c == g then suc c else c)
first_missing n c g m d holds missing present h = elim (Bool-cases (c == g)) [
  | inl same ↦ ground (arith, holds (n + m), holds (n + suc c), present (n + suc c))
  | inr less ↦ ground (arith, holds (n + m), holds (n + c), present (n + c))
]

-- What is left once c or c + 1 numbers from n on are taken.
left_over :
    (n c g m : ℕ) (d d' : Dict AudioFrame)
    → ((k : Key) → has k d ≡ ((n + g == k) || between n c (λ _. false) k))
    → ((k : Key) → lookup k d' ≡ (if leb n k && ltb k (n + m) then none else lookup k d))
    → m ≡ (if c == g then suc c else c)
    → c ≤ g
    → (k : Key) → has k d' ≡ (not (c == g) && (n + g == k))
left_over n c g m d d' holds taken size h k = elim (Bool-cases (c == g)) [
  | inl same ↦ ground (arith, holds k, taken k)
  | inr less ↦ ground (arith, holds k, taken k)
]

-- What comes out of a buffer that holds c frames from n on, and the one of number n + g.
pub taken :
    (n c g : ℕ) (b : JitterBuffer)
    → Holds n 0 (λ k. (n + g == k) || between n c (λ _. false) k) b
    → c ≤ g
    → let (out, b') = pop_ready (suc (length b.buffer)) b in
      IsRun n out
      × IsIndexed b'.buffer
      × (length out ≡ (if c == g then suc c else c))
      × (b'.next_seq ≡ some (n + length out))
      × ((k : Key) → has k b'.buffer ≡ (not (c == g) && (n + g == k)))
taken n c g b (next, fits, i, holds) h =
    let (run, indexed, leaves) = pop_ready_run (suc (length b.buffer)) n b (omega arith) next i in
    let m = length (pop_ready (suc (length b.buffer)) b).0 in
    let size : m ≡ (if c == g then suc c else c) =
      first_missing n c g m b.buffer holds leaves.1 leaves.3 h in
    (
      run,
      indexed,
      size,
      leaves.0,
      left_over n c g m b.buffer (pop_ready (suc (length b.buffer)) b).1.buffer holds leaves.2 size
          h,
    )
