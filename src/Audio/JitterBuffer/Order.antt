-- ===== src/Audio/JitterBuffer/Order.antt =====
-- In what order the jitter buffer hands out its frames (`pop` and `drain` of jitter_buffer.py).
use voice_os.Prelude.{
  ℕ, suc, zero, ◌+◌, ◌≤◌, ◌<◌, ◌≡◌, ◌≢◌, refl, Key, none, some, List, [], ◌∷◌, inl, inr, ◌⊎◌,
  List-cases, if◌then◌else◌, length, arith, leb, ◌&&◌, ltb, leb→le, Bool-cases, All, All-mono,
  count, Option-cases,
}
use voice_os.Prelude.Dict.{
  Dict, lookup, erase, keys, IsKeyed, lookup-erase, erase-IsKeyed, keys-registered,
}
use voice_os.Audio.{AudioFrame}
use voice_os.Audio.JitterBuffer.{
  JitterBuffer, pop, drain, pop_ready, sorted, insert_sorted, frames_at, expected_seq,
}
use voice_os.Audio.JitterBuffer.Bounds.{length-erase}

-- Every frame stands under its own sequence number.
abbrev pub IsIndexed : Dict AudioFrame → Type 0
IsIndexed d = IsKeyed d × ((k : Key) (f : AudioFrame) → lookup k d ≡ some f → f.seq ≡ k)

-- Frames with the sequence numbers n, n + 1, and so on.
abbrev pub IsRun : ℕ → List AudioFrame → Type 0
IsRun n [] = Unit
IsRun n (f ∷ fs) = (f.seq ≡ n) × IsRun (suc n) fs

pub erase-IsIndexed : (n : Key) (d : Dict AudioFrame) → IsIndexed d → IsIndexed (erase n d)
erase-IsIndexed n d h =
    (erase-IsKeyed n d h.0, λ k f found. ground (arith, lookup-erase n k d h.0, h.1 k f))

-- What the loop leaves: what it took is gone, and the next number is missing.
abbrev pub Leaves : ℕ → ℕ → Dict AudioFrame → JitterBuffer → Type 0
Leaves n m d b =
    (b.next_seq ≡ some (n + m))
    × (lookup (n + m) d ≡ none)
    × ((k : Key) → lookup k b.buffer ≡ (if leb n k && ltb k (n + m) then none else lookup k d))
    × ((k : Key) → n ≤ k → k < n + m → lookup k d ≢ none)

-- A `pop` that looks for the number n.
pub pop_expecting :
    (n : ℕ) (b : JitterBuffer)
    → b.next_seq ≡ some n
    → ((lookup n b.buffer ≡ none) × (pop b ≡ (none, record b { next_seq = some n })))
      ⊎ ((f : AudioFrame) × (lookup n b.buffer ≡ some f)
          × (pop b ≡ (some f, record b { buffer = erase n b.buffer; next_seq = some (suc n) })))
unfolding pop expected_seq
pop_expecting n b e = elim (List-cases b.buffer) [
  | inl empty ↦ inl (ground arith, ground arith)
  | inr (x, r, full) ↦ elim (Option-cases (lookup n b.buffer)) [
    | inl missing ↦ inl (missing, ground arith)
    | inr (f, found) ↦ inr (f, found, ground arith)
  ]
]

pub pop_ready_stop :
    (fuel : ℕ) (b b' : JitterBuffer) → pop b ≡ (none, b') → pop_ready (suc fuel) b ≡ ([], b')
pop_ready_stop fuel b b' p = ground arith

pub pop_ready_more :
    (fuel : ℕ) (f : AudioFrame) (b b' : JitterBuffer)
    → pop b ≡ (some f, b')
    → pop_ready (suc fuel) b ≡ (f ∷ (pop_ready fuel b').0, (pop_ready fuel b').1)
pop_ready_more fuel f b b' p = ground arith

-- The loop takes the frames n, n + 1, and so on, up to the first number that is missing.
pub pop_ready_run :
    (fuel n : ℕ) (b : JitterBuffer)
    → length b.buffer < fuel
    → b.next_seq ≡ some n
    → IsIndexed b.buffer
    → let (out, b') = pop_ready fuel b in
      IsRun n out × IsIndexed b'.buffer × Leaves n (length out) b.buffer b'
pop_ready_run zero n b h e i = absurd (omega arith)
pop_ready_run (suc fuel) n b h e i = elim (pop_expecting n b e) [
  | inl (missing, p) ↦
      rw (pop_ready_stop fuel b (record b { next_seq = some n }) p)
        (tt, i, (ground arith, ground arith, λ k. ground arith, λ k below above. ground arith))
  | inr (f, found, p) ↦
      let b1 : JitterBuffer = record b { buffer = erase n b.buffer; next_seq = some (suc n) } in
      let (run, indexed, leaves) =
        pop_ready_run fuel (suc n) b1 (ground (arith, length-erase n f b.buffer found)) refl
          (erase-IsIndexed n b.buffer i) in
      let m = length (pop_ready fuel b1).0 in
      rw (pop_ready_more fuel f b b1 p) (
        (i.1 n f found, run),
        indexed,
        (
          ground (arith, leaves.0),
          ground (arith, leaves.1, lookup-erase n (n + suc m) b.buffer i.0),
          λ k. ground (arith, leaves.2 k, lookup-erase n k b.buffer i.0),
          λ k below above. ground (arith, leaves.3 k, lookup-erase n k b.buffer i.0),
        ),
      )
]

abbrev pub seqs : List AudioFrame → List ℕ
seqs [] = []
seqs (f ∷ fs) = f.seq ∷ seqs fs

-- Each is below the ones after it, or the same.
abbrev pub IsAscending : List ℕ → Type 0
IsAscending [] = Unit
IsAscending (x ∷ xs) = All (λ y. x ≤ y) xs × IsAscending xs

insert_sorted-All :
    (P : ℕ → Type 0) (k : ℕ) (xs : List ℕ) → P k → All P xs → All P (insert_sorted k xs)
insert_sorted-All P k [] p h = (p, tt)
insert_sorted-All P k (x ∷ xs) p h = elim (Bool-cases (leb k x)) [
  | inl e ↦ rw e (p, h)
  | inr e ↦ rw e (h.0, insert_sorted-All P k xs p h.1)
]

sorted-All : (P : ℕ → Type 0) (xs : List ℕ) → All P xs → All P (sorted xs)
sorted-All P [] h = tt
sorted-All P (x ∷ xs) h = insert_sorted-All P x (sorted xs) h.0 (sorted-All P xs h.1)

insert_sorted-IsAscending :
    (k : ℕ) (xs : List ℕ) → IsAscending xs → IsAscending (insert_sorted k xs)
insert_sorted-IsAscending k [] h = (tt, tt)
insert_sorted-IsAscending k (x ∷ xs) h = elim (Bool-cases (leb k x)) [
  | inl e ↦ rw e ((leb→le k x e, All-mono _ _ xs (λ y le. omega (arith, leb→le k x e)) h.0), h)
  | inr e ↦
      rw e
        (insert_sorted-All (λ y. x ≤ y) k xs (ground arith) h.0, insert_sorted-IsAscending k xs h.1)
]

sorted-IsAscending : (xs : List ℕ) → IsAscending (sorted xs)
sorted-IsAscending [] = tt
sorted-IsAscending (x ∷ xs) = insert_sorted-IsAscending x (sorted xs) (sorted-IsAscending xs)

count-insert_sorted : (j k : ℕ) (xs : List ℕ) → count j (insert_sorted k xs) ≡ count j (k ∷ xs)
count-insert_sorted j k [] = refl
count-insert_sorted j k (x ∷ xs) = ground (arith, count-insert_sorted j k xs)

count-sorted : (j : ℕ) (xs : List ℕ) → count j (sorted xs) ≡ count j xs
count-sorted j [] = refl
count-sorted j (x ∷ xs) = ground (arith, count-insert_sorted j x (sorted xs), count-sorted j xs)

seqs-frames_at :
    (ks : List Key) (d : Dict AudioFrame)
    → ((k : Key) (f : AudioFrame) → lookup k d ≡ some f → f.seq ≡ k)
    → All (λ k. lookup k d ≢ none) ks
    → seqs (frames_at ks d) ≡ ks
seqs-frames_at [] d i h = refl
seqs-frames_at (k ∷ ks) d i h = elim (Option-cases (lookup k d)) [
  | inl e ↦ absurd (h.0 e)
  | inr (f, e) ↦ ground (arith, i k f e, seqs-frames_at ks d i h.1)
]

-- A drain of a buffer where each frame stands under its number returns the frames by ascending
-- sequence number, each number as often as it is a key of the buffer, and leaves the buffer empty
-- and without a next number.
pub drain_sorted :
    (b : JitterBuffer)
    → IsIndexed b.buffer
    → let (out, b') = drain b in
      IsAscending (seqs out)
      × ((k : Key) → count k (seqs out) ≡ count k (keys b.buffer))
      × (b'.buffer ≡ [])
      × (b'.next_seq ≡ none)
unfolding drain
drain_sorted b i =
    let same =
      seqs-frames_at (sorted (keys b.buffer)) b.buffer i.1
        (sorted-All (λ k. lookup k b.buffer ≢ none) (keys b.buffer) (keys-registered b.buffer)) in
    (
      rw same (sorted-IsAscending (keys b.buffer)),
      λ k. rw same (count-sorted k (keys b.buffer)),
      refl,
      refl,
    )
