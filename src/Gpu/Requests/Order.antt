-- ===== src/Gpu/Requests/Order.antt =====
-- Priority order, and first in first out within a priority (priority_queue.py).
use voice_os.Prelude.{
  ℕ, ◌+◌, ◌≤◌, ◌<◌, ◌≡◌, ◌⊎◌, inl, inr, refl, sym, ◌∙◌, ap, some, List, [], ◌∷◌, ◌++◌, arith, ◌==◌,
  ==_iff, All, keep, Bool-cases,
}
use mathlib.Core.List.{append_assoc, append-nil}
use voice_os.Gpu.Requests.{VramRequest, PriorityQueue, rank, request_lt, heappush, enqueue, dequeue}

-- `a` is served before `b`: a more urgent priority, or the same one and an earlier arrival.
abbrev pub Before : VramRequest → VramRequest → Type 0
Before a b =
    (rank a.priority < rank b.priority) ⊎ ((rank a.priority ≡ rank b.priority) × (a.seq < b.seq))

abbrev pub IsAscending : List VramRequest → Type 0
IsAscending [] = Unit
IsAscending (r ∷ rs) = All (Before r) rs × IsAscending rs

pub record IsOrdered (q : PriorityQueue) : Type 0 where
  pub ascending : IsAscending q.heap
  pub numbered : All (λ r. r.seq ≤ q.counter) q.heap

All-heappush :
    (P : VramRequest → Type 0) (r : VramRequest) (h : List VramRequest)
    → P r
    → All P h
    → All P (heappush r h)
unfolding heappush
All-heappush P r [] p a = (p, tt)
All-heappush P r (x ∷ xs) p a = elim (Bool-cases (request_lt r x)) [
  | inl before ↦ rw before (p, a)
  | inr later ↦ rw later (a.0, All-heappush P r xs p a.1)
]

All-Before_trans :
    (r x : VramRequest) (h : List VramRequest) → Before r x → All (Before x) h → All (Before r) h
All-Before_trans r x [] b a = tt
All-Before_trans r x (y ∷ ys) b a = (ground arith, All-Before_trans r x ys b a.1)

-- A number above those in the heap keeps the order.
heappush-IsAscending :
    (r : VramRequest) (h : List VramRequest)
    → IsAscending h
    → All (λ x. x.seq < r.seq) h
    → IsAscending (heappush r h)
unfolding heappush request_lt
heappush-IsAscending r [] s n = (tt, tt)
heappush-IsAscending r (x ∷ xs) s n = elim (Bool-cases (request_lt r x)) [
  | inl before ↦
      rw before (let b : Before r x = ground arith in ((b, All-Before_trans r x xs b s.0), s))
  | inr later ↦
      rw later (All-heappush (Before x) r xs (ground arith) s.0, heappush-IsAscending r xs s.1 n.1)
]

enqueue-numbered :
    (n : ℕ) (h : List VramRequest)
    → All (λ x. x.seq ≤ n) h
    → All (λ x. x.seq ≤ n + 1) h × All (λ x. x.seq < n + 1) h
enqueue-numbered n [] a = (tt, tt)
enqueue-numbered n (x ∷ xs) a =
    let (b, c) = enqueue-numbered n xs a.1 in ((omega arith, b), (omega arith, c))

-- Every queue stays in serving order when a request comes in.
pub enqueue-IsOrdered :
    (r : VramRequest) (q : PriorityQueue) → IsOrdered q → IsOrdered (enqueue r q)
unfolding enqueue
enqueue-IsOrdered r q o =
    let (at_most, below) = enqueue-numbered q.counter q.heap o.numbered in
    record {
      ascending = heappush-IsAscending _ q.heap o.ascending below;
      numbered = All-heappush (λ x. x.seq ≤ q.counter + 1) _ q.heap (omega arith) at_most;
    }

dequeue_from :
    (h : List VramRequest) (n : ℕ)
    → IsOrdered (record { heap = h; counter = n })
    → IsOrdered (dequeue (record { heap = h; counter = n })).1
unfolding dequeue
dequeue_from [] n o = o
dequeue_from (r ∷ rs) n o = record { ascending = o.ascending.1; numbered = o.numbered.1 }

pub dequeue-IsOrdered : (q : PriorityQueue) → IsOrdered q → IsOrdered (dequeue q).1
dequeue-IsOrdered q o = dequeue_from q.heap q.counter o

serves :
    (h : List VramRequest) (n : ℕ) (r : VramRequest)
    → IsOrdered (record { heap = h; counter = n })
    → (dequeue (record { heap = h; counter = n })).0 ≡ some r
    → (h ≡ r ∷ (dequeue (record { heap = h; counter = n })).1.heap)
      × All (Before r) (dequeue (record { heap = h; counter = n })).1.heap
unfolding dequeue
serves [] n r o e = cc
serves (x ∷ xs) n r o e =
    let same : x ≡ r = ground arith in (ap (λ y. y ∷ xs) same, rw (← same) o.ascending.0)

-- The request that an ordered queue serves comes before all that stay, and they stay as they were.
pub dequeue_first :
    (q : PriorityQueue) (r : VramRequest)
    → IsOrdered q
    → (dequeue q).0 ≡ some r
    → (q.heap ≡ r ∷ (dequeue q).1.heap) × All (Before r) (dequeue q).1.heap
dequeue_first q r o e = serves q.heap q.counter r o e

-- The requests of one priority, in the order in which they will be served.
abbrev pub of_rank : ℕ → List VramRequest → List VramRequest
of_rank p = keep (λ r. rank r.priority == p)

of_rank_empty :
    (r : VramRequest) (h : List VramRequest)
    → All (Before r) h
    → All (λ x. x.seq < r.seq) h
    → of_rank (rank r.priority) h ≡ []
of_rank_empty r [] b n = refl
of_rank_empty r (x ∷ xs) b n = ground (arith, of_rank_empty r xs b.1 n.1)

of_rank_front :
    (p : ℕ) (r : VramRequest) (h : List VramRequest)
    → All (Before r) h
    → All (λ x. x.seq < r.seq) h
    → of_rank p (r ∷ h) ≡ of_rank p h ++ of_rank p (r ∷ [])
of_rank_front p r h b n = elim (Bool-cases (rank r.priority == p)) [
  | inl same ↦
      let named : rank r.priority ≡ p = (==_iff _ p).0 same in
      let alone : of_rank p h ≡ [] = rw named at (of_rank_empty r h b n) in rw (same, alone)
  | inr other ↦ rw (other, append-nil)
]

-- A new request goes behind those of its own priority, and moves none of the others.
of_rank-heappush :
    (p : ℕ) (r : VramRequest) (h : List VramRequest)
    → IsAscending h
    → All (λ x. x.seq < r.seq) h
    → of_rank p (heappush r h) ≡ of_rank p h ++ of_rank p (r ∷ [])
unfolding heappush request_lt
of_rank-heappush p r [] s n = refl
of_rank-heappush p r (x ∷ xs) s n = elim (Bool-cases (request_lt r x)) [
  | inl before ↦ rw before (
      let b : Before r x = ground arith in
      of_rank_front p r (x ∷ xs) (b, All-Before_trans r x xs b s.0) n)
  | inr later ↦ rw later (elim (Bool-cases (rank x.priority == p)) [
    | inl same ↦ rw same (ap (λ ys. x ∷ ys) (of_rank-heappush p r xs s.1 n.1))
    | inr other ↦ rw other (of_rank-heappush p r xs s.1 n.1)
  ])
]

of_rank-cons :
    (p : ℕ) (r : VramRequest) (h : List VramRequest)
    → of_rank p (r ∷ h) ≡ of_rank p (r ∷ []) ++ of_rank p h
of_rank-cons p r h = elim (Bool-cases (rank r.priority == p)) [
  | inl same ↦ rw same
  | inr other ↦ rw other
]

-- A run of arrivals, and the numbers that they are given.
abbrev pub enqueue_all : List VramRequest → PriorityQueue → PriorityQueue
enqueue_all [] q = q
enqueue_all (r ∷ rs) q = enqueue_all rs (enqueue r q)

abbrev pub stamp : ℕ → List VramRequest → List VramRequest
stamp n [] = []
stamp n (r ∷ rs) = record r { seq = n + 1 } ∷ stamp (n + 1) rs

-- Whatever arrives at an ordered queue, and in any order: those of one priority are served in order of arrival,
-- after those of that priority that were waiting.
pub enqueue_all_fifo :
    (p : ℕ) (rs : List VramRequest) (q : PriorityQueue)
    → IsOrdered q
    → of_rank p (enqueue_all rs q).heap ≡ of_rank p q.heap ++ of_rank p (stamp q.counter rs)
unfolding enqueue
enqueue_all_fifo p [] q o = sym (append-nil (of_rank p q.heap))
enqueue_all_fifo p (r ∷ rs) q o =
    let r' : VramRequest = record r { seq = q.counter + 1 } in
    let below = (enqueue-numbered q.counter q.heap o.numbered).1 in
    enqueue_all_fifo p rs (enqueue r q) (enqueue-IsOrdered r q o)
    ∙ rw (of_rank-heappush p r' q.heap o.ascending below, append_assoc, ← of_rank-cons p r')
