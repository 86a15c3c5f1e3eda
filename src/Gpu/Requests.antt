-- ===== src/Gpu/Requests.antt =====
-- The queue of VRAM requests (src/services/gpu_scheduler/priority_queue.py). The heap of `heapq`
-- is what its documentation promises: a pop returns the least item by `__lt__`. It is kept as
-- the ascending list, in which a pop takes the head. Each request is a new object.
pub mod Order
use voice_os.Prelude.{
  ℕ, ◌+◌, Key, Bool, Option, none, some, List, [], ◌∷◌, ltb, ◌==◌, if◌then◌else◌,
}

pub data RequestPriority : Type 0 where
  critical high normal low : RequestPriority

-- `int(priority)`
abbrev pub rank : RequestPriority → ℕ
rank critical = 0
rank high = 1
rank normal = 2
rank low = 3

pub record VramRequest : Type 0 where
  pub service : Key
  pub model : Key
  pub vram_mb : ℕ
  pub priority : RequestPriority
  pub seq : ℕ

-- `VRAMRequest.__lt__`
unfoldable pub request_lt : VramRequest → VramRequest → Bool
request_lt a b =
    if rank a.priority == rank b.priority
    then ltb a.seq b.seq
    else ltb (rank a.priority) (rank b.priority)

pub record PriorityQueue : Type 0 where
  pub heap : List VramRequest
  pub counter : ℕ

unfoldable pub new_queue : PriorityQueue
new_queue = record { heap = []; counter = 0 }

-- `heapq.heappush`
unfoldable pub heappush : VramRequest → List VramRequest → List VramRequest
heappush r [] = r ∷ []
heappush r (x ∷ xs) = if request_lt r x then r ∷ x ∷ xs else x ∷ heappush r xs

unfoldable pub enqueue : VramRequest → PriorityQueue → PriorityQueue
enqueue request q =
    let n = q.counter + 1 in
    record { heap = heappush (record request { seq = n }) q.heap; counter = n }

unfoldable pub dequeue : PriorityQueue → Option VramRequest × PriorityQueue
dequeue q = elim q.heap [ [] ↦ (none, q) | r ∷ rest ↦ (some r, record q { heap = rest }) ]
