-- ===== src/Examples/Waiting.antt =====
-- The theorem about bounded queues (bounded_queue.py): two puts, a get, and two more puts.
use voice_os.Prelude.{ℕ, ◌≤◌, ◌≡◌, List, [], ◌∷◌, ◌++◌, length, arith}
use voice_os.Queues.{BoundedQueue}
use voice_os.Queues.Order.{QueueCall, putting, getting, run, run-IsFifo}

abbrev short_queue : BoundedQueue ℕ
short_queue = record { max_size = 2; name = 1; items = [] }

abbrev calls : List (QueueCall ℕ)
calls = putting 10 ∷ putting 11 ∷ getting ∷ putting 12 ∷ putting 13 ∷ []

run-IsFifo_example :
    let (ins, outs, end) = run calls short_queue in
    (short_queue.items ++ ins ≡ outs ++ end.items)
    × (length end.items ≤ end.max_size)
    × (end.max_size ≡ short_queue.max_size)
run-IsFifo_example = run-IsFifo calls short_queue (omega arith)
