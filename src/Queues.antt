-- ===== src/Queues.antt =====
-- Bounded queues, backpressure and load shedding (src/libs/concurrency: bounded_queue.py, backpressure.py
-- and load_shedder.py; the priorities are of worker_pool.py). asyncio.Queue is a list, first come first
-- served; a ratio is two numbers, and a test of ratios is one of products.
pub mod Order
pub mod Shedding
use voice_os.Prelude.{
  ℕ, suc, ◌*◌, Key, Bool, true, false, not, Option, none, some, List, [], ◌∷◌, ◌++◌, ltb, leb, ◌==◌,
  if◌then◌else◌, length, Result, ok, err, raise_if, ◌>>◌,
}

pub data QueueError : Type 0 where
  value_error queue_full queue_empty : QueueError

pub record BoundedQueue (A : Type 0) : Type 0 where
  pub max_size : ℕ
  pub name : Key
  pub items : List A

module _ {A : Type 0} where
  unfoldable pub new_queue : ℕ → Key → Result QueueError (BoundedQueue A)
  new_queue max_size name =
      raise_if (max_size == 0) value_error
      >> ok (record { max_size = max_size; name = name; items = [] })

  unfoldable pub qsize : BoundedQueue A → ℕ
  qsize q = length q.items

  unfoldable pub is_full : BoundedQueue A → Bool
  unfolding qsize
  is_full q = leb q.max_size (qsize q)

  unfoldable pub is_empty : BoundedQueue A → Bool
  unfolding qsize
  is_empty q = qsize q == 0

  unfoldable pub put_nowait : A → BoundedQueue A → Result QueueError (Unit {0}) × BoundedQueue A
  unfolding is_full
  put_nowait item q =
      if is_full q
      then (err queue_full, q)
      else (ok tt, record q { items = q.items ++ (item ∷ []) })

  unfoldable pub get_nowait : BoundedQueue A → Result QueueError A × BoundedQueue A
  get_nowait q = elim q.items [
    | [] ↦ (err queue_empty, q)
    | x ∷ xs ↦ (ok x, record q { items = xs })
  ]

-- A fraction, with a denominator that is not 0.
pub record Ratio : Type 0 where
  pub top : ℕ
  pub bottom : ℕ

abbrev pub exceeds : Ratio → Ratio → Bool
exceeds a b = ltb (b.top * a.bottom) (a.top * b.bottom)

unfoldable pub fill_ratio : {A : Type 0} → BoundedQueue A → Ratio
unfolding qsize
fill_ratio q = record { top = qsize q; bottom = q.max_size }

-- `active` of BackpressureMonitor.signal
unfoldable pub signal_active : {A : Type 0} → (high_water : Ratio) → BoundedQueue A → Bool
unfolding fill_ratio
signal_active high_water q = exceeds (fill_ratio q) high_water

pub data Priority : Type 0 where
  speculative low normal high : Priority

unfoldable pub should_shed : (threshold load : Ratio) → Priority → Bool
should_shed threshold load priority =
    if not (exceeds load threshold) then false else elim priority [
      | high ↦ false
      | speculative ↦ true
      | low ↦ true
      | normal ↦ leb load.bottom load.top
    ]

unfoldable pub admit : (threshold load : Ratio) → Priority → Bool
unfolding should_shed
admit threshold load priority = not (should_shed threshold load priority)
