-- ===== src/Examples/Pools.antt =====
-- The theorems about model pools and the request queue (model_pool.py, priority_queue.py) at a
-- concrete pool of two instances and a concrete queue.
use voice_os.Prelude.{
  ◌≡◌, ◌≤◌, ◌<◌, inl, inr, refl, Key, Bool-cases, true, false, List, [], ◌∷◌, ◌==◌, count, arith,
}
use voice_os.Gpu.Ledger.{AllocationToken, DeviceState, VramLedger}
use voice_os.Gpu.Requests.{RequestPriority, critical, high, low, PriorityQueue, VramRequest}
use voice_os.Gpu.Requests.Order.{IsOrdered}
use voice_os.Gpu.Pool.{PoolType, llm_pool, ModelHandle, ModelPool, acquire}
use voice_os.Gpu.Pool.Leases.{IsExclusive, Lease, Leases, Leases-exclusive}
use voice_os.Gpu.Pool.Leases as Taken

abbrev device : DeviceState
device = record {
  device_id = 1;
  total_vram_mb = 24_000;
  allocated_vram_mb = 16_000;
  healthy = true;
}

abbrev first_token : AllocationToken
first_token = record { token_id = 100; device_id = 1; model_id = 1; vram_mb = 8_000 }

abbrev ledger : VramLedger
ledger = record {
  devices = (1, device) ∷ [];
  tokens = (100, first_token) ∷ (101, record first_token { token_id = 101 }) ∷ [];
}

abbrev first_handle : ModelHandle
first_handle = record {
  handle_id = 50;
  pool_type = llm_pool;
  device_id = 1;
  allocation_token = first_token;
  is_warm = true;
  released = false;
}

abbrev pool : ModelPool
pool = record {
  pool_type = llm_pool;
  vram_per_instance_mb = 8_000;
  devices = 1 ∷ [];
  available = 50 ∷ 51 ∷ [];
  all_handles = 50 ∷ 51 ∷ [];
  handles =
      (50, first_handle)
      ∷ (
        51,
        record first_handle {
          handle_id = 51;
          allocation_token = record first_token { token_id = 101 };
        },
      )
      ∷ [];
}

pool-IsExclusive : IsExclusive pool []
pool-IsExclusive = record {
  once = λ k. ground arith;
  stored = λ k c. elim (Bool-cases (50 == k)) [
    | inl e ↦ (first_handle, ground arith)
    | inr n ↦ (
      record first_handle {
        handle_id = 51;
        allocation_token = record first_token { token_id = 101 };
      },
      ground arith,
    )
  ];
  open_leases = λ k c. absurd (omega arith);
}

-- One instance is taken.
abbrev taken : ModelPool
taken = record pool { available = 51 ∷ [] }

taken-Leases : Leases pool taken (50 ∷ [])
unfolding acquire
taken-Leases = Taken.next Taken.start (Taken.take 50 refl)

Leases-exclusive_example :
    (count 50 (50 ∷ []) ≤ 1) × (0 < count 50 (50 ∷ []) → count 50 taken.available ≡ 0)
Leases-exclusive_example =
    Leases-exclusive {p = pool} {q = taken} {out = 50 ∷ []} 50 pool-IsExclusive taken-Leases

abbrev name : PoolType → Key
name t = 1

abbrev new_handle : ModelHandle
new_handle = record {
  handle_id = 52;
  pool_type = llm_pool;
  device_id = 1;
  allocation_token = record first_token { token_id = 102 };
  is_warm = true;
  released = false;
}

abbrev grown : ModelPool
grown = record pool {
  available = 50 ∷ 51 ∷ 52 ∷ [];
  all_handles = 51 ∷ 52 ∷ [];
  handles =
      (50, first_handle)
      ∷ (
        51,
        record first_handle {
          handle_id = 51;
          allocation_token = record first_token { token_id = 101 };
        },
      )
      ∷ (52, new_handle)
      ∷ [];
}

abbrev swapped : VramLedger
swapped = record {
  devices = (1, device) ∷ [];
  tokens =
      (101, record first_token { token_id = 101 })
      ∷ (102, record first_token { token_id = 102 })
      ∷ [];
}

abbrev request : Key → RequestPriority → VramRequest
request s p = record { service = s; model = 1; vram_mb = 100; priority = p; seq = 0 }

-- A critical request waits in front of a low one.
abbrev queue : PriorityQueue
queue = record {
  heap = record (request 1 critical) { seq = 2 } ∷ record (request 2 low) { seq = 1 } ∷ [];
  counter = 2;
}

queue-IsOrdered : IsOrdered queue
queue-IsOrdered = record {
  ascending = ((inl (omega arith), tt), (tt, tt));
  numbered = (omega arith, (omega arith, tt));
}

abbrev arrivals : List VramRequest
arrivals = request 3 low ∷ request 4 high ∷ request 5 low ∷ []
