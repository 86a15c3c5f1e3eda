-- ===== src/Gpu/Scheduler.antt =====
-- The scheduler (src/services/gpu_scheduler/scheduler.py) over its ledger, pools and queue. Its
-- gauges are written from two reads of the ledger, which may raise; the counter of admissions
-- and the gauges themselves are left out. A method returns its result and the state it leaves.
pub mod Grants
pub mod Requests
pub mod Failures
use voice_os.Prelude.{
  ℕ, Key, Bool, not, Option, none, some, List, [], ◌∷◌, keep, Result, ok, err, ◌>>=◌, ◌>>◌, ◌==◌,
  if◌then◌else◌,
}
use voice_os.Prelude.Dict.{Dict, lookup, insert}
use voice_os.Gpu.Ledger.{
  AllocationToken, VramLedger, LedgerError, allocate, release, allocated, available, device_ids,
}
use voice_os.Gpu.Admission.{AdmissionDecision, approve, reject, decide_admission}
use voice_os.Gpu.Failover.{FailoverReport, handle_device_failure}
use voice_os.Gpu.Requests as Queue
use voice_os.Gpu.Requests.{VramRequest, PriorityQueue, RequestPriority}
use voice_os.Gpu.Pool.{
  PoolType, pool_value, ModelPool, ModelHandle, PoolError, acquire, release_handle,
}

pub record GpuScheduler : Type 0 where
  pub ledger : VramLedger
  pub pools : Dict ModelPool
  pub priority_queue : PriorityQueue

pub data SchedulerError : Type 0 where
  no_pool : SchedulerError
  pool_error : PoolError → SchedulerError

-- What `_refresh_metrics` reads: (used_mb, available_mb).
unfoldable pub refresh_metrics : Key → VramLedger → Result LedgerError (ℕ × ℕ)
unfolding allocated available
refresh_metrics device_id l = do
  used ← allocated device_id l
  free ← available device_id l
  ok (used, free)

-- A grant on the device that admission picked; `priority` is not read by the source.
pub grant_on :
    Key
    → Key
    → Key
    → ℕ
    → Key
    → GpuScheduler
    → (Result LedgerError (AdmissionDecision × Option AllocationToken)) × GpuScheduler
grant_on device_id service model required_vram_mb uuid s =
    elim (allocate device_id model required_vram_mb service uuid s.ledger) [
      | err e ↦ (err e, s)
      | ok (token, l) ↦ (
        (do gauges ← refresh_metrics device_id l; ok (approve, some token)),
        record s { ledger = l },
      )
    ]

-- The decision and the allocation each take the lock of the ledger: `meanwhile` is what other
-- threads do between the two.
unfoldable pub request_allocation :
    Key
    → Key
    → ℕ
    → RequestPriority
    → Key
    → (meanwhile : GpuScheduler → GpuScheduler) → GpuScheduler
    → (Result LedgerError (AdmissionDecision × Option AllocationToken)) × GpuScheduler
unfolding grant_on decide_admission
request_allocation service model required_vram_mb priority uuid meanwhile s =
    elim (decide_admission service model required_vram_mb s.ledger).1 [
      | none ↦ (ok (reject, none), s)
      | some device_id ↦ grant_on device_id service model required_vram_mb uuid (meanwhile s)
    ]

unfoldable pub release_allocation :
    AllocationToken → GpuScheduler → (Result LedgerError (Unit {0})) × GpuScheduler
release_allocation token s = elim (release token s.ledger) [
  | err e ↦ (err e, s)
  | ok l ↦ ((do gauges ← refresh_metrics token.device_id l; ok tt), record s { ledger = l })
]

unfoldable pub register_pool : PoolType → ModelPool → GpuScheduler → GpuScheduler
register_pool pool_type pool s = record s { pools = insert (pool_value pool_type) pool s.pools }

unfoldable pub acquire_model : PoolType → GpuScheduler → Result SchedulerError (Key × GpuScheduler)
acquire_model pool_type s = elim (lookup (pool_value pool_type) s.pools) [
  | none ↦ err no_pool
  | some pool ↦ elim (acquire pool) [
    | err e ↦ err (pool_error e)
    | ok (h, pool') ↦ ok (h, register_pool pool_type pool' s)
  ]
]

unfoldable pub release_model : ModelHandle → GpuScheduler → GpuScheduler
release_model handle s = elim (lookup (pool_value handle.pool_type) s.pools) [
  | none ↦ s
  | some pool ↦ register_pool handle.pool_type (release_handle handle.handle_id pool) s
]

unfoldable pub enqueue_request : VramRequest → GpuScheduler → GpuScheduler
enqueue_request request s = record s { priority_queue = Queue.enqueue request s.priority_queue }

unfoldable pub dequeue_request : GpuScheduler → Option VramRequest × GpuScheduler
dequeue_request s =
    let (r, q) = Queue.dequeue s.priority_queue in (r, record s { priority_queue = q })

-- `for device_id in surviving: self._refresh_metrics(device_id)`
refresh_all : List Key → VramLedger → Result LedgerError (Unit {0})
refresh_all [] l = ok tt
refresh_all (d ∷ ds) l = let rest = refresh_all ds l in do gauges ← refresh_metrics d l; rest

-- The failover manager of the scheduler has the tenant "system", here the parameter.
unfoldable pub fail_device :
    Key → Key → ℕ → ℕ → GpuScheduler → (Result LedgerError (Unit {0})) × GpuScheduler
unfolding refresh_all refresh_metrics
fail_device tenant failed_device_id start_ms end_ms s =
    let surviving = keep (λ d. not (d == failed_device_id)) (device_ids s.ledger) in
    let (_, l) = handle_device_failure tenant failed_device_id surviving start_ms end_ms s.ledger in
    (refresh_all surviving l, record s { ledger = l })
