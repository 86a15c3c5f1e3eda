-- ===== src/Gpu/Failover.antt =====
-- Device failure (src/services/gpu_scheduler/failover.py): mark, drain, and report. The two
-- readings of the monotonic clock, in milliseconds, are arguments.
pub mod Drained
use voice_os.Prelude.{ℕ, ◌-◌, Key, List, length}
use voice_os.Gpu.Ledger.{AllocationToken, VramLedger, mark_device_failed, drain_device}

pub record FailoverStarted : Type 0 where
  pub tenant_id : Key
  pub failed_device_id : Key
  pub surviving_device_ids : List Key
  pub active_allocations_drained : ℕ

pub record FailoverCompleted : Type 0 where
  pub tenant_id : Key
  pub failed_device_id : Key
  pub surviving_device_ids : List Key
  pub duration_ms : ℕ

pub record FailoverReport : Type 0 where
  pub started : FailoverStarted
  pub drained_tokens : List AllocationToken
  pub completed : FailoverCompleted

unfoldable pub handle_device_failure :
    Key → Key → List Key → ℕ → ℕ → VramLedger → FailoverReport × VramLedger
handle_device_failure tenant_id failed_device_id surviving_gpus start_ms end_ms l =
    let (drained, l') = drain_device failed_device_id (mark_device_failed failed_device_id l) in
    (
      record {
        started = record {
          tenant_id = tenant_id;
          failed_device_id = failed_device_id;
          surviving_device_ids = surviving_gpus;
          active_allocations_drained = length drained;
        };
        drained_tokens = drained;
        completed = record {
          tenant_id = tenant_id;
          failed_device_id = failed_device_id;
          surviving_device_ids = surviving_gpus;
          duration_ms = end_ms - start_ms;
        };
      },
      l',
    )
