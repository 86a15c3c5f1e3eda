-- ===== src/Examples/Gpu.antt =====
-- Each theorem about the GPU scheduler (src/services/gpu_scheduler) at a concrete ledger: two
-- devices, and one token of 8,000 MB on the first.
use voice_os.Prelude.{◌≡◌, ◌≢◌, ◌≤◌, ◌⊎◌, refl, Key, true, false, none, some, [], ◌∷◌, ok}
use voice_os.Prelude.Dict.{lookup}
use voice_os.Gpu.Ledger.{
  AllocationToken, DeviceState, VramLedger, new_ledger, register_device, allocate, reserve, release,
  available_vram_mb, fits, best_fit_device,
}
use voice_os.Gpu.Ledger.Accounting.Invariant.{IsBalanced}
use voice_os.Gpu.Ledger.Accounting.Steps.{Reach, start, next, register, grant, Reach-IsBalanced}
use voice_os.Gpu.Admission.{reject}
use voice_os.Gpu.Requests.{normal}
use voice_os.Gpu.Failover.{handle_device_failure}
use voice_os.Gpu.Scheduler.{GpuScheduler, request_allocation, release_allocation, fail_device}
use voice_os.Gpu.Scheduler.Grants.{Granted, Refused}
use voice_os.Gpu.Scheduler.Requests.{request_allocation_branches, release_allocation-request}
use voice_os.Gpu.Scheduler.Failures.{failed, failed_gets_no_grant}

abbrev pub gpu_one : DeviceState
gpu_one = record {
  device_id = 1;
  total_vram_mb = 24_000;
  allocated_vram_mb = 8_000;
  healthy = true;
}

abbrev gpu_two : DeviceState
gpu_two = record { device_id = 2; total_vram_mb = 16_000; allocated_vram_mb = 0; healthy = true }

abbrev token : AllocationToken
token = record { token_id = 100; device_id = 1; model_id = 7; vram_mb = 8_000 }

abbrev busy_ledger : VramLedger
busy_ledger = record { devices = (1, gpu_one) ∷ (2, gpu_two) ∷ []; tokens = (100, token) ∷ [] }

busy_ledger-Reach : Reach busy_ledger
unfolding new_ledger register_device allocate reserve
busy_ledger-Reach =
    next (next (next start (register 1 24_000 refl)) (register 2 16_000 refl))
      (grant 1 7 8_000 9 100 refl refl)

busy_ledger-IsBalanced : IsBalanced busy_ledger
busy_ledger-IsBalanced = Reach-IsBalanced busy_ledger-Reach

Reach-IsBalanced_example : IsBalanced busy_ledger
Reach-IsBalanced_example = Reach-IsBalanced busy_ledger-Reach

abbrev scheduler : GpuScheduler
scheduler = record {
  ledger = busy_ledger;
  pools = [];
  priority_queue = record { heap = []; counter = 0 };
}

-- The token of a second request, and the scheduler with it.
abbrev second : AllocationToken
second = record { token_id = 101; device_id = 1; model_id = 8; vram_mb = 6_000 }

abbrev served : GpuScheduler
served = record scheduler {
  ledger = record {
    devices = (1, record gpu_one { allocated_vram_mb = 14_000 }) ∷ (2, gpu_two) ∷ [];
    tokens = (100, token) ∷ (101, second) ∷ [];
  };
}

-- Another thread is served in between: it takes 10,000 MB of the first device, whose 16,000 MB the request was to have.
abbrev other_first : GpuScheduler → GpuScheduler
other_first s = (request_allocation 9 8 10_000 normal 102 (λ x. x) s).1

request_allocation_branches_example :
    let out = request_allocation 9 8 16_000 normal 101 other_first scheduler in
    (((k : Key) (x : DeviceState)
        → lookup k scheduler.ledger.devices ≡ some x
        → fits 16_000 x ≡ false)
      × (out ≡ (ok (reject, none), scheduler)))
    ⊎ ((d : Key) × (m : DeviceState) × (lookup d scheduler.ledger.devices ≡ some m)
        × (fits 16_000 m ≡ true)
        × ((k : Key) (x : DeviceState)
            → lookup k scheduler.ledger.devices ≡ some x
            → fits 16_000 x ≡ true
            → available_vram_mb x ≤ available_vram_mb m)
        × (Granted d 8 16_000 101 (other_first scheduler) out
            ⊎ (Refused d 16_000 (other_first scheduler) out × (other_first scheduler ≢ scheduler))))
request_allocation_branches_example =
    request_allocation_branches 9 8 16_000 normal 101 other_first scheduler busy_ledger-IsBalanced

release_allocation-request_example : release_allocation second served ≡ (ok tt, scheduler)
unfolding request_allocation reserve best_fit_device allocate voice_os.Gpu.Scheduler.refresh_metrics
release_allocation-request_example =
    release_allocation-request 9 8 6_000 normal 101 (λ x. x) scheduler busy_ledger-IsBalanced refl
      refl

-- What the second device grants once the first has failed.
abbrev moved : AllocationToken
moved = record { token_id = 101; device_id = 2; model_id = 8; vram_mb = 6_000 }

abbrev moved_to : GpuScheduler
moved_to = record scheduler {
  ledger = record {
    devices =
        (1, record gpu_one { healthy = false; allocated_vram_mb = 0 })
        ∷ (2, record gpu_two { allocated_vram_mb = 6_000 })
        ∷ [];
    tokens = (101, moved) ∷ [];
  };
}

failed_gets_no_grant_example :
    IsBalanced (failed 0 1 10 30 scheduler).ledger × (moved.device_id ≢ 1)
unfolding request_allocation fail_device reserve best_fit_device allocate handle_device_failure
    voice_os.Gpu.Scheduler.refresh_metrics voice_os.Gpu.Ledger.drain_device
    voice_os.Gpu.Ledger.mark_device_failed
failed_gets_no_grant_example =
    failed_gets_no_grant 0 1 10 30 scheduler gpu_one 9 8 6_000 normal 101 (λ x. x) moved
      {s' = moved_to} busy_ledger-IsBalanced refl refl
