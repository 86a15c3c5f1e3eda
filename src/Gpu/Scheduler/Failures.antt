-- ===== src/Gpu/Scheduler/Failures.antt =====
-- A device failure as the scheduler handles it (scheduler.py, over failover.py).
use voice_os.Prelude.{
  ℕ, ◌≡◌, ◌≢◌, refl, ap, ◌∙◌, Key, not, none, some, List, [], ◌∷◌, ok, arith, keep, All, All-keep,
  All-mono, ◌==◌, inl, inr, Option-cases,
}
use voice_os.Prelude.Dict.{lookup, keys-registered}
use voice_os.Gpu.Ledger.{AllocationToken, DeviceState, VramLedger, device_ids}
use voice_os.Gpu.Ledger.Accounting.Invariant.{IsBalanced}
use voice_os.Gpu.Admission.{approve}
use voice_os.Gpu.Requests.{RequestPriority}
use voice_os.Gpu.Failover.Drained.{after_registered, failure-IsBalanced, failed_not_picked}
use voice_os.Gpu.Scheduler.{GpuScheduler, fail_device, request_allocation, refresh_all}
use voice_os.Gpu.Scheduler.Grants.{refresh_registered}
use voice_os.Gpu.Scheduler.Requests.{request_allocation-picked}

refresh_all-ok :
    (ds : List Key) (l : VramLedger)
    → All (λ k. lookup k l.devices ≢ none) ds
    → refresh_all ds l ≡ ok tt
unfolding refresh_all
refresh_all-ok [] l h = refl
refresh_all-ok (d ∷ ds) l h = elim (Option-cases (lookup d l.devices)) [
  | inl e ↦ absurd (h.0 e)
  | inr (s, e) ↦ ground (arith, refresh_registered d s l e, refresh_all-ok ds l h.1)
]

module _ (tenant d : Key) (start_ms end_ms : ℕ) (s : GpuScheduler) where
  abbrev pub failed : GpuScheduler
  failed = (fail_device tenant d start_ms end_ms s).1

  -- Handling a failure never raises, also for a device that is not registered.
  pub fail_device_total : (fail_device tenant d start_ms end_ms s).0 ≡ ok tt
  unfolding fail_device device_ids
  fail_device_total =
      let surviving = keep (λ k. not (k == d)) (device_ids s.ledger) in
      refresh_all-ok surviving _ (
        All-keep _ _ (device_ids s.ledger) (
          All-mono _ _ (device_ids s.ledger)
            (λ k h. after_registered tenant d surviving start_ms end_ms s.ledger k h)
            (keys-registered s.ledger.devices)))

  -- After the failure of a registered device in balanced books the books still balance, and a
  -- request that then decides is not granted on that device, whatever other threads do before it
  -- allocates.
  pub failed_gets_no_grant :
      (m : DeviceState) (service model : Key) (r : ℕ) (priority : RequestPriority) (uuid : Key)
      (meanwhile : GpuScheduler → GpuScheduler) (t : AllocationToken) {s' : GpuScheduler}
      → IsBalanced s.ledger
      → lookup d s.ledger.devices ≡ some m
      → request_allocation service model r priority uuid meanwhile failed
        ≡ (ok (approve, some t), s')
      → IsBalanced failed.ledger × (t.device_id ≢ d)
  unfolding fail_device
  failed_gets_no_grant m service model r priority uuid meanwhile t b there h =
      let surviving = keep (λ k. not (k == d)) (device_ids s.ledger) in
      let balanced = failure-IsBalanced tenant d surviving start_ms end_ms s.ledger b in
      let picked = request_allocation-picked service model r priority uuid meanwhile failed h in
      (
        balanced,
        λ same.
            failed_not_picked tenant d surviving start_ms end_ms s.ledger m r b there
              (picked ∙ ap some same),
      )
