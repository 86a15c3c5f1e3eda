-- ===== src/Gpu/Failover/Drained.antt =====
-- What a device failure leaves behind (failover.py, over the ledger of vram_ledger.py).
use voice_os.Prelude.{
  ℕ, ◌+◌, ◌≡◌, ◌≢◌, inl, inr, refl, ap, ◌∙◌, Key, true, false, none, some, List, length, arith,
  ◌==◌, if◌then◌else◌, Option-cases,
}
use voice_os.Prelude.Dict.{lookup, insert, lookup-insert}
use voice_os.Gpu.Ledger.{
  DeviceState, VramLedger, fits, best_fit_device, mark_device_failed, drain_device,
}
use voice_os.Gpu.Ledger.Accounting.Invariant.{
  IsBalanced, mark_device_failed-eq, mark_device_failed_absent, drain_device-eq,
  drain_device_absent, fail-IsBalanced, drain-IsBalanced,
}
use voice_os.Gpu.Ledger.Tokens.{drain_device-tokens, drain_device-count}
use voice_os.Gpu.Ledger.BestFit.{best_fit_device-eq_some}
use voice_os.Gpu.Failover.{FailoverReport, handle_device_failure}

unhealthy_fit : (r : ℕ) (m : DeviceState) → m.healthy ≡ false → ¬ (fits r m ≡ true)
unfolding fits
unhealthy_fit r m u f = ground arith

module _ (tenant d : Key) (surviving : List Key) (start_ms end_ms : ℕ) (l : VramLedger) where
  abbrev pub report : FailoverReport
  report = (handle_device_failure tenant d surviving start_ms end_ms l).0

  abbrev pub after : VramLedger
  after = (handle_device_failure tenant d surviving start_ms end_ms l).1

  after_devices :
      (s : DeviceState)
      → lookup d l.devices ≡ some s
      → (k : Key)
      → lookup k after.devices ≡ (
          if d == k
          then some (record s { healthy = false; allocated_vram_mb = 0 })
          else lookup k l.devices)
  unfolding handle_device_failure
  after_devices s e k =
      let failed : DeviceState = record s { healthy = false } in
      let there : lookup d (mark_device_failed d l).devices ≡ some failed =
        rw (mark_device_failed-eq l d s e) (ground (arith, lookup-insert d d failed l.devices)) in
      rw (drain_device-eq (mark_device_failed d l) d failed there) (
        rw (mark_device_failed-eq l d s e) (
          ground (
            arith,
            lookup-insert d k (record failed { allocated_vram_mb = 0 }) (insert d failed l.devices),
            lookup-insert d k failed l.devices,
          )))

  -- No device is taken off the register.
  pub after_registered : (k : Key) → lookup k l.devices ≢ none → lookup k after.devices ≢ none
  unfolding handle_device_failure drain_device
  after_registered k h = elim (Option-cases (lookup d l.devices)) [
    | inl e ↦ rw (mark_device_failed_absent l d e, drain_device_absent l d e) h
    | inr (s, e) ↦ ground (arith, after_devices s e k)
  ]

  marked_tokens : (mark_device_failed d l).tokens ≡ l.tokens
  unfolding mark_device_failed
  marked_tokens = ground arith

  after_tokens :
      IsBalanced l
      → (u : Key)
      → lookup u after.tokens ≡ elim (lookup u l.tokens) [
        | none ↦ none
        | some t ↦ if t.device_id == d then none else some t
      ]
  unfolding handle_device_failure
  after_tokens b u =
      rw (drain_device-tokens d u (mark_device_failed d l) (fail-IsBalanced l d b).tokens_keyed)
        (rw marked_tokens refl)

  -- In balanced books a failure of a registered device leaves it unhealthy with nothing allocated
  -- and every other device as it was; its tokens are gone and no other is; the tokens in the report
  -- are as many as are gone, and the event counts them.
  pub failure_drains :
      (s : DeviceState)
      → IsBalanced l
      → lookup d l.devices ≡ some s
      → ((k : Key)
          → lookup k after.devices ≡ (
              if d == k
              then some (record s { healthy = false; allocated_vram_mb = 0 })
              else lookup k l.devices))
        × ((u : Key)
            → lookup u after.tokens ≡ elim (lookup u l.tokens) [
              | none ↦ none
              | some t ↦ if t.device_id == d then none else some t
            ])
        × (length report.drained_tokens + length after.tokens ≡ length l.tokens)
        × (report.started.active_allocations_drained ≡ length report.drained_tokens)
  unfolding handle_device_failure
  failure_drains s b e = (
    after_devices s e,
    after_tokens b,
    drain_device-count d (mark_device_failed d l) ∙ ap length marked_tokens,
    refl,
  )

  pub failure-IsBalanced : IsBalanced l → IsBalanced after
  unfolding handle_device_failure
  failure-IsBalanced b = drain-IsBalanced (mark_device_failed d l) d (fail-IsBalanced l d b)

  -- Admission never picks a device that has failed, whatever the request.
  pub failed_not_picked :
      (s : DeviceState) (r : ℕ)
      → IsBalanced l
      → lookup d l.devices ≡ some s
      → best_fit_device r after ≢ some d
  failed_not_picked s r b e h =
      let (m, there, fit, _) = best_fit_device-eq_some r after d (failure-IsBalanced b) h in
      unhealthy_fit r m (ground (arith, after_devices s e d)) fit
