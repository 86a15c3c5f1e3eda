-- ===== src/Gpu/Scheduler/Requests.antt =====
-- What a request for VRAM gets (scheduler.py, over admission.py and vram_ledger.py).
use mathlib.Core.Path.{subst}
use voice_os.Prelude.{
  ℕ, ◌≡◌, ◌≢◌, ◌≤◌, ◌⊎◌, inl, inr, ap, sym, ◌∙◌, Key, true, false, none, some, ok, arith,
  Option-cases,
}
use voice_os.Prelude.Dict.{lookup}
use voice_os.Gpu.Ledger.{
  AllocationToken, DeviceState, available_vram_mb, fits, reserve, best_fit_device,
}
use voice_os.Gpu.Ledger.Accounting.Invariant.{IsBalanced}
use voice_os.Gpu.Ledger.BestFit.{best_fit_device-eq_some, best_fit_device-eq_none}
use voice_os.Gpu.Ledger.Tokens.{release-reserve}
use voice_os.Gpu.Admission.{approve, reject}
use voice_os.Gpu.Requests.{RequestPriority}
use voice_os.Gpu.Scheduler.{GpuScheduler, request_allocation, release_allocation, grant_on}
use voice_os.Gpu.Scheduler.Grants.{Granted, Refused, refresh_registered, grant_on-cases}

request_allocation-eq :
    (service model : Key) (r : ℕ) (priority : RequestPriority) (uuid d : Key)
    (meanwhile : GpuScheduler → GpuScheduler) (s : GpuScheduler)
    → best_fit_device r s.ledger ≡ some d
    → request_allocation service model r priority uuid meanwhile s
      ≡ grant_on d service model r uuid (meanwhile s)
unfolding request_allocation
request_allocation-eq service model r priority uuid d meanwhile s e = ground arith

fits-room : (r : ℕ) (m : DeviceState) → fits r m ≡ true → r ≤ available_vram_mb m
unfolding fits
fits-room r m h = ground arith

-- A request in balanced books: if no healthy device has the room, it is rejected and nothing
-- changes. Else it picks a device with the room and with the most of it, whatever other threads
-- then do before the allocation. If the device still has the room, the request is approved, with a
-- token for that amount on it. If not, which is only when others were in between, an error is
-- raised, and nothing changes.
pub request_allocation_branches :
    (service model : Key) (r : ℕ) (priority : RequestPriority) (uuid : Key)
    (meanwhile : GpuScheduler → GpuScheduler) (s : GpuScheduler)
    → IsBalanced s.ledger
    → let out = request_allocation service model r priority uuid meanwhile s in
      (((k : Key) (x : DeviceState) → lookup k s.ledger.devices ≡ some x → fits r x ≡ false)
        × (out ≡ (ok (reject, none), s)))
      ⊎ ((d : Key) × (m : DeviceState) × (lookup d s.ledger.devices ≡ some m)
          × (fits r m ≡ true)
          × ((k : Key) (x : DeviceState)
              → lookup k s.ledger.devices ≡ some x
              → fits r x ≡ true
              → available_vram_mb x ≤ available_vram_mb m)
          × (Granted d model r uuid (meanwhile s) out
              ⊎ (Refused d r (meanwhile s) out × (meanwhile s ≢ s))))
unfolding request_allocation
request_allocation_branches service model r priority uuid meanwhile s b =
    elim (Option-cases (best_fit_device r s.ledger)) [
      | inl e ↦ inl (best_fit_device-eq_none r s.ledger e, ground arith)
      | inr (d, e) ↦
          let (m, there, fit, most) = best_fit_device-eq_some r s.ledger d b e in
          let same = sym (request_allocation-eq service model r priority uuid d meanwhile s e) in
          inr (
            d,
            m,
            there,
            fit,
            most,
            elim (grant_on-cases d service model r uuid (meanwhile s)) [
              | inl granted ↦ inl (subst (Granted d model r uuid (meanwhile s)) same granted)
              | inr refused ↦ inr (
                subst (Refused d r (meanwhile s)) same refused,
                λ alone.
                    let before : lookup d (meanwhile s).ledger.devices ≡ some m =
                      ap (λ (x : GpuScheduler). lookup d x.ledger.devices) alone ∙ there in
                    absurd (omega (arith, refused.0 m before, fits-room r m fit)),
              )
            ],
          )
    ]

-- A token that a request was given under a new id, with balanced books at its decision and
-- whatever other threads did before its allocation: handed back, it leaves the scheduler as the
-- allocation found it.
pub release_allocation-request :
    (service model : Key) (r : ℕ) (priority : RequestPriority) (uuid : Key)
    (meanwhile : GpuScheduler → GpuScheduler) (s : GpuScheduler) {t : AllocationToken}
    {s' : GpuScheduler}
    → IsBalanced s.ledger
    → lookup uuid (meanwhile s).ledger.tokens ≡ none
    → request_allocation service model r priority uuid meanwhile s ≡ (ok (approve, some t), s')
    → release_allocation t s' ≡ (ok tt, meanwhile s)
unfolding release_allocation reserve
release_allocation-request service model r priority uuid meanwhile s {t} {s'} b fresh h =
    elim (request_allocation_branches service model r priority uuid meanwhile s b) [
      | inl (_, e) ↦ absurd (ground arith)
      | inr (d, _, _, _, _, inr ((_, (x, e)), _)) ↦ absurd (ground arith)
      | inr (d, _, _, _, _, inl (m, there, _, e)) ↦
          let l = (meanwhile s).ledger in
          let named : t ≡ (reserve m d model r uuid l).0 = ground arith in
          let after : s' ≡ record (meanwhile s) { ledger = (reserve m d model r uuid l).1 } =
            ground arith in
          rw (named, after)
            (ground (
              arith,
              release-reserve m d model r uuid l fresh there,
              refresh_registered d m l there,
            ))
    ]

-- A grant is on the device that was picked, whatever happens before the allocation.
pub request_allocation-picked :
    (service model : Key) (r : ℕ) (priority : RequestPriority) (uuid : Key)
    (meanwhile : GpuScheduler → GpuScheduler) (s : GpuScheduler) {t : AllocationToken}
    {s' : GpuScheduler}
    → request_allocation service model r priority uuid meanwhile s ≡ (ok (approve, some t), s')
    → best_fit_device r s.ledger ≡ some t.device_id
unfolding request_allocation reserve
request_allocation-picked service model r priority uuid meanwhile s {t} h =
    elim (Option-cases (best_fit_device r s.ledger)) [
      | inl e ↦ absurd (ground arith)
      | inr (d, e) ↦
          let same = request_allocation-eq service model r priority uuid d meanwhile s e in
          elim (grant_on-cases d service model r uuid (meanwhile s)) [
            | inr (_, (x, q)) ↦ absurd (ground (arith, h, same, q))
            | inl (m, there, _, q) ↦ ground (arith, h, same, q)
          ]
    ]
