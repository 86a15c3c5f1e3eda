-- ===== src/Gpu/Scheduler/Grants.antt =====
-- What the allocation of a request for VRAM does in the state it finds (scheduler.py, over
-- vram_ledger.py).
use voice_os.Prelude.{
  ℕ, ◌≡◌, ◌≤◌, ◌<◌, ◌⊎◌, inl, inr, refl, Key, Option, some, ok, err, Result, leb, arith,
  Option-cases, Bool-cases, Result-cases,
}
use voice_os.Prelude.Dict.{lookup}
use voice_os.Gpu.Ledger.{
  AllocationToken, DeviceState, VramLedger, LedgerError, available_vram_mb, allocate, reserve,
}
use voice_os.Gpu.Ledger.Accounting.Grants.{lookup-reserve}
use voice_os.Gpu.Admission.{AdmissionDecision, approve}
use voice_os.Gpu.Scheduler.{GpuScheduler, refresh_metrics, grant_on}

pub refresh_registered :
    (d : Key) (s : DeviceState) (l : VramLedger)
    → lookup d l.devices ≡ some s
    → refresh_metrics d l ≡ ok (s.allocated_vram_mb, available_vram_mb s)
unfolding refresh_metrics
refresh_registered d s l e = ground arith

-- Allocation looks at the room only.
allocate-room :
    (d model : Key) (r : ℕ) (service uuid : Key) (l : VramLedger) (m : DeviceState)
    → lookup d l.devices ≡ some m
    → r ≤ available_vram_mb m
    → allocate d model r service uuid l ≡ ok (reserve m d model r uuid l)
unfolding allocate
allocate-room d model r service uuid l m e room = ground arith

allocate-no_room :
    (d model : Key) (r : ℕ) (service uuid : Key) (l : VramLedger)
    → ((m : DeviceState) → lookup d l.devices ≡ some m → available_vram_mb m < r)
    → (e : LedgerError) × (allocate d model r service uuid l ≡ err e)
unfolding allocate
allocate-no_room d model r service uuid l small =
    elim (Result-cases (allocate d model r service uuid l)) [
      | inr (e, q) ↦ (e, q)
      | inl (x, q) ↦ absurd (elim (Option-cases (lookup d l.devices)) [
        | inl n ↦ ground (arith, n, q)
        | inr (m, there) ↦ ground (arith, there, q, small m there)
      ])
    ]

grant_on-eq :
    (d service model : Key) (r : ℕ) (uuid : Key) (s : GpuScheduler) (m : DeviceState)
    → lookup d s.ledger.devices ≡ some m
    → r ≤ available_vram_mb m
    → grant_on d service model r uuid s ≡ (
      ok (approve, some (reserve m d model r uuid s.ledger).0),
      record s { ledger = (reserve m d model r uuid s.ledger).1 },
    )
unfolding grant_on
grant_on-eq d service model r uuid s m e room = ground (
  arith,
  allocate-room d model r service uuid s.ledger m e room,
  refresh_registered d _ (reserve m d model r uuid s.ledger).1
      (lookup-reserve d model r uuid s.ledger m),
)

-- What the allocation does in the state it finds: a grant, or an error that changes nothing.
abbrev pub Granted :
    Key
    → Key
    → ℕ
    → Key
    → GpuScheduler
    → (Result LedgerError (AdmissionDecision × Option AllocationToken)) × GpuScheduler
    → Type 0
Granted d model r uuid s out =
    (m : DeviceState) × (lookup d s.ledger.devices ≡ some m)
    × (r ≤ available_vram_mb m)
    × (out ≡ (
      ok (approve, some (reserve m d model r uuid s.ledger).0),
      record s { ledger = (reserve m d model r uuid s.ledger).1 },
    ))

abbrev pub Refused :
    Key
    → ℕ
    → GpuScheduler
    → (Result LedgerError (AdmissionDecision × Option AllocationToken)) × GpuScheduler
    → Type 0
Refused d r s out =
    ((m : DeviceState) → lookup d s.ledger.devices ≡ some m → available_vram_mb m < r)
    × ((e : LedgerError) × (out ≡ (err e, s)))

grant_on-Refused :
    (d service model : Key) (r : ℕ) (uuid : Key) (s : GpuScheduler)
    → ((m : DeviceState) → lookup d s.ledger.devices ≡ some m → available_vram_mb m < r)
    → Refused d r s (grant_on d service model r uuid s)
unfolding grant_on
grant_on-Refused d service model r uuid s small =
    let (e, q) = allocate-no_room d model r service uuid s.ledger small in
    (small, (e, rw (grant_on, q) refl))

pub grant_on-cases :
    (d service model : Key) (r : ℕ) (uuid : Key) (s : GpuScheduler)
    → Granted d model r uuid s (grant_on d service model r uuid s)
      ⊎ Refused d r s (grant_on d service model r uuid s)
unfolding grant_on
grant_on-cases d service model r uuid s = elim (Option-cases (lookup d s.ledger.devices)) [
  | inl n ↦
      let small : (m : DeviceState) → lookup d s.ledger.devices ≡ some m → available_vram_mb m < r =
        λ m there. cc in
      inr (grant_on-Refused d service model r uuid s small)
  | inr (m, there) ↦ elim (Bool-cases (leb r (available_vram_mb m))) [
    | inl room ↦
        let fits_in : r ≤ available_vram_mb m = ground (arith, room) in
        inl (m, there, fits_in, grant_on-eq d service model r uuid s m there fits_in)
    | inr full ↦
        let small : (m' : DeviceState)
            → lookup d s.ledger.devices ≡ some m'
            → available_vram_mb m' < r =
          λ m' there'. ground (arith, there, there', full) in
        inr (grant_on-Refused d service model r uuid s small)
  ]
]
