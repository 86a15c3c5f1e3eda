-- ===== src/Gpu/Ledger.antt =====
-- The VRAM ledger (src/services/gpu_scheduler/vram_ledger.py). Every method holds the ledger's
-- lock for its whole body, so a method is one step on the state. Amounts are whole megabytes,
-- never negative. `uuid4` is the argument `uuid`.
pub mod Accounting
pub mod BestFit
pub mod Tokens
use voice_os.Prelude.{
  ℕ, ◌+◌, ◌-◌, Key, Bool, true, false, ◌&&◌, Option, none, some, List, [], ◌∷◌, Result, ok, err,
  ◌>>=◌, ◌>>◌, raise_as, leb, ltb, ◌==◌, if◌then◌else◌,
}
use voice_os.Prelude.Dict.{Dict, lookup, has, insert, erase, keys, values}
use voice_os.Invariants.{Violation, assert_ri8_oom_by_construction}

pub record AllocationToken : Type 0 where
  pub token_id : Key
  pub device_id : Key
  pub model_id : Key
  pub vram_mb : ℕ

pub record DeviceState : Type 0 where
  pub device_id : Key
  pub total_vram_mb : ℕ
  pub allocated_vram_mb : ℕ
  pub healthy : Bool

-- `max(0, total - allocated)` is the subtraction that stops at 0.
unfoldable pub available_vram_mb : DeviceState → ℕ
available_vram_mb d = if d.healthy then d.total_vram_mb - d.allocated_vram_mb else 0

pub record VramLedger : Type 0 where
  pub devices : Dict DeviceState
  pub tokens : Dict AllocationToken

pub data LedgerError : Type 0 where
  key_error : LedgerError
  invariant_violation : Violation → LedgerError

unfoldable pub new_ledger : VramLedger
new_ledger = record { devices = []; tokens = [] }

unfoldable pub register_device : Key → ℕ → VramLedger → VramLedger
register_device device_id total_vram_mb l = record l {
  devices =
      insert device_id
        (record {
          device_id = device_id;
          total_vram_mb = total_vram_mb;
          allocated_vram_mb = 0;
          healthy = true;
        })
        l.devices;
}

unfoldable pub device_ids : VramLedger → List Key
device_ids l = keys l.devices

-- `if device_id in self._devices: self._devices[device_id] = f(...)`, in place.
abbrev update_device : Key → (DeviceState → DeviceState) → VramLedger → VramLedger
update_device device_id f l = elim (lookup device_id l.devices) [
  | none ↦ l
  | some d ↦ record l { devices = insert device_id (f d) l.devices }
]

unfoldable pub mark_device_failed : Key → VramLedger → VramLedger
mark_device_failed device_id = update_device device_id (λ d. record d { healthy = false })

-- The reservation of a device that was found, once RI-8 has passed.
unfoldable pub reserve :
    DeviceState → Key → Key → ℕ → Key → VramLedger → AllocationToken × VramLedger
reserve device device_id model_id vram_mb uuid l =
    let token : AllocationToken = record {
      token_id = uuid;
      device_id = device_id;
      model_id = model_id;
      vram_mb = vram_mb;
    } in
    (
      token,
      record {
        devices =
            insert device_id
              (record device { allocated_vram_mb = device.allocated_vram_mb + vram_mb }) l.devices;
        tokens = insert uuid token l.tokens;
      },
    )

-- `self._devices[device_id]`
abbrev pub get_device : Key → VramLedger → Result LedgerError DeviceState
get_device device_id l = elim (lookup device_id l.devices) [ none ↦ err key_error | some d ↦ ok d ]

unfoldable pub allocate :
    Key → Key → ℕ → Key → Key → VramLedger → Result LedgerError (AllocationToken × VramLedger)
unfolding reserve assert_ri8_oom_by_construction available_vram_mb
allocate device_id model_id vram_mb service_name uuid l = do
  device ← get_device device_id l
  raise_as invariant_violation
      (assert_ri8_oom_by_construction vram_mb (available_vram_mb device) service_name)
  ok (reserve device device_id model_id vram_mb uuid l)

unfoldable pub release : AllocationToken → VramLedger → Result LedgerError VramLedger
release token l =
    if has token.token_id l.tokens
    then (do
      device ← get_device token.device_id l
      ok (record {
        devices =
            insert token.device_id
              (record device { allocated_vram_mb = device.allocated_vram_mb - token.vram_mb })
              l.devices;
        tokens = erase token.token_id l.tokens;
      }))
    else ok l

-- The loop over `list(self._tokens.items())`: the tokens of the device, and those that stay.
pub drain_loop : Key → Dict AllocationToken → List AllocationToken × Dict AllocationToken
drain_loop device_id [] = ([], [])
drain_loop device_id (e ∷ ts) =
    let (drained, rest) = drain_loop device_id ts in
    if e.1.device_id == device_id then (e.1 ∷ drained, rest) else (drained, e ∷ rest)

unfoldable pub drain_device : Key → VramLedger → List AllocationToken × VramLedger
unfolding drain_loop
drain_device device_id l =
    let (drained, rest) = drain_loop device_id l.tokens in
    (
      drained,
      update_device device_id (λ d. record d { allocated_vram_mb = 0 })
          (record l { tokens = rest }),
    )

unfoldable pub available : Key → VramLedger → Result LedgerError ℕ
unfolding available_vram_mb
available device_id l = do device ← get_device device_id l; ok (available_vram_mb device)

unfoldable pub allocated : Key → VramLedger → Result LedgerError ℕ
allocated device_id l = do device ← get_device device_id l; ok device.allocated_vram_mb

-- `d.healthy and d.available_vram_mb >= required_vram_mb`
unfoldable pub fits : ℕ → DeviceState → Bool
unfolding available_vram_mb
fits required_vram_mb d = d.healthy && leb required_vram_mb (available_vram_mb d)

-- `max(candidates, key=available)`: the first of the largest.
pub max_available : DeviceState → List DeviceState → DeviceState
max_available best [] = best
max_available best (d ∷ ds) =
    max_available (if ltb (available_vram_mb best) (available_vram_mb d) then d else best) ds

pub first_max : List DeviceState → Option Key
unfolding max_available
first_max [] = none
first_max (d ∷ ds) = some (max_available d ds).device_id

abbrev pub candidates : ℕ → List DeviceState → List DeviceState
candidates required_vram_mb [] = []
candidates required_vram_mb (d ∷ ds) =
    let rest = candidates required_vram_mb ds in if fits required_vram_mb d then d ∷ rest else rest

unfoldable pub best_fit_device : ℕ → VramLedger → Option Key
unfolding first_max fits
best_fit_device required_vram_mb l = first_max (candidates required_vram_mb (values l.devices))
