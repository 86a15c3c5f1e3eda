-- ===== src/Gpu/Admission.antt =====
-- Admission control (src/services/gpu_scheduler/admission.py): approve with a device, or reject.
use voice_os.Prelude.{ℕ, Key, Option, none, some}
use voice_os.Gpu.Ledger.{VramLedger, best_fit_device}

pub data AdmissionDecision : Type 0 where
  approve reject : AdmissionDecision

-- `service` and `model` are not read by the source either.
unfoldable pub decide_admission : Key → Key → ℕ → VramLedger → AdmissionDecision × Option Key
decide_admission service model required_vram_mb l = elim (best_fit_device required_vram_mb l) [
  | none ↦ (reject, none)
  | some device_id ↦ (approve, some device_id)
]
