-- ===== src/Gpu/Ledger/Accounting/Invariant.antt =====
-- The invariant of the books, and the methods that move no token in (vram_ledger.py).
use voice_os.Prelude.{ℕ, ◌≤◌, ◌≡◌, ◌≢◌, inl, inr, refl, Key, false, none, some, Option-cases, arith}
use voice_os.Prelude.Dict.{Dict, lookup, insert, IsKeyed, lookup-insert, insert-IsKeyed}
use voice_os.Gpu.Ledger.{
  AllocationToken, DeviceState, VramLedger, new_ledger, register_device, mark_device_failed,
  drain_device, drain_loop,
}
use voice_os.Gpu.Ledger.Accounting.Held.{
  held, IsHomed, held-drain_loop, IsHomed-insert_device, IsHomed-drain_loop, drain_loop-IsKeyed,
}

-- One device's books.
abbrev pub IsSettled : Dict AllocationToken → Key → DeviceState → Type 0
IsSettled ts d s =
    (s.allocated_vram_mb ≡ held d ts) × (s.allocated_vram_mb ≤ s.total_vram_mb) × (s.device_id ≡ d)

pub record IsBalanced (l : VramLedger) : Type 0 where
  pub devices_keyed : IsKeyed l.devices
  pub tokens_keyed : IsKeyed l.tokens
  pub homed : IsHomed l.devices l.tokens
  pub settled : (d : Key) (s : DeviceState) → lookup d l.devices ≡ some s → IsSettled l.tokens d s

-- A write of one device's state, with the token table that goes with it.
pub IsSettled-insert :
    (k : Key) (v : DeviceState) (ds : Dict DeviceState) (ts us : Dict AllocationToken)
    → IsSettled us k v
    → ((d : Key) (s : DeviceState) → lookup d ds ≡ some s → IsSettled ts d s)
    → ((d : Key) → k ≢ d → held d us ≡ held d ts)
    → (d : Key) (s : DeviceState) → lookup d (insert k v ds) ≡ some s
    → IsSettled us d s
IsSettled-insert k v ds ts us new old same d s e =
    ground (arith, lookup-insert k d v ds, old d s, same d)

pub new_ledger-IsBalanced : IsBalanced new_ledger
unfolding new_ledger
new_ledger-IsBalanced = record {
  devices_keyed = tt;
  tokens_keyed = tt;
  homed = tt;
  settled = λ d s e. cc;
}

pub register-IsBalanced :
    (l : VramLedger) (d : Key) (total : ℕ)
    → IsBalanced l
    → held d l.tokens ≡ 0
    → IsBalanced (register_device d total l)
unfolding register_device
register-IsBalanced l d total b n = record {
  devices_keyed = insert-IsKeyed d _ l.devices b.devices_keyed;
  tokens_keyed = b.tokens_keyed;
  homed = IsHomed-insert_device d _ l.devices l.tokens b.homed;
  settled =
      IsSettled-insert d _ l.devices l.tokens l.tokens (ground (arith, n)) b.settled (λ k ne. refl);
}

-- A device whose state is rewritten within its books, the tokens as they are.
pub set_device-IsBalanced :
    (l : VramLedger) (k : Key) (v : DeviceState)
    → IsBalanced l
    → IsSettled l.tokens k v
    → IsBalanced (record l { devices = insert k v l.devices })
set_device-IsBalanced l k v b new = record {
  devices_keyed = insert-IsKeyed k v l.devices b.devices_keyed;
  tokens_keyed = b.tokens_keyed;
  homed = IsHomed-insert_device k v l.devices l.tokens b.homed;
  settled = IsSettled-insert k v l.devices l.tokens l.tokens new b.settled (λ d ne. refl);
}

pub mark_device_failed-eq :
    (l : VramLedger) (d : Key) (s : DeviceState)
    → lookup d l.devices ≡ some s
    → mark_device_failed d l
      ≡ record l { devices = insert d (record s { healthy = false }) l.devices }
unfolding mark_device_failed
mark_device_failed-eq l d s e = ground arith

pub mark_device_failed_absent :
    (l : VramLedger) (d : Key) → lookup d l.devices ≡ none → mark_device_failed d l ≡ l
unfolding mark_device_failed
mark_device_failed_absent l d e = ground arith

pub fail-IsBalanced :
    (l : VramLedger) (d : Key) → IsBalanced l → IsBalanced (mark_device_failed d l)
fail-IsBalanced l d b = elim (Option-cases (lookup d l.devices)) [
  | inl e ↦ rw (mark_device_failed_absent l d e) b
  | inr (s, e) ↦
      rw (mark_device_failed-eq l d s e)
        (set_device-IsBalanced l d _ b (ground (arith, b.settled d s e)))
]

pub drain_device-eq :
    (l : VramLedger) (d : Key) (s : DeviceState)
    → lookup d l.devices ≡ some s
    → (drain_device d l).1 ≡ record {
      devices = insert d (record s { allocated_vram_mb = 0 }) l.devices;
      tokens = (drain_loop d l.tokens).1;
    }
unfolding drain_device
drain_device-eq l d s e = ground arith

pub drain_device_absent :
    (l : VramLedger) (d : Key)
    → lookup d l.devices ≡ none
    → (drain_device d l).1 ≡ record l { tokens = (drain_loop d l.tokens).1 }
unfolding drain_device
drain_device_absent l d e = ground arith

pub drain-IsBalanced : (l : VramLedger) (d : Key) → IsBalanced l → IsBalanced (drain_device d l).1
drain-IsBalanced l d b = elim (Option-cases (lookup d l.devices)) [
  | inl e ↦ rw (drain_device_absent l d e) (record {
    devices_keyed = b.devices_keyed;
    tokens_keyed = drain_loop-IsKeyed d l.tokens b.tokens_keyed;
    homed = IsHomed-drain_loop d l.devices l.tokens b.homed;
    settled = λ k s f. ground (arith, b.settled k s f, held-drain_loop k d l.tokens);
  })
  | inr (s, e) ↦ rw (drain_device-eq l d s e) (record {
    devices_keyed = insert-IsKeyed d _ l.devices b.devices_keyed;
    tokens_keyed = drain_loop-IsKeyed d l.tokens b.tokens_keyed;
    homed = IsHomed-insert_device d _ l.devices _ (IsHomed-drain_loop d l.devices l.tokens b.homed);
    settled =
        IsSettled-insert d _ l.devices l.tokens (drain_loop d l.tokens).1
          (ground (arith, b.settled d s e, held-drain_loop d d l.tokens)) b.settled
          (λ k ne. ground (arith, held-drain_loop k d l.tokens));
  })
]
