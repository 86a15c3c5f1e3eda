-- ===== src/Gpu/Ledger/Accounting/Grants.antt =====
-- `allocate` and `release`, and the books (vram_ledger.py).
use voice_os.Prelude.{◌+◌, ℕ, ◌-◌, ◌≤◌, ◌≡◌, inl, inr, Key, none, some, ok, Option-cases, arith}
use voice_os.Prelude.Dict.{
  IsKeyed, lookup-insert, lookup, insert, erase, insert-IsKeyed, erase-IsKeyed,
}
use voice_os.Gpu.Ledger.{
  AllocationToken, DeviceState, VramLedger, allocate, reserve, available_vram_mb, release,
}
use voice_os.Gpu.Ledger.Accounting.Held.{
  held-insert, held-erase, IsHomed-insert_device, IsHomed-insert, IsHomed-erase, lookup-IsHomed,
}
use voice_os.Gpu.Ledger.Accounting.Invariant.{IsBalanced, IsSettled-insert}

-- What a successful allocation has found and done.
pub allocate-eq_ok :
    (d model : Key) (vram : ℕ) (service uuid : Key) (l : VramLedger) {t : AllocationToken}
    {m : VramLedger}
    → allocate d model vram service uuid l ≡ ok (t, m)
    → (s : DeviceState) × (lookup d l.devices ≡ some s)
      × (vram ≤ available_vram_mb s)
      × (t ≡ (reserve s d model vram uuid l).0)
      × (m ≡ (reserve s d model vram uuid l).1)
unfolding allocate
allocate-eq_ok d model vram service uuid l h = elim (Option-cases (lookup d l.devices)) [
  | inl e ↦ absurd (ground arith)
  | inr (s, e) ↦ (s, e, ground arith, ground arith, ground arith)
]

pub lookup-reserve :
    (d model : Key) (vram : ℕ) (uuid : Key) (l : VramLedger) (s : DeviceState)
    → lookup d (reserve s d model vram uuid l).1.devices
      ≡ some (record s { allocated_vram_mb = s.allocated_vram_mb + vram })
unfolding reserve
lookup-reserve d model vram uuid l s =
    let s' : DeviceState = record s { allocated_vram_mb = s.allocated_vram_mb + vram } in
    ground (arith, lookup-insert d d s' l.devices)

pub allocate-IsKeyed :
    (d model : Key) (vram : ℕ) (service uuid : Key) (l : VramLedger) {t : AllocationToken}
    {m : VramLedger}
    → IsKeyed l.tokens
    → allocate d model vram service uuid l ≡ ok (t, m)
    → IsKeyed m.tokens
unfolding reserve
allocate-IsKeyed d model vram service uuid l keyed h =
    let (s, _, _, _, after) = allocate-eq_ok d model vram service uuid l h in
    rw after (insert-IsKeyed uuid _ l.tokens keyed)

pub grant-IsBalanced :
    (l : VramLedger) (d model : Key) (vram : ℕ) (uuid : Key) (s : DeviceState)
    → IsBalanced l
    → lookup uuid l.tokens ≡ none
    → lookup d l.devices ≡ some s
    → vram ≤ available_vram_mb s
    → IsBalanced (reserve s d model vram uuid l).1
unfolding reserve available_vram_mb
grant-IsBalanced l d model vram uuid s b fresh e room =
    let t = (reserve s d model vram uuid l).0 in
    record {
      devices_keyed = insert-IsKeyed d _ l.devices b.devices_keyed;
      tokens_keyed = insert-IsKeyed uuid t l.tokens b.tokens_keyed;
      homed =
          IsHomed-insert_device d _ l.devices _
            (IsHomed-insert l.devices t l.tokens b.homed (ground arith));
      settled =
          IsSettled-insert d _ l.devices l.tokens _
            (ground (arith, b.settled d s e, held-insert d uuid t l.tokens)) b.settled
            (λ k ne. ground (arith, held-insert k uuid t l.tokens));
    }

-- A token that is held finds its device: `release` cannot raise.
pub release-eq_ok :
    (l : VramLedger) (t : AllocationToken)
    → IsBalanced l
    → lookup t.token_id l.tokens ≡ some t
    → (s : DeviceState) × (lookup t.device_id l.devices ≡ some s)
      × (t.vram_mb ≤ s.allocated_vram_mb)
      × (release t l
          ≡ ok (record {
            devices =
                insert t.device_id
                  (record s { allocated_vram_mb = s.allocated_vram_mb - t.vram_mb })
                  l.devices;
            tokens = erase t.token_id l.tokens;
          }))
unfolding release
release-eq_ok l t b e = elim (Option-cases (lookup t.device_id l.devices)) [
  | inl f ↦ absurd ((lookup-IsHomed t.token_id t l.devices l.tokens b.homed e).1 f)
  | inr (s, f) ↦ (
    s,
    f,
    ground (arith, b.settled t.device_id s f, held-erase t.device_id t.token_id t l.tokens),
    ground arith,
  )
]

pub give_back-IsBalanced :
    (l : VramLedger) (t : AllocationToken) (s : DeviceState)
    → IsBalanced l
    → lookup t.token_id l.tokens ≡ some t
    → lookup t.device_id l.devices ≡ some s
    → IsBalanced (record {
      devices =
          insert t.device_id
            (record s { allocated_vram_mb = s.allocated_vram_mb - t.vram_mb })
            l.devices;
      tokens = erase t.token_id l.tokens;
    })
give_back-IsBalanced l t s b e f = record {
  devices_keyed = insert-IsKeyed t.device_id _ l.devices b.devices_keyed;
  tokens_keyed = erase-IsKeyed t.token_id l.tokens b.tokens_keyed;
  homed =
      IsHomed-insert_device t.device_id _ l.devices _
        (IsHomed-erase t.token_id l.devices l.tokens b.homed);
  settled =
      IsSettled-insert t.device_id _ l.devices l.tokens _
        (ground (arith, b.settled t.device_id s f, held-erase t.device_id t.token_id t l.tokens))
        b.settled (λ k ne. ground (arith, held-erase k t.token_id t l.tokens));
}

-- A token that is no longer held changes nothing.
pub release_gone :
    (l : VramLedger) (t : AllocationToken) → lookup t.token_id l.tokens ≡ none → release t l ≡ ok l
unfolding release
release_gone l t e = ground arith
