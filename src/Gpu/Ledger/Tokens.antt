-- ===== src/Gpu/Ledger/Tokens.antt =====
-- What a token is worth (vram_ledger.py): allocations and releases of one token.
use voice_os.Prelude.{
  ℕ, ◌+◌, ◌-◌, ◌≡◌, ◌⊎◌, inl, inr, refl, ap, Key, none, some, [], ◌∷◌, ok, err, arith, ltb, ◌==◌,
  ==_iff, length, if◌then◌else◌, Option-cases,
}
use voice_os.Prelude.Dict.{
  Dict, lookup, IsKeyed, lookup-insert, lookup-erase, insert_twice, insert_same, erase-insert_new,
}
use voice_os.Invariants.{ri8}
use voice_os.Gpu.Ledger.{
  AllocationToken, DeviceState, VramLedger, key_error, invariant_violation, available_vram_mb,
  allocate, reserve, release, drain_device, drain_loop,
}
use voice_os.Gpu.Ledger.Accounting.Invariant.{drain_device-eq, drain_device_absent}
use voice_os.Gpu.Ledger.Accounting.Grants.{allocate-eq_ok, release_gone}

-- How `allocate` ends, on each of its three branches.
pub allocate_branches :
    (d model : Key) (vram : ℕ) (service uuid : Key) (l : VramLedger)
    → ((lookup d l.devices ≡ none) × (allocate d model vram service uuid l ≡ err key_error))
      ⊎ ((s : DeviceState) × (lookup d l.devices ≡ some s)
          × (allocate d model vram service uuid l ≡ (
              if ltb (available_vram_mb s) vram
              then err (invariant_violation (ri8 service vram (available_vram_mb s)))
              else ok (reserve s d model vram uuid l))))
unfolding allocate
allocate_branches d model vram service uuid l = elim (Option-cases (lookup d l.devices)) [
  | inl e ↦ inl (e, ground arith)
  | inr (s, e) ↦ inr (s, e, ground arith)
]

undo : (s : DeviceState) (n : ℕ) → record s { allocated_vram_mb = s.allocated_vram_mb + n - n } ≡ s
undo s n = ap (λ (k : ℕ). record s { allocated_vram_mb = k }) (omega arith)

pub release-reserve :
    (s : DeviceState) (d model : Key) (vram : ℕ) (uuid : Key) (l : VramLedger)
    → lookup uuid l.tokens ≡ none
    → lookup d l.devices ≡ some s
    → let (t, m) = reserve s d model vram uuid l in release t m ≡ ok l
unfolding release reserve
release-reserve s d model vram uuid l fresh e = ground (
  arith,
  lookup-insert uuid uuid (reserve s d model vram uuid l).0 l.tokens,
  lookup-insert d d (record s { allocated_vram_mb = s.allocated_vram_mb + vram }) l.devices,
  undo s vram,
  insert_twice d (record s { allocated_vram_mb = s.allocated_vram_mb + vram - vram })
      (record s { allocated_vram_mb = s.allocated_vram_mb + vram }) l.devices,
  insert_same d s l.devices e,
  erase-insert_new uuid (reserve s d model vram uuid l).0 l.tokens fresh,
)

-- An allocation that is given back leaves the ledger as it was.
pub release-allocate :
    (d model : Key) (vram : ℕ) (service uuid : Key) (l : VramLedger) {t : AllocationToken}
    {m : VramLedger}
    → lookup uuid l.tokens ≡ none
    → allocate d model vram service uuid l ≡ ok (t, m)
    → release t m ≡ ok l
release-allocate d model vram service uuid l fresh h =
    let (s, e, _, named, after) = allocate-eq_ok d model vram service uuid l h in
    rw (named, after) (release-reserve s d model vram uuid l fresh e)

-- A token that has been released is held no more.
pub release_drops :
    (t : AllocationToken) (l : VramLedger) {m : VramLedger}
    → IsKeyed l.tokens
    → release t l ≡ ok m
    → lookup t.token_id m.tokens ≡ none
unfolding release
release_drops t l keyed h = elim (Option-cases (lookup t.device_id l.devices)) [
  | inl e ↦ ground arith
  | inr (s, e) ↦ ground (arith, lookup-erase t.token_id t.token_id l.tokens keyed)
]

-- The second release of a token does nothing.
pub release_twice :
    (t : AllocationToken) (l : VramLedger) {m : VramLedger}
    → IsKeyed l.tokens
    → release t l ≡ ok m
    → release t m ≡ ok m
release_twice t l {m} keyed h = release_gone m t (release_drops t l keyed h)

lookup-drain_loop :
    (d u : Key) (ts : Dict AllocationToken)
    → IsKeyed ts
    → lookup u (drain_loop d ts).1
      ≡ elim (lookup u ts) [ none ↦ none | some t ↦ if t.device_id == d then none else some t ]
unfolding drain_loop
lookup-drain_loop d u [] h = refl
lookup-drain_loop d u (e ∷ ts) h = ground (arith, lookup-drain_loop d u ts h.1, (==_iff e.0 u).0)

length-drain_loop :
    (d : Key) (ts : Dict AllocationToken)
    → length (drain_loop d ts).0 + length (drain_loop d ts).1 ≡ length ts
unfolding drain_loop
length-drain_loop d [] = refl
length-drain_loop d (e ∷ ts) = ground (arith, length-drain_loop d ts)

-- A drain takes the tokens of the device out of the table, and no other.
pub drain_device-tokens :
    (d u : Key) (l : VramLedger)
    → IsKeyed l.tokens
    → lookup u (drain_device d l).1.tokens ≡ elim (lookup u l.tokens) [
      | none ↦ none
      | some t ↦ if t.device_id == d then none else some t
    ]
drain_device-tokens d u l keyed = elim (Option-cases (lookup d l.devices)) [
  | inl e ↦ rw (drain_device_absent l d e) (lookup-drain_loop d u l.tokens keyed)
  | inr (s, e) ↦ rw (drain_device-eq l d s e) (lookup-drain_loop d u l.tokens keyed)
]

-- Every token is drained or still there.
pub drain_device-count :
    (d : Key) (l : VramLedger)
    → length (drain_device d l).0 + length (drain_device d l).1.tokens ≡ length l.tokens
unfolding drain_device
drain_device-count d l = ground (arith, length-drain_loop d l.tokens)
