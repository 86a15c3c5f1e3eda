-- ===== src/Gpu/Ledger/Accounting/Steps.antt =====
-- Each method of the ledger as a step, and the invariant along every run (vram_ledger.py).
use voice_os.Prelude.{ℕ, ◌-◌, ◌≡◌, ◌⊎◌, inl, inr, Key, none, some, ok, arith}
use voice_os.Prelude.Dict.{lookup, insert, erase}
use voice_os.Gpu.Ledger.{
  AllocationToken, VramLedger, new_ledger, register_device, mark_device_failed, allocate, release,
  drain_device,
}
use voice_os.Gpu.Ledger.Accounting.Held.{held}
use voice_os.Gpu.Ledger.Accounting.Invariant.{
  IsBalanced, new_ledger-IsBalanced, register-IsBalanced, fail-IsBalanced, drain-IsBalanced,
}
use voice_os.Gpu.Ledger.Accounting.Grants.{
  allocate-eq_ok, grant-IsBalanced, release-eq_ok, give_back-IsBalanced, release_gone,
}

-- What callers may do: a device is registered, for the first time or again, while no token on it is
-- held; `uuid4` gives new ids; and a token that is handed back is one that `allocate` returned,
-- still held or no longer.
pub data Step (l : VramLedger) : VramLedger → Type 0 where
  register : (d : Key) (total : ℕ) → held d l.tokens ≡ 0 → Step l (register_device d total l)
  fail : (d : Key) → Step l (mark_device_failed d l)
  drain : (d : Key) → Step l (drain_device d l).1
  grant :
      (d model : Key) (vram : ℕ) (service uuid : Key) {t : AllocationToken} {m : VramLedger}
      → lookup uuid l.tokens ≡ none
      → allocate d model vram service uuid l ≡ ok (t, m)
      → Step l m
  give_back :
      (t : AllocationToken) {m : VramLedger}
      → (lookup t.token_id l.tokens ≡ none) ⊎ (lookup t.token_id l.tokens ≡ some t)
      → release t l ≡ ok m
      → Step l m

-- The ledgers that such calls lead to.
pub data Reach : VramLedger → Type 0 where
  start : Reach new_ledger
  next : {l m : VramLedger} → Reach l → Step l m → Reach m

pub Step-IsBalanced : {l m : VramLedger} → Step l m → IsBalanced l → IsBalanced m
Step-IsBalanced {l} (register d total n) b = register-IsBalanced l d total b n
Step-IsBalanced {l} (fail d) b = fail-IsBalanced l d b
Step-IsBalanced {l} (drain d) b = drain-IsBalanced l d b
Step-IsBalanced {l} (grant d model vram service uuid fresh h) b =
    let (s, e, room, _, after) = allocate-eq_ok d model vram service uuid l h in
    rw after (grant-IsBalanced l d model vram uuid s b fresh e room)
Step-IsBalanced {l} {m} (give_back t (inl gone) h) b =
    let same : m ≡ l = ground (arith, release_gone l t gone) in rw same b
Step-IsBalanced {l} {m} (give_back t (inr there) h) b =
    let (s, e, _, after) = release-eq_ok l t b there in
    let same : m ≡ record {
      devices =
          insert t.device_id (record s { allocated_vram_mb = s.allocated_vram_mb - t.vram_mb })
            l.devices;
      tokens = erase t.token_id l.tokens;
    } =
      ground arith in
    rw same (give_back-IsBalanced l t s b there e)

-- Along every run from the empty ledger in which devices are registered, also again, only while no
-- token on them is held, ids are new, and the tokens handed back are ones that were granted, the
-- books balance: no key stands twice, each token is on
-- a registered device, and what a device has allocated is the sum of its tokens and at most its
-- total.
pub Reach-IsBalanced : {l : VramLedger} → Reach l → IsBalanced l
Reach-IsBalanced start = new_ledger-IsBalanced
Reach-IsBalanced (next r st) = Step-IsBalanced st (Reach-IsBalanced r)
