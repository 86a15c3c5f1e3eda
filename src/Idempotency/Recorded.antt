-- ===== src/Idempotency/Recorded.antt =====
-- A key recorded together with its result (`IdempotencyRepository.record`, on the table of
-- repositories/idempotency.py).
use voice_os.Prelude.{ℕ, ◌+◌, ◌*◌, ◌<◌, ◌≡◌, Key, true, false, some, arith}
use voice_os.Prelude.Dict.{lookup-insert}
use voice_os.Idempotency.{EffectResult, IdempotencyTable, check, claim, record_outcome}

-- Once a key is recorded no claim of it succeeds, whoever makes it and when, and until it expires
-- its tenant finds the result.
pub record_outcome-claim :
    (tenant key : Key) (r : EffectResult) (ttl now : ℕ) (t : IdempotencyTable) (other : Key)
    (ttl' later : ℕ) {u : IdempotencyTable}
    → record_outcome tenant key r ttl now t ≡ (true, u)
    → (claim other key ttl' later u ≡ (false, u))
      × (later < now + ttl * 1000 → check tenant key later u ≡ some r)
unfolding record_outcome claim check
record_outcome-claim tenant key r ttl now t other ttl' later {u} e =
    let stored =
      lookup-insert key key
        (record { tenant_id = tenant; result = some r; expires_at = now + ttl * 1000 }) t in
    (ground (arith, stored), λ early. ground (arith, stored))
