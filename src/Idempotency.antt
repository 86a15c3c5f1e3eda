-- ===== src/Idempotency.antt =====
-- Exactly-once effects (src/libs/idempotency: guard.py, fencing.py, and the table of
-- src/libs/repositories/idempotency.py). The SQL statements are read as the table operations
-- that PostgreSQL documents: `key` is the primary key, `ON CONFLICT DO NOTHING` inserts only a
-- new key, and a statement is atomic. The clean-up that the migration of the table documents
-- removes expired rows. Times are milliseconds.
pub mod Once
pub mod Fencing
pub mod Recorded
use voice_os.Prelude.{
  ℕ, zero, suc, ◌+◌, ◌*◌, Key, Bool, true, false, ◌&&◌, Option, none, some, List, [], ◌∷◌, ◌++◌,
  ltb, leb, ◌==◌, if◌then◌else◌,
}
use voice_os.Prelude.Dict.{Dict, lookup, has, insert}

-- The result of an effect, JSON in the source, is a number.
abbrev pub EffectResult : Type 0
EffectResult = ℕ

pub record IdempotencyRow : Type 0 where
  pub tenant_id : Key
  pub result : Option EffectResult
  pub expires_at : ℕ

abbrev pub IdempotencyTable : Type 0
IdempotencyTable = Dict IdempotencyRow

unfoldable pub check : Key → Key → ℕ → IdempotencyTable → Option EffectResult
check tenant_id key now t = elim (lookup key t) [
  | none ↦ none
  | some row ↦ if row.tenant_id == tenant_id && ltb now row.expires_at then row.result else none
]

unfoldable pub claim : Key → Key → ℕ → ℕ → IdempotencyTable → Bool × IdempotencyTable
claim tenant_id key ttl_seconds now t = if has key t then (false, t) else (
  true,
  insert key
      (record { tenant_id = tenant_id; result = none; expires_at = now + ttl_seconds * 1000 }) t,
)

unfoldable pub complete : Key → Key → EffectResult → IdempotencyTable → IdempotencyTable
complete tenant_id key result t = elim (lookup key t) [
  | none ↦ t
  | some row ↦
      if row.tenant_id == tenant_id then insert key (record row { result = some result }) t else t
]

-- `IdempotencyRepository.record`: the row with its result at once; is it new?
unfoldable pub record_outcome :
    Key → Key → EffectResult → ℕ → ℕ → IdempotencyTable → Bool × IdempotencyTable
record_outcome tenant_id key result ttl_seconds now t = if has key t then (false, t) else (
  true,
  insert key
      (record {
        tenant_id = tenant_id;
        result = some result;
        expires_at = now + ttl_seconds * 1000;
      })
      t,
)

-- Where a call of `execute_once` stands between two of its awaits.
pub data Phase : Type 0 where
  idle checked won failed timed_out : Phase
  ran done : EffectResult → Phase
  lost : ℕ → Phase

pub record Caller : Type 0 where
  pub tenant_id : Key
  pub key : Key
  pub ttl_seconds : ℕ
  pub phase : Phase

-- One stretch of `execute_once`, at the time `now`: the new phase, the table, and whether the
-- effect was run. `outcome` is what the effect gives if it is run, `none` an exception.
advance_phase :
    ℕ
    → ℕ
    → Option EffectResult
    → Phase
    → Caller
    → IdempotencyTable
    → Phase × IdempotencyTable × Bool
unfolding check claim complete
advance_phase poll_timeout now outcome idle c t =
    (elim (check c.tenant_id c.key now t) [ none ↦ checked | some r ↦ done r ], t, false)
advance_phase poll_timeout now outcome checked c t =
    let (claimed, t') = claim c.tenant_id c.key c.ttl_seconds now t in
    (if claimed then won else lost (now + poll_timeout), t', false)
advance_phase poll_timeout now outcome won c t =
    (elim outcome [ none ↦ failed | some r ↦ ran r ], t, true)
advance_phase poll_timeout now outcome (ran r) c t = (done r, complete c.tenant_id c.key r t, false)
advance_phase poll_timeout now outcome (lost deadline) c t = (
  if ltb now deadline
      then elim (check c.tenant_id c.key now t) [ none ↦ lost deadline | some r ↦ done r ]
      else timed_out,
  t,
  false,
)
advance_phase poll_timeout now outcome p c t = (p, t, false)

-- The same for the caller with the given index among those of the process.
unfoldable pub advance :
    ℕ
    → ℕ
    → ℕ
    → Option EffectResult
    → List Caller
    → IdempotencyTable
    → List Caller × IdempotencyTable × List Key
unfolding advance_phase
advance poll_timeout i now outcome [] t = ([], t, [])
advance poll_timeout zero now outcome (c ∷ cs) t =
    let (p, t', ran_it) = advance_phase poll_timeout now outcome c.phase c t in
    (record c { phase = p } ∷ cs, t', if ran_it then c.key ∷ [] else [])
advance poll_timeout (suc i) now outcome (c ∷ cs) t =
    let (cs', t', ks) = advance poll_timeout i now outcome cs t in (c ∷ cs', t', ks)

-- DELETE FROM idempotency_keys WHERE expires_at < now(), a job in the background.
unfoldable pub sweep : ℕ → IdempotencyTable → IdempotencyTable
sweep now [] = []
sweep now (e ∷ t) = let rest = sweep now t in if ltb e.1.expires_at now then rest else e ∷ rest

-- What a schedule consists of: a caller goes on, at a time, with what its effect would give; or the
-- clean-up runs.
pub data Turn : Type 0 where
  go_on : (index now : ℕ) → (outcome : Option EffectResult) → Turn
  clean_up : (now : ℕ) → Turn

-- The callers, the table, and the keys whose effect has been run, one entry for each run.
pub record World : Type 0 where
  pub callers : List Caller
  pub table : IdempotencyTable
  pub executed : List Key

unfoldable pub take_turn : ℕ → Turn → World → World
unfolding advance sweep
take_turn poll_timeout (go_on index now outcome) w =
    let (cs, t, ks) = advance poll_timeout index now outcome w.callers w.table in
    record { callers = cs; table = t; executed = ks ++ w.executed }
take_turn poll_timeout (clean_up now) w = record w { table = sweep now w.table }

abbrev pub run_turns : ℕ → List Turn → World → World
run_turns poll_timeout [] w = w
run_turns poll_timeout (u ∷ us) w = run_turns poll_timeout us (take_turn poll_timeout u w)

-- `FencingToken.validate` and `FencingTokenTracker.validate`.
unfoldable pub validate_token : ℕ → ℕ → Bool
validate_token token last_seen = leb last_seen token

unfoldable pub validate : Key → ℕ → Dict ℕ → Bool × Dict ℕ
unfolding validate_token
validate resource_id token last_seen =
    let last : ℕ = elim (lookup resource_id last_seen) [ none ↦ 0 | some n ↦ n ] in
    if validate_token token last
    then (true, insert resource_id token last_seen)
    else (false, last_seen)
