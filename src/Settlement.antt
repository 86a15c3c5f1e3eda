-- ===== src/Settlement.antt =====
-- The settlement workflow (src/services/collections/settlement.py), the table it is kept in
-- (src/libs/repositories/settlement.py: each statement is scoped to a tenant, and
-- `settlement_id` is the primary key) and its contract
-- (src/libs/contracts/models/collections.py). `uuid4` and the clock give arguments. Amounts are
-- never negative, as the contract demands; foreign keys are not checked. A request is one step,
-- though it reads the row, updates it and reads it again in statements of their own.
pub mod Rows
pub mod Authorization
pub mod Approval
pub mod Terms
pub mod Calls
pub mod Workflow
pub mod Disburse
use voice_os.Prelude.{
  ℕ, Key, Bool, true, false, Option, none, some, List, [], ◌∷◌, ◌++◌, Result, ok, err, ◌>>=◌, ◌>>◌,
  raise_if, ltb, ◌==◌, if◌then◌else◌, not,
}
use voice_os.Prelude.Dict.{Dict, lookup, has, insert}

pub data SettlementStatus : Type 0 where
  proposed accepted rejected expired paid : SettlementStatus

pub record Settlement : Type 0 where
  pub settlement_id : Key
  pub tenant_id : Key
  pub customer_id : Key
  pub loan_account_id : Key
  pub settlement_amount_minor : ℕ
  pub waiver_amount_minor : ℕ
  pub currency : Key
  pub offer_expiry : ℕ
  pub status : SettlementStatus
  pub proposed_at : ℕ
  pub updated_at : ℕ

-- A row of the table: the contract's columns and the two that only the table has.
pub record SettlementRow : Type 0 where
  pub settlement : Settlement
  pub approved_by : Option Key
  pub authorized_at : Option ℕ

abbrev pub SettlementTable : Type 0
SettlementTable = Dict SettlementRow

pub data SettlementError : Type 0 where
  not_found transition_error duplicate_key : SettlementError

-- INSERT: a row whose key is there is refused by the database.
unfoldable pub create : Settlement → SettlementTable → Result SettlementError SettlementTable
create s t =
    if has s.settlement_id t
    then err duplicate_key
    else ok (
        insert s.settlement_id (record { settlement = s; approved_by = none; authorized_at = none })
          t)

-- `WHERE tenant_id = %s AND settlement_id = %s`
unfoldable pub select : Key → Key → SettlementTable → Option SettlementRow
select tenant_id settlement_id t = elim (lookup settlement_id t) [
  | none ↦ none
  | some row ↦ if row.settlement.tenant_id == tenant_id then some row else none
]

unfoldable pub get : Key → Key → SettlementTable → Option Settlement
unfolding select
get tenant_id settlement_id t = elim (select tenant_id settlement_id t) [
  | none ↦ none
  | some row ↦ some row.settlement
]

unfoldable pub update_status : Key → Key → SettlementStatus → SettlementTable → SettlementTable
unfolding select
update_status tenant_id settlement_id status t = elim (select tenant_id settlement_id t) [
  | none ↦ t
  | some row ↦
      let s : Settlement = row.settlement in
      insert settlement_id (record row { settlement = record s { status = status } }) t
]

unfoldable pub get_approved_by : Key → Key → SettlementTable → Option Key
unfolding select
get_approved_by tenant_id settlement_id t = elim (select tenant_id settlement_id t) [
  | none ↦ none
  | some row ↦ row.approved_by
]

unfoldable pub record_authorization : Key → Key → Key → ℕ → SettlementTable → SettlementTable
unfolding select
record_authorization tenant_id settlement_id approved_by authorized_at t =
    elim (select tenant_id settlement_id t) [
      | none ↦ t
      | some row ↦
          insert settlement_id
            (record row { approved_by = some approved_by; authorized_at = some authorized_at }) t
    ]

pub data SettlementEvent : Type 0 where
  offered accepted_event authorized disbursed : Key → SettlementEvent

-- The service: the table, what was published and audited, newest first, and the settings.
pub record SettlementService : Type 0 where
  pub table : SettlementTable
  pub publisher : Option (List SettlementEvent)
  pub audit_logger : Option (List (Key × Key))
  pub approval_threshold_minor : ℕ

unfoldable pub publish : SettlementEvent → SettlementService → SettlementService
publish e v = elim v.publisher [ none ↦ v | some es ↦ record v { publisher = some (e ∷ es) } ]

unfoldable pub audit : Key × Key → SettlementService → SettlementService
audit entry v = elim v.audit_logger [
  | none ↦ v
  | some es ↦ record v { audit_logger = some (entry ∷ es) }
]

-- Equality of two statuses, through their place in the enum.
abbrev pub status_value : SettlementStatus → Key
status_value proposed = 0
status_value accepted = 1
status_value rejected = 2
status_value expired = 3
status_value paid = 4

unfoldable pub require : Key → Key → SettlementTable → Result SettlementError Settlement
unfolding get
require tenant_id settlement_id t = elim (get tenant_id settlement_id t) [
  | none ↦ err not_found
  | some s ↦ ok s
]

unfoldable pub require_status : Settlement → SettlementStatus → Result SettlementError (Unit {0})
require_status s expected =
    raise_if (not (status_value s.status == status_value expected)) transition_error

abbrev pub Outcome : Type 0
Outcome = Result SettlementError (Settlement × SettlementService)

-- `id` is what `uuid4` gave, `now` what the clock gave.
unfoldable pub offer :
    Key → Key → Key → ℕ → ℕ → Key → ℕ → (id : Key) → (now : ℕ) → SettlementService → Outcome
unfolding create publish
offer tenant_id customer_id loan_account_id amount waiver currency offer_expiry id now v = do
  let s : Settlement = record {
    settlement_id = id;
    tenant_id = tenant_id;
    customer_id = customer_id;
    loan_account_id = loan_account_id;
    settlement_amount_minor = amount;
    waiver_amount_minor = waiver;
    currency = currency;
    offer_expiry = offer_expiry;
    status = proposed;
    proposed_at = now;
    updated_at = now;
  }
  t ← create s v.table
  ok (s, publish (offered id) (record v { table = t }))

unfoldable pub accept : Key → Key → SettlementService → Outcome
unfolding require require_status update_status publish
accept tenant_id settlement_id v = do
  s ← require tenant_id settlement_id v.table
  require_status s proposed
  let t = update_status tenant_id settlement_id accepted v.table
  a ← require tenant_id settlement_id t
  ok (a, publish (accepted_event settlement_id) (record v { table = t }))

unfoldable pub requires_authorization : Settlement → SettlementService → Bool
requires_authorization s v = ltb v.approval_threshold_minor s.settlement_amount_minor

unfoldable pub authorize : Key → Key → Key → ℕ → SettlementService → Outcome
unfolding require require_status record_authorization publish audit
authorize tenant_id settlement_id approved_by now v = do
  s ← require tenant_id settlement_id v.table
  require_status s accepted
  let t = record_authorization tenant_id settlement_id approved_by now v.table
  a ← require tenant_id settlement_id t
  ok (
    a,
    publish (authorized settlement_id)
        (audit (approved_by, settlement_id) (record v { table = t })),
  )

-- The part of `disburse` before the payment: the service with the authorization in it.
unfoldable pub ensure_authorized :
    Key
    → Key
    → Option Key
    → ℕ
    → Settlement
    → SettlementService
    → Result SettlementError SettlementService
unfolding requires_authorization authorize get_approved_by
ensure_authorized tenant_id settlement_id approved_by now s v =
    if requires_authorization s v
    then elim (get_approved_by tenant_id settlement_id v.table) [
      | some _ ↦ ok v
      | none ↦ elim approved_by [
        | none ↦ err transition_error
        | some by ↦ (do (_, v') ← authorize tenant_id settlement_id by now v; ok v')
      ]
    ]
    else ok v

unfoldable pub disburse : Key → Key → Option Key → ℕ → SettlementService → Outcome
unfolding require require_status ensure_authorized update_status publish
disburse tenant_id settlement_id approved_by now v = do
  s ← require tenant_id settlement_id v.table
  require_status s accepted
  v' ← ensure_authorized tenant_id settlement_id approved_by now s v
  let t = update_status tenant_id settlement_id paid v'.table
  a ← require tenant_id settlement_id t
  ok (a, publish (disbursed settlement_id) (record v' { table = t }))

unfoldable pub reject : Key → Key → SettlementService → Outcome
unfolding require require_status update_status
reject tenant_id settlement_id v = do
  s ← require tenant_id settlement_id v.table
  require_status s proposed
  let t = update_status tenant_id settlement_id rejected v.table
  a ← require tenant_id settlement_id t
  ok (a, record v { table = t })
