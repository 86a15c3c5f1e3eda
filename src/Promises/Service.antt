-- ===== src/Promises/Service.antt =====
-- Promises to pay (src/services/collections/promise_to_pay.py over
-- src/libs/repositories/promise_to_pay.py), for a service without an idempotency guard of its own: the
-- guard is src/libs/idempotency. Times are milliseconds; what uuid4 and the clock give are arguments.
use voice_os.Prelude.{
  ℕ, ◌/◌, Key, Bool, true, false, ◌&&◌, Option, none, some, List, [], ◌∷◌, ◌++◌, ltb, leb, ◌==◌,
  if◌then◌else◌, Result, ok, err, ◌>>◌, raise_if,
}
use voice_os.Policy.{PolicyOutcome, deny, forbid, no_context}
use voice_os.Policy.Engine.{PolicyEngine, Record, evaluate}
use voice_os.Promises.{EmiTable, next_unpaid_emi}

pub data PtpStatus : Type 0 where
  pending kept broken partial cancelled : PtpStatus

abbrev pub is_broken : PtpStatus → Bool
is_broken broken = true
is_broken _ = false

-- A datetime with its zone: the milliseconds since 1970, in UTC and on the clock of the zone.
pub record Moment : Type 0 where
  pub utc_ms : ℕ
  pub local_ms : ℕ

pub record PromiseToPay : Type 0 where
  pub ptp_id : Key
  pub tenant_id : Key
  pub call_id : Key
  pub customer_id : Key
  pub loan_account_id : Key
  pub promised_amount_minor : ℕ
  pub currency : Key
  pub promise_date : Moment
  pub status : PtpStatus
  pub recorded_at : ℕ
  pub updated_at : ℕ
  pub notes : Key

-- The parts of an idempotency key; they contain no colon.
pub record PtpKey : Type 0 where
  pub tenant : Key
  pub call : Key
  pub loan : Key
  pub day : ℕ

-- `promise_date.date()` is the day in the zone of the date.
unfoldable pub build_idempotency_key : Key → Key → Key → Moment → PtpKey
build_idempotency_key tenant_id call_id loan_account_id promise_date = record {
  tenant = tenant_id;
  call = call_id;
  loan = loan_account_id;
  day = promise_date.local_ms / 86_400_000;
}

abbrev pub same_ptp_key : PtpKey → PtpKey → Bool
same_ptp_key a b = a.tenant == b.tenant && a.call == b.call && a.loan == b.loan && a.day == b.day

pub record PtpRow : Type 0 where
  pub promise : PromiseToPay
  pub idempotency_key : PtpKey

abbrev pub PtpTable : Type 0
PtpTable = List PtpRow

pub data PtpError : Type 0 where
  ptp_validation policy_denied runtime_error : PtpError

pub data PtpEvent : Type 0 where
  ptp_created : PromiseToPay → PtpEvent
  ptp_broken : (tenant_id ptp_id : Key) → PtpEvent

abbrev pub with_key : PtpKey → PtpTable → Option PromiseToPay
with_key k [] = none
with_key k (r ∷ t) = if same_ptp_key r.idempotency_key k then some r.promise else with_key k t

-- The row of the tenant with the key.
abbrev pub own_with_key : Key → PtpKey → PtpTable → Option PromiseToPay
own_with_key tenant_id k [] = none
own_with_key tenant_id k (r ∷ t) =
    if r.promise.tenant_id == tenant_id && same_ptp_key r.idempotency_key k
    then some r.promise
    else own_with_key tenant_id k t

-- INSERT ... ON CONFLICT (idempotency_key) DO NOTHING, then the row that is there.
unfoldable pub create_idempotent :
    PromiseToPay → PtpKey → PtpTable → Result PtpError (PromiseToPay × Bool) × PtpTable
create_idempotent ptp k t = elim (with_key k t) [
  | none ↦ (ok (ptp, true), t ++ (record { promise = ptp; idempotency_key = k } ∷ []))
  | some _ ↦ (
    elim (own_with_key ptp.tenant_id k t) [
      | none ↦ err runtime_error
      | some existing ↦ ok (existing, false)
    ],
    t,
  )
]

pub record PtpService : Type 0 where
  pub table : PtpTable
  pub instalments : EmiTable
  pub policy : Option PolicyEngine
  pub has_publisher : Bool
  pub has_audit : Bool
  pub events : List PtpEvent
  pub audited : List (Key × Key)
  pub decisions : List Record

unfoldable pub validate : Key → Key → ℕ → Moment → (now : ℕ) → EmiTable → Result PtpError (Unit {0})
unfolding next_unpaid_emi
validate tenant_id loan_account_id promised_amount_minor promise_date now t =
    raise_if (leb promise_date.utc_ms now) ptp_validation
    >> (elim (next_unpaid_emi tenant_id loan_account_id t) [
      | none ↦ ok tt
      | some emi ↦ raise_if (ltb promised_amount_minor emi.total_minor) ptp_validation
    ])

abbrev pub denies : PolicyOutcome → Bool
denies deny = true
denies forbid = true
denies _ = false

-- `subject` is "collections_service".
unfoldable pub check_policy :
    (subject : Key) → Key → Key → PtpService → Result PtpError (Unit {0}) × PtpService
unfolding evaluate
check_policy subject tenant_id loan_account_id s = elim s.policy [
  | none ↦ (ok tt, s)
  | some engine ↦
      let (decision, written) = evaluate engine (record {
        domain = "collections";
        action = "create_ptp";
        subject = subject;
        resource = loan_account_id;
        tenant_id = some tenant_id;
        campaign_id = none;
        context = no_context;
      }) in
      (
        raise_if (denies decision.outcome) policy_denied,
        record s { decisions = s.decisions ++ written },
      )
]

unfoldable pub emit_created : PromiseToPay → Key → PtpService → PtpService
emit_created ptp actor_id s = record s {
  events = if s.has_publisher then s.events ++ (ptp_created ptp ∷ []) else s.events;
  audited = if s.has_audit then s.audited ++ ((actor_id, ptp.ptp_id) ∷ []) else s.audited;
}

-- The end of _create_ptp_fn, with what the repository answers.
unfoldable pub announce :
    Key
    → PtpService
    → Result PtpError (PromiseToPay × Bool) × PtpTable
    → Result PtpError PromiseToPay × PtpService
unfolding emit_created
announce actor_id s (err e, t) = (err e, record s { table = t })
announce actor_id s (ok (row, created), t) = (
  ok row,
  if created then emit_created row actor_id (record s { table = t }) else record s { table = t },
)

-- _create_ptp_fn
unfoldable pub create_ptp_fn :
    PromiseToPay → PtpKey → Key → PtpService → Result PtpError PromiseToPay × PtpService
unfolding create_idempotent announce
create_ptp_fn ptp k actor_id s = announce actor_id s (create_idempotent ptp k s.table)

-- What a caller of create says.
pub record PtpRequest : Type 0 where
  pub tenant_id : Key
  pub call_id : Key
  pub customer_id : Key
  pub loan_account_id : Key
  pub promised_amount_minor : ℕ
  pub currency : Key
  pub promise_date : Moment
  pub actor_id : Key
  pub notes : Key

abbrev pub promise_of : PtpRequest → (ptp_id : Key) → (now : ℕ) → PromiseToPay
promise_of q ptp_id now = record {
  ptp_id = ptp_id;
  tenant_id = q.tenant_id;
  call_id = q.call_id;
  customer_id = q.customer_id;
  loan_account_id = q.loan_account_id;
  promised_amount_minor = q.promised_amount_minor;
  currency = q.currency;
  promise_date = q.promise_date;
  status = pending;
  recorded_at = now;
  updated_at = now;
  notes = q.notes;
}

unfoldable pub create :
    (subject : Key)
    → PtpRequest
    → (ptp_id : Key) → (now : ℕ) → PtpService
    → Result PtpError PromiseToPay × PtpService
unfolding validate check_policy build_idempotency_key create_ptp_fn
create subject q ptp_id now s =
    let k = build_idempotency_key q.tenant_id q.call_id q.loan_account_id q.promise_date in
    let (checked, judged) = check_policy subject q.tenant_id q.loan_account_id s in
    let made = create_ptp_fn (promise_of q ptp_id now) k q.actor_id judged in
    elim (validate q.tenant_id q.loan_account_id q.promised_amount_minor q.promise_date now
      s.instalments) [
        | err e ↦ (err e, s)
        | ok _ ↦ elim checked [ err e ↦ (err e, judged) | ok _ ↦ made ]
      ]

abbrev pub set_ptp_status : Key → Key → PtpStatus → PtpTable → PtpTable
set_ptp_status tenant_id ptp_id status [] = []
set_ptp_status tenant_id ptp_id status (r ∷ t) =
    let rest = set_ptp_status tenant_id ptp_id status t in
    let ptp : PromiseToPay = record r.promise { status = status } in
    if r.promise.tenant_id == tenant_id && r.promise.ptp_id == ptp_id
    then record r { promise = ptp } ∷ rest
    else r ∷ rest

unfoldable pub update_status : Key → Key → PtpStatus → PtpService → PtpService
update_status tenant_id ptp_id status s = record s {
  table = set_ptp_status tenant_id ptp_id status s.table;
  events =
      if is_broken status && s.has_publisher
      then s.events ++ (ptp_broken tenant_id ptp_id ∷ [])
      else s.events;
}
