-- ===== src/Billing.antt =====
-- Billing and metering (src/services/billing, src/services/metering) over the usage table of
-- src/libs/repositories/billing.py, with the models of src/libs/contracts/models/billing.py.
-- Amounts are minor units; a time is in milliseconds, its bucket the hour.
pub mod Invoices
pub mod Limits
use Prim.Native.String.{String}
use voice_os.Prelude.{
  ℕ, ◌+◌, ◌*◌, ◌/◌, Key, Bool, true, false, not, ◌&&◌, Option, none, some, List, [], ◌∷◌, ltb, leb,
  ◌==◌, if◌then◌else◌, contains,
}
use voice_os.Prelude.Dict.{Dict, lookup, insert}

pub data SubscriptionTier : Type 0 where
  trial starter growth enterprise enterprise_plus : SubscriptionTier

abbrev pub tier_value : SubscriptionTier → String
tier_value trial = "TRIAL"
tier_value starter = "STARTER"
tier_value growth = "GROWTH"
tier_value enterprise = "ENTERPRISE"
tier_value enterprise_plus = "ENTERPRISE_PLUS"

pub data UsageType : Type 0 where
  call_minute sms_message api_call storage_mb ai_token stt_token llm_token gpu_second : UsageType

-- The place of a type's value in the order of texts.
abbrev pub type_order : UsageType → ℕ
type_order ai_token = 0
type_order api_call = 1
type_order call_minute = 2
type_order gpu_second = 3
type_order llm_token = 4
type_order sms_message = 5
type_order storage_mb = 6
type_order stt_token = 7

abbrev pub same_type : UsageType → UsageType → Bool
same_type a b = type_order a == type_order b

pub record RateCardEntry : Type 0 where
  pub unit_size : ℕ
  pub price_per_unit_minor : ℕ

-- DEFAULT_RATE_CARD
abbrev pub rate : UsageType → RateCardEntry
rate call_minute = record { unit_size = 1; price_per_unit_minor = 200 }
rate stt_token = record { unit_size = 1_000; price_per_unit_minor = 500 }
rate llm_token = record { unit_size = 1_000; price_per_unit_minor = 1_000 }
rate gpu_second = record { unit_size = 100; price_per_unit_minor = 1_000 }
rate storage_mb = record { unit_size = 1_024; price_per_unit_minor = 500 }
rate ai_token = record { unit_size = 1_000; price_per_unit_minor = 1_000 }
rate sms_message = record { unit_size = 1; price_per_unit_minor = 20 }
rate api_call = record { unit_size = 1; price_per_unit_minor = 5 }

-- RateCardEntry.total_cost_minor
unfoldable pub total_cost_minor : RateCardEntry → ℕ → ℕ
total_cost_minor entry quantity = (quantity * entry.price_per_unit_minor) / entry.unit_size

-- TIER_USAGE_LIMITS: `none` is unlimited, or a type that the tier does not list.
unfoldable pub limit_for : SubscriptionTier → UsageType → Option ℕ
limit_for trial call_minute = some 1_000
limit_for trial stt_token = some 100_000
limit_for trial llm_token = some 100_000
limit_for trial gpu_second = some 10_000
limit_for trial storage_mb = some 1_024
limit_for starter call_minute = some 5_000
limit_for starter stt_token = some 500_000
limit_for starter llm_token = some 500_000
limit_for starter gpu_second = some 50_000
limit_for starter storage_mb = some 5_120
limit_for growth call_minute = some 50_000
limit_for growth stt_token = some 5_000_000
limit_for growth llm_token = some 5_000_000
limit_for growth gpu_second = some 500_000
limit_for growth storage_mb = some 51_200
limit_for _ _ = none

-- BASE_FEE_MINOR
abbrev pub base_fee : SubscriptionTier → ℕ
base_fee trial = 0
base_fee starter = 99_900
base_fee growth = 0
base_fee enterprise = 5_000_000
base_fee enterprise_plus = 15_000_000

pub record UsageEvent : Type 0 where
  pub tenant_id : Key
  pub usage_type : UsageType
  pub quantity : ℕ
  pub unit_cost_minor : ℕ
  pub total_cost_minor : ℕ
  pub currency : Key
  pub resource_id : Key
  pub occurred_at_bucket : ℕ
  pub invoice_id : Option Key

-- The table of usage events, by usage_event_id.
abbrev pub UsageTable : Type 0
UsageTable = Dict UsageEvent

-- INSERT ... ON CONFLICT (usage_event_id) DO NOTHING
unfoldable pub record_usage : Key → UsageEvent → UsageTable → UsageTable
record_usage event_id event t = elim (lookup event_id t) [
  | some _ ↦ t
  | none ↦ insert event_id event t
]

abbrev pub hour_bucket : ℕ → ℕ
hour_bucket moment = moment / 3_600_000

-- UsageCollector._record
unfoldable pub collect : Key → Key → UsageType → ℕ → Key → Key → ℕ → UsageTable → UsageTable
unfolding record_usage total_cost_minor
collect event_id tenant_id usage_type quantity currency resource_id occurred_at t =
    let entry = rate usage_type in
    let event : UsageEvent = record {
      tenant_id = tenant_id;
      usage_type = usage_type;
      quantity = quantity;
      unit_cost_minor = entry.price_per_unit_minor / entry.unit_size;
      total_cost_minor = total_cost_minor entry quantity;
      currency = currency;
      resource_id = resource_id;
      occurred_at_bucket = hour_bucket occurred_at;
      invoice_id = none;
    } in
    if quantity == 0 then t else record_usage event_id event t

-- `math.ceil(duration_ms / 60_000)` minutes of a call.
unfoldable pub handle_call_dispositioned : Key → Key → ℕ → Key → Key → ℕ → UsageTable → UsageTable
unfolding collect
handle_call_dispositioned event_id tenant_id duration_ms currency call_id occurred_at t =
    collect event_id tenant_id call_minute ((duration_ms + 59_999) / 60_000) currency call_id
      occurred_at t

-- The tests of find_uninvoiced on a row.
abbrev pub is_due : Key → ℕ → ℕ → UsageEvent → Bool
is_due tenant_id since until event =
    event.tenant_id == tenant_id
    && (elim event.invoice_id [ none ↦ true | some _ ↦ false ])
    && leb since event.occurred_at_bucket
    && leb event.occurred_at_bucket until

unfoldable pub find_uninvoiced : Key → ℕ → ℕ → UsageTable → UsageTable
find_uninvoiced tenant_id since until [] = []
find_uninvoiced tenant_id since until (e ∷ t) =
    let rest = find_uninvoiced tenant_id since until t in
    if is_due tenant_id since until e.1 then e ∷ rest else rest

unfoldable pub mark_invoiced : Key → List Key → Key → UsageTable → UsageTable
mark_invoiced tenant_id ids invoice_id [] = []
mark_invoiced tenant_id ids invoice_id (e ∷ t) =
    let rest = mark_invoiced tenant_id ids invoice_id t in
    if e.1.tenant_id == tenant_id && contains e.0 ids
    then (e.0, record e.1 { invoice_id = some invoice_id }) ∷ rest
    else e ∷ rest

pub record InvoiceLineItem : Type 0 where
  pub usage_type : Option UsageType
  pub quantity : ℕ
  pub unit_cost_minor : ℕ
  pub total_minor : ℕ

pub record Invoice : Type 0 where
  pub invoice_id : Key
  pub tenant_id : Key
  pub billing_period_start : ℕ
  pub billing_period_end : ℕ
  pub subtotal_minor : ℕ
  pub tax_minor : ℕ
  pub total_minor : ℕ
  pub currency : Key
  pub line_items : List InvoiceLineItem

pub record BillingSubscription : Type 0 where
  pub tenant_id : Key
  pub tier : SubscriptionTier
  pub contract_start : ℕ
  pub contract_end : Option ℕ
  pub base_fee_minor : ℕ
  pub currency : Key
  pub is_active : Bool
