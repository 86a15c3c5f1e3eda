-- ===== src/Billing/Invoices.antt =====
-- Invoices (src/services/billing: invoice.py, subscription.py and service.py). Generating an invoice is
-- one step; its identifier, made by uuid4, is an argument.
pub mod Totals
pub mod Once
use voice_os.Prelude.{
  ℕ, ◌+◌, ◌*◌, ◌/◌, Key, Bool, true, false, Option, none, some, List, [], ◌∷◌, ◌++◌, ltb, leb, ◌==◌,
  if◌then◌else◌, Result, ok, err,
}
use voice_os.Prelude.Dict.{Dict, lookup, insert, keys}
use voice_os.Billing.{
  SubscriptionTier, trial, UsageType, ai_token, api_call, call_minute, gpu_second, llm_token,
  sms_message, storage_mb, stt_token, same_type, base_fee, UsageEvent, UsageTable, hour_bucket,
  find_uninvoiced, mark_invoiced, InvoiceLineItem, Invoice, BillingSubscription,
}

unfoldable pub create_subscription :
    Key → SubscriptionTier → ℕ → Option ℕ → Option ℕ → Key → BillingSubscription
create_subscription tenant_id tier contract_start contract_end base_fee_minor currency = record {
  tenant_id = tenant_id;
  tier = tier;
  contract_start = contract_start;
  contract_end = contract_end;
  base_fee_minor = elim base_fee_minor [ none ↦ base_fee tier | some fee ↦ fee ];
  currency = currency;
  is_active = true;
}

-- TRIAL_MAX_DAYS, in milliseconds
abbrev pub trial_max : ℕ
trial_max = 30 * 86_400_000

unfoldable pub is_trial_expired : BillingSubscription → ℕ → Bool
is_trial_expired subscription now = elim subscription.tier [
  | trial ↦ leb (subscription.contract_start + trial_max) now
  | _ ↦ false
]

-- `quantities[t]` and `totals[t]` after the loop, and whether the type occurs.
abbrev pub quantity_of : UsageType → UsageTable → ℕ
quantity_of u [] = 0
quantity_of u (e ∷ t) =
    let rest = quantity_of u t in if same_type e.1.usage_type u then e.1.quantity + rest else rest

abbrev pub cost_of : UsageType → UsageTable → ℕ
cost_of u [] = 0
cost_of u (e ∷ t) =
    let rest = cost_of u t in
    if same_type e.1.usage_type u then e.1.total_cost_minor + rest else rest

abbrev pub occurs : UsageType → UsageTable → Bool
occurs u [] = false
occurs u (e ∷ t) = if same_type e.1.usage_type u then true else occurs u t

-- The types in the order of their values.
abbrev pub types_by_value : List UsageType
types_by_value =
    ai_token ∷ api_call ∷ call_minute ∷ gpu_second ∷ llm_token ∷ sms_message ∷ storage_mb
    ∷ stt_token ∷ []

unfoldable pub line_for : UsageType → UsageTable → InvoiceLineItem
line_for u events =
    let quantity = quantity_of u events in
    let total = cost_of u events in
    record {
      usage_type = some u;
      quantity = quantity;
      unit_cost_minor = if quantity == 0 then 0 else total / quantity;
      total_minor = total;
    }

unfoldable pub usage_lines : List UsageType → UsageTable → List InvoiceLineItem
unfolding line_for
usage_lines [] events = []
usage_lines (u ∷ us) events =
    let rest = usage_lines us events in if occurs u events then line_for u events ∷ rest else rest

unfoldable pub base_lines : BillingSubscription → List InvoiceLineItem
base_lines subscription =
    if ltb 0 subscription.base_fee_minor
    then record {
      usage_type = none;
      quantity = 1;
      unit_cost_minor = subscription.base_fee_minor;
      total_minor = subscription.base_fee_minor;
    }
      ∷ []
    else []

abbrev pub sum_of : List InvoiceLineItem → ℕ
sum_of [] = 0
sum_of (line ∷ lines) = line.total_minor + sum_of lines

-- What the repositories hold, and generate_invoice with them.
pub record Books : Type 0 where
  pub usage : UsageTable
  pub invoices : List Invoice

unfoldable pub generate_invoice : Key → Key → BillingSubscription → ℕ → ℕ → Books → Invoice × Books
unfolding find_uninvoiced mark_invoiced usage_lines base_lines
generate_invoice invoice_id tenant_id subscription period_start period_end b =
    let events =
      find_uninvoiced tenant_id (hour_bucket period_start) (hour_bucket period_end) b.usage in
    let lines = base_lines subscription ++ usage_lines types_by_value events in
    let subtotal = sum_of lines in
    let invoice : Invoice = record {
      invoice_id = invoice_id;
      tenant_id = tenant_id;
      billing_period_start = period_start;
      billing_period_end = period_end;
      subtotal_minor = subtotal;
      tax_minor = 0;
      total_minor = subtotal + 0;
      currency = subscription.currency;
      line_items = lines;
    } in
    let ids = keys events in
    let usage : UsageTable = elim ids [
      | [] ↦ b.usage
      | k ∷ ks ↦ mark_invoiced tenant_id (k ∷ ks) invoice_id b.usage
    ] in
    (invoice, record { usage = usage; invoices = invoice ∷ b.invoices })

pub data BillingError : Type 0 where
  value_error : BillingError

-- BillingService.generate_monthly_invoice
unfoldable pub generate_monthly_invoice :
    Key → Key → ℕ → ℕ → Dict BillingSubscription → Books → Result BillingError Invoice × Books
unfolding generate_invoice
generate_monthly_invoice invoice_id tenant_id period_start period_end subscriptions b =
    elim (lookup tenant_id subscriptions) [
      | none ↦ (err value_error, b)
      | some subscription ↦
          let (invoice, b') =
            generate_invoice invoice_id tenant_id subscription period_start period_end b in
          (ok invoice, b')
    ]
