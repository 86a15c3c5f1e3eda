-- ===== src/Examples/Rules.antt =====
-- The theorems about policies and billing at concrete requests.
use voice_os.Prelude.{
  ◌+◌, ◌≤◌, ◌<◌, ◌≡◌, ◌≢◌, ◌⊎◌, refl, Key, Option, true, false, ◌&&◌, none, some, [], ◌∷◌, ◌++◌,
  ltb, if◌then◌else◌, map, arith,
}
use voice_os.Policy.{permit, deny, forbid, precedence, PolicyRequest, no_context}
use voice_os.Policy.Engine.{evaluate, PolicyEngine}
use voice_os.Policy.Service.{check_call_admission}
use voice_os.Policy.Restriction.{global_only, added, narrower_restricts}
use voice_os.Policy.Tables.{
  built_in, in_hours, call_admission_table, access, IsGranted, access_table,
}
use voice_os.Billing.{
  trial, starter, call_minute, stt_token, limit_for, UsageEvent, BillingSubscription,
}
use voice_os.Billing.Invoices.{Books}
use voice_os.Billing.Invoices.Once.{Bills, opened, recorded, invoiced, totals, billed, billed_once}
use voice_os.Billing.Limits.{use_up, current_usage, stays_below}

-- Tenant 4 asks to read a resource of tenant 5.
abbrev foreign_read : PolicyRequest
foreign_read = record {
  domain = "authz";
  action = "read";
  subject = 1;
  resource = 2;
  tenant_id = some 4;
  campaign_id = none;
  context = record no_context { granted_permissions = "read" ∷ []; resource_tenant_id = some 5 };
}

-- The tenants activate the rule on permissions a second time.
abbrev tenant_engine : PolicyEngine
tenant_engine = record (built_in true true) {
  source = some (λ scope i. "AUTHZ-PERMISSION-REQUIRED" ∷ []);
}

narrower_restricts_example :
    ((evaluate tenant_engine foreign_read).0.matching
      ≡ (evaluate (global_only tenant_engine) foreign_read).0.matching
        ++ map (λ rule. rule.rule_id) (added tenant_engine foreign_read))
    × (precedence (evaluate (global_only tenant_engine) foreign_read).0.outcome
        ≤ precedence (evaluate tenant_engine foreign_read).0.outcome)
narrower_restricts_example = narrower_restricts tenant_engine foreign_read

call_admission_table_example :
    let d = (check_call_admission (built_in true true) 4 9 1 (some 21) 2).0 in
    (d.outcome ≡ (if in_hours (some 21) && ltb 2 3 then permit else deny))
    × (d.matching
        ≡ (if in_hours (some 21) then [] else "RBI-CALLING-HOURS" ∷ [])
          ++ (if ltb 2 3 then [] else "RBI-CALLING-FREQUENCY" ∷ []))
call_admission_table_example = call_admission_table true true 4 9 1 (some 21) 2

access_table_example :
    let outcome = (evaluate (built_in true true) (access (some 4) none foreign_read)).0.outcome in
    let granted = IsGranted "read" ("read" ∷ []) in
    let tenant_id : Option Key = some 4 in
    ((owner : Key)
      → foreign_read.context.resource_tenant_id ≡ some owner
      → tenant_id ≢ some owner
      → outcome ≡ forbid)
    × ((foreign_read.context.resource_tenant_id ≡ none)
          ⊎ ((owner : Key) × (foreign_read.context.resource_tenant_id ≡ some owner)
              × (tenant_id ≡ some owner))
        → (granted → outcome ≡ permit) × (¬ granted → outcome ≡ deny))
access_table_example = access_table true true (some 4) none foreign_read

trial_minutes : limit_for trial call_minute ≡ some 1_000
unfolding limit_for
trial_minutes = refl

stays_below_example :
    let r =
      use_up
        (built_in false false)
        4
        trial
        call_minute
        (600 ∷ 400 ∷ 300 ∷ [])
        none
        (current_usage none) in
    (current_usage r.0 ≡ r.1) × (r.1 < 1_000)
stays_below_example =
    stays_below false false 4 trial call_minute 1_000 (600 ∷ 400 ∷ 300 ∷ []) none trial_minutes
      (omega arith)

abbrev tokens : UsageEvent
tokens = record {
  tenant_id = 4;
  usage_type = stt_token;
  quantity = 3_000;
  unit_cost_minor = 0;
  total_cost_minor = 1_500;
  currency = 1;
  resource_id = 9;
  occurred_at_bucket = 2;
  invoice_id = none;
}

abbrev starter_plan : BillingSubscription
starter_plan = record {
  tenant_id = 4;
  tier = starter;
  contract_start = 0;
  contract_end = none;
  base_fee_minor = 99_900;
  currency = 1;
  is_active = true;
}

abbrev one_event : Books
one_event = record { usage = (7, tokens) ∷ []; invoices = [] }

-- The event is recorded, and the period is invoiced twice.
twice_invoiced : (b : Books) × Bills (99_900 + (99_900 + 0)) b
twice_invoiced = (
  _,
  invoiced 2 4 0 36_000_000 starter_plan
      (invoiced 1 4 0 36_000_000 starter_plan (recorded 7 tokens opened refl)),
)

billed_once_example :
    totals (twice_invoiced.0).invoices ≡ (99_900 + (99_900 + 0)) + billed (twice_invoiced.0).usage
billed_once_example = billed_once (twice_invoiced.1)
