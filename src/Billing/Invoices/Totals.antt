-- ===== src/Billing/Invoices/Totals.antt =====
-- What an invoice (invoice.py) adds up to.
use voice_os.Prelude.{ℕ, ◌+◌, ◌≡◌, refl, Key, false, List, [], ◌∷◌, ◌++◌, if◌then◌else◌, arith}
use voice_os.Billing.{
  ai_token, api_call, call_minute, gpu_second, llm_token, sms_message, storage_mb, stt_token,
  UsageType, UsageTable, find_uninvoiced, hour_bucket, BillingSubscription, InvoiceLineItem,
  same_type,
}
use voice_os.Billing.Invoices.{
  cost_of, occurs, types_by_value, line_for, usage_lines, base_lines, sum_of, Books,
  generate_invoice,
}

-- The cost of some events, of all types.
abbrev pub cost : UsageTable → ℕ
cost [] = 0
cost (e ∷ t) = e.1.total_cost_minor + cost t

sum_of-append : (xs ys : List InvoiceLineItem) → sum_of (xs ++ ys) ≡ sum_of xs + sum_of ys
sum_of-append [] ys = omega arith
sum_of-append (x ∷ xs) ys = omega (arith, sum_of-append xs ys)

-- A type that does not occur costs nothing.
cost_of-occurs : (u : UsageType) (t : UsageTable) → occurs u t ≡ false → cost_of u t ≡ 0
cost_of-occurs u [] h = refl
cost_of-occurs u (e ∷ t) h = ground (arith, cost_of-occurs u t)

abbrev costs : List UsageType → UsageTable → ℕ
costs [] t = 0
costs (u ∷ us) t = cost_of u t + costs us t

sum_of-usage_lines : (us : List UsageType) (t : UsageTable) → sum_of (usage_lines us t) ≡ costs us t
unfolding usage_lines line_for
sum_of-usage_lines [] t = refl
sum_of-usage_lines (u ∷ us) t = ground (arith, sum_of-usage_lines us t, cost_of-occurs u t)

-- What one event adds to its type.
costs_step :
    (u : UsageType) (c : ℕ) (t : UsageTable)
    → let plus : UsageType → ℕ = λ v. if same_type u v then c + cost_of v t else cost_of v t in
      plus ai_token
        + (plus api_call
            + (plus call_minute
                + (plus gpu_second
                    + (plus llm_token
                        + (plus sms_message + (plus storage_mb + (plus stt_token + 0)))))))
      ≡ c + costs types_by_value t
costs_step ai_token c t = omega arith
costs_step api_call c t = omega arith
costs_step call_minute c t = omega arith
costs_step gpu_second c t = omega arith
costs_step llm_token c t = omega arith
costs_step sms_message c t = omega arith
costs_step storage_mb c t = omega arith
costs_step stt_token c t = omega arith

-- The types are all there, once each.
costs-cost : (t : UsageTable) → costs types_by_value t ≡ cost t
costs-cost [] = refl
costs-cost (e ∷ t) = omega (arith, costs-cost t, costs_step e.1.usage_type e.1.total_cost_minor t)

base_lines-sum : (s : BillingSubscription) → sum_of (base_lines s) ≡ s.base_fee_minor
unfolding base_lines
base_lines-sum s = ground arith

-- The total of an invoice is the base fee and the recorded cost of each uninvoiced event of the
-- period, and is what its lines add up to. Nothing is left out, and nothing is priced again.
pub invoice_adds_up :
    (invoice_id tenant_id : Key) (s : BillingSubscription) (period_start period_end : ℕ) (b : Books)
    → let i = (generate_invoice invoice_id tenant_id s period_start period_end b).0 in
      (i.total_minor
        ≡ s.base_fee_minor
          + cost (
              find_uninvoiced tenant_id
                (hour_bucket period_start)
                (hour_bucket period_end)
                b.usage))
      × (i.total_minor ≡ sum_of i.line_items)
unfolding generate_invoice base_lines
invoice_adds_up i t s from until b =
    let events = find_uninvoiced t (hour_bucket from) (hour_bucket until) b.usage in
    let lines = sum_of-usage_lines types_by_value events in
    let all = costs-cost events in
    let parts = sum_of-append (base_lines s) (usage_lines types_by_value events) in
    (omega (arith, parts, lines, all, base_lines-sum s), omega arith)
