-- ===== src/Billing/Limits.antt =====
-- Entitlements and usage limits: EntitlementEngine (src/services/billing/entitlement.py) and
-- UsageLimitEnforcer (src/services/metering/enforcer.py), which ask the policy engine. The counter of a
-- tenant, type and period is what GET reads under its key, while it has not expired.
use voice_os.Prelude.{
  ℕ, ◌+◌, ◌<◌, ◌≡◌, refl, ◌∙◌, ap, sym, Key, Bool, true, false, not, ◌&&◌, Option, none, some, List,
  [], ◌∷◌, ltb, if◌then◌else◌, arith, Bool-cases, inl, inr,
}
use voice_os.Policy.{PolicyOutcome, permit, PolicyDecision, most_restrictive}
use voice_os.Policy.Engine.{PolicyEngine}
use voice_os.Policy.Service.{check_entitlement}
use voice_os.Policy.Tables.{built_in}
use voice_os.Billing.{
  SubscriptionTier, trial, starter, growth, enterprise, enterprise_plus, tier_value, UsageType,
  type_order, limit_for,
}

abbrev pub is_permit : PolicyOutcome → Bool
is_permit permit = true
is_permit _ = false

unfoldable pub check_usage :
    PolicyEngine → Key → SubscriptionTier → UsageType → ℕ → Bool → PolicyDecision
unfolding limit_for check_entitlement
check_usage e tenant_id tier usage_type current_period_quantity trial_expired =
    (check_entitlement e tenant_id (type_order usage_type) (tier_value tier)
      (some current_period_quantity) (limit_for tier usage_type) trial_expired 0).0

unfoldable pub is_permitted : PolicyEngine → Key → SubscriptionTier → UsageType → ℕ → Bool → Bool
unfolding check_usage
is_permitted e tenant_id tier usage_type current_period_quantity trial_expired =
    is_permit
      (check_usage e tenant_id tier usage_type current_period_quantity trial_expired).outcome

-- UsageLimitEnforcer.current_usage and .check_and_allow
abbrev pub current_usage : Option ℕ → ℕ
current_usage none = 0
current_usage (some n) = n

unfoldable pub check_and_allow :
    PolicyEngine → Key → SubscriptionTier → UsageType → ℕ → Bool → Option ℕ → Bool × Option ℕ
unfolding check_usage
check_and_allow e tenant_id tier usage_type quantity trial_expired counter =
    let projected = current_usage counter + quantity in
    if is_permit (check_usage e tenant_id tier usage_type projected trial_expired).outcome
    then (true, some projected)
    else (false, counter)

-- Is a quantity below the limit.
abbrev pub below : ℕ → Option ℕ → Bool
below quantity none = true
below quantity (some limit) = ltb quantity limit

abbrev pub is_trial : SubscriptionTier → Bool
is_trial trial = true
is_trial _ = false

-- The outcome for any limit.
outcome-limit :
    (p a : Bool) (tenant_id feature : Key) (tier : SubscriptionTier) (quantity : ℕ)
    (limit : Option ℕ) (trial_expired : Bool)
    → is_permit
        (check_entitlement
          (built_in p a)
          tenant_id
          feature
          (tier_value tier)
          (some quantity)
          limit
          trial_expired
          0).0.outcome
      ≡ (below quantity limit && not (is_trial tier && trial_expired))
unfolding check_entitlement most_restrictive
outcome-limit p a t f trial q none e = ground arith
outcome-limit p a t f trial q (some limit) e = ground arith
outcome-limit p a t f starter q none e = ground arith
outcome-limit p a t f starter q (some limit) e = ground arith
outcome-limit p a t f growth q none e = ground arith
outcome-limit p a t f growth q (some limit) e = ground arith
outcome-limit p a t f enterprise q none e = ground arith
outcome-limit p a t f enterprise q (some limit) e = ground arith
outcome-limit p a t f enterprise_plus q none e = ground arith
outcome-limit p a t f enterprise_plus q (some limit) e = ground arith

-- With the built-in rules, use is permitted while it is below the limit of the tier, except on a trial
-- that has expired.
pub entitlement_table :
    (p a : Bool) (tenant_id : Key) (tier : SubscriptionTier) (u : UsageType) (quantity : ℕ)
    (trial_expired : Bool)
    → is_permitted (built_in p a) tenant_id tier u quantity trial_expired
      ≡ (below quantity (limit_for tier u) && not (is_trial tier && trial_expired))
unfolding is_permitted check_usage
entitlement_table p a t tier u q e = outcome-limit p a t (type_order u) tier q (limit_for tier u) e

-- Requests for units of one type in one period, and the counter after them with the units that were
-- allowed.
abbrev pub use_up :
    PolicyEngine → Key → SubscriptionTier → UsageType → List ℕ → Option ℕ → ℕ → Option ℕ × ℕ
use_up e t tier u [] counter used = (counter, used)
use_up e t tier u (quantity ∷ quantities) counter used =
    let (allowed, counter') = check_and_allow e t tier u quantity false counter in
    use_up e t tier u quantities counter' (if allowed then used + quantity else used)

permits :
    (p a : Bool) (t : Key) (tier : SubscriptionTier) (u : UsageType) (quantity : ℕ)
    → is_permit (check_usage (built_in p a) t tier u quantity false).outcome
      ≡ below quantity (limit_for tier u)
unfolding check_usage
permits p a t tier u quantity =
    outcome-limit p a t (type_order u) tier quantity (limit_for tier u) false ∙ ground arith

-- One request: what is below the limit is allowed, and what is allowed is counted.
check_and_allow-below :
    (p a : Bool) (t : Key) (tier : SubscriptionTier) (u : UsageType) (quantity : ℕ)
    (counter : Option ℕ)
    → let r = check_and_allow (built_in p a) t tier u quantity false counter in
      (r.0 ≡ below (current_usage counter + quantity) (limit_for tier u))
      × (current_usage r.1
          ≡ (if r.0 then current_usage counter + quantity else current_usage counter))
unfolding check_and_allow
check_and_allow-below p a t tier u quantity counter =
    let table = permits p a t tier u (current_usage counter + quantity) in
    elim (Bool-cases (below (current_usage counter + quantity) (limit_for tier u))) [
      | inl yes_below ↦ rw (check_and_allow, table, yes_below) (refl, refl)
      | inr too_many ↦ rw (check_and_allow, table, too_many) (refl, refl)
    ]

stays_from :
    (p a : Bool) (t : Key) (tier : SubscriptionTier) (u : UsageType) (limit : ℕ)
    (quantities : List ℕ) (counter : Option ℕ) (used : ℕ)
    → limit_for tier u ≡ some limit
    → used ≡ current_usage counter
    → used < limit
    → let r = use_up (built_in p a) t tier u quantities counter used in
      (current_usage r.0 ≡ r.1) × (r.1 < limit)
stays_from p a t tier u limit [] counter used h e l = (sym e, l)
stays_from p a t tier u limit (quantity ∷ quantities) counter used h e l =
    let (allowed, counted) = check_and_allow-below p a t tier u quantity counter in
    let r = check_and_allow (built_in p a) t tier u quantity false counter in
    let allowed' : r.0 ≡ ltb (current_usage counter + quantity) limit =
      allowed ∙ ap (below (current_usage counter + quantity)) h in
    let next = if r.0 then used + quantity else used in
    let same : next ≡ current_usage r.1 = rw (counted, e) refl in
    let small : next < limit = rw allowed' (ground (arith, e, l)) in
    stays_from p a t tier u limit quantities r.1 next h same small

-- From a counter below the limit, in one process: whatever is asked for, the counter is what was used
-- before and the units that were allowed, and it stays below the limit. The units that would reach the
-- limit are never allowed.
pub stays_below :
    (p a : Bool) (t : Key) (tier : SubscriptionTier) (u : UsageType) (limit : ℕ)
    (quantities : List ℕ) (counter : Option ℕ)
    → limit_for tier u ≡ some limit
    → current_usage counter < limit
    → let r = use_up (built_in p a) t tier u quantities counter (current_usage counter) in
      (current_usage r.0 ≡ r.1) × (r.1 < limit)
stays_below p a t tier u limit quantities counter h l =
    stays_from p a t tier u limit quantities counter (current_usage counter) h refl l
