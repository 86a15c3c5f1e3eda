-- ===== src/Policy.antt =====
-- Policies (src/services/policy_engine): outcomes, requests, rules, sets of rules and their
-- inheritance, of decision.py, rule.py, policy_set.py and inheritance.py. The context of a request,
-- a dict, is a record of the entries that a rule reads, `none` where the key is missing.
pub mod Packs
pub mod Engine
pub mod Service
pub mod Restriction
pub mod Tables
use Prim.Native.String.{String}
use text.Mathlib.Text.{◌==◌ as str_eq}
use voice_os.Prelude.{
  ℕ, Key, Bool, Option, none, some, List, [], ◌∷◌, ◌++◌, ltb, if◌then◌else◌, keep,
}

pub data PolicyOutcome : Type 0 where
  permit deny require forbid : PolicyOutcome

-- _PRECEDENCE
abbrev pub precedence : PolicyOutcome → ℕ
precedence forbid = 3
precedence deny = 2
precedence require = 1
precedence permit = 0

-- The loop of most_restrictive, from the best so far.
unfoldable pub best_of : PolicyOutcome → List PolicyOutcome → PolicyOutcome
best_of best [] = best
best_of best (outcome ∷ outcomes) =
    best_of (if ltb (precedence best) (precedence outcome) then outcome else best) outcomes

unfoldable pub most_restrictive : List PolicyOutcome → PolicyOutcome
unfolding best_of
most_restrictive outcomes = best_of permit outcomes

pub record Context : Type 0 where
  pub hour : Option ℕ
  pub calls_today_count : Option ℕ
  pub utterance_classification : Option String
  pub identity_verified : Option Bool
  pub turn_index : Option ℕ
  pub disclosure_given : Option Bool
  pub recording_consent : Option Bool
  pub has_consent : Option Bool
  pub erasure_requested : Option Bool
  pub purpose : Option Key
  pub consented_purposes : List Key
  pub retention_limit_days : Option ℕ
  pub data_age_days : Option ℕ
  pub granted_permissions : List String
  pub resource_tenant_id : Option Key
  pub contains_unverified_fact_claim : Option Bool
  pub derived_state_conflicts_authoritative : Option Bool
  pub human_review_threshold : Option ℕ
  pub risk_score : Option ℕ
  pub purpose_disclosed : Option Bool
  pub tenant_active : Option Bool
  pub usage_quantity : Option ℕ
  pub usage_limit : Option ℕ
  pub tier : Option String
  pub trial_expired : Option Bool
  pub campaign_status : Option String

abbrev pub no_context : Context
no_context = record {
  hour = none;
  calls_today_count = none;
  utterance_classification = none;
  identity_verified = none;
  turn_index = none;
  disclosure_given = none;
  recording_consent = none;
  has_consent = none;
  erasure_requested = none;
  purpose = none;
  consented_purposes = [];
  retention_limit_days = none;
  data_age_days = none;
  granted_permissions = [];
  resource_tenant_id = none;
  contains_unverified_fact_claim = none;
  derived_state_conflicts_authoritative = none;
  human_review_threshold = none;
  risk_score = none;
  purpose_disclosed = none;
  tenant_active = none;
  usage_quantity = none;
  usage_limit = none;
  tier = none;
  trial_expired = none;
  campaign_status = none;
}

-- `context.get(key, default)`
abbrev pub get_or : {A : Type 0} → A → Option A → A
get_or d none = d
get_or d (some a) = a

pub record PolicyRequest : Type 0 where
  pub domain : String
  pub action : String
  pub subject : Key
  pub resource : Key
  pub tenant_id : Option Key
  pub campaign_id : Option Key
  pub context : Context

pub record PolicyEffect : Type 0 where
  pub outcome : PolicyOutcome
  pub obligations : List String

pub record PolicyRule : Type 0 where
  pub rule_id : String
  pub pack : String
  pub domain : String
  pub condition : PolicyRequest → Bool
  pub effect : PolicyEffect
  pub hard_rule : Bool

-- PolicyRule.matches and .decide
unfoldable pub matches : PolicyRule → PolicyRequest → Bool
matches rule request = rule.condition request

unfoldable pub decide : PolicyRule → PolicyRequest → PolicyOutcome
unfolding matches
decide rule request = if matches rule request then rule.effect.outcome else permit

pub record PolicySet : Type 0 where
  pub scope : String
  pub scope_id : Option Key
  pub rules : List PolicyRule
  pub version : Key

-- PolicySet.matching_rules
unfoldable pub matching_rules : PolicySet → PolicyRequest → List PolicyRule
unfolding matches
matching_rules s request = keep (λ rule. matches rule request) s.rules

abbrev pub rules_of : Option PolicySet → List PolicyRule
rules_of none = []
rules_of (some s) = s.rules

-- PolicyInheritance.resolve: the loop over the three sets.
unfoldable pub resolve : Option PolicySet → Option PolicySet → Option PolicySet → List PolicyRule
resolve global_set tenant_set campaign_set =
    rules_of global_set ++ (rules_of tenant_set ++ rules_of campaign_set)

pub record PolicyDecision : Type 0 where
  pub outcome : PolicyOutcome
  pub matching : List String
  pub policy_version : Key
  pub obligations : List String
