-- ===== src/Policy/Packs/Others.antt =====
-- The packs on access, models, conversations, tenants, billing and campaigns
-- (src/services/policy_engine/packs). Scores are thousandths.
use voice_os.Prelude.{ℕ, Bool, true, false, not, ◌&&◌, none, some, List, [], ◌∷◌, leb, ◌==◌}
use voice_os.Policy.{deny, require, forbid, PolicyRequest, PolicyRule, get_or}
use voice_os.Policy.Packs.{member, is_text}

abbrev pub permission_not_granted : PolicyRequest → Bool
permission_not_granted request = not (member request.action request.context.granted_permissions)

abbrev pub cross_tenant_access : PolicyRequest → Bool
cross_tenant_access request = elim request.context.resource_tenant_id [
  | none ↦ false
  | some owner ↦ elim request.tenant_id [ none ↦ true | some t ↦ not (owner == t) ]
]

abbrev pub permission_required : PolicyRule
permission_required = record {
  rule_id = "AUTHZ-PERMISSION-REQUIRED";
  pack = "authorization";
  domain = "authz";
  condition = permission_not_granted;
  effect = record { outcome = deny; obligations = [] };
  hard_rule = false;
}

abbrev pub tenant_isolation : PolicyRule
tenant_isolation = record {
  rule_id = "AUTHZ-TENANT-ISOLATION";
  pack = "authorization";
  domain = "authz";
  condition = cross_tenant_access;
  effect = record { outcome = forbid; obligations = [] };
  hard_rule = true;
}

abbrev pub authorization_rules : List PolicyRule
authorization_rules = permission_required ∷ tenant_isolation ∷ []

abbrev pub default_human_review_threshold : ℕ
default_human_review_threshold = 900

abbrev pub unverified_fact_claim : PolicyRequest → Bool
unverified_fact_claim request = get_or false request.context.contains_unverified_fact_claim

abbrev pub derived_conflicts_authoritative : PolicyRequest → Bool
derived_conflicts_authoritative request =
    get_or false request.context.derived_state_conflicts_authoritative

abbrev pub high_risk_requires_human : PolicyRequest → Bool
high_risk_requires_human request =
    leb (get_or default_human_review_threshold request.context.human_review_threshold)
      (get_or 0 request.context.risk_score)

abbrev pub no_hallucinated_facts : PolicyRule
no_hallucinated_facts = record {
  rule_id = "AIGOV-NO-HALLUCINATED-FACTS";
  pack = "ai_governance";
  domain = "ai_governance";
  condition = unverified_fact_claim;
  effect = record { outcome = forbid; obligations = [] };
  hard_rule = true;
}

abbrev pub authoritative_data_wins : PolicyRule
authoritative_data_wins = record {
  rule_id = "AIGOV-AUTHORITATIVE-DATA-WINS";
  pack = "ai_governance";
  domain = "ai_governance";
  condition = derived_conflicts_authoritative;
  effect = record { outcome = forbid; obligations = [] };
  hard_rule = true;
}

abbrev pub human_review_for_high_risk : PolicyRule
human_review_for_high_risk = record {
  rule_id = "AIGOV-HUMAN-REVIEW-HIGH-RISK";
  pack = "ai_governance";
  domain = "ai_governance";
  condition = high_risk_requires_human;
  effect = record { outcome = require; obligations = "require_human" ∷ [] };
  hard_rule = true;
}

abbrev pub ai_governance_rules : List PolicyRule
ai_governance_rules =
    no_hallucinated_facts ∷ authoritative_data_wins ∷ human_review_for_high_risk ∷ []

abbrev pub threatening_utterance : PolicyRequest → Bool
threatening_utterance request = is_text request.context.utterance_classification "threatening"

abbrev pub harassing_utterance : PolicyRequest → Bool
harassing_utterance request = is_text request.context.utterance_classification "harassing"

abbrev pub purpose_not_disclosed_at_start : PolicyRequest → Bool
purpose_not_disclosed_at_start request =
    get_or 0 request.context.turn_index == 0 && not (get_or false request.context.purpose_disclosed)

abbrev pub must_not_threaten : PolicyRule
must_not_threaten = record {
  rule_id = "CONV-MUST-NOT-THREATEN";
  pack = "conversational";
  domain = "conversational";
  condition = threatening_utterance;
  effect = record { outcome = forbid; obligations = [] };
  hard_rule = true;
}

abbrev pub must_not_harass : PolicyRule
must_not_harass = record {
  rule_id = "CONV-MUST-NOT-HARASS";
  pack = "conversational";
  domain = "conversational";
  condition = harassing_utterance;
  effect = record { outcome = forbid; obligations = [] };
  hard_rule = true;
}

abbrev pub must_disclose_purpose_at_start : PolicyRule
must_disclose_purpose_at_start = record {
  rule_id = "CONV-MUST-DISCLOSE-PURPOSE";
  pack = "conversational";
  domain = "conversational";
  condition = purpose_not_disclosed_at_start;
  effect = record { outcome = require; obligations = "disclose_call_purpose" ∷ [] };
  hard_rule = true;
}

abbrev pub conversational_rules : List PolicyRule
conversational_rules = must_not_threaten ∷ must_not_harass ∷ must_disclose_purpose_at_start ∷ []

abbrev pub tenant_not_active : PolicyRequest → Bool
tenant_not_active request = not (get_or true request.context.tenant_active)

abbrev pub tenant_must_be_active : PolicyRule
tenant_must_be_active = record {
  rule_id = "SAAS-TENANT-MUST-BE-ACTIVE";
  pack = "saas";
  domain = "tenant";
  condition = tenant_not_active;
  effect = record { outcome = deny; obligations = [] };
  hard_rule = true;
}

abbrev pub saas_rules : List PolicyRule
saas_rules = tenant_must_be_active ∷ []

abbrev pub usage_limit_exceeded : PolicyRequest → Bool
usage_limit_exceeded request = elim request.context.usage_quantity [
  | none ↦ false
  | some quantity ↦ elim request.context.usage_limit [
    | none ↦ false
    | some limit ↦ leb limit quantity
  ]
]

abbrev pub trial_has_expired : PolicyRequest → Bool
trial_has_expired request =
    is_text request.context.tier "TRIAL" && get_or false request.context.trial_expired

abbrev pub usage_limit_rule : PolicyRule
usage_limit_rule = record {
  rule_id = "BILLING-USAGE-LIMIT-EXCEEDED";
  pack = "billing";
  domain = "billing";
  condition = usage_limit_exceeded;
  effect = record { outcome = deny; obligations = [] };
  hard_rule = false;
}

abbrev pub trial_expired_rule : PolicyRule
trial_expired_rule = record {
  rule_id = "BILLING-TRIAL-EXPIRED";
  pack = "billing";
  domain = "billing";
  condition = trial_has_expired;
  effect = record { outcome = deny; obligations = [] };
  hard_rule = true;
}

abbrev pub billing_rules : List PolicyRule
billing_rules = usage_limit_rule ∷ trial_expired_rule ∷ []

abbrev pub campaign_not_reviewed : PolicyRequest → Bool
campaign_not_reviewed request = not (is_text request.context.campaign_status "REVIEW")

abbrev pub campaign_approval_requires_review : PolicyRule
campaign_approval_requires_review = record {
  rule_id = "ADMIN-CAMPAIGN-APPROVAL-REQUIRES-REVIEW";
  pack = "admin";
  domain = "campaign_admin";
  condition = campaign_not_reviewed;
  effect = record { outcome = deny; obligations = [] };
  hard_rule = true;
}

abbrev pub admin_rules : List PolicyRule
admin_rules = campaign_approval_requires_review ∷ []
