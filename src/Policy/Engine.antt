-- ===== src/Policy/Engine.antt =====
-- PolicyEngine and BreakGlassPolicy (engine.py and break_glass.py of src/services/policy_engine). The repository of active rules and the cache are parameters: `source`
-- is what load_active_rule_ids answers, if there is a repository, and `cached` what the cache holds.
use Prim.Native.String.{String}
use text.Mathlib.Text.{◌==◌ as str_eq}
use voice_os.Prelude.{
  ℕ, ◌+◌, Key, Bool, true, false, ◌&&◌, Option, none, some, List, [], ◌∷◌, ◌++◌, ltb, if◌then◌else◌,
  keep, map, length, contains,
}
use voice_os.Policy.{
  PolicyOutcome, permit, deny, most_restrictive, PolicyRequest, PolicyRule, PolicySet,
  PolicyDecision, matches, resolve,
}
use voice_os.Policy.Packs.{member, rbi_rules, dpdp_rules}
use voice_os.Policy.Packs.Others.{
  authorization_rules, ai_governance_rules, conversational_rules, saas_rules, billing_rules,
  admin_rules,
}

-- A registry in the order of registration; no two rules of the packs have the same identifier.
abbrev pub default_registry : List PolicyRule
default_registry =
    rbi_rules
    ++ (dpdp_rules
        ++ (authorization_rules
            ++ (ai_governance_rules
                ++ (conversational_rules ++ (saas_rules ++ (billing_rules ++ admin_rules))))))

abbrev pub registered : String → List PolicyRule → Option PolicyRule
registered rule_id [] = none
registered rule_id (rule ∷ rules) =
    if str_eq rule.rule_id rule_id then some rule else registered rule_id rules

-- `tuple(self._registry[rid] for rid in rule_ids if rid in self._registry)`
abbrev pub rules_named : List PolicyRule → List String → List PolicyRule
rules_named registry [] = []
rules_named registry (rule_id ∷ ids) =
    let rest = rules_named registry ids in
    elim (registered rule_id registry) [ none ↦ rest | some rule ↦ rule ∷ rest ]

pub record PolicyEngine : Type 0 where
  pub source : Option (String → Option Key → List String)
  pub cached : String → Option Key → Option (List String)
  pub has_publisher : Bool
  pub has_audit : Bool
  pub required_approvals : ℕ
  pub max_ttl : ℕ
  pub policy_version : Key
  pub registry : List PolicyRule

-- What is published, and what is written to the audit log.
pub data Record : Type 0 where
  decision_made audited : (tenant_id : Key) → PolicyRequest → PolicyDecision → Record

unfoldable pub load_active_rule_ids_from_source : PolicyEngine → String → Option Key → List String
load_active_rule_ids_from_source e scope scope_id = elim e.source [
  | some load ↦ load scope scope_id
  | none ↦ if str_eq scope "global" then map (λ rule. rule.rule_id) e.registry else []
]

unfoldable pub load_policy_set : PolicyEngine → String → Option Key → PolicySet
unfolding load_active_rule_ids_from_source
load_policy_set e scope scope_id =
    let rule_ids : List String = elim (e.cached scope scope_id) [
      | some ids ↦ ids
      | none ↦ load_active_rule_ids_from_source e scope scope_id
    ] in
    record {
      scope = scope;
      scope_id = scope_id;
      rules = rules_named e.registry rule_ids;
      version = e.policy_version;
    }

-- `dict.fromkeys(...)`: each once, in order.
abbrev pub distinct_from : List String → List String → List String
distinct_from seen [] = []
distinct_from seen (x ∷ xs) =
    let fresh = distinct_from (x ∷ seen) xs in
    let rest = distinct_from seen xs in if member x seen then rest else x ∷ fresh

abbrev pub obligations_of : List PolicyRule → List String
obligations_of [] = []
obligations_of (rule ∷ rules) = rule.effect.obligations ++ obligations_of rules

abbrev pub is_audited : PolicyOutcome → Bool
is_audited permit = false
is_audited _ = true

unfoldable pub audit : PolicyEngine → PolicyRequest → PolicyDecision → List Record
audit e request decision = elim request.tenant_id [
  | none ↦ []
  | some tenant_id ↦
      (if e.has_publisher then decision_made tenant_id request decision ∷ [] else [])
      ++ (if e.has_audit then audited tenant_id request decision ∷ [] else [])
]

abbrev pub set_for : PolicyEngine → String → Option Key → Option PolicySet
set_for e scope none = none
set_for e scope (some i) = some (load_policy_set e scope (some i))

-- The rules that speak to a request.
unfoldable pub applicable : PolicyEngine → PolicyRequest → List PolicyRule
unfolding load_policy_set resolve matches
applicable e request =
    keep (λ rule. str_eq rule.domain request.domain && matches rule request)
      (resolve (some (load_policy_set e "global" none)) (set_for e "tenant" request.tenant_id)
        (set_for e "campaign" request.campaign_id))

unfoldable pub evaluate : PolicyEngine → PolicyRequest → PolicyDecision × List Record
unfolding applicable most_restrictive audit
evaluate e request =
    let matched = applicable e request in
    let outcome = most_restrictive (map (λ rule. rule.effect.outcome) matched) in
    let decision : PolicyDecision = record {
      outcome = outcome;
      matching = map (λ rule. rule.rule_id) matched;
      policy_version = e.policy_version;
      obligations = distinct_from [] (obligations_of matched);
    } in
    (decision, if is_audited outcome then audit e request decision else [])

pub record BreakGlassDirective : Type 0 where
  pub rule_id : String
  pub approvers : List Key
  pub requested_at : ℕ

-- `set(directive.approvers)`
abbrev pub distinct : List Key → List Key
distinct [] = []
distinct (k ∷ ks) = let rest = distinct ks in if contains k ks then rest else k ∷ rest

unfoldable pub authorize : PolicyEngine → BreakGlassDirective → ℕ → PolicyDecision
authorize e directive now =
    let denied : PolicyDecision = record {
      outcome = deny;
      matching = directive.rule_id ∷ [];
      policy_version = 1;
      obligations = [];
    } in
    if ltb (length (distinct directive.approvers)) e.required_approvals
    then denied
    else if ltb (directive.requested_at + e.max_ttl) now
    then denied
    else record {
      outcome = permit;
      matching = directive.rule_id ∷ [];
      policy_version = 1;
      obligations = "log" ∷ "require_human_review" ∷ [];
    }

unfoldable pub emergency_override :
    PolicyEngine → BreakGlassDirective → PolicyRequest → ℕ → PolicyDecision × List Record
unfolding authorize audit
emergency_override e directive request now =
    let decision = authorize e directive now in (decision, audit e request decision)
