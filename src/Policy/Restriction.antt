-- ===== src/Policy/Restriction.antt =====
-- Outcomes and narrower scopes (decision.py, inheritance.py and engine.py of
-- src/services/policy_engine).
use text.Mathlib.Text.{◌==◌ as str_eq}
use mathlib.Core.List.{append-nil, map-append}
use voice_os.Prelude.{
  ◌≤◌, ◌≡◌, ◌⊎◌, refl, ap, ◌∙◌, Key, Bool, ◌&&◌, Option, none, some, List, [], ◌∷◌, ◌++◌, ltb,
  if◌then◌else◌, keep, map, All, Among, arith, Bool-cases, Option-cases, inl, inr,
}
use voice_os.Policy.{
  PolicyOutcome, permit, precedence, best_of, most_restrictive, PolicyRequest, PolicyRule, matches,
  resolve, rules_of,
}
use voice_os.Policy.Engine.{
  PolicyEngine, load_active_rule_ids_from_source, load_policy_set, set_for, applicable, evaluate,
}

-- The better of two, as the loop has it.
abbrev next : PolicyOutcome → PolicyOutcome → PolicyOutcome
next best x = if ltb (precedence best) (precedence x) then x else best

next-bound :
    (best x : PolicyOutcome)
    → (precedence best ≤ precedence (next best x)) × (precedence x ≤ precedence (next best x))
next-bound best x = ground arith

next-either : (best x : PolicyOutcome) → (next best x ≡ best) ⊎ (next best x ≡ x)
next-either best x = elim (Bool-cases (ltb (precedence best) (precedence x))) [
  | inl more ↦ inr (rw more refl)
  | inr less ↦ inl (rw less refl)
]

best_of-append :
    (xs ys : List PolicyOutcome) (best : PolicyOutcome)
    → best_of best (xs ++ ys) ≡ best_of (best_of best xs) ys
unfolding best_of
best_of-append [] ys best = refl
best_of-append (x ∷ xs) ys best = best_of-append xs ys (next best x)

best_of-ge :
    (xs : List PolicyOutcome) (best : PolicyOutcome)
    → precedence best ≤ precedence (best_of best xs)
unfolding best_of
best_of-ge [] best = omega arith
best_of-ge (x ∷ xs) best = omega (arith, best_of-ge xs (next best x), (next-bound best x).0)

-- The result is as restrictive as each of the outcomes.
best_of-bound :
    (xs : List PolicyOutcome) (best : PolicyOutcome)
    → All (λ o. precedence o ≤ precedence (best_of best xs)) xs
unfolding best_of
best_of-bound [] best = tt
best_of-bound (x ∷ xs) best = (
  omega (arith, best_of-ge xs (next best x), (next-bound best x).1),
  best_of-bound xs (next best x),
)

best_of-Among :
    (xs : List PolicyOutcome) (best : PolicyOutcome)
    → (best_of best xs ≡ best) ⊎ Among (best_of best xs) xs
unfolding best_of
best_of-Among [] best = inl refl
best_of-Among (x ∷ xs) best = elim (best_of-Among xs (next best x)) [
  | inr m ↦ inr (inr m)
  | inl e ↦ elim (next-either best x) [ inl old ↦ inl (e ∙ old) | inr new ↦ inr (inl (e ∙ new)) ]
]

-- PERMIT if there is no rule, and else the outcome of one of them, with none more restrictive.
pub most_restrictive_max :
    (outcomes : List PolicyOutcome)
    → ((most_restrictive outcomes ≡ permit) ⊎ Among (most_restrictive outcomes) outcomes)
      × All (λ o. precedence o ≤ precedence (most_restrictive outcomes)) outcomes
unfolding most_restrictive
most_restrictive_max outcomes = (best_of-Among outcomes permit, best_of-bound outcomes permit)

-- The engine without what tenants and campaigns add.
abbrev pub global_only : PolicyEngine → PolicyEngine
global_only e = record e {
  source = some (λ scope scope_id.
      if str_eq scope "global" then load_active_rule_ids_from_source e scope scope_id else []);
  cached = λ scope scope_id. if str_eq scope "global" then e.cached scope scope_id else none;
}

keep-append {ℓ} :
    {A : Type ℓ} (test : A → Bool) (xs ys : List A)
    → keep test (xs ++ ys) ≡ keep test xs ++ keep test ys
keep-append test [] ys = refl
keep-append test (x ∷ xs) ys = elim (Bool-cases (test x)) [
  | inl e ↦ rw e (ap (λ zs. x ∷ zs) (keep-append test xs ys))
  | inr e ↦ rw e (keep-append test xs ys)
]

-- The rules that a tenant and a campaign add.
abbrev pub added : PolicyEngine → PolicyRequest → List PolicyRule
added e request =
    keep (λ rule. str_eq rule.domain request.domain && matches rule request)
      (resolve none (set_for e "tenant" request.tenant_id)
        (set_for e "campaign" request.campaign_id))

-- The global rules are the same, and there are no others.
global_rules :
    (e : PolicyEngine)
    → (load_policy_set (global_only e) "global" none).rules
      ≡ (load_policy_set e "global" none).rules
unfolding load_policy_set load_active_rule_ids_from_source
global_rules e = elim (Option-cases (e.cached "global" none)) [
  | inl c ↦ rw (load_policy_set, c) refl
  | inr (ids, c) ↦ rw (load_policy_set, c) refl
]

no_tenant_rules :
    (e : PolicyEngine) (i : Option Key) → rules_of (set_for (global_only e) "tenant" i) ≡ []
unfolding load_policy_set load_active_rule_ids_from_source
no_tenant_rules e none = refl
no_tenant_rules e (some i) = refl

no_campaign_rules :
    (e : PolicyEngine) (i : Option Key) → rules_of (set_for (global_only e) "campaign" i) ≡ []
unfolding load_policy_set load_active_rule_ids_from_source
no_campaign_rules e none = refl
no_campaign_rules e (some i) = refl

applicable-global_only :
    (e : PolicyEngine) (request : PolicyRequest)
    → applicable e request ≡ applicable (global_only e) request ++ added e request
unfolding applicable resolve
applicable-global_only e request =
    rw
      (
        global_rules e,
        no_tenant_rules e request.tenant_id,
        no_campaign_rules e request.campaign_id,
        append-nil,
      )
      (keep-append _ (load_policy_set e "global" none).rules _)

abbrev outcome_of : List PolicyRule → PolicyOutcome
outcome_of rules = most_restrictive (map (λ rule. rule.effect.outcome) rules)

outcome-append :
    (rules more : List PolicyRule)
    → precedence (outcome_of rules) ≤ precedence (outcome_of (rules ++ more))
unfolding most_restrictive
outcome-append rules more =
    let outcomes = map (λ rule. rule.effect.outcome) rules in
    rw
      (
        map-append (λ (rule : PolicyRule). rule.effect.outcome) rules more,
        best_of-append outcomes _ permit,
      )
      (best_of-ge (map (λ rule. rule.effect.outcome) more) (best_of permit outcomes))

-- What a tenant and a campaign activate never loosens a decision: the rules that match are those
-- of the global scope and more, and the outcome is at least as restrictive.
pub narrower_restricts :
    (e : PolicyEngine) (request : PolicyRequest)
    → ((evaluate e request).0.matching
        ≡ (evaluate (global_only e) request).0.matching
          ++ map (λ rule. rule.rule_id) (added e request))
      × (precedence (evaluate (global_only e) request).0.outcome
          ≤ precedence (evaluate e request).0.outcome)
unfolding evaluate most_restrictive
narrower_restricts e request =
    let more = applicable-global_only e request in
    (
      ap (λ rules. map (λ (rule : PolicyRule). rule.rule_id) rules) more
          ∙ map-append (λ (rule : PolicyRule). rule.rule_id) (applicable (global_only e) request)
              (added e request),
      rw (ap outcome_of more)
          (outcome-append (applicable (global_only e) request) (added e request)),
    )
