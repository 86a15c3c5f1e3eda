-- ===== src/Policy/Tables.antt =====
-- The decisions of the built-in rules (engine.py, service.py and the packs of
-- src/services/policy_engine), with no repository of active rules and an empty cache.
use Prim.Native.String.{String}
use text.Mathlib.Text.{◌==◌ as str_eq}
use voice_os.Prelude.{
  ℕ, ◌≡◌, ◌≢◌, ◌⊎◌, inl, inr, refl, ap, sym, ◌∙◌, Key, Bool, Bool-cases, true, false, ◌&&◌, Option,
  none, some, List, [], ◌∷◌, ◌++◌, ltb, leb, ◌==◌, ==_iff, if◌then◌else◌, arith,
}
use voice_os.Policy.{permit, deny, forbid, most_restrictive, PolicyRequest, get_or}
use voice_os.Policy.Packs.{member}
use voice_os.Policy.Packs.Others.{cross_tenant_access, permission_not_granted}
use voice_os.Policy.Engine.{PolicyEngine, default_registry, evaluate}
use voice_os.Policy.Service.{check_call_admission}

abbrev pub built_in : Bool → Bool → PolicyEngine
built_in has_publisher has_audit = record {
  source = none;
  cached = λ scope scope_id. none;
  has_publisher = has_publisher;
  has_audit = has_audit;
  required_approvals = 2;
  max_ttl = 60;
  policy_version = 1;
  registry = default_registry;
}

abbrev pub in_hours : Option ℕ → Bool
in_hours hour = leb 8 (get_or 12 hour) && ltb (get_or 12 hour) 20

-- A call is admitted from 8 to 20 o'clock and as one of the first three of the day; a request
-- without an hour counts as 12 o'clock. The decision names the rules that deny it.
pub call_admission_table :
    (p a : Bool) (tenant_id call_id subject : Key) (hour : Option ℕ) (calls_today_count : ℕ)
    → let d =
        (check_call_admission (built_in p a) tenant_id call_id subject hour calls_today_count).0 in
      (d.outcome ≡ (if in_hours hour && ltb calls_today_count 3 then permit else deny))
      × (d.matching
          ≡ (if in_hours hour then [] else "RBI-CALLING-HOURS" ∷ [])
            ++ (if ltb calls_today_count 3 then [] else "RBI-CALLING-FREQUENCY" ∷ []))
unfolding check_call_admission most_restrictive
call_admission_table p a t c s none calls = ground arith
call_admission_table p a t c s (some hour) calls = ground arith

-- A request for access, from its tenant and campaign.
abbrev pub access : Option Key → Option Key → PolicyRequest → PolicyRequest
access tenant_id campaign_id request = record request {
  domain = "authz";
  tenant_id = tenant_id;
  campaign_id = campaign_id;
}

-- One of the names is the action, as texts.
abbrev pub IsGranted : String → List String → Type 0
IsGranted action [] = ⊥
IsGranted action (name ∷ names) = (str_eq action name ≡ true) ⊎ IsGranted action names

IsGranted-member :
    (action : String) (names : List String)
    → ((member action names ≡ true) × IsGranted action names)
      ⊎ ((member action names ≡ false) × (¬ IsGranted action names))
IsGranted-member action [] = inr (refl, λ m. m)
IsGranted-member action (name ∷ names) = elim (Bool-cases (str_eq action name)) [
  | inl same ↦ inl (rw same refl, inl same)
  | inr other ↦ elim (IsGranted-member action names) [
    | inl (found, m) ↦ inl (rw (other, found) refl, inr m)
    | inr (missing, apart) ↦
        inr (rw (other, missing) refl, λ m. elim m [ inl same ↦ cc | inr m2 ↦ apart m2 ])
  ]
]

-- The outcome of the built-in rules, in terms of their two tests.
access-outcome :
    (p a : Bool) (tenant_id campaign_id : Option Key) (request : PolicyRequest)
    → (evaluate (built_in p a) (access tenant_id campaign_id request)).0.outcome ≡ (
        if cross_tenant_access (access tenant_id campaign_id request)
        then forbid
        else if permission_not_granted request
        then deny
        else permit)
unfolding evaluate most_restrictive
access-outcome p a none none request = ground arith
access-outcome p a none (some c) request = ground arith
access-outcome p a (some t) none request = ground arith
access-outcome p a (some t) (some c) request = ground arith

access-foreign :
    (tenant_id campaign_id : Option Key) (request : PolicyRequest) (owner : Key)
    → request.context.resource_tenant_id ≡ some owner
    → tenant_id ≢ some owner
    → cross_tenant_access (access tenant_id campaign_id request) ≡ true
access-foreign none c request owner e n = rw e refl
access-foreign (some t) c request owner e n = elim (Bool-cases (owner == t)) [
  | inl same ↦ absurd (n (ap some (sym ((==_iff owner t).0 same))))
  | inr other ↦ rw (e, other) refl
]

access-own :
    (tenant_id campaign_id : Option Key) (request : PolicyRequest)
    → (request.context.resource_tenant_id ≡ none)
      ⊎ ((owner : Key) × (request.context.resource_tenant_id ≡ some owner)
          × (tenant_id ≡ some owner))
    → cross_tenant_access (access tenant_id campaign_id request) ≡ false
access-own tenant_id c request (inl e) = rw e refl
access-own tenant_id c request (inr (owner, e, own)) = rw (e, own, (==_iff owner owner).1 refl) refl

-- Access to a resource of another tenant is forbidden, whatever is granted and also when the
-- request names no tenant. Access to a resource of the own tenant, or of no tenant, is permitted
-- when the name of the action is among the granted permissions, and else denied.
pub access_table :
    (p a : Bool) (tenant_id campaign_id : Option Key) (request : PolicyRequest)
    → let outcome = (evaluate (built_in p a) (access tenant_id campaign_id request)).0.outcome in
      let granted = IsGranted request.action request.context.granted_permissions in
      ((owner : Key)
        → request.context.resource_tenant_id ≡ some owner
        → tenant_id ≢ some owner
        → outcome ≡ forbid)
      × ((request.context.resource_tenant_id ≡ none)
            ⊎ ((owner : Key) × (request.context.resource_tenant_id ≡ some owner)
                × (tenant_id ≡ some owner))
          → (granted → outcome ≡ permit) × (¬ granted → outcome ≡ deny))
access_table p a t c request =
    let decided = access-outcome p a t c request in
    (
      λ owner e n. decided ∙ rw (access-foreign t c request owner e n) refl,
      λ own.
          let home = access-own t c request own in
          elim (IsGranted-member request.action request.context.granted_permissions) [
            | inl (found, m) ↦ (λ g. decided ∙ rw (home, found) refl, λ n. absurd (n m))
            | inr (missing, apart) ↦ (λ g. absurd (apart g), λ n. decided ∙ rw (home, missing) refl)
          ],
    )
