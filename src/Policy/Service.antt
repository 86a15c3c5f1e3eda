-- ===== src/Policy/Service.antt =====
-- PolicyEngineService (src/services/policy_engine/service.py): the requests that the other services make.
use Prim.Native.String.{String}
use voice_os.Prelude.{ℕ, Key, Bool, Option, none, some, List}
use voice_os.Policy.{PolicyOutcome, permit, Context, no_context, PolicyDecision, decide}
use voice_os.Policy.Engine.{registered, PolicyEngine, Record, evaluate}

unfoldable pub check_call_admission :
    PolicyEngine → Key → Key → Key → Option ℕ → ℕ → PolicyDecision × List Record
unfolding evaluate
check_call_admission e tenant_id call_id subject hour calls_today_count = evaluate e (record {
  domain = "rbi";
  action = "admit_call";
  subject = subject;
  resource = call_id;
  tenant_id = some tenant_id;
  campaign_id = none;
  context = record no_context { hour = hour; calls_today_count = some calls_today_count };
})

-- `call_id or tenant_id` is the resource.
unfoldable pub check_tenant_active :
    PolicyEngine → Key → Bool → Option Key → Key → PolicyDecision × List Record
unfolding evaluate
check_tenant_active e tenant_id is_active call_id subject = evaluate e (record {
  domain = "tenant";
  action = "admit_call";
  subject = subject;
  resource = elim call_id [ none ↦ tenant_id | some c ↦ c ];
  tenant_id = some tenant_id;
  campaign_id = none;
  context = record no_context { tenant_active = some is_active };
})

unfoldable pub check_entitlement :
    PolicyEngine
    → Key
    → Key
    → String
    → Option ℕ
    → Option ℕ
    → Bool
    → Key
    → PolicyDecision × List Record
unfolding evaluate
check_entitlement e tenant_id feature tier usage_quantity usage_limit trial_expired subject =
    evaluate e (record {
      domain = "billing";
      action = "use_feature";
      subject = subject;
      resource = feature;
      tenant_id = some tenant_id;
      campaign_id = none;
      context = record no_context {
        tier = some tier;
        usage_quantity = usage_quantity;
        usage_limit = usage_limit;
        trial_expired = some trial_expired;
      };
    })

unfoldable pub check_campaign_approval :
    PolicyEngine → Key → Key → String → Key → PolicyDecision × List Record
unfolding evaluate
check_campaign_approval e tenant_id campaign_id campaign_status subject = evaluate e (record {
  domain = "campaign_admin";
  action = "approve";
  subject = subject;
  resource = campaign_id;
  tenant_id = some tenant_id;
  campaign_id = none;
  context = record no_context { campaign_status = some campaign_status };
})

unfoldable pub check_conversational_rule :
    PolicyEngine → String → Key → Key → Context → PolicyOutcome
unfolding decide
check_conversational_rule e rule_id subject resource context =
    elim (registered rule_id e.registry) [
      | none ↦ permit
      | some rule ↦ decide rule (record {
        domain = rule.domain;
        action = "start_call";
        subject = subject;
        resource = resource;
        tenant_id = none;
        campaign_id = none;
        context = context;
      })
    ]
