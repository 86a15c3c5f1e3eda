-- ===== src/Policy/Packs.antt =====
-- The packs of rules (src/services/policy_engine/packs): calling and data protection.
pub mod Others
use Prim.Native.String.{String}
use text.Mathlib.Text.{◌==◌ as str_eq}
use voice_os.Prelude.{
  ℕ, Key, Bool, true, false, not, ◌&&◌, ◌||◌, Option, none, some, List, [], ◌∷◌, ◌++◌, ltb, leb,
  ◌==◌, if◌then◌else◌, contains,
}
use voice_os.Policy.{
  PolicyOutcome, permit, deny, require, forbid, PolicyRequest, PolicyRule, get_or,
}

-- `x in xs` for texts, and `context.get(key) == text`.
abbrev pub member : String → List String → Bool
member x [] = false
member x (y ∷ ys) = str_eq x y || member x ys

abbrev pub is_text : Option String → String → Bool
is_text none t = false
is_text (some s) t = str_eq s t

abbrev pub calling_window_start_hour : ℕ
calling_window_start_hour = 8

abbrev pub calling_window_end_hour : ℕ
calling_window_end_hour = 20

abbrev pub max_calls_per_day : ℕ
max_calls_per_day = 3

abbrev pub outside_calling_hours : PolicyRequest → Bool
outside_calling_hours request =
    let hour = get_or 12 request.context.hour in
    not (leb calling_window_start_hour hour && ltb hour calling_window_end_hour)

abbrev pub frequency_exceeded : PolicyRequest → Bool
frequency_exceeded request = leb max_calls_per_day (get_or 0 request.context.calls_today_count)

abbrev pub abusive_utterance : PolicyRequest → Bool
abusive_utterance request =
    is_text request.context.utterance_classification "abusive"
    || is_text request.context.utterance_classification "threatening"

abbrev pub disclosure_required_before_debt : PolicyRequest → Bool
disclosure_required_before_debt request =
    str_eq request.action "disclose_debt" && not (get_or false request.context.identity_verified)

abbrev pub disclosure_not_yet_given : PolicyRequest → Bool
disclosure_not_yet_given request =
    str_eq request.action "start_call"
    && (get_or 0 request.context.turn_index == 0
        && not (get_or false request.context.disclosure_given))

abbrev pub recording_consent_missing : PolicyRequest → Bool
recording_consent_missing request =
    str_eq request.action "start_call" && not (get_or false request.context.recording_consent)

abbrev pub calling_hours : PolicyRule
calling_hours = record {
  rule_id = "RBI-CALLING-HOURS";
  pack = "rbi";
  domain = "rbi";
  condition = outside_calling_hours;
  effect = record { outcome = deny; obligations = [] };
  hard_rule = true;
}

abbrev pub calling_frequency : PolicyRule
calling_frequency = record {
  rule_id = "RBI-CALLING-FREQUENCY";
  pack = "rbi";
  domain = "rbi";
  condition = frequency_exceeded;
  effect = record { outcome = deny; obligations = [] };
  hard_rule = true;
}

abbrev pub abuse_prohibition : PolicyRule
abuse_prohibition = record {
  rule_id = "RBI-ABUSE-PROHIBITION";
  pack = "rbi";
  domain = "rbi";
  condition = abusive_utterance;
  effect = record { outcome = forbid; obligations = [] };
  hard_rule = true;
}

abbrev pub identity_verify_first : PolicyRule
identity_verify_first = record {
  rule_id = "RBI-IDENTITY-VERIFY-FIRST";
  pack = "rbi";
  domain = "rbi";
  condition = disclosure_required_before_debt;
  effect = record { outcome = require; obligations = "verify_identity" ∷ [] };
  hard_rule = true;
}

abbrev pub disclosure_required : PolicyRule
disclosure_required = record {
  rule_id = "RBI-DISCLOSURE-REQUIRED";
  pack = "rbi";
  domain = "rbi";
  condition = disclosure_not_yet_given;
  effect = record {
    outcome = require;
    obligations = "disclose_agent_identity" ∷ "disclose_call_purpose" ∷ [];
  };
  hard_rule = true;
}

abbrev pub recording_consent : PolicyRule
recording_consent = record {
  rule_id = "RBI-RECORDING-CONSENT";
  pack = "rbi";
  domain = "rbi";
  condition = recording_consent_missing;
  effect = record { outcome = require; obligations = "capture_recording_consent" ∷ [] };
  hard_rule = true;
}

abbrev pub rbi_rules : List PolicyRule
rbi_rules =
    calling_hours ∷ calling_frequency ∷ abuse_prohibition ∷ identity_verify_first
    ∷ disclosure_required ∷ recording_consent ∷ []

abbrev pub default_retention_limit_days : ℕ
default_retention_limit_days = 2_555

abbrev pub processing_without_consent : PolicyRequest → Bool
processing_without_consent request =
    str_eq request.action "process_customer_data" && not (get_or false request.context.has_consent)

abbrev pub erasure_pending : PolicyRequest → Bool
erasure_pending request = get_or false request.context.erasure_requested

abbrev pub purpose_not_consented : PolicyRequest → Bool
purpose_not_consented request = elim request.context.purpose [
  | none ↦ false
  | some p ↦ not (contains p request.context.consented_purposes)
]

abbrev pub retention_period_exceeded : PolicyRequest → Bool
retention_period_exceeded request =
    ltb (get_or default_retention_limit_days request.context.retention_limit_days)
      (get_or 0 request.context.data_age_days)

abbrev pub consent_required_for_processing : PolicyRule
consent_required_for_processing = record {
  rule_id = "DPDP-CONSENT-REQUIRED";
  pack = "dpdp";
  domain = "dpdp";
  condition = processing_without_consent;
  effect = record { outcome = deny; obligations = [] };
  hard_rule = true;
}

abbrev pub erasure_honor : PolicyRule
erasure_honor = record {
  rule_id = "DPDP-ERASURE-HONOR";
  pack = "dpdp";
  domain = "dpdp";
  condition = erasure_pending;
  effect = record { outcome = require; obligations = "process_erasure_request" ∷ [] };
  hard_rule = true;
}

abbrev pub purpose_limitation : PolicyRule
purpose_limitation = record {
  rule_id = "DPDP-PURPOSE-LIMITATION";
  pack = "dpdp";
  domain = "dpdp";
  condition = purpose_not_consented;
  effect = record { outcome = deny; obligations = [] };
  hard_rule = true;
}

abbrev pub retention_schedule : PolicyRule
retention_schedule = record {
  rule_id = "DPDP-RETENTION-SCHEDULE";
  pack = "dpdp";
  domain = "dpdp";
  condition = retention_period_exceeded;
  effect = record { outcome = require; obligations = "flag_for_deletion" ∷ [] };
  hard_rule = true;
}

abbrev pub dpdp_rules : List PolicyRule
dpdp_rules =
    consent_required_for_processing ∷ erasure_honor ∷ purpose_limitation ∷ retention_schedule ∷ []
