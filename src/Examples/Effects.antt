-- ===== src/Examples/Effects.antt =====
-- The theorems about exactly-once effects, fencing and settlements (libs/idempotency,
-- services/collections/settlement.py) at concrete callers, tokens and requests.
use voice_os.Prelude.{ℕ, ◌≡◌, ◌≤◌, inl, inr, refl, Key, none, some, List, [], ◌∷◌, arith, count}
use voice_os.Prelude.Dict.{lookup}
use voice_os.Idempotency.{Caller, idle, Turn, go_on, clean_up, run_turns}
use voice_os.Idempotency.Once.{effect_at_most_once}
use voice_os.Settlement.{
  SettlementStatus, proposed, accepted, paid, Settlement, SettlementRow, SettlementService, get,
  disburse, transition_error, requires_authorization, get_approved_by,
}
use voice_os.Settlement.Approval.{
  Request, serve_all, authorize_request, disburse_request, paid_needs_approval,
}
use voice_os.Settlement.Authorization.{IsSafe}
use voice_os.Settlement.Terms.{Continues}
use voice_os.Settlement.Workflow.{terms_kept}
use voice_os.Settlement.Disburse.{IsCovered}

abbrev caller : Caller
caller = record { tenant_id = 1; key = 9; ttl_seconds = 60; phase = idle }

abbrev turn : ℕ → Turn
turn i = go_on i 100 (some 5)

-- Two callers of one key, interleaved, with a clean-up.
abbrev turns : List Turn
turns = turn 0 ∷ turn 1 ∷ turn 1 ∷ turn 0 ∷ turn 1 ∷ clean_up 200 ∷ turn 0 ∷ turn 1 ∷ turn 0 ∷ []

effect_at_most_once_example :
    count 9
      (run_turns 10_000 turns
        (record { callers = caller ∷ caller ∷ []; table = []; executed = [] })).executed
    ≤ 1
effect_at_most_once_example =
    effect_at_most_once 10_000 100 200 turns (caller ∷ caller ∷ []) [] 9 refl (ground arith)
      (ground arith)

abbrev writes : List (Key × ℕ)
writes = (1, 8) ∷ (2, 3) ∷ []

abbrev offer_row : SettlementRow
offer_row = record {
  settlement = record {
    settlement_id = 4;
    tenant_id = 1;
    customer_id = 2;
    loan_account_id = 3;
    settlement_amount_minor = 80_000;
    waiver_amount_minor = 20_000;
    currency = 0;
    offer_expiry = 500;
    status = accepted;
    proposed_at = 10;
    updated_at = 10;
  };
  approved_by = none;
  authorized_at = none;
}

-- The settlement of the row.
abbrev agreed : Settlement
agreed = offer_row.settlement

abbrev service : SettlementService
service = record {
  table = (4, offer_row) ∷ [];
  publisher = some [];
  audit_logger = none;
  approval_threshold_minor = 50_000;
}

service-IsSafe : IsSafe service
service-IsSafe k row found = ground arith

abbrev requests : List Request
requests =
    disburse_request 1 4 none 20 ∷ authorize_request 1 4 77 21 ∷ disburse_request 1 4 none 22 ∷ []

paid_needs_approval_example : IsSafe (serve_all requests service)
paid_needs_approval_example = paid_needs_approval requests service service-IsSafe

terms_kept_example :
    (row' : SettlementRow) × (lookup 4 (serve_all requests service).table ≡ some row')
    × Continues offer_row.settlement row'.settlement
terms_kept_example = terms_kept requests service 4 offer_row refl

uncovered : ¬ IsCovered 1 4 none 22 service agreed
unfolding requires_authorization get_approved_by voice_os.Settlement.select
uncovered (inl below) = ground arith
uncovered (inr (inl on_record)) = on_record refl
uncovered (inr (inr carried)) = carried refl
