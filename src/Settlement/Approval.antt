-- ===== src/Settlement/Approval.antt =====
-- Human approval in every history of the settlement service (settlement.py): the requests that
-- reach it, in the order they come.
use voice_os.Prelude.{ℕ, ◌≡◌, refl, Key, Option, List, [], ◌∷◌, ok, err, arith, sym}
use voice_os.Settlement.{
  accepted, rejected, paid, Settlement, SettlementService, Outcome, accepted_event, disbursed,
  offered, update_status, offer, accept, authorize, disburse, reject,
}
use voice_os.Settlement.Rows.{create-IsApproved, update_status-IsApproved}
use voice_os.Settlement.Authorization.{
  IsSafe, publish-IsSafe, offer-eq_ok, disburse-eq_ok, accept-eq_ok, reject-eq_ok, authorize-IsSafe,
  ensure_authorized-pays, ensure_authorized-IsSafe, ensure_authorized-threshold,
}

-- One call of the service; what raises leaves the service as it was.
pub data Request : Type 0 where
  offer_request : Key → Key → Key → ℕ → ℕ → Key → ℕ → Key → ℕ → Request
  accept_request reject_request : Key → Key → Request
  authorize_request : Key → Key → Key → ℕ → Request
  disburse_request : Key → Key → Option Key → ℕ → Request

abbrev pub call : Request → SettlementService → Outcome
call (offer_request t c l a w cur x id now) v = offer t c l a w cur x id now v
call (accept_request t id) v = accept t id v
call (reject_request t id) v = reject t id v
call (authorize_request t id by now) v = authorize t id by now v
call (disburse_request t id by now) v = disburse t id by now v

abbrev pub after : Outcome → SettlementService → SettlementService
after (ok x) v = x.1
after (err e) v = v

abbrev pub serve : Request → SettlementService → SettlementService
serve r v = after (call r v) v

abbrev pub serve_all : List Request → SettlementService → SettlementService
serve_all [] v = v
serve_all (r ∷ rs) v = serve_all rs (serve r v)

offer-IsSafe :
    (t c l : Key) (a w : ℕ) (cur : Key) (x : ℕ) (id : Key) (now : ℕ) (v : SettlementService)
    (y : Settlement × SettlementService)
    → offer t c l a w cur x id now v ≡ ok y
    → IsSafe v
    → IsSafe y.1
offer-IsSafe t c l a w cur x id now v y e h =
    let (table, q, status, f) = offer-eq_ok t c l a w cur x id now v y e in
    rw f (
      publish-IsSafe (offered id) (record v { table = table })
        (create-IsApproved v.approval_threshold_minor y.0 v.table table q status h))

accept-IsSafe :
    (t id : Key) (v : SettlementService) (x : Settlement × SettlementService)
    → accept t id v ≡ ok x
    → IsSafe v
    → IsSafe x.1
accept-IsSafe t id v x e h = rw (accept-eq_ok t id v x e) (
    publish-IsSafe (accepted_event id) (record v { table = update_status t id accepted v.table })
      (update_status-IsApproved v.approval_threshold_minor t id accepted v.table
        (λ row found p. ground arith) h))

reject-IsSafe :
    (t id : Key) (v : SettlementService) (x : Settlement × SettlementService)
    → reject t id v ≡ ok x
    → IsSafe v
    → IsSafe x.1
reject-IsSafe t id v x e h = rw (reject-eq_ok t id v x e) (
    update_status-IsApproved v.approval_threshold_minor t id rejected v.table
      (λ row found p. ground arith) h)

disburse-IsSafe :
    (t id : Key) (by : Option Key) (now : ℕ) (v : SettlementService)
    (x : Settlement × SettlementService)
    → disburse t id by now v ≡ ok x
    → IsSafe v
    → IsSafe x.1
disburse-IsSafe t id by now v x e h =
    let (s, v', q, r, f) = disburse-eq_ok t id by now v x e in
    let safe = ensure_authorized-IsSafe t id by now s v v' r h in
    rw f (
      publish-IsSafe (disbursed id) (record v' { table = update_status t id paid v'.table })
        (update_status-IsApproved v'.approval_threshold_minor t id paid v'.table
          (λ row found p over.
            ensure_authorized-pays t id by now s v v' r q row found
              (rw (sym (ensure_authorized-threshold t id by now s v v' r)) over))
          safe))

call-IsSafe :
    (r : Request) (v : SettlementService) (x : Settlement × SettlementService)
    → call r v ≡ ok x
    → IsSafe v
    → IsSafe x.1
call-IsSafe (offer_request t c l a w cur y id now) v x e h =
    offer-IsSafe t c l a w cur y id now v x e h
call-IsSafe (accept_request t id) v x e h = accept-IsSafe t id v x e h
call-IsSafe (reject_request t id) v x e h = reject-IsSafe t id v x e h
call-IsSafe (authorize_request t id by now) v x e h = authorize-IsSafe t id by now v x e h
call-IsSafe (disburse_request t id by now) v x e h = disburse-IsSafe t id by now v x e h

after-IsSafe :
    (o : Outcome) (v : SettlementService)
    → ((x : Settlement × SettlementService) → o ≡ ok x → IsSafe x.1)
    → IsSafe v
    → IsSafe (after o v)
after-IsSafe (ok x) v f h = f x refl
after-IsSafe (err e) v f h = h

serve-IsSafe : (r : Request) (v : SettlementService) → IsSafe v → IsSafe (serve r v)
serve-IsSafe r v h = after-IsSafe (call r v) v (λ x e. call-IsSafe r v x e h) h

-- After any requests in any order, a settlement that is paid and above the approval threshold
-- names its approver, if that was so in the table at the start.
pub paid_needs_approval :
    (rs : List Request) (v : SettlementService) → IsSafe v → IsSafe (serve_all rs v)
paid_needs_approval [] v h = h
paid_needs_approval (r ∷ rs) v h = paid_needs_approval rs (serve r v) (serve-IsSafe r v h)
