-- ===== src/Settlement/Workflow.antt =====
-- What the settlement workflow promises (settlement.py): the terms and the status of an offer over
-- every history, and which disbursements are made.
use voice_os.Prelude.{◌≡◌, refl, Key, some, List, [], ◌∷◌, ok, err}
use voice_os.Prelude.Dict.{lookup}
use voice_os.Settlement.{Settlement, SettlementRow, SettlementService, Outcome}
use voice_os.Settlement.Approval.{
  Request, call, after, serve, serve_all, offer_request, accept_request, reject_request,
  authorize_request, disburse_request,
}
use voice_os.Settlement.Terms.{Keeps, Keeps-same, Keeps-trans, Continues}
use voice_os.Settlement.Calls.{
  offer-Keeps, accept-Keeps, reject-Keeps, authorize-Keeps, disburse-Keeps,
}

call-Keeps :
    (r : Request) (v : SettlementService) (x : Settlement × SettlementService)
    → call r v ≡ ok x
    → Keeps v.table x.1.table
call-Keeps (offer_request t c l a w cur y id now) v x e = offer-Keeps t c l a w cur y id now v x e
call-Keeps (accept_request t id) v x e = accept-Keeps t id v x e
call-Keeps (reject_request t id) v x e = reject-Keeps t id v x e
call-Keeps (authorize_request t id by now) v x e = authorize-Keeps t id by now v x e
call-Keeps (disburse_request t id by now) v x e = disburse-Keeps t id by now v x e

after-Keeps :
    (o : Outcome) (v : SettlementService)
    → ((x : Settlement × SettlementService) → o ≡ ok x → Keeps v.table x.1.table)
    → Keeps v.table (after o v).table
after-Keeps (ok x) v f = f x refl
after-Keeps (err e) v f = Keeps-same v.table

-- After any requests, served one after the other in any order, every settlement that was in the
-- table is still there, with
-- the same owner, account, amounts, currency and expiry, and with a status that its old one leads
-- to: proposed to accepted, rejected or paid, accepted to paid, and the others to themselves.
pub terms_kept :
    (rs : List Request) (v : SettlementService) (k : Key) (row : SettlementRow)
    → lookup k v.table ≡ some row
    → (row' : SettlementRow) × (lookup k (serve_all rs v).table ≡ some row')
      × Continues row.settlement row'.settlement
terms_kept [] v k row found = Keeps-same v.table k row found
terms_kept (r ∷ rs) v k row found =
    Keeps-trans v.table (serve r v).table (serve_all rs (serve r v)).table
      (after-Keeps (call r v) v (λ x e. call-Keeps r v x e))
      (λ j row' f. terms_kept rs (serve r v) j row' f) k row found
