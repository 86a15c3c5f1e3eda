-- ===== src/Settlement/Calls.antt =====
-- What each call of the settlement service (settlement.py) does to the terms and the status of a
-- settlement.
use voice_os.Prelude.{
  ℕ, ◌≡◌, refl, Key, true, false, Option, some, ok, ◌==◌, arith, Option-cases, inl, inr,
}
use voice_os.Prelude.Dict.{lookup}
use voice_os.Settlement.{
  SettlementStatus, proposed, accepted, rejected, expired, paid, Settlement, SettlementRow,
  status_value, SettlementTable, SettlementService, SettlementEvent, accepted_event, disbursed,
  offered, select, get, update_status, publish, audit, require, require_status, offer, accept,
  authorize, ensure_authorized, disburse, reject,
}
use voice_os.Settlement.Authorization.{
  offer-eq_ok, disburse-eq_ok, accept-eq_ok, reject-eq_ok, authorize-table,
  ensure_authorized_branches,
}
use voice_os.Settlement.Terms.{
  leads_to, Keeps, Keeps-same, Keeps-trans, create-Keeps, update_status-Keeps,
  record_authorization-Keeps, select-lookup,
}

pub publish-table : (e : SettlementEvent) (v : SettlementService) → (publish e v).table ≡ v.table
unfolding publish
publish-table e v = ground arith

pub audit-table : (e : Key × Key) (v : SettlementService) → (audit e v).table ≡ v.table
unfolding audit
audit-table e v = ground arith

accept-was :
    (t id : Key) (v : SettlementService) (x : Settlement × SettlementService)
    → accept t id v ≡ ok x
    → (row : SettlementRow) → select t id v.table ≡ some row
    → status_value row.settlement.status ≡ 0
unfolding accept require require_status get
accept-was t id v x e row f = ground arith

reject-was :
    (t id : Key) (v : SettlementService) (x : Settlement × SettlementService)
    → reject t id v ≡ ok x
    → (row : SettlementRow) → select t id v.table ≡ some row
    → status_value row.settlement.status ≡ 0
unfolding reject require require_status get
reject-was t id v x e row f = ground arith

disburse-was :
    (t id : Key) (by : Option Key) (now : ℕ) (v : SettlementService)
    (x : Settlement × SettlementService)
    → disburse t id by now v ≡ ok x
    → (row : SettlementRow) → select t id v.table ≡ some row
    → status_value row.settlement.status ≡ 1
unfolding disburse require require_status get
disburse-was t id by now v x e row f = ground arith

accepted_leads :
    (a b : SettlementStatus) → status_value a ≡ 1 → leads_to a b ≡ true → leads_to b paid ≡ true
accepted_leads proposed b p q = ground arith
accepted_leads accepted proposed p q = ground arith
accepted_leads accepted accepted p q = refl
accepted_leads accepted rejected p q = ground arith
accepted_leads accepted expired p q = ground arith
accepted_leads accepted paid p q = refl
accepted_leads rejected b p q = ground arith
accepted_leads expired b p q = ground arith
accepted_leads paid b p q = ground arith

proposed_leads :
    (a b : SettlementStatus)
    → status_value a ≡ 0
    → (status_value b == 3) ≡ false
    → leads_to a b ≡ true
proposed_leads a b p q = elim a [ proposed ↦ ground arith | _ ↦ ground arith ]

pub authorize-Keeps :
    (tenant id by now : Key) (v : SettlementService) (x : Settlement × SettlementService)
    → authorize tenant id by now v ≡ ok x
    → Keeps v.table x.1.table
authorize-Keeps tenant id by now v x e =
    rw (authorize-table tenant id by now v x e)
      (record_authorization-Keeps tenant id by now v.table)

ensure_authorized-Keeps :
    (tenant id : Key) (by : Option Key) (now : ℕ) (s : Settlement) (v v' : SettlementService)
    → ensure_authorized tenant id by now s v ≡ ok v'
    → Keeps v.table v'.table
ensure_authorized-Keeps tenant id by now s v v' e =
    elim (ensure_authorized_branches tenant id by now s v v' e) [
      | inl (same, _) ↦ rw same (Keeps-same v.table)
      | inr (b, a, q) ↦ authorize-Keeps tenant id b now v (a, v') q
    ]

pub accept-Keeps :
    (t id : Key) (v : SettlementService) (x : Settlement × SettlementService)
    → accept t id v ≡ ok x
    → Keeps v.table x.1.table
accept-Keeps t id v x e = rw (accept-eq_ok t id v x e) (
    rw
      (publish-table (accepted_event id) (record v { table = update_status t id accepted v.table }))
      (update_status-Keeps t id accepted v.table (λ row f.
        proposed_leads row.settlement.status accepted (accept-was t id v x e row f) refl)))

pub reject-Keeps :
    (t id : Key) (v : SettlementService) (x : Settlement × SettlementService)
    → reject t id v ≡ ok x
    → Keeps v.table x.1.table
reject-Keeps t id v x e = rw (reject-eq_ok t id v x e) (
    update_status-Keeps t id rejected v.table
      (λ row f. proposed_leads row.settlement.status rejected (reject-was t id v x e row f) refl))

pub offer-Keeps :
    (t c l : Key) (a w : ℕ) (cur : Key) (x : ℕ) (id : Key) (now : ℕ) (v : SettlementService)
    (y : Settlement × SettlementService)
    → offer t c l a w cur x id now v ≡ ok y
    → Keeps v.table y.1.table
offer-Keeps t c l a w cur x id now v y e =
    let (table, q, status, f) = offer-eq_ok t c l a w cur x id now v y e in
    rw f (
      rw (publish-table (offered id) (record v { table = table }))
        (create-Keeps y.0 v.table table q))

same_row :
    (id : Key) (t : SettlementTable) (r r' : SettlementRow)
    → lookup id t ≡ some r
    → lookup id t ≡ some r'
    → r ≡ r'
same_row id t r r' e e' = ground arith

-- The row of an accepted settlement, once it is authorized, may be paid.
payable :
    (tenant id : Key) (t t' : SettlementTable)
    → ((row : SettlementRow)
        → select tenant id t ≡ some row
        → status_value row.settlement.status ≡ 1)
    → (s : Settlement) → get tenant id t ≡ some s
    → Keeps t t'
    → (row : SettlementRow) → select tenant id t' ≡ some row
    → leads_to row.settlement.status paid ≡ true
unfolding get
payable tenant id t t' was s g k row f = elim (Option-cases (select tenant id t)) [
  | inl none_found ↦ ground arith
  | inr (r, e) ↦
      let (r', found, (same, leads)) = k id r (select-lookup tenant id t r e) in
      rw (same_row id t' row r' (select-lookup tenant id t' row f) found)
        (accepted_leads r.settlement.status r'.settlement.status (was r e) leads)
]

pub disburse-Keeps :
    (t id : Key) (by : Option Key) (now : ℕ) (v : SettlementService)
    (x : Settlement × SettlementService)
    → disburse t id by now v ≡ ok x
    → Keeps v.table x.1.table
disburse-Keeps t id by now v x e =
    let (s, v', q, r, f) = disburse-eq_ok t id by now v x e in
    let kept = ensure_authorized-Keeps t id by now s v v' r in
    rw f (
      rw (publish-table (disbursed id) (record v' { table = update_status t id paid v'.table })) (
        Keeps-trans v.table v'.table (update_status t id paid v'.table) kept (
          update_status-Keeps t id paid v'.table
            (payable t id v.table v'.table (disburse-was t id by now v x e) s q kept))))
