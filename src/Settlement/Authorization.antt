-- ===== src/Settlement/Authorization.antt =====
-- The calls of the settlement service (settlement.py), `authorize` and `ensure_authorized` first.
use voice_os.Prelude.{
  ℕ, ◌≡◌, ◌≢◌, ◌⊎◌, Key, Bool-cases, true, false, Option, none, some, ok, ltb, arith, Option-cases,
  Result-cases, inl, inr, sym, ap,
}
use voice_os.Prelude.Dict.{lookup, lookup-insert}
use voice_os.Settlement.{
  proposed, accepted, rejected, paid, Settlement, SettlementRow, status_value, SettlementTable,
  SettlementService, create, select, get, SettlementEvent, accepted_event, authorized, disbursed,
  offered, update_status, get_approved_by, record_authorization, publish, audit, require, offer,
  accept, requires_authorization, authorize, ensure_authorized, disburse, reject,
}
use voice_os.Settlement.Rows.{IsApproved, record_authorization-IsApproved}

abbrev pub IsSafe : SettlementService → Type 0
IsSafe v = IsApproved v.approval_threshold_minor v.table

pub publish-IsSafe : (e : SettlementEvent) (v : SettlementService) → IsSafe v → IsSafe (publish e v)
unfolding publish
publish-IsSafe e v h k r found = ground (arith, h k r)

pub audit-IsSafe : (e : Key × Key) (v : SettlementService) → IsSafe v → IsSafe (audit e v)
unfolding audit
audit-IsSafe e v h k r found = ground (arith, h k r)

-- What a successful call leaves behind.
pub offer-eq_ok :
    (t c l : Key) (a w : ℕ) (cur : Key) (x : ℕ) (id : Key) (now : ℕ) (v : SettlementService)
    (y : Settlement × SettlementService)
    → offer t c l a w cur x id now v ≡ ok y
    → (table : SettlementTable) × (create y.0 v.table ≡ ok table)
      × (status_value y.0.status ≡ 0)
      × (y.1 ≡ publish (offered id) (record v { table = table }))
unfolding offer
offer-eq_ok t c l a w cur x id now v y e =
    let s : Settlement = record {
      settlement_id = id;
      tenant_id = t;
      customer_id = c;
      loan_account_id = l;
      settlement_amount_minor = a;
      waiver_amount_minor = w;
      currency = cur;
      offer_expiry = x;
      status = proposed;
      proposed_at = now;
      updated_at = now;
    } in
    elim (Result-cases (create s v.table)) [
      | inl (table, q) ↦ (table, ground arith, ground arith, ground arith)
      | inr (b, q) ↦ ground arith
    ]

pub accept-eq_ok :
    (tenant id : Key) (v : SettlementService) (x : Settlement × SettlementService)
    → accept tenant id v ≡ ok x
    → x.1
      ≡ publish (accepted_event id) (record v { table = update_status tenant id accepted v.table })
unfolding accept
accept-eq_ok tenant id v x e = ground arith

pub reject-eq_ok :
    (tenant id : Key) (v : SettlementService) (x : Settlement × SettlementService)
    → reject tenant id v ≡ ok x
    → x.1 ≡ record v { table = update_status tenant id rejected v.table }
unfolding reject
reject-eq_ok tenant id v x e = ground arith

pub authorize-eq_ok :
    (tenant id by now : Key) (v : SettlementService) (x : Settlement × SettlementService)
    → authorize tenant id by now v ≡ ok x
    → x.1
      ≡ publish
          (authorized id)
          (audit (by, id) (record v { table = record_authorization tenant id by now v.table }))
unfolding authorize
authorize-eq_ok tenant id by now v x e = ground arith

pub authorize-IsSafe :
    (tenant id by now : Key) (v : SettlementService) (x : Settlement × SettlementService)
    → authorize tenant id by now v ≡ ok x
    → IsSafe v
    → IsSafe x.1
authorize-IsSafe tenant id by now v x e h = rw (authorize-eq_ok tenant id by now v x e) (
    publish-IsSafe (authorized id)
      (audit (by, id) (record v { table = record_authorization tenant id by now v.table }))
      (audit-IsSafe (by, id) (record v { table = record_authorization tenant id by now v.table })
        (record_authorization-IsApproved v.approval_threshold_minor tenant id by now v.table h)))

-- The row that an authorization leaves names an approver.
pub names_approver :
    (tenant id by now : Key) (t : SettlementTable) (row : SettlementRow)
    → select tenant id (record_authorization tenant id by now t) ≡ some row
    → row.approved_by ≢ none
unfolding select record_authorization
names_approver tenant id by now t row e = elim (Option-cases (lookup id t)) [
  | inl q ↦ ground arith
  | inr (r, q) ↦
      ground (
        arith,
        lookup-insert id id (record r { approved_by = some by; authorized_at = some now }) t,
      )
]

pub authorize-table :
    (tenant id by now : Key) (v : SettlementService) (x : Settlement × SettlementService)
    → authorize tenant id by now v ≡ ok x
    → x.1.table ≡ record_authorization tenant id by now v.table
unfolding authorize publish audit
authorize-table tenant id by now v x e = ground arith

pub ensure_authorized_branches :
    (tenant id : Key) (by : Option Key) (now : ℕ) (s : Settlement) (v v' : SettlementService)
    → ensure_authorized tenant id by now s v ≡ ok v'
    → ((v' ≡ v)
        × ((requires_authorization s v ≡ false) ⊎ (get_approved_by tenant id v.table ≢ none)))
      ⊎ ((b : Key) × (a : Settlement) × (authorize tenant id b now v ≡ ok (a, v')))
unfolding ensure_authorized
ensure_authorized_branches tenant id by now s v v' e =
    elim (Bool-cases (requires_authorization s v)) [
      | inl q ↦ elim (Option-cases (get_approved_by tenant id v.table)) [
        | inl p ↦ elim (Option-cases by) [
          | inl absent ↦ ground arith
          | inr (b, some_b) ↦ elim (Result-cases (authorize tenant id b now v)) [
            | inl ((a, w), ok_a) ↦ inr (b, a, ground arith)
            | inr (x, bad) ↦ ground arith
          ]
        ]
        | inr (b, p) ↦ ground arith
      ]
      | inr q ↦ ground arith
    ]

-- After `ensure_authorized` the settlement may be paid.
pub ensure_authorized-pays :
    (tenant id : Key) (by : Option Key) (now : ℕ) (s : Settlement) (v v' : SettlementService)
    → ensure_authorized tenant id by now s v ≡ ok v'
    → get tenant id v.table ≡ some s
    → (row : SettlementRow) → select tenant id v'.table ≡ some row
    → ltb v.approval_threshold_minor row.settlement.settlement_amount_minor ≡ true
    → row.approved_by ≢ none
unfolding get get_approved_by requires_authorization
ensure_authorized-pays tenant id by now s v v' e g row found over =
    elim (ensure_authorized_branches tenant id by now s v v' e) [
      | inl (same, inl below) ↦ ground (arith)
      | inl (same, inr approver) ↦ ground (arith)
      | inr (b, a, q) ↦
          names_approver tenant id b now v.table row
            (rw (sym (authorize-table tenant id b now v (a, v') q)) found)
    ]

pub ensure_authorized-IsSafe :
    (tenant id : Key) (by : Option Key) (now : ℕ) (s : Settlement) (v v' : SettlementService)
    → ensure_authorized tenant id by now s v ≡ ok v'
    → IsSafe v
    → IsSafe v'
ensure_authorized-IsSafe tenant id by now s v v' e h =
    elim (ensure_authorized_branches tenant id by now s v v' e) [
      | inl (same, _) ↦ rw same h
      | inr (b, a, q) ↦ authorize-IsSafe tenant id b now v (a, v') q h
    ]

pub ensure_authorized-threshold :
    (tenant id : Key) (by : Option Key) (now : ℕ) (s : Settlement) (v v' : SettlementService)
    → ensure_authorized tenant id by now s v ≡ ok v'
    → v'.approval_threshold_minor ≡ v.approval_threshold_minor
unfolding publish audit
ensure_authorized-threshold tenant id by now s v v' e =
    elim (ensure_authorized_branches tenant id by now s v v' e) [
      | inl (same, _) ↦ ap (λ w. w.approval_threshold_minor) same
      | inr (b, a, q) ↦ ground (arith, authorize-eq_ok tenant id b now v (a, v') q)
    ]

-- What a payment went through.
pub disburse-eq_ok :
    (t id : Key) (by : Option Key) (now : ℕ) (v : SettlementService)
    (x : Settlement × SettlementService)
    → disburse t id by now v ≡ ok x
    → (s : Settlement) × (v' : SettlementService) × (get t id v.table ≡ some s)
      × (ensure_authorized t id by now s v ≡ ok v')
      × (x.1 ≡ publish (disbursed id) (record v' { table = update_status t id paid v'.table }))
unfolding disburse require
disburse-eq_ok t id by now v x e = elim (Option-cases (get t id v.table)) [
  | inl q ↦ ground arith
  | inr (s, q) ↦ elim (Result-cases (ensure_authorized t id by now s v)) [
    | inl (v', r) ↦ (s, v', q, r, ground arith)
    | inr (b, r) ↦ ground arith
  ]
]
