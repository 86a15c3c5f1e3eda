-- ===== src/Settlement/Disburse.antt =====
-- Which disbursements are made (`disburse` in settlement.py), and which are refused.
use voice_os.Prelude.{
  ℕ, ◌≡◌, ◌≢◌, ◌⊎◌, refl, Key, Bool-cases, true, false, Option, none, some, ok, err, ◌==◌, arith,
  Option-cases, inl, inr,
}
use voice_os.Prelude.Dict.{lookup, lookup-insert}
use voice_os.Settlement.{
  SettlementStatus, proposed, accepted, rejected, expired, paid, Settlement, status_value,
  SettlementTable, SettlementService, disbursed, authorized, transition_error, select, get,
  update_status, get_approved_by, record_authorization, publish, audit, require, require_status,
  requires_authorization, authorize, ensure_authorized, disburse,
}
use voice_os.Settlement.Calls.{publish-table, audit-table}

get-update_status :
    (tenant id : Key) (status : SettlementStatus) (t : SettlementTable) (s : Settlement)
    → get tenant id t ≡ some s
    → get tenant id (update_status tenant id status t) ≡ some (record s { status = status })
unfolding get update_status select
get-update_status tenant id status t s g = elim (Option-cases (lookup id t)) [
  | inl e ↦ ground arith
  | inr (row, e) ↦
      ground
        (arith, lookup-insert id id (record row { settlement = record s { status = status } }) t)
]

get-record_authorization :
    (tenant id by now : Key) (t : SettlementTable) (s : Settlement)
    → get tenant id t ≡ some s
    → get tenant id (record_authorization tenant id by now t) ≡ some s
unfolding get record_authorization select
get-record_authorization tenant id by now t s g = elim (Option-cases (lookup id t)) [
  | inl e ↦ ground arith
  | inr (row, e) ↦ ground (
    arith,
    lookup-insert id id (record row { approved_by = some by; authorized_at = some now }) t,
  )
]

authorize_total :
    (tenant id by now : Key) (v : SettlementService) (s : Settlement)
    → get tenant id v.table ≡ some s
    → status_value s.status ≡ 1
    → (v' : SettlementService) × (authorize tenant id by now v ≡ ok (s, v'))
      × (get tenant id v'.table ≡ some s)
unfolding authorize require require_status
authorize_total tenant id by now v s g a =
    let t = record_authorization tenant id by now v.table in
    let g' = get-record_authorization tenant id by now v.table s g in
    (
      publish (authorized id) (audit (by, id) (record v { table = t })),
      ground arith,
      rw (publish-table (authorized id) (audit (by, id) (record v { table = t })))
          (rw (audit-table (by, id) (record v { table = t })) g'),
    )

not_accepted : (s : SettlementStatus) → s ≢ accepted → (status_value s == 1) ≡ false
not_accepted proposed n = refl
not_accepted accepted n = absurd (n refl)
not_accepted rejected n = refl
not_accepted expired n = refl
not_accepted paid n = refl

module _ (tenant id : Key) (by : Option Key) (now : ℕ) (v : SettlementService)
    (s : Settlement) where
  -- Who answers for a payment: the amount is within the threshold, an approver is on record, or
  -- the request carries one.
  abbrev pub IsCovered : Type 0
  IsCovered =
      (requires_authorization s v ≡ false)
      ⊎ (get_approved_by tenant id v.table ≢ none)
      ⊎ (by ≢ none)

  not_uncovered :
      requires_authorization s v ≡ true
      → get_approved_by tenant id v.table ≡ none
      → by ≡ none
      → IsCovered
      → ⊥
  not_uncovered above e n (inl below) = ground arith
  not_uncovered above e n (inr (inl approver)) = approver e
  not_uncovered above e n (inr (inr carried)) = carried n

  ensure_authorized_total :
      get tenant id v.table ≡ some s
      → status_value s.status ≡ 1
      → IsCovered
      → (v' : SettlementService) × (ensure_authorized tenant id by now s v ≡ ok v')
        × (get tenant id v'.table ≡ some s)
  unfolding ensure_authorized
  ensure_authorized_total g a c = elim (Bool-cases (requires_authorization s v)) [
    | inr below ↦ (v, ground arith, g)
    | inl above ↦ elim (Option-cases (get_approved_by tenant id v.table)) [
      | inr (b, e) ↦ (v, ground arith, g)
      | inl e ↦ elim (Option-cases by) [
        | inl n ↦ absurd (not_uncovered above e n c)
        | inr (b, q) ↦
            let (w, ok_w, g') = authorize_total tenant id b now v s g a in (w, ground arith, g')
      ]
    ]
  ]

  not_covered : ¬ IsCovered → ensure_authorized tenant id by now s v ≡ err transition_error
  unfolding ensure_authorized
  not_covered n = elim (Bool-cases (requires_authorization s v)) [
    | inr below ↦ absurd (n (inl below))
    | inl above ↦ elim (Option-cases (get_approved_by tenant id v.table)) [
      | inr (b, e) ↦ absurd (n (inr (inl (λ z. ground arith))))
      | inl e ↦ elim (Option-cases by) [
        | inr (b, q) ↦ absurd (n (inr (inr (λ z. ground arith))))
        | inl q ↦ ground arith
      ]
    ]
  ]

  disburse-eq :
      (v' : SettlementService)
      → get tenant id v.table ≡ some s
      → status_value s.status ≡ 1
      → ensure_authorized tenant id by now s v ≡ ok v'
      → get tenant id (update_status tenant id paid v'.table) ≡ some (record s { status = paid })
      → disburse tenant id by now v
        ≡ ok (
          record s { status = paid },
          publish (disbursed id) (record v' { table = update_status tenant id paid v'.table }),
        )
  unfolding disburse require require_status
  disburse-eq v' g a e g' = ground arith

  -- An accepted settlement that is covered is paid: `disburse` returns it with the status PAID
  -- and all else as it was, and that is what the table then holds.
  pub disburse_pays :
      get tenant id v.table ≡ some s
      → s.status ≡ accepted
      → IsCovered
      → (v' : SettlementService) × (disburse tenant id by now v
          ≡ ok (record s { status = paid }, v'))
        × (get tenant id v'.table ≡ some (record s { status = paid }))
  disburse_pays g a c =
      let (v', e, g') = ensure_authorized_total g (ground (a, arith)) c in
      let t = update_status tenant id paid v'.table in
      (
        publish (disbursed id) (record v' { table = t }),
        disburse-eq v' g (ground (a, arith)) e (get-update_status tenant id paid v'.table s g'),
        rw (publish-table (disbursed id) (record v' { table = t }))
            (get-update_status tenant id paid v'.table s g'),
      )

  -- A settlement that is not covered, or is not accepted, is not paid: `disburse` raises.
  pub disburse_refuses :
      get tenant id v.table ≡ some s
      → (s.status ≢ accepted) ⊎ ¬ IsCovered
      → disburse tenant id by now v ≡ err transition_error
  unfolding disburse require require_status
  disburse_refuses g (inl n) = ground (arith, not_accepted s.status n)
  disburse_refuses g (inr n) = ground (arith, not_covered n)
