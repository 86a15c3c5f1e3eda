-- ===== src/Settlement/Rows.antt =====
-- The rows of the settlement table (settlement.py), and their approvers.
use voice_os.Prelude.{
  ℕ, ◌≡◌, ◌≢◌, Key, Bool, true, false, none, some, ok, ltb, ◌==◌, if◌then◌else◌, ◌&&◌, arith,
  Option-cases, inl, inr,
}
use voice_os.Prelude.Dict.{lookup, lookup-insert}
use voice_os.Settlement.{
  SettlementStatus, Settlement, SettlementRow, status_value, SettlementTable, create, select,
  update_status, record_authorization,
}

-- A row that is paid above the threshold names its approver.
abbrev pub approved : ℕ → SettlementRow → Bool
approved threshold row =
    if status_value row.settlement.status == 4
      && ltb threshold row.settlement.settlement_amount_minor
    then elim row.approved_by [ none ↦ false | some _ ↦ true ]
    else true

abbrev pub IsApproved : ℕ → SettlementTable → Type 0
IsApproved threshold t =
    (k : Key) (row : SettlementRow) → lookup k t ≡ some row → approved threshold row ≡ true

pub create-IsApproved :
    (threshold : ℕ) (s : Settlement) (t t' : SettlementTable)
    → create s t ≡ ok t'
    → status_value s.status ≡ 0
    → IsApproved threshold t
    → IsApproved threshold t'
unfolding create
create-IsApproved threshold s t t' e p h k r found = ground (
  arith,
  h k r,
  lookup-insert s.settlement_id k
      (record { settlement = s; approved_by = none; authorized_at = none }) t,
)

pub update_status-IsApproved :
    (threshold : ℕ) (tenant id : Key) (status : SettlementStatus) (t : SettlementTable)
    → ((row : SettlementRow)
        → select tenant id t ≡ some row
        → status_value status ≡ 4
        → ltb threshold row.settlement.settlement_amount_minor ≡ true
        → row.approved_by ≢ none)
    → IsApproved threshold t
    → IsApproved threshold (update_status tenant id status t)
unfolding update_status
update_status-IsApproved threshold tenant id status t f h k r found =
    elim (Option-cases (select tenant id t)) [
      | inl e ↦ ground (arith, h k r)
      | inr (row, e) ↦
          let s : Settlement = row.settlement in
          ground (
            arith,
            f row,
            h k r,
            lookup-insert id k (record row { settlement = record s { status = status } }) t,
          )
    ]

pub record_authorization-IsApproved :
    (threshold : ℕ) (tenant id by now : Key) (t : SettlementTable)
    → IsApproved threshold t
    → IsApproved threshold (record_authorization tenant id by now t)
unfolding record_authorization
record_authorization-IsApproved threshold tenant id by now t h k r found =
    elim (Option-cases (select tenant id t)) [
      | inl e ↦ ground (arith, h k r)
      | inr (row, e) ↦ ground (
        arith,
        h k r,
        lookup-insert id k (record row { approved_by = some by; authorized_at = some now }) t,
      )
    ]
