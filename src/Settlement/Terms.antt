-- ===== src/Settlement/Terms.antt =====
-- Two states of the settlement table (settlement.py) before and after: the terms of every
-- settlement that was there, and its status.
use voice_os.Prelude.{
  ℕ, ◌≡◌, refl, Key, Bool-cases, Bool, true, none, some, ok, ◌==◌, not, ◌||◌, arith, Option-cases,
  inl, inr, ◌∙◌,
}
use voice_os.Prelude.Dict.{lookup, insert, lookup-insert}
use voice_os.Settlement.{
  SettlementStatus, proposed, accepted, rejected, expired, paid, Settlement, SettlementRow,
  status_value, SettlementTable, create, select, update_status, record_authorization,
}

-- Where a status may be later on.
abbrev pub leads_to : SettlementStatus → SettlementStatus → Bool
leads_to proposed s = not (status_value s == 3)
leads_to accepted s = status_value s == 1 || status_value s == 4
leads_to s s' = status_value s == status_value s'

pub leads_to_same : (a : SettlementStatus) → leads_to a a ≡ true
leads_to_same proposed = refl
leads_to_same accepted = refl
leads_to_same rejected = refl
leads_to_same expired = refl
leads_to_same paid = refl

pub leads_to_trans :
    (a b c : SettlementStatus) → leads_to a b ≡ true → leads_to b c ≡ true → leads_to a c ≡ true
leads_to_trans proposed b c p q = ground arith
leads_to_trans accepted b c p q = ground arith
leads_to_trans rejected b c p q = ground arith
leads_to_trans expired b c p q = ground arith
leads_to_trans paid b c p q = ground arith

-- What was agreed: whose settlement it is, the amounts and until when.
abbrev pub terms : Settlement → Key × Key × Key × Key × ℕ × ℕ × Key × ℕ
terms s = (
  s.settlement_id, s.tenant_id, s.customer_id, s.loan_account_id, s.settlement_amount_minor,
  s.waiver_amount_minor, s.currency, s.offer_expiry,
)

-- The second is the first, later on.
abbrev pub Continues : Settlement → Settlement → Type 0
Continues s s' = (terms s' ≡ terms s) × (leads_to s.status s'.status ≡ true)

abbrev pub Keeps : SettlementTable → SettlementTable → Type 0
Keeps t t' =
    (k : Key) (row : SettlementRow)
    → lookup k t ≡ some row
    → (row' : SettlementRow) × (lookup k t' ≡ some row') × Continues row.settlement row'.settlement

pub Keeps-same : (t : SettlementTable) → Keeps t t
Keeps-same t k row found = (row, found, (refl, leads_to_same row.settlement.status))

pub Keeps-trans : (a b c : SettlementTable) → Keeps a b → Keeps b c → Keeps a c
Keeps-trans a b c f g k row found =
    let (row', found', (p, l)) = f k row found in
    let (row'', found'', (q, m)) = g k row' found' in
    (
      row'',
      found'',
      (
        q ∙ p,
        leads_to_trans row.settlement.status row'.settlement.status row''.settlement.status l m,
      ),
    )

pub continues_from :
    (id k : Key) (r row : SettlementRow) (t : SettlementTable)
    → lookup id t ≡ some r
    → (id == k) ≡ true
    → lookup k t ≡ some row
    → row ≡ r
continues_from id k r row t e same found = ground arith

pub insert-Keeps :
    (id : Key) (r r' : SettlementRow) (t : SettlementTable)
    → lookup id t ≡ some r
    → Continues r.settlement r'.settlement
    → Keeps t (insert id r' t)
insert-Keeps id r r' t e c k row found = elim (Bool-cases (id == k)) [
  | inl same ↦
      (r', ground (arith, lookup-insert id k r' t), rw (continues_from id k r row t e same found) c)
  | inr other ↦
      (row, ground (arith, lookup-insert id k r' t), (refl, leads_to_same row.settlement.status))
]

pub select-lookup :
    (tenant id : Key) (t : SettlementTable) (row : SettlementRow)
    → select tenant id t ≡ some row
    → lookup id t ≡ some row
unfolding select
select-lookup tenant id t row e = ground arith

pub create-Keeps : (s : Settlement) (t t' : SettlementTable) → create s t ≡ ok t' → Keeps t t'
unfolding create
create-Keeps s t t' e k row found = (
  row,
  ground (
    arith,
    lookup-insert s.settlement_id k
        (record { settlement = s; approved_by = none; authorized_at = none }) t,
  ),
  (refl, leads_to_same row.settlement.status),
)

pub update_status-eq_some :
    (tenant id : Key) (status : SettlementStatus) (t : SettlementTable) (row : SettlementRow)
    (s : Settlement)
    → select tenant id t ≡ some row
    → row.settlement ≡ s
    → update_status tenant id status t
      ≡ insert id (record row { settlement = record s { status = status } }) t
unfolding update_status
update_status-eq_some tenant id status t row s e f = ground arith

pub update_status-eq_none :
    (tenant id : Key) (status : SettlementStatus) (t : SettlementTable)
    → select tenant id t ≡ none
    → update_status tenant id status t ≡ t
unfolding update_status
update_status-eq_none tenant id status t e = ground arith

pub record_authorization-eq_some :
    (tenant id by now : Key) (t : SettlementTable) (row : SettlementRow)
    → select tenant id t ≡ some row
    → record_authorization tenant id by now t
      ≡ insert id (record row { approved_by = some by; authorized_at = some now }) t
unfolding record_authorization
record_authorization-eq_some tenant id by now t row e = ground arith

pub record_authorization-eq_none :
    (tenant id by now : Key) (t : SettlementTable)
    → select tenant id t ≡ none
    → record_authorization tenant id by now t ≡ t
unfolding record_authorization
record_authorization-eq_none tenant id by now t e = ground arith

pub record_authorization-Keeps :
    (tenant id by now : Key) (t : SettlementTable)
    → Keeps t (record_authorization tenant id by now t)
record_authorization-Keeps tenant id by now t = elim (Option-cases (select tenant id t)) [
  | inl e ↦ rw (record_authorization-eq_none tenant id by now t e) (Keeps-same t)
  | inr (row, e) ↦
      let row' : SettlementRow = record row { approved_by = some by; authorized_at = some now } in
      rw (record_authorization-eq_some tenant id by now t row e) (
        insert-Keeps id row row' t (select-lookup tenant id t row e)
          (refl, leads_to_same row.settlement.status))
]

pub update_status-Keeps :
    (tenant id : Key) (status : SettlementStatus) (t : SettlementTable)
    → ((row : SettlementRow)
        → select tenant id t ≡ some row
        → leads_to row.settlement.status status ≡ true)
    → Keeps t (update_status tenant id status t)
update_status-Keeps tenant id status t f = elim (Option-cases (select tenant id t)) [
  | inl e ↦ rw (update_status-eq_none tenant id status t e) (Keeps-same t)
  | inr (row, e) ↦
      let s : Settlement = row.settlement in
      let row' : SettlementRow = record row { settlement = record s { status = status } } in
      rw (update_status-eq_some tenant id status t row s e refl)
        (insert-Keeps id row row' t (select-lookup tenant id t row e) (refl, f row e))
]
