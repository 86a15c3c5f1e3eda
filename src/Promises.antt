-- ===== src/Promises.antt =====
-- Instalments (src/services/collections/emi_schedule.py and src/libs/repositories/emi_schedule.py). Days
-- are numbers; a row is an instalment with its tenant and its loan account.
pub mod Overdue
pub mod Service
pub mod Single
pub mod Once
pub mod OnDay
pub mod Book
pub mod Checks
use voice_os.Prelude.{
  ℕ, ◌-◌, Key, Bool, true, false, ◌&&◌, ◌||◌, Option, none, some, List, [], ◌∷◌, ◌++◌, ltb, leb,
  ◌==◌, if◌then◌else◌, keep, map, Result, ok, err,
}

pub data EmiStatus : Type 0 where
  pending paid partially_paid overdue waived : EmiStatus

pub record EmiEntry : Type 0 where
  pub instalment_number : ℕ
  pub due_date : ℕ
  pub principal_minor : ℕ
  pub interest_minor : ℕ
  pub total_minor : ℕ
  pub paid_minor : ℕ
  pub status : EmiStatus

pub record EmiRow : Type 0 where
  pub tenant_id : Key
  pub loan_account_id : Key
  pub entry : EmiEntry

abbrev pub EmiTable : Type 0
EmiTable = List EmiRow

pub data EmiError : Type 0 where
  unique_violation : EmiError

-- Is there a row of the loan account with the number.
abbrev pub has_instalment : Key → ℕ → EmiTable → Bool
has_instalment loan_account_id number [] = false
has_instalment loan_account_id number (r ∷ t) =
    (r.loan_account_id == loan_account_id && r.entry.instalment_number == number)
    || has_instalment loan_account_id number t

unfoldable pub create_entry : Key → Key → EmiEntry → EmiTable → Result EmiError EmiTable
create_entry tenant_id loan_account_id entry t =
    if has_instalment loan_account_id entry.instalment_number t
    then err unique_violation
    else ok (
        t
        ++ (record { tenant_id = tenant_id; loan_account_id = loan_account_id; entry = entry }
            ∷ []))

-- EMIScheduleService.create_schedule: what was inserted before an error stays.
unfoldable pub create_schedule :
    Key → Key → List EmiEntry → EmiTable → Result EmiError (Unit {0}) × EmiTable
unfolding create_entry
create_schedule tenant_id loan_account_id [] t = (ok tt, t)
create_schedule tenant_id loan_account_id (entry ∷ entries) t =
    elim (create_entry tenant_id loan_account_id entry t) [
      | err e ↦ (err e, t)
      | ok t' ↦ create_schedule tenant_id loan_account_id entries t'
    ]

abbrev pub is_unpaid : EmiStatus → Bool
is_unpaid paid = false
is_unpaid waived = false
is_unpaid _ = true

-- The rows of find_unpaid, before they are ordered.
abbrev pub unpaid_of : Key → Key → EmiRow → Bool
unpaid_of tenant_id loan_account_id r =
    r.tenant_id == tenant_id && r.loan_account_id == loan_account_id && is_unpaid r.entry.status

-- `ORDER BY due_date ASC`
abbrev pub insert_by_due : EmiEntry → List EmiEntry → List EmiEntry
insert_by_due e [] = e ∷ []
insert_by_due e (x ∷ xs) = if leb e.due_date x.due_date then e ∷ x ∷ xs else x ∷ insert_by_due e xs

abbrev pub by_due : List EmiEntry → List EmiEntry
by_due [] = []
by_due (x ∷ xs) = insert_by_due x (by_due xs)

unfoldable pub find_unpaid : Key → Key → EmiTable → List EmiEntry
find_unpaid tenant_id loan_account_id t =
    by_due (map (λ r. r.entry) (keep (unpaid_of tenant_id loan_account_id) t))

unfoldable pub update_payment : Key → Key → ℕ → ℕ → EmiStatus → EmiTable → EmiTable
update_payment tenant_id loan_account_id number paid_minor status [] = []
update_payment tenant_id loan_account_id number paid_minor status (r ∷ t) =
    let rest = update_payment tenant_id loan_account_id number paid_minor status t in
    let entry : EmiEntry = record r.entry { paid_minor = paid_minor; status = status } in
    if r.tenant_id == tenant_id
      && r.loan_account_id == loan_account_id
      && r.entry.instalment_number == number
    then record r { entry = entry } ∷ rest
    else r ∷ rest

unfoldable pub post_payment : Key → Key → ℕ → ℕ → ℕ → EmiTable → EmiStatus × EmiTable
unfolding update_payment
post_payment tenant_id loan_account_id number paid_minor instalment_total_minor t =
    let status : EmiStatus =
      if leb instalment_total_minor paid_minor then paid else partially_paid in
    (status, update_payment tenant_id loan_account_id number paid_minor status t)

-- `max((today - oldest).days, 0)`
unfoldable pub calculate_dpd : Key → Key → ℕ → EmiTable → ℕ
unfolding find_unpaid
calculate_dpd tenant_id loan_account_id today t = elim (find_unpaid tenant_id loan_account_id t) [
  | [] ↦ 0
  | e ∷ es ↦ today - e.due_date
]

unfoldable pub next_unpaid_emi : Key → Key → EmiTable → Option EmiEntry
unfolding find_unpaid
next_unpaid_emi tenant_id loan_account_id t = elim (find_unpaid tenant_id loan_account_id t) [
  | [] ↦ none
  | e ∷ es ↦ some e
]
