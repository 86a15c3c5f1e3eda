-- ===== src/Promises/OnDay.antt =====
-- The promises on record for a tenant, call, loan account and day (promise_to_pay.py), by what the
-- promises themselves say and not by the keys of their rows.
use voice_os.Prelude.{
  ℕ, suc, ◌/◌, ◌≡◌, refl, Key, ◌&&◌, [], ◌∷◌, ◌++◌, ◌==◌, if◌then◌else◌, All, Bool-cases, inl, inr,
}
use voice_os.Promises.Service.{
  PtpRow, PtpTable, PtpStatus, PtpRequest, build_idempotency_key, promise_of, set_ptp_status,
}
use voice_os.Promises.Once.{key_of}
use voice_os.Promises.Single.{rows_of, All-snoc}

-- The day of a promise in its own zone is a count of days since 1970.
abbrev pub promises_on : (tenant call loan : Key) → (day : ℕ) → PtpTable → ℕ
promises_on tenant call loan day [] = 0
promises_on tenant call loan day (r ∷ t) =
    let rest = promises_on tenant call loan day t in
    let p = r.promise in
    if (p.tenant_id == tenant)
      && (p.call_id == call)
      && (p.loan_account_id == loan)
      && (p.promise_date.local_ms / 86_400_000 == day)
    then suc rest
    else rest

-- The key of a row is that of its promise.
abbrev pub IsNamed : PtpRow → Type 0
IsNamed r =
    let k = r.idempotency_key in
    let p = r.promise in
    (k.tenant ≡ p.tenant_id)
    × (k.call ≡ p.call_id)
    × (k.loan ≡ p.loan_account_id)
    × (k.day ≡ p.promise_date.local_ms / 86_400_000)

pub promises_on-rows_of :
    (tenant call loan day : ℕ) (t : PtpTable)
    → All IsNamed t
    → promises_on tenant call loan day t
      ≡ rows_of (record { tenant = tenant; call = call; loan = loan; day = day }) t
promises_on-rows_of tenant call loan day [] h = refl
promises_on-rows_of tenant call loan day (r ∷ t) ((a, b, c, d), h) =
    rw (a, b, c, d, promises_on-rows_of tenant call loan day t h) refl

-- The row that create adds.
abbrev pub row_for : PtpRequest → (id now : ℕ) → PtpRow
row_for q id now = record { promise = promise_of q id now; idempotency_key = key_of q }

row_for-IsNamed : (q : PtpRequest) (id now : ℕ) → IsNamed (row_for q id now)
unfolding build_idempotency_key
row_for-IsNamed q id now = (refl, refl, refl, refl)

pub snoc-IsNamed :
    (q : PtpRequest) (id now : ℕ) (t : PtpTable)
    → All IsNamed t
    → All IsNamed (t ++ (row_for q id now ∷ []))
snoc-IsNamed q id now t h = All-snoc IsNamed t (row_for q id now) h (row_for-IsNamed q id now)

pub set_ptp_status-IsNamed :
    (tenant id : Key) (status : PtpStatus) (t : PtpTable)
    → All IsNamed t
    → All IsNamed (set_ptp_status tenant id status t)
set_ptp_status-IsNamed tenant id status [] h = tt
set_ptp_status-IsNamed tenant id status (r ∷ t) h =
    elim (Bool-cases (r.promise.tenant_id == tenant && r.promise.ptp_id == id)) [
      | inl e ↦ rw e (h.0, set_ptp_status-IsNamed tenant id status t h.1)
      | inr e ↦ rw e (h.0, set_ptp_status-IsNamed tenant id status t h.1)
    ]
