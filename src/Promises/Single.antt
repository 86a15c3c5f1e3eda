-- ===== src/Promises/Single.antt =====
-- The table of promises (repositories/promise_to_pay.py): one row for each key.
use voice_os.Prelude.{
  ℕ, suc, ◌+◌, ◌≤◌, ◌≡◌, refl, Key, true, ◌&&◌, none, List, [], ◌∷◌, ◌++◌, ◌==◌, if◌then◌else◌, All,
  arith, Bool-cases, inl, inr,
}
use voice_os.Promises.Service.{
  PtpKey, PtpRow, PtpTable, PtpStatus, PromiseToPay, same_ptp_key, with_key, own_with_key,
  set_ptp_status,
}

-- The rows with a key.
abbrev pub rows_of : PtpKey → PtpTable → ℕ
rows_of k [] = 0
rows_of k (r ∷ t) =
    let rest = rows_of k t in if same_ptp_key r.idempotency_key k then suc rest else rest

-- Every promise is its key's tenant's, and every key is there once.
abbrev pub IsSingle : PtpTable → Type 0
IsSingle t =
    All (λ r. r.promise.tenant_id ≡ r.idempotency_key.tenant) t × ((k : PtpKey) → rows_of k t ≤ 1)

pub own_with_key-with_key :
    (tenant : Key) (k : PtpKey) (t : PtpTable)
    → tenant ≡ k.tenant
    → All (λ r. r.promise.tenant_id ≡ r.idempotency_key.tenant) t
    → own_with_key tenant k t ≡ with_key k t
own_with_key-with_key tenant k [] e own = refl
own_with_key-with_key tenant k (r ∷ t) e own =
    ground (arith, own_with_key-with_key tenant k t e own.1, own.0, e)

pub All-snoc :
    {A : Type 0} (P : A → Type 0) (xs : List A) (x : A) → All P xs → P x → All P (xs ++ (x ∷ []))
All-snoc P [] x h p = (p, tt)
All-snoc P (y ∷ ys) x h p = (h.0, All-snoc P ys x h.1 p)

rows_of-snoc :
    (k : PtpKey) (t : PtpTable) (r : PtpRow)
    → rows_of k (t ++ (r ∷ [])) ≡ rows_of k t + rows_of k (r ∷ [])
rows_of-snoc k [] r = ground arith
rows_of-snoc k (x ∷ t) r = ground (arith, rows_of-snoc k t r)

rows_of-new :
    (j k : PtpKey) (t : PtpTable) → with_key j t ≡ none → same_ptp_key j k ≡ true → rows_of k t ≡ 0
rows_of-new j k [] fresh same = refl
rows_of-new j k (r ∷ t) fresh same = ground (arith, rows_of-new j k t, fresh, same)

pub append-IsSingle :
    (p : PromiseToPay) (k : PtpKey) (t : PtpTable)
    → p.tenant_id ≡ k.tenant
    → with_key k t ≡ none
    → IsSingle t
    → IsSingle (t ++ (record { promise = p; idempotency_key = k } ∷ []))
append-IsSingle p k t own fresh (owned, once) =
    let r : PtpRow = record { promise = p; idempotency_key = k } in
    (
      All-snoc (λ (r : PtpRow). r.promise.tenant_id ≡ r.idempotency_key.tenant) t r owned own,
      λ j. elim (Bool-cases (same_ptp_key k j)) [
        | inl e ↦ ground (arith, rows_of-snoc j t r, rows_of-new k j t fresh e, e)
        | inr e ↦ ground (arith, rows_of-snoc j t r, once j, e)
      ],
    )

pub set_ptp_status-owned :
    (tenant id : Key) (status : PtpStatus) (t : PtpTable)
    → All (λ r. r.promise.tenant_id ≡ r.idempotency_key.tenant) t
    → All (λ r. r.promise.tenant_id ≡ r.idempotency_key.tenant) (set_ptp_status tenant id status t)
set_ptp_status-owned tenant id status [] h = tt
set_ptp_status-owned tenant id status (r ∷ t) h =
    elim (Bool-cases (r.promise.tenant_id == tenant && r.promise.ptp_id == id)) [
      | inl e ↦ rw e (h.0, set_ptp_status-owned tenant id status t h.1)
      | inr e ↦ rw e (h.0, set_ptp_status-owned tenant id status t h.1)
    ]

pub rows_of-set_ptp_status :
    (k : PtpKey) (tenant id : Key) (status : PtpStatus) (t : PtpTable)
    → rows_of k (set_ptp_status tenant id status t) ≡ rows_of k t
rows_of-set_ptp_status k tenant id status [] = refl
rows_of-set_ptp_status k tenant id status (r ∷ t) =
    ground (arith, rows_of-set_ptp_status k tenant id status t)
