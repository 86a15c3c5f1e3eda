-- ===== src/Promises/Once.antt =====
-- What create answers and records (promise_to_pay.py).
use mathlib.Core.Path.{subst}
use voice_os.Prelude.{
  ℕ, ◌≡◌, ◌⊎◌, refl, ap, sym, ◌∙◌, Key, true, false, none, some, [], ◌∷◌, ◌++◌, Option-cases,
  Result-cases, inl, inr, ok,
}
use voice_os.Promises.Service.{
  PtpKey, PtpTable, PromiseToPay, Moment, PtpRequest, PtpService, build_idempotency_key, with_key,
  create_idempotent, create_ptp_fn, announce, emit_created, promise_of, validate, check_policy,
  create,
}
use voice_os.Promises.Single.{IsSingle, own_with_key-with_key}

create_idempotent-new :
    (p : PromiseToPay) (k : PtpKey) (t : PtpTable)
    → with_key k t ≡ none
    → create_idempotent p k t
      ≡ (ok (p, true), t ++ (record { promise = p; idempotency_key = k } ∷ []))
unfolding create_idempotent
create_idempotent-new p k t e = rw (create_idempotent, e) refl

create_idempotent-known :
    (p old : PromiseToPay) (k : PtpKey) (t : PtpTable)
    → p.tenant_id ≡ k.tenant
    → IsSingle t
    → with_key k t ≡ some old
    → create_idempotent p k t ≡ (ok (old, false), t)
unfolding create_idempotent
create_idempotent-known p old k t own single e =
    let mine = own_with_key-with_key p.tenant_id k t own single.0 ∙ e in
    rw (create_idempotent, e, mine) refl

-- A key that is not there: the promise is recorded and announced.
pub create_ptp_fn-new :
    (p : PromiseToPay) (k : PtpKey) (actor : Key) (s : PtpService)
    → with_key k s.table ≡ none
    → create_ptp_fn p k actor s ≡ (
      ok p,
      emit_created p actor
          (record s { table = s.table ++ (record { promise = p; idempotency_key = k } ∷ []) }),
    )
unfolding create_ptp_fn announce
create_ptp_fn-new p k actor s e = ap (announce actor s) (create_idempotent-new p k s.table e)

-- A key that is there: its promise is answered, and nothing changes.
pub create_ptp_fn-known :
    (p old : PromiseToPay) (k : PtpKey) (actor : Key) (s : PtpService)
    → p.tenant_id ≡ k.tenant
    → IsSingle s.table
    → with_key k s.table ≡ some old
    → create_ptp_fn p k actor s ≡ (ok old, s)
unfolding create_ptp_fn announce
create_ptp_fn-known p old k actor s own single e =
    ap (announce actor s) (create_idempotent-known p old k s.table own single e)

-- The policy check writes its own records only.
abbrev pub SameBook : PtpService → PtpService → Type 0
SameBook s s' =
    (s'.table ≡ s.table)
    × (s'.events ≡ s.events)
    × (s'.audited ≡ s.audited)
    × (s'.has_publisher ≡ s.has_publisher)

pub check_policy-frame :
    (subject tenant loan : Key) (s : PtpService) → SameBook s (check_policy subject tenant loan s).1
unfolding check_policy
check_policy-frame subject tenant loan s = elim (Option-cases s.policy) [
  | inl e ↦ rw (check_policy, e) (refl, refl, refl, refl)
  | inr (engine, e) ↦ rw (check_policy, e) (refl, refl, refl, refl)
]

-- What create does when its checks pass.
create-passed :
    (subject : Key) (q : PtpRequest) (id now : ℕ) (s : PtpService)
    → validate q.tenant_id q.loan_account_id q.promised_amount_minor q.promise_date now
        s.instalments
      ≡ ok tt
    → (check_policy subject q.tenant_id q.loan_account_id s).0 ≡ ok tt
    → create subject q id now s
      ≡ create_ptp_fn
          (promise_of q id now)
          (build_idempotency_key q.tenant_id q.call_id q.loan_account_id q.promise_date)
          q.actor_id
          (check_policy subject q.tenant_id q.loan_account_id s).1
unfolding create
create-passed subject q id now s v c = rw (create, v, c) refl

-- And when they do not.
pub create-refused :
    (subject : Key) (q : PtpRequest) (id now : ℕ) (s : PtpService)
    → ((create subject q id now s).1 ≡ s)
      ⊎ ((create subject q id now s).1 ≡ (check_policy subject q.tenant_id q.loan_account_id s).1)
      ⊎ (create subject q id now s
          ≡ create_ptp_fn
              (promise_of q id now)
              (build_idempotency_key q.tenant_id q.call_id q.loan_account_id q.promise_date)
              q.actor_id
              (check_policy subject q.tenant_id q.loan_account_id s).1)
unfolding create
create-refused subject q id now s =
    elim (Result-cases (
      validate q.tenant_id q.loan_account_id q.promised_amount_minor q.promise_date now
        s.instalments)) [
          | inr (x, e) ↦ inl (rw (create, e) refl)
          | inl (u, e) ↦
              elim (Result-cases (check_policy subject q.tenant_id q.loan_account_id s).0) [
                | inr (x, f) ↦ inr (inl (rw (create, e, f) refl))
                | inl (w, f) ↦ inr (inr (rw (create, e, f) refl))
              ]
        ]

emit_created-table :
    (p : PromiseToPay) (actor : Key) (s : PtpService) → (emit_created p actor s).table ≡ s.table
unfolding emit_created
emit_created-table p actor s = refl

pub key-tenant :
    (tenant call loan : Key) (date : Moment)
    → (build_idempotency_key tenant call loan date).tenant ≡ tenant
unfolding build_idempotency_key
key-tenant tenant call loan date = refl

abbrev pub key_of : PtpRequest → PtpKey
key_of q = build_idempotency_key q.tenant_id q.call_id q.loan_account_id q.promise_date

-- In a table with one promise for each key, each of its key's tenant: a promise that passes the
-- checks is recorded if none is on record for the tenant, call, loan account and day. Else the one
-- on record is answered, whatever was asked for, and nothing is recorded, published or audited.
pub create_answers :
    (subject : Key) (q : PtpRequest) (id now : ℕ) (s : PtpService)
    → IsSingle s.table
    → validate q.tenant_id q.loan_account_id q.promised_amount_minor q.promise_date now
        s.instalments
      ≡ ok tt
    → (check_policy subject q.tenant_id q.loan_account_id s).0 ≡ ok tt
    → let (out, s') = create subject q id now s in
      ((with_key (key_of q) s.table ≡ none)
        × (out ≡ ok (promise_of q id now))
        × (s'.table
            ≡ s.table
              ++ (record { promise = promise_of q id now; idempotency_key = key_of q } ∷ [])))
      ⊎ ((old : PromiseToPay) × (with_key (key_of q) s.table ≡ some old)
          × (out ≡ ok old)
          × SameBook s s')
create_answers subject q id now s single v c =
    let judged = (check_policy subject q.tenant_id q.loan_account_id s).1 in
    let frame = check_policy-frame subject q.tenant_id q.loan_account_id s in
    let p = promise_of q id now in
    let k = key_of q in
    let done = create-passed subject q id now s v c in
    let own = sym (key-tenant q.tenant_id q.call_id q.loan_account_id q.promise_date) in
    elim (Option-cases (with_key k s.table)) [
      | inl e ↦
          let made = done ∙ create_ptp_fn-new p k q.actor_id judged (ap (with_key k) frame.0 ∙ e) in
          inl (
            e,
            ap (λ r. r.0) made,
            ap (λ r. r.1.table) made
                ∙ emit_created-table p q.actor_id _
                ∙ ap (λ t. t ++ (record { promise = p; idempotency_key = k } ∷ [])) frame.0,
          )
      | inr (old, e) ↦
          let made =
            done
            ∙ create_ptp_fn-known p old k q.actor_id judged own
                (subst IsSingle (sym frame.0) single) (ap (with_key k) frame.0 ∙ e) in
          inr (
            old,
            e,
            ap (λ r. r.0) made,
            (
              ap (λ r. r.1.table) made ∙ frame.0,
              ap (λ r. r.1.events) made ∙ frame.1,
              ap (λ r. r.1.audited) made ∙ frame.2,
              ap (λ r. r.1.has_publisher) made ∙ frame.3,
            ),
          )
    ]
