-- ===== src/Promises/Book.antt =====
-- The promises on record after any calls (promise_to_pay.py).
use mathlib.Core.Path.{subst}
use voice_os.Prelude.{
  ℕ, suc, ◌+◌, ◌≤◌, ◌≡◌, ◌⊎◌, refl, ap, sym, ◌∙◌, Key, true, List, [], ◌∷◌, ◌++◌, All, length,
  length-append, arith, Option-cases, inl, inr,
}
use voice_os.Promises.Service.{
  PtpRow, PtpTable, PtpStatus, PromiseToPay, PtpKey, PtpEvent, ptp_created, ptp_broken, PtpRequest,
  PtpService, with_key, create_ptp_fn, emit_created, promise_of, check_policy, create,
  set_ptp_status, update_status,
}
use voice_os.Promises.Once.{
  key_of, key-tenant, create_ptp_fn-new, create_ptp_fn-known, check_policy-frame, create-refused,
}
use voice_os.Promises.OnDay.{
  promises_on, promises_on-rows_of, IsNamed, row_for, snoc-IsNamed, set_ptp_status-IsNamed,
}
use voice_os.Promises.Single.{
  IsSingle, append-IsSingle, set_ptp_status-owned, rows_of-set_ptp_status,
}

-- The promises that were announced.
abbrev pub announced : List PtpEvent → ℕ
announced [] = 0
announced (ptp_created p ∷ es) = suc (announced es)
announced (ptp_broken tenant id ∷ es) = announced es

announced-append : (es fs : List PtpEvent) → announced (es ++ fs) ≡ announced es + announced fs
announced-append [] fs = omega arith
announced-append (ptp_created p ∷ es) fs = omega (arith, announced-append es fs)
announced-append (ptp_broken tenant id ∷ es) fs = announced-append es fs

-- Each key is there once, and each promise was announced once.
abbrev pub IsAnnounced : PtpService → Type 0
IsAnnounced s = IsSingle s.table × (s.has_publisher ≡ true → announced s.events ≡ length s.table)

-- The service after any calls.
pub data Book : PtpService → Type 0 where
  opened : (s : PtpService) → s.table ≡ [] → s.events ≡ [] → Book s
  asked :
      {s : PtpService} (subject id now : ℕ) (q : PtpRequest)
      → Book s
      → Book (create subject q id now s).1
  updated :
      {s : PtpService} (tenant id : ℕ) (status : PtpStatus)
      → Book s
      → Book (update_status tenant id status s)

empty-IsSingle : IsSingle []
empty-IsSingle = (tt, λ k. omega arith)

emit_created-announced :
    (p : PromiseToPay) (actor : Key) (s : PtpService)
    → ((emit_created p actor s).has_publisher ≡ true)
    → announced (emit_created p actor s).events ≡ suc (announced s.events)
unfolding emit_created
emit_created-announced p actor s h =
    rw (emit_created, h) (ground (arith, announced-append s.events (ptp_created p ∷ [])))

emit_created-kept :
    (p : PromiseToPay) (actor : Key) (s : PtpService)
    → ((emit_created p actor s).table ≡ s.table)
      × ((emit_created p actor s).has_publisher ≡ s.has_publisher)
unfolding emit_created
emit_created-kept p actor s = (refl, refl)

-- _create_ptp_fn keeps a book in order.
create_ptp_fn-IsAnnounced :
    (p : PromiseToPay) (k : PtpKey) (actor : Key) (s : PtpService)
    → p.tenant_id ≡ k.tenant
    → IsAnnounced s
    → IsAnnounced (create_ptp_fn p k actor s).1
create_ptp_fn-IsAnnounced p k actor s own (single, told) =
    elim (Option-cases (with_key k s.table)) [
      | inr (old, e) ↦ rw (create_ptp_fn-known p old k actor s own single e) (single, told)
      | inl e ↦
          let row : PtpRow = record { promise = p; idempotency_key = k } in
          let grown : PtpService = record s { table = s.table ++ (row ∷ []) } in
          let (table, publisher) = emit_created-kept p actor grown in
          rw (create_ptp_fn-new p k actor s e) (
            subst IsSingle (sym table) (append-IsSingle p k s.table own e single),
            λ h.
                emit_created-announced p actor grown h
                ∙ ap suc (told (sym publisher ∙ h))
                ∙ ground (arith, length-append s.table (row ∷ []))
                ∙ ap length (sym table),
          )
    ]

create-IsAnnounced :
    (subject id now : ℕ) (q : PtpRequest) (s : PtpService)
    → IsAnnounced s
    → IsAnnounced (create subject q id now s).1
create-IsAnnounced subject id now q s (single, told) =
    let judged = (check_policy subject q.tenant_id q.loan_account_id s).1 in
    let (table, events, _, publisher) =
      check_policy-frame subject q.tenant_id q.loan_account_id s in
    let order : IsAnnounced judged = (
      subst IsSingle (sym table) single,
      λ h. ap announced events ∙ told (sym publisher ∙ h) ∙ ap length (sym table),
    ) in
    elim (create-refused subject q id now s) [
      | inl same ↦ subst IsAnnounced (sym same) (single, told)
      | inr (inl checked) ↦ subst IsAnnounced (sym checked) order
      | inr (inr made) ↦ subst IsAnnounced (sym (ap (λ r. r.1) made)) (
          create_ptp_fn-IsAnnounced (promise_of q id now) (key_of q) q.actor_id judged
            (sym (key-tenant q.tenant_id q.call_id q.loan_account_id q.promise_date)) order)
    ]

length-set_ptp_status :
    (tenant id : Key) (status : PtpStatus) (t : PtpTable)
    → length (set_ptp_status tenant id status t) ≡ length t
length-set_ptp_status tenant id status [] = refl
length-set_ptp_status tenant id status (r ∷ t) =
    ground (arith, length-set_ptp_status tenant id status t)

update_status-IsAnnounced :
    (tenant id : ℕ) (status : PtpStatus) (s : PtpService)
    → IsAnnounced s
    → IsAnnounced (update_status tenant id status s)
unfolding update_status
update_status-IsAnnounced tenant id status s (single, told) = (
  (
    set_ptp_status-owned tenant id status s.table single.0,
    λ k. omega (arith, rows_of-set_ptp_status k tenant id status s.table, single.1 k),
  ),
  λ h. ground (
    arith,
    told h,
    length-set_ptp_status tenant id status s.table,
    announced-append s.events (ptp_broken tenant id ∷ []),
  ),
)

pub Book-IsAnnounced : {s : PtpService} → Book s → IsAnnounced s
Book-IsAnnounced (opened s e n) =
    (subst IsSingle (sym e) empty-IsSingle, λ h. ap announced n ∙ ap length (sym e))
Book-IsAnnounced (asked {s = s} subject id now q book) =
    create-IsAnnounced subject id now q s (Book-IsAnnounced book)
Book-IsAnnounced (updated {s = s} tenant id status book) =
    update_status-IsAnnounced tenant id status s (Book-IsAnnounced book)

-- What create leaves of the table: what it was, or that with the promise of the request behind it.
create-table :
    (subject id now : ℕ) (q : PtpRequest) (s : PtpService)
    → IsAnnounced s
    → ((create subject q id now s).1.table ≡ s.table)
      ⊎ ((create subject q id now s).1.table ≡ s.table ++ (row_for q id now ∷ []))
create-table subject id now q s (single, told) =
    let judged = (check_policy subject q.tenant_id q.loan_account_id s).1 in
    let table = (check_policy-frame subject q.tenant_id q.loan_account_id s).0 in
    elim (create-refused subject q id now s) [
      | inl same ↦ inl (ap (λ (v : PtpService). v.table) same)
      | inr (inl checked) ↦ inl (ap (λ (v : PtpService). v.table) checked ∙ table)
      | inr (inr made) ↦ elim (Option-cases (with_key (key_of q) judged.table)) [
        | inr (old, e) ↦
            let known =
              create_ptp_fn-known (promise_of q id now) old (key_of q) q.actor_id judged
                (sym (key-tenant q.tenant_id q.call_id q.loan_account_id q.promise_date))
                (subst IsSingle (sym table) single) e in
            inl (ap (λ r. r.1.table) (made ∙ known) ∙ table)
        | inl e ↦
            let row = row_for q id now in
            let grown : PtpService = record judged { table = judged.table ++ (row ∷ []) } in
            let new = create_ptp_fn-new (promise_of q id now) (key_of q) q.actor_id judged e in
            inr (
              ap (λ r. r.1.table) (made ∙ new)
              ∙ (emit_created-kept (promise_of q id now) q.actor_id grown).0
              ∙ ap (λ (t : PtpTable). t ++ (row ∷ [])) table)
      ]
    ]

update_status-table :
    (tenant id : ℕ) (status : PtpStatus) (s : PtpService)
    → (update_status tenant id status s).table ≡ set_ptp_status tenant id status s.table
unfolding update_status
update_status-table tenant id status s = refl

Book-IsNamed : {s : PtpService} → Book s → All IsNamed s.table
Book-IsNamed (opened s e n) = subst (All IsNamed) (sym e) tt
Book-IsNamed (asked {s = s} subject id now q book) =
    elim (create-table subject id now q s (Book-IsAnnounced book)) [
      | inl same ↦ subst (All IsNamed) (sym same) (Book-IsNamed book)
      | inr grown ↦
          subst (All IsNamed) (sym grown) (snoc-IsNamed q id now s.table (Book-IsNamed book))
    ]
Book-IsNamed (updated {s = s} tenant id status book) =
    subst (All IsNamed) (sym (update_status-table tenant id status s))
      (set_ptp_status-IsNamed tenant id status s.table (Book-IsNamed book))

-- From no promises and no events, whatever is asked for and updated, one call after the other, and
-- how often: by what the promises say, there is at most one for a tenant, call, loan account and
-- day in the zone of its date. With a publisher as many promises were announced as are on record.
pub promised_once :
    {s : PtpService}
    → Book s
    → ((tenant call loan : Key) (day : ℕ) → promises_on tenant call loan day s.table ≤ 1)
      × (s.has_publisher ≡ true → announced s.events ≡ length s.table)
promised_once {s} book =
    let ((_, once), told) = Book-IsAnnounced book in
    (
      λ tenant call loan day.
          rw (promises_on-rows_of tenant call loan day s.table (Book-IsNamed book))
            (once (record { tenant = tenant; call = call; loan = loan; day = day })),
      told,
    )
