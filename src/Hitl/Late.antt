-- ===== src/Hitl/Late.antt =====
-- What a check of the deadlines (sla_enforcer.py) reports and marks.
pub mod Apart
pub mod Loop
use mathlib.Core.Path.{subst}
use voice_os.Prelude.{
  ◌-◌, ◌/◌, ==_iff, ℕ, ◌≡◌, ◌⊎◌, refl, ap, sym, ◌∙◌, Key, Bool, true, false, ◌&&◌, not, Option,
  none, some, List, [], ◌∷◌, leb, ◌==◌, if◌then◌else◌, keep, All, All-mono, All-keep, All-Among,
  Among, arith, Option-cases, Bool-cases, inl, inr,
}
use voice_os.Prelude.Dict.{lookup, values, IsKeyed}
use voice_os.Hitl.{
  HitlEvent, sla_breach, HitlItem, HitlTable, is_open, in_scope, find_open, insert_by_time, by_time,
  tenant_update, breach,
}
use voice_os.Hitl.Desk.{Desk, is_breach, publish, escalate_all, check_and_escalate}
use voice_os.Hitl.Rows.{
  IsFiled, IsRow, All-insert_by_time, query-IsRow, query-Among, lookup-tenant_update,
  tenant_update-IsKeyed, map_some, changed,
}
use voice_os.Hitl.Late.Apart.{apart, Distinct, Distinct-keep, Distinct-by_time, values-Distinct}
use voice_os.Hitl.Late.Loop.{
  hits, marked_if, escalate_all-marks, hits_some, hits_source, escalate_all-IsKeyed,
}

-- Is a row open, in scope, past its deadline and not yet marked.
abbrev pub is_late : Option Key → ℕ → HitlItem → Bool
is_late scope now i = (in_scope scope i.tenant_id && is_open i.status) && is_breach now i

abbrev pub late_row : Option Key → ℕ → Option HitlItem → Bool
late_row scope now none = false
late_row scope now (some i) = is_late scope now i

pub find_open-eq :
    (scope : Option Key) (t : HitlTable)
    → find_open scope t
      ≡ by_time (keep (λ i. in_scope scope i.tenant_id && is_open i.status) (values t))
unfolding find_open
find_open-eq scope t = refl

-- The items that find_open gives to the loop.
pub find_open-rows :
    (scope : Option Key) (t : HitlTable)
    → IsKeyed t
    → IsFiled t
    → Distinct (find_open scope t)
      × All
          (λ i. IsRow t i × ((in_scope scope i.tenant_id && is_open i.status) ≡ true))
          (find_open scope t)
find_open-rows scope t keyed filed =
    let open_in = λ (i : HitlItem). in_scope scope i.tenant_id && is_open i.status in
    let same = sym (find_open-eq scope t) in
    (
      subst Distinct same
          (Distinct-by_time _ (Distinct-keep open_in (values t) (values-Distinct t keyed filed))),
      subst (λ is. All (λ i. IsRow t i × (open_in i ≡ true)) is) same
          (query-IsRow open_in t keyed filed),
    )

hits-find_open :
    (scope : Option Key) (now : ℕ) (t : HitlTable) (k : Key)
    → IsKeyed t
    → IsFiled t
    → hits now k (find_open scope t) ≡ late_row scope now (lookup k t)
hits-find_open scope now t k keyed filed =
    let (_, rows) = find_open-rows scope t keyed filed in
    elim (Bool-cases (hits now k (find_open scope t))) [
      | inl e ↦
          let (i, (row, o), b, own) = hits_source now k _ (find_open scope t) rows e in
          let found : lookup k t ≡ some i = ap (λ (j : Key). lookup j t) (sym own) ∙ row in
          e ∙ rw (found, o, b) refl
      | inr e ↦ e ∙ elim (Option-cases (lookup k t)) [
        | inl n ↦ rw n refl
        | inr (i, found) ↦ elim (Bool-cases (is_late scope now i)) [
          | inr l ↦ rw (found, l) refl
          | inl l ↦ absurd (
              ground (
                arith,
                e,
                hits_some now k i (find_open scope t)
                    (subst (Among i) (sym (find_open-eq scope t))
                      (query-Among _ t k i found (ground (arith, l))))
                    (ground (arith, l)) (filed k i found),
              ))
        ]
      ]
    ]

-- What a check reports and marks, in terms of its own query and test.
pub check-late_row :
    (scope : Option Key) (now : ℕ) (d : Desk)
    → IsKeyed d.items
    → IsFiled d.items
    → ((check_and_escalate scope now d).0 ≡ keep (is_breach now) (find_open scope d.items))
      × ((k : Key)
          → lookup k (check_and_escalate scope now d).1.items
            ≡ marked_if (late_row scope now (lookup k d.items)) (lookup k d.items))
unfolding check_and_escalate
check-late_row scope now d keyed filed =
    let (distinct, rows) = find_open-rows scope d.items keyed filed in
    let (out, marks) =
      escalate_all-marks now (find_open scope d.items) d distinct
        (All-mono _ _ (find_open scope d.items) (λ i r. r.0) rows) in
    (
      out,
      λ k.
          marks k
          ∙ ap (λ b. marked_if b (lookup k d.items))
              (hits-find_open scope now d.items k keyed filed),
    )

pub check-IsKeyed :
    (scope : Option Key) (now : ℕ) (d : Desk)
    → IsKeyed d.items
    → IsKeyed (check_and_escalate scope now d).1.items
unfolding check_and_escalate
check-IsKeyed scope now d h = escalate_all-IsKeyed now (find_open scope d.items) d h
