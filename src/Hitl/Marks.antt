-- ===== src/Hitl/Marks.antt =====
-- What a check of the deadlines (sla_enforcer.py) reports and marks, in terms of the fields of the
-- items.
use mathlib.Core.Path.{subst}
use voice_os.Prelude.{
  ℕ, ◌≡◌, ◌≢◌, ◌≤◌, ◌⊎◌, refl, sym, ◌∙◌, Key, true, false, leb, Option, none, some, ◌==◌, ==_iff,
  arith, Bool-cases, inl, inr, keep, Among, All-Among,
}
use voice_os.Prelude.Dict.{lookup, IsKeyed}
use voice_os.Hitl.{
  HitlItemStatus, pending, claimed, resolved, is_open, in_scope, find_open, HitlItem, HitlTable,
}
use voice_os.Hitl.Desk.{Desk, is_breach, check_and_escalate}
use voice_os.Hitl.Rows.{IsFiled, IsRow, query-Among, Among-keep}
use voice_os.Hitl.Late.{is_late, find_open-eq, check-late_row}
use voice_os.Hitl.Late.Apart.{Distinct}
use voice_os.Hitl.Handed.Reported.{breached_rows}

-- Of the tenant of the check, or of any.
abbrev pub InScope : Option Key → Key → Type 0
InScope none tenant = Unit
InScope (some k) tenant = tenant ≡ k

-- An item that is not resolved, is not marked, and whose deadline has come.
abbrev pub IsOverdue : Option Key → ℕ → HitlItem → Type 0
IsOverdue scope now i =
    InScope scope i.tenant_id
    × (i.status ≢ resolved)
    × (i.sla_breached ≡ false)
    × (i.sla_deadline_at ≤ now)

in_scope-cases :
    (scope : Option Key) (tenant : Key)
    → ((in_scope scope tenant ≡ true) × InScope scope tenant)
      ⊎ ((in_scope scope tenant ≡ false) × (¬ InScope scope tenant))
in_scope-cases none tenant = inl (refl, tt)
in_scope-cases (some k) tenant = elim (Bool-cases (tenant == k)) [
  | inl e ↦ inl (e, (==_iff tenant k).0 e)
  | inr e ↦ inr (e, λ same. let found = (==_iff tenant k).1 same in cc)
]

is_open-cases :
    (s : HitlItemStatus)
    → ((is_open s ≡ true) × (s ≢ resolved)) ⊎ ((is_open s ≡ false) × (s ≡ resolved))
is_open-cases pending = inl (refl, λ e. cc)
is_open-cases claimed = inl (refl, λ e. cc)
is_open-cases resolved = inr (refl, refl)

is_late-cases :
    (scope : Option Key) (now : ℕ) (i : HitlItem)
    → ((is_late scope now i ≡ true) × IsOverdue scope now i)
      ⊎ ((is_late scope now i ≡ false) × (¬ IsOverdue scope now i))
is_late-cases scope now i = elim (in_scope-cases scope i.tenant_id) [
  | inr (e, out) ↦ inr (rw e refl, λ l. out l.0)
  | inl (e, within) ↦ elim (is_open-cases i.status) [
    | inr (f, over) ↦ inr (rw (e, f) refl, λ l. l.1 over)
    | inl (f, still) ↦ elim (Bool-cases i.sla_breached) [
      | inl g ↦ inr (rw (e, f, g) refl, λ l. let fresh = l.2 in cc)
      | inr g ↦ elim (Bool-cases (leb i.sla_deadline_at now)) [
        | inl h ↦ inl (rw (e, f, g, h) refl, (within, still, g, ground (arith, h)))
        | inr h ↦ inr (rw (e, f, g, h) refl, λ l. let due = l.3 in ground (arith, h, due))
      ]
    ]
  ]
]

IsOverdue-is_late :
    (scope : Option Key) (now : ℕ) (i : HitlItem)
    → IsOverdue scope now i
    → is_late scope now i ≡ true
IsOverdue-is_late scope now i l = elim (is_late-cases scope now i) [
  | inl (e, _) ↦ e
  | inr (_, n) ↦ absurd (n l)
]

is_late-IsOverdue :
    (scope : Option Key) (now : ℕ) (i : HitlItem)
    → is_late scope now i ≡ true
    → IsOverdue scope now i
is_late-IsOverdue scope now i h = elim (is_late-cases scope now i) [
  | inl (_, l) ↦ l
  | inr (e, _) ↦ cc
]

not_late :
    (scope : Option Key) (now : ℕ) (i : HitlItem)
    → ¬ IsOverdue scope now i
    → is_late scope now i ≡ false
not_late scope now i n = elim (is_late-cases scope now i) [
  | inl (_, l) ↦ absurd (n l)
  | inr (e, _) ↦ e
]

-- A late row is among those that the loop reports.
late-Among :
    (scope : Option Key) (now : ℕ) (t : HitlTable) (i : HitlItem)
    → IsRow t i
    → is_late scope now i ≡ true
    → Among i (keep (is_breach now) (find_open scope t))
late-Among scope now t i row l =
    Among-keep i (is_breach now) (find_open scope t)
      (subst (Among i) (sym (find_open-eq scope t))
        (query-Among _ t i.hitl_item_id i row (ground (arith, l))))
      (ground (arith, l))

-- In a table with each item once, under its identifier: a check reports each row that is late once,
-- and nothing else. Late is a row of its tenant, or of any without one, that is not resolved, is not
-- marked, and whose deadline is not after the time of the check. Those rows are then marked, of
-- which nothing else changes; the others stay, and none is added.
pub check_marks_late :
    (scope : Option Key) (now : ℕ) (d : Desk)
    → IsKeyed d.items
    → IsFiled d.items
    → let (out, d') = check_and_escalate scope now d in
      Distinct out
      × ((i : HitlItem)
          → (Among i out → (lookup i.hitl_item_id d.items ≡ some i) × IsOverdue scope now i)
            × ((lookup i.hitl_item_id d.items ≡ some i) → IsOverdue scope now i → Among i out))
      × ((k : Key) (i : HitlItem)
          → lookup k d.items ≡ some i
          → (IsOverdue scope now i → lookup k d'.items ≡ some (record i { sla_breached = true }))
            × (¬ IsOverdue scope now i → lookup k d'.items ≡ some i))
      × ((k : Key) → lookup k d.items ≡ none → lookup k d'.items ≡ none)
check_marks_late scope now d keyed filed =
    let (out, marks) = check-late_row scope now d keyed filed in
    let (distinct, late) = breached_rows scope now d.items keyed filed in
    (
      subst Distinct (sym out) distinct,
      λ i. (
        λ m.
            let (row, l) =
              All-Among (λ j. IsRow d.items j × (is_late scope now j ≡ true)) i _ late
                (subst (Among i) out m) in
            (row, is_late-IsOverdue scope now i l),
        λ row l.
            subst (Among i) (sym out)
              (late-Among scope now d.items i row (IsOverdue-is_late scope now i l)),
      ),
      λ k i found. (
        λ l. marks k ∙ rw (found, IsOverdue-is_late scope now i l) refl,
        λ n. marks k ∙ rw (found, not_late scope now i n) refl,
      ),
      λ k gone. marks k ∙ rw gone refl,
    )
