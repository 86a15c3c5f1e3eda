-- ===== src/Hitl/Handed.antt =====
-- The items that were handed out and the breaches that were reported (queue.py and sla_enforcer.py), by
-- calls that come one after the other.
pub mod Kept
pub mod Reported
use mathlib.Core.Path.{subst}
use voice_os.Prelude.{
  ◌*◌, ◌⊎◌, ==_iff, keep, All, All-mono, ℕ, ◌+◌, ◌≤◌, ◌≡◌, refl, ap, sym, ◌∙◌, Key, Bool, true,
  false, not, Option, none, some, List, [], ◌∷◌, ◌++◌, ◌==◌, if◌then◌else◌, count, count-append,
  arith, Option-cases, Bool-cases, inl, inr, ok, err, Result, map,
}
use voice_os.Prelude.Dict.{lookup, insert, has, IsKeyed, lookup-insert, insert-IsKeyed}
use voice_os.Hitl.{
  HitlEvent, HitlError, HitlPriority, HitlItem, HitlTable, is_pending, tenant_update, claim_by,
  resolve_at, breach, create, find_open,
}
use voice_os.Hitl.Desk.{
  new_item, record_decision, is_blank, Desk, enqueue, dequeue, resolve, check_and_escalate,
  escalate_all, is_breach, publish,
}
use voice_os.Hitl.Rows.{
  keep-All, IsFiled, IsRow, lookup-tenant_update, tenant_update-IsKeyed, map_some, changed,
}
use voice_os.Hitl.Late.Apart.{apart, Distinct, Distinct-keep}
use voice_os.Hitl.Late.{is_late, late_row, find_open-rows, check-late_row, check-IsKeyed}
use voice_os.Hitl.Late.Loop.{marked_if}
use voice_os.Hitl.Urgent.{waits, dequeue-IsFirst}
use voice_os.Hitl.Handed.Kept.{
  one_if, is_taken, is_marked, IsKept, tenant_update-IsKept, resolve_at-Keeps, insert-IsKept,
  claim-IsKept,
}
use voice_os.Hitl.Handed.Reported.{ids, check-IsKept}

-- What a call of dequeue adds to the items that were handed out.
abbrev pub handed_with : Option HitlItem → List Key → List Key
handed_with none handed = handed
handed_with (some i) handed = i.hitl_item_id ∷ handed

-- The desk after any calls, one after the other, and the items that were handed out and reported.
pub data Shift : List Key → List Key → Desk → Type 0 where
  opened : (d : Desk) → d.items ≡ [] → Shift [] [] d
  enqueued :
      {handed reported : List Key} {d : Desk} (id tenant call reason context now : ℕ)
      (priority : HitlPriority)
      → Shift handed reported d
      → Shift handed reported (enqueue id tenant call reason priority context now d).1
  dequeued :
      {handed reported : List Key} {d : Desk} (tenant supervisor now : ℕ)
      → Shift handed reported d
      → Shift
          (handed_with (dequeue tenant supervisor now d).0 handed)
          reported
          (dequeue tenant supervisor now d).1
  resolved :
      {handed reported : List Key} {d : Desk} (tenant id now : ℕ)
      → Shift handed reported d
      → Shift handed reported (resolve tenant id now d)
  decided :
      {handed reported : List Key} {d : Desk} (id tenant item supervisor decision now : ℕ)
      (rationale : List ℕ)
      → Shift handed reported d
      → Shift handed reported (record_decision id tenant item supervisor decision rationale now d).1
  checked :
      {handed reported : List Key} {d : Desk} (scope : Option Key) (now : ℕ)
      → Shift handed reported d
      → Shift handed
          (ids (check_and_escalate scope now d).0 ++ reported)
          (check_and_escalate scope now d).1

at_most : (b : Bool) (n : ℕ) → n ≤ one_if b → n ≤ 1
at_most true n h = h
at_most false n h = omega (arith, h)

resolve-items :
    (tenant id now : ℕ) (d : Desk)
    → (resolve tenant id now d).items ≡ tenant_update tenant id (resolve_at now) d.items
unfolding resolve
resolve-items tenant id now d = refl

record_decision-items :
    (id tenant item supervisor decision now : ℕ) (rationale : List ℕ) (d : Desk)
    → let t = (record_decision id tenant item supervisor decision rationale now d).1.items in
      (t ≡ d.items) ⊎ (t ≡ tenant_update tenant item (resolve_at now) d.items)
unfolding record_decision resolve publish
record_decision-items id tenant item supervisor decision now rationale d =
    elim (Bool-cases (is_blank rationale)) [
      | inl e ↦ inl (rw (record_decision, e) refl)
      | inr e ↦ elim (Bool-cases (has item d.items)) [
        | inr f ↦ inl (rw (record_decision, e, f) refl)
        | inl f ↦ inr (rw (record_decision, e, f) (ground arith))
      ]
    ]

enqueue-items :
    (id tenant call reason context now : ℕ) (priority : HitlPriority) (d : Desk)
    → let t = (enqueue id tenant call reason priority context now d).1.items in
      (t ≡ d.items)
      ⊎ ((i : HitlItem) × (lookup i.hitl_item_id d.items ≡ none)
          × (t ≡ insert i.hitl_item_id i d.items))
unfolding enqueue create publish
enqueue-items id tenant call reason context now priority d =
    elim (Option-cases (lookup id d.items)) [
      | inr (old, e) ↦ inl (rw (enqueue, e) refl)
      | inl e ↦ inr (
        new_item id tenant call reason priority context now (now + d.sla_minutes priority * 60_000),
        e,
        rw (enqueue, e) (ground arith),
      )
    ]

dequeue-IsKept :
    (tenant supervisor now : ℕ) (handed reported : List Key) (d : Desk)
    → IsKept handed reported d.items
    → IsKept
        (handed_with (dequeue tenant supervisor now d).0 handed)
        reported
        (dequeue tenant supervisor now d).1.items
dequeue-IsKept tenant supervisor now handed reported d kept =
    elim (dequeue-IsFirst tenant supervisor now d kept.0 kept.1) [
      | inl (nothing, _) ↦ rw nothing kept
      | inr (i, (row, w, _), out, changed_desk) ↦
          rw (out, changed_desk)
            (claim-IsKept tenant supervisor now i handed reported d.items row w kept)
    ]

-- Every such desk is well formed, and remembers what was handed out and reported.
pub Shift-IsKept :
    {handed reported : List Key} {d : Desk}
    → Shift handed reported d
    → IsKept handed reported d.items
Shift-IsKept (opened d e) = rw e (tt, (λ k i found. cc), (λ k. omega arith), λ k. omega arith)
Shift-IsKept
      (enqueued {handed = h} {reported = r} {d = d} id tenant call reason context now priority
        before) =
    elim (enqueue-items id tenant call reason context now priority d) [
      | inl same ↦ rw same (Shift-IsKept before)
      | inr (i, fresh, grown) ↦ rw grown (insert-IsKept i h r d.items fresh (Shift-IsKept before))
    ]
Shift-IsKept (dequeued {handed = h} {reported = r} {d = d} tenant supervisor now before) =
    dequeue-IsKept tenant supervisor now h r d (Shift-IsKept before)
Shift-IsKept (resolved {handed = h} {reported = r} {d = d} tenant id now before) =
    rw (resolve-items tenant id now d) (
      tenant_update-IsKept tenant id (resolve_at now) h r d.items (resolve_at-Keeps now)
        (Shift-IsKept before))
Shift-IsKept
      (decided {handed = h} {reported = r} {d = d} id tenant item supervisor decision now rationale
        before) =
    elim (record_decision-items id tenant item supervisor decision now rationale d) [
      | inl same ↦ rw same (Shift-IsKept before)
      | inr done ↦ rw done (
          tenant_update-IsKept tenant item (resolve_at now) h r d.items (resolve_at-Keeps now)
            (Shift-IsKept before))
    ]
Shift-IsKept (checked {handed = h} {reported = r} {d = d} scope now before) =
    check-IsKept scope now h r d (Shift-IsKept before)

-- From an empty queue, whatever calls come one after the other, of any tenants and supervisors: no
-- item is handed out twice, and no breach is reported twice.
pub handed_once :
    {handed reported : List Key} {d : Desk}
    → Shift handed reported d
    → (k : Key) → (count k handed ≤ 1) × (count k reported ≤ 1)
handed_once {d = d} shift k =
    let (_, _, once, told) = Shift-IsKept shift in
    (
      at_most (is_taken (lookup k d.items)) _ (once k),
      at_most (is_marked (lookup k d.items)) _ (told k),
    )
