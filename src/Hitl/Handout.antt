-- ===== src/Hitl/Handout.antt =====
-- Which item dequeue (queue.py) hands out, and what it changes, in terms of the fields of the items.
use voice_os.Prelude.{
  ℕ, ◌≡◌, ◌<◌, ◌≤◌, ◌⊎◌, refl, ap, sym, ◌∙◌, Key, true, false, ◌&&◌, ◌||◌, ltb, none, some, ◌==◌,
  ==_iff, if◌then◌else◌, arith, Bool-cases, inl, inr,
}
use voice_os.Prelude.Dict.{lookup, IsKeyed}
use voice_os.Hitl.{
  HitlPriority, critical, high, medium, HitlItemStatus, pending, claimed, resolved, is_pending,
  priority_order, HitlItem, HitlTable, tenant_update, claim_by,
}
use voice_os.Hitl.Desk.{Desk, before, dequeue}
use voice_os.Hitl.Rows.{IsFiled, IsRow, lookup-tenant_update}
use voice_os.Hitl.Urgent.{waits, waits-tenant, dequeue-IsFirst}

-- How urgent a priority is.
abbrev pub urgency : HitlPriority → ℕ
urgency critical = 2
urgency high = 1
urgency medium = 0

-- An item of the tenant that no supervisor has claimed and that is not resolved.
abbrev pub IsWaiting : Key → HitlItem → Type 0
IsWaiting tenant i = (i.tenant_id ≡ tenant) × (i.status ≡ pending)

-- The first item is more urgent, or as urgent and in the queue for at least as long.
abbrev pub IsAhead : HitlItem → HitlItem → Type 0
IsAhead i j =
    (urgency j.priority < urgency i.priority)
    ⊎ ((urgency j.priority ≡ urgency i.priority) × (i.enqueued_at ≤ j.enqueued_at))

pending-is_pending : (s : HitlItemStatus) → (is_pending s ≡ true) → s ≡ pending
pending-is_pending pending h = refl
pending-is_pending claimed h = cc
pending-is_pending resolved h = cc

waits-IsWaiting : (tenant : Key) (i : HitlItem) → waits tenant i ≡ true → IsWaiting tenant i
waits-IsWaiting tenant i h = (
  (==_iff i.tenant_id tenant).0 (waits-tenant tenant i h),
  pending-is_pending i.status (ground (arith, h)),
)

IsWaiting-waits : (tenant : Key) (i : HitlItem) → IsWaiting tenant i → waits tenant i ≡ true
IsWaiting-waits tenant i (own, waiting) = rw (own, waiting, (==_iff tenant tenant).1 refl) refl

ahead_of :
    (p q : HitlPriority) (a b : ℕ)
    → (ltb (priority_order p) (priority_order q)
        || (priority_order p == priority_order q && ltb a b))
      ≡ false
    → (urgency p < urgency q) ⊎ ((urgency p ≡ urgency q) × (b ≤ a))
ahead_of critical critical a b h = inr (refl, ground (arith, h))
ahead_of critical high a b h = cc
ahead_of critical medium a b h = cc
ahead_of high critical a b h = inl (omega arith)
ahead_of high high a b h = inr (refl, ground (arith, h))
ahead_of high medium a b h = cc
ahead_of medium critical a b h = inl (omega arith)
ahead_of medium high a b h = inl (omega arith)
ahead_of medium medium a b h = inr (refl, ground (arith, h))

before-IsAhead : (i j : HitlItem) → before j i ≡ false → IsAhead i j
before-IsAhead i j h = ahead_of j.priority i.priority j.enqueued_at i.enqueued_at h

-- The row that is claimed, and no other.
claimed-lookup :
    (tenant supervisor now : Key) (t : HitlTable) (i : HitlItem) (k : Key)
    → IsRow t i
    → i.tenant_id ≡ tenant
    → lookup k (tenant_update tenant i.hitl_item_id (claim_by supervisor now) t)
      ≡ (if i.hitl_item_id == k then some (claim_by supervisor now i) else lookup k t)
claimed-lookup tenant supervisor now t i k row own =
    lookup-tenant_update tenant i.hitl_item_id (claim_by supervisor now) t k
    ∙ elim (Bool-cases (i.hitl_item_id == k)) [
      | inr e ↦ rw e refl
      | inl e ↦
          let there : lookup k t ≡ some i =
            ap (λ (j : Key). lookup j t) (sym ((==_iff i.hitl_item_id k).0 e)) ∙ row in
          rw (e, there, own, (==_iff tenant tenant).1 refl) refl
    ]

-- In a table with each item once, under its identifier: if no item of the tenant waits, nothing is
-- handed out and nothing changes. Else an item that waited is handed out, now claimed by the
-- supervisor: no other that waited is more urgent, CRITICAL before HIGH before MEDIUM, and none as
-- urgent is in the queue for longer. Of the desk only the row of that item changes.
pub dequeue_most_urgent :
    (tenant supervisor now : Key) (d : Desk)
    → IsKeyed d.items
    → IsFiled d.items
    → let (out, d') = dequeue tenant supervisor now d in
      ((out ≡ none)
        × (d' ≡ d)
        × ((j : HitlItem) → lookup j.hitl_item_id d.items ≡ some j → ¬ IsWaiting tenant j))
      ⊎ ((i : HitlItem) × (lookup i.hitl_item_id d.items ≡ some i)
          × IsWaiting tenant i
          × ((j : HitlItem)
              → lookup j.hitl_item_id d.items ≡ some j
              → IsWaiting tenant j
              → IsAhead i j)
          × (out
              ≡ some (record i {
                status = claimed;
                claimed_by = some supervisor;
                claimed_at = some now;
              }))
          × ((k : Key)
              → lookup k d'.items ≡ (if i.hitl_item_id == k then out else lookup k d.items))
          × (d' ≡ record d { items = d'.items }))
dequeue_most_urgent tenant supervisor now d keyed filed =
    elim (dequeue-IsFirst tenant supervisor now d keyed filed) [
      | inl (same, none_waits) ↦ rw same (
          inl (
            refl,
            refl,
            λ j row w.
                let no_wait = none_waits j row in let wait = IsWaiting-waits tenant j w in cc,
          ))
      | inr (i, (row, w, first), out, changed) ↦
          let waiting = waits-IsWaiting tenant i w in
          inr (
            i,
            row,
            waiting,
            λ j there later. before-IsAhead i j (first j there (IsWaiting-waits tenant j later)),
            out,
            λ k. rw (out, changed) (claimed-lookup tenant supervisor now d.items i k row waiting.0),
            rw changed refl,
          )
    ]
