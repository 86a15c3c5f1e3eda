-- ===== src/Examples/Desk.antt =====
-- The theorems about the human-in-the-loop desk (src/services/hitl): two items and two supervisors.
use voice_os.Prelude.{
  ◌≤◌, ◌≡◌, ◌⊎◌, refl, Key, true, false, none, some, [], ◌++◌, Among, ◌==◌, if◌then◌else◌, count,
}
use voice_os.Prelude.Dict.{lookup, IsKeyed}
use voice_os.Hitl.{claimed, high, medium, default_sla_minutes, HitlItem}
use voice_os.Hitl.Desk.{Desk, enqueue, dequeue, check_and_escalate}
use voice_os.Hitl.Rows.{IsFiled}
use voice_os.Hitl.Handout.{IsWaiting, IsAhead, dequeue_most_urgent}
use voice_os.Hitl.Marks.{IsOverdue, check_marks_late}
use voice_os.Hitl.Late.Apart.{Distinct}
use voice_os.Hitl.Handed.{
  Shift, Shift-IsKept, handed_with, opened, enqueued, dequeued, checked, handed_once,
}
use voice_os.Hitl.Handed.Reported.{ids}

abbrev empty_desk : Desk
empty_desk = record {
  items = [];
  decisions = [];
  has_publisher = true;
  has_audit = false;
  events = [];
  audited = [];
  sla_minutes = default_sla_minutes;
}

abbrev one_item : Desk
one_item = (enqueue 1 7 100 200 medium 0 1_000 empty_desk).1

abbrev two_items : Desk
two_items = (enqueue 2 7 101 201 high 0 2_000 one_item).1

two_items-Shift : Shift [] [] two_items
two_items-Shift =
    enqueued 2 7 101 201 0 2_000 high (enqueued 1 7 100 200 0 1_000 medium (opened empty_desk refl))

two_items-IsKeyed : IsKeyed two_items.items
two_items-IsKeyed = (Shift-IsKept two_items-Shift).0

two_items-IsFiled : IsFiled two_items.items
two_items-IsFiled = (Shift-IsKept two_items-Shift).1

dequeue_most_urgent_example :
    let (out, d') = dequeue 7 50 3_000 two_items in
    ((out ≡ none)
      × (d' ≡ two_items)
      × ((j : HitlItem) → lookup j.hitl_item_id two_items.items ≡ some j → ¬ IsWaiting 7 j))
    ⊎ ((i : HitlItem) × (lookup i.hitl_item_id two_items.items ≡ some i)
        × IsWaiting 7 i
        × ((j : HitlItem)
            → lookup j.hitl_item_id two_items.items ≡ some j
            → IsWaiting 7 j
            → IsAhead i j)
        × (out
            ≡ some (record i { status = claimed; claimed_by = some 50; claimed_at = some 3_000 }))
        × ((k : Key)
            → lookup k d'.items ≡ (if i.hitl_item_id == k then out else lookup k two_items.items))
        × (d' ≡ record two_items { items = d'.items }))
dequeue_most_urgent_example =
    dequeue_most_urgent 7 50 3_000 two_items two_items-IsKeyed two_items-IsFiled

check_marks_late_example :
    let (out, d') = check_and_escalate none 2_000_000 two_items in
    Distinct out
    × ((i : HitlItem)
        → (Among i out
            → (lookup i.hitl_item_id two_items.items ≡ some i) × IsOverdue none 2_000_000 i)
          × ((lookup i.hitl_item_id two_items.items ≡ some i)
              → IsOverdue none 2_000_000 i
              → Among i out))
    × ((k : Key) (i : HitlItem)
        → lookup k two_items.items ≡ some i
        → (IsOverdue none 2_000_000 i → lookup k d'.items ≡ some (record i { sla_breached = true }))
          × (¬ IsOverdue none 2_000_000 i → lookup k d'.items ≡ some i))
    × ((k : Key) → lookup k two_items.items ≡ none → lookup k d'.items ≡ none)
check_marks_late_example =
    check_marks_late none 2_000_000 two_items two_items-IsKeyed two_items-IsFiled

handed_once_example :
    (count 2 (handed_with (dequeue 7 50 3_000 two_items).0 []) ≤ 1)
    × (count 2 (ids (check_and_escalate none 2_000_000 (dequeue 7 50 3_000 two_items).1).0 ++ [])
        ≤ 1)
handed_once_example = handed_once (checked none 2_000_000 (dequeued 7 50 3_000 two_items-Shift)) 2
