-- ===== src/Hitl/Desk.antt =====
-- The desk itself (src/services/hitl: queue.py, sla_enforcer.py and override_logger.py).
use voice_os.Prelude.{
  ℕ, ◌+◌, ◌-◌, ◌*◌, ◌/◌, Key, Bool, true, false, not, ◌&&◌, ◌||◌, Option, none, some, List, [], ◌∷◌,
  ◌++◌, ltb, leb, ◌==◌, if◌then◌else◌, Result, ok, err,
}
use voice_os.Prelude.Dict.{has}
use voice_os.Hitl.{
  HitlDecision, HitlError, HitlEvent, HitlItem, HitlPriority, HitlTable, breach, claim_by, create,
  decision_recorded, find_open, find_pending, foreign_key_violation, get, item_enqueued, medium,
  pending, priority_order, resolve_at, sla_breach, tenant_update, value_error,
}

-- The repositories, the sinks, and the queue's minutes.
pub record Desk : Type 0 where
  pub items : HitlTable
  pub decisions : List HitlDecision
  pub has_publisher : Bool
  pub has_audit : Bool
  pub events : List HitlEvent
  pub audited : List HitlDecision
  pub sla_minutes : HitlPriority → ℕ

unfoldable pub publish : HitlEvent → Desk → Desk
publish event d = if d.has_publisher then record d { events = d.events ++ (event ∷ []) } else d

-- The item that enqueue makes.
abbrev pub new_item : Key → Key → Key → Key → HitlPriority → Key → ℕ → ℕ → HitlItem
new_item hitl_item_id tenant_id call_id reason priority context now sla_deadline_at = record {
  hitl_item_id = hitl_item_id;
  tenant_id = tenant_id;
  call_id = call_id;
  reason = reason;
  priority = priority;
  status = pending;
  context = context;
  enqueued_at = now;
  claimed_by = none;
  claimed_at = none;
  resolved_at = none;
  sla_deadline_at = sla_deadline_at;
  sla_breached = false;
}

unfoldable pub enqueue :
    Key → Key → Key → Key → HitlPriority → Key → ℕ → Desk → Result HitlError HitlItem × Desk
unfolding create publish
enqueue hitl_item_id tenant_id call_id reason priority context now d =
    let item =
      new_item hitl_item_id tenant_id call_id reason priority context now
        (now + d.sla_minutes priority * 60_000) in
    elim (create item d.items) [
      | err e ↦ (err e, d)
      | ok t ↦ (
        ok item,
        publish (item_enqueued tenant_id call_id hitl_item_id priority reason)
            (record d { items = t }),
      )
    ]

unfoldable pub route : Key → Key → Key → Key → Key → ℕ → Desk → Result HitlError HitlItem × Desk
unfolding enqueue
route hitl_item_id call_id tenant_id reason no_context now d =
    enqueue hitl_item_id tenant_id call_id reason medium no_context now d

-- `(_PRIORITY_ORDER[i.priority], i.enqueued_at)` of the first is smaller.
abbrev pub before : HitlItem → HitlItem → Bool
before i j =
    ltb (priority_order i.priority) (priority_order j.priority)
    || (priority_order i.priority == priority_order j.priority && ltb i.enqueued_at j.enqueued_at)

-- `min` keeps the first of the smallest.
unfoldable pub min_from : HitlItem → List HitlItem → HitlItem
min_from best [] = best
min_from best (i ∷ is) = min_from (if before i best then i else best) is

unfoldable pub dequeue : Key → Key → ℕ → Desk → Option HitlItem × Desk
unfolding find_pending min_from tenant_update get
dequeue tenant_id supervisor_id now d = elim (find_pending tenant_id d.items) [
  | [] ↦ (none, d)
  | i ∷ is ↦
      let item = min_from i is in
      let t = tenant_update tenant_id item.hitl_item_id (claim_by supervisor_id now) d.items in
      (get tenant_id item.hitl_item_id t, record d { items = t })
]

-- HITLQueue.resolve
unfoldable pub resolve : Key → Key → ℕ → Desk → Desk
unfolding tenant_update
resolve tenant_id hitl_item_id now d = record d {
  items = tenant_update tenant_id hitl_item_id (resolve_at now) d.items;
}

-- SLAEnforcer.check_and_escalate: the items of the loop that breach.
abbrev pub is_breach : ℕ → HitlItem → Bool
is_breach now item = not item.sla_breached && leb item.sla_deadline_at now

unfoldable pub escalate_all : ℕ → List HitlItem → Desk → List HitlItem × Desk
unfolding tenant_update publish
escalate_all now [] d = ([], d)
escalate_all now (i ∷ is) d =
    let marked : Desk = record d {
      items = tenant_update i.tenant_id i.hitl_item_id breach d.items;
    } in
    let event =
      sla_breach i.tenant_id i.call_id i.hitl_item_id i.priority ((now - i.enqueued_at) / 1_000) in
    let (more, d') = escalate_all now is (publish event marked) in
    let skipped = escalate_all now is d in if is_breach now i then (i ∷ more, d') else skipped

unfoldable pub check_and_escalate : Option Key → ℕ → Desk → List HitlItem × Desk
unfolding find_open escalate_all
check_and_escalate scope now d = escalate_all now (find_open scope d.items) d

-- `not text.strip()`: every code point is white space.
abbrev pub is_space : ℕ → Bool
is_space c =
    (leb 9 c && leb c 13)
    || (leb 28 c && leb c 32)
    || c == 133
    || c == 160
    || c == 5_760
    || (leb 8_192 c && leb c 8_202)
    || c == 8_232
    || c == 8_233
    || c == 8_239
    || c == 8_287
    || c == 12_288

unfoldable pub is_blank : List ℕ → Bool
is_blank [] = true
is_blank (c ∷ cs) = is_space c && is_blank cs

-- OverrideLogger.record_decision; a decision refers to an item that is there.
unfoldable pub record_decision :
    Key → Key → Key → Key → Key → List ℕ → ℕ → Desk → Result HitlError HitlDecision × Desk
unfolding is_blank resolve get publish
record_decision hitl_decision_id tenant_id hitl_item_id supervisor_id decision rationale now d =
    let made : HitlDecision = record {
      hitl_decision_id = hitl_decision_id;
      hitl_item_id = hitl_item_id;
      tenant_id = tenant_id;
      supervisor_id = supervisor_id;
      decision = decision;
      rationale = rationale;
      decided_at = now;
    } in
    let stored : Desk =
      resolve tenant_id hitl_item_id now (record d { decisions = d.decisions ++ (made ∷ []) }) in
    let logged : Desk =
      if stored.has_audit
      then record stored { audited = stored.audited ++ (made ∷ []) }
      else stored in
    let call_id : Key = elim (get tenant_id hitl_item_id logged.items) [
      | none ↦ 0
      | some item ↦ item.call_id
    ] in
    if is_blank rationale
    then (err value_error, d)
    else if not (has hitl_item_id d.items)
    then (err foreign_key_violation, d)
    else (ok made, publish (decision_recorded tenant_id call_id made) logged)
