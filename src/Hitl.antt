-- ===== src/Hitl.antt =====
-- The items of the human-in-the-loop desk (src/services/hitl) and the statements of
-- src/libs/repositories/hitl.py. Times are milliseconds; the identifiers that uuid4
-- makes are arguments. Texts whose content is tested are lists of code points.
pub mod Desk
pub mod Rows
pub mod Urgent
pub mod Handed
pub mod Late
pub mod Handout
pub mod Marks
use voice_os.Prelude.{
  ℕ, ◌+◌, ◌-◌, ◌*◌, ◌/◌, Key, Bool, true, false, not, ◌&&◌, ◌||◌, Option, none, some, List, [], ◌∷◌,
  ◌++◌, ltb, leb, ◌==◌, if◌then◌else◌, keep, Result, ok, err,
}
use voice_os.Prelude.Dict.{Dict, lookup, has, insert, values}

pub data HitlPriority : Type 0 where
  critical high medium : HitlPriority

pub data HitlItemStatus : Type 0 where
  pending claimed resolved : HitlItemStatus

abbrev pub is_pending : HitlItemStatus → Bool
is_pending pending = true
is_pending _ = false

-- `status IN ('PENDING', 'CLAIMED')`
abbrev pub is_open : HitlItemStatus → Bool
is_open resolved = false
is_open _ = true

-- DEFAULT_SLA_MINUTES
abbrev pub default_sla_minutes : HitlPriority → ℕ
default_sla_minutes critical = 5
default_sla_minutes high = 30
default_sla_minutes medium = 240

-- _PRIORITY_ORDER
abbrev pub priority_order : HitlPriority → ℕ
priority_order critical = 0
priority_order high = 1
priority_order medium = 2

pub record HitlItem : Type 0 where
  pub hitl_item_id : Key
  pub tenant_id : Key
  pub call_id : Key
  pub reason : Key
  pub priority : HitlPriority
  pub status : HitlItemStatus
  pub context : Key
  pub enqueued_at : ℕ
  pub claimed_by : Option Key
  pub claimed_at : Option ℕ
  pub resolved_at : Option ℕ
  pub sla_deadline_at : ℕ
  pub sla_breached : Bool

pub record HitlDecision : Type 0 where
  pub hitl_decision_id : Key
  pub hitl_item_id : Key
  pub tenant_id : Key
  pub supervisor_id : Key
  pub decision : Key
  pub rationale : List ℕ
  pub decided_at : ℕ

pub data HitlEvent : Type 0 where
  item_enqueued : (tenant_id call_id hitl_item_id : Key) → HitlPriority → (reason : Key) → HitlEvent
  sla_breach : (tenant_id call_id hitl_item_id : Key) → HitlPriority → (age_seconds : ℕ) → HitlEvent
  decision_recorded : (tenant_id call_id : Key) → HitlDecision → HitlEvent

pub data HitlError : Type 0 where
  value_error unique_violation foreign_key_violation : HitlError

-- The rows of hitl_queue, by hitl_item_id.
abbrev pub HitlTable : Type 0
HitlTable = Dict HitlItem

unfoldable pub create : HitlItem → HitlTable → Result HitlError HitlTable
create item t =
    if has item.hitl_item_id t then err unique_violation else ok (insert item.hitl_item_id item t)

unfoldable pub get : Key → Key → HitlTable → Option HitlItem
get tenant_id hitl_item_id t = elim (lookup hitl_item_id t) [
  | none ↦ none
  | some item ↦ if item.tenant_id == tenant_id then some item else none
]

-- `ORDER BY enqueued_at ASC`
abbrev pub insert_by_time : HitlItem → List HitlItem → List HitlItem
insert_by_time item [] = item ∷ []
insert_by_time item (x ∷ xs) =
    if leb item.enqueued_at x.enqueued_at then item ∷ x ∷ xs else x ∷ insert_by_time item xs

abbrev pub by_time : List HitlItem → List HitlItem
by_time [] = []
by_time (x ∷ xs) = insert_by_time x (by_time xs)

unfoldable pub find_pending : Key → HitlTable → List HitlItem
find_pending tenant_id t =
    by_time (keep (λ i. i.tenant_id == tenant_id && is_pending i.status) (values t))

-- Of one tenant, or of all.
abbrev pub in_scope : Option Key → Key → Bool
in_scope none tenant_id = true
in_scope (some k) tenant_id = tenant_id == k

unfoldable pub find_open : Option Key → HitlTable → List HitlItem
find_open scope t = by_time (keep (λ i. in_scope scope i.tenant_id && is_open i.status) (values t))

-- UPDATE ... WHERE tenant_id = %s AND hitl_item_id = %s
unfoldable pub tenant_update : Key → Key → (HitlItem → HitlItem) → HitlTable → HitlTable
unfolding get
tenant_update tenant_id hitl_item_id change t = elim (get tenant_id hitl_item_id t) [
  | none ↦ t
  | some item ↦ insert hitl_item_id (change item) t
]

abbrev pub claim_by : Key → ℕ → HitlItem → HitlItem
claim_by supervisor_id now item = record item {
  status = claimed;
  claimed_by = some supervisor_id;
  claimed_at = some now;
}

abbrev pub resolve_at : ℕ → HitlItem → HitlItem
resolve_at now item = record item { status = resolved; resolved_at = some now }

abbrev pub breach : HitlItem → HitlItem
breach item = record item { sla_breached = true }
