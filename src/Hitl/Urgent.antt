-- ===== src/Hitl/Urgent.antt =====
-- Which item dequeue (queue.py) hands out.
use mathlib.Core.Path.{subst}
use voice_os.Prelude.{
  ==_iff, ◌≡◌, refl, Key, Bool, true, false, ◌&&◌, none, some, List, [], ◌∷◌, ◌==◌, All, All-Among,
  Among, arith, Bool-cases, List-cases, inl, inr, keep, ◌⊎◌, ap, sym, ◌∙◌,
}
use voice_os.Prelude.Dict.{values, lookup, IsKeyed}
use voice_os.Hitl.{
  by_time, HitlItem, HitlTable, is_pending, find_pending, get, tenant_update, claim_by,
}
use voice_os.Hitl.Desk.{Desk, before, min_from, dequeue}
use voice_os.Hitl.Rows.{IsFiled, IsRow, query-IsRow, query-Among, lookup-tenant_update}

-- Is the item waiting for a supervisor of the tenant.
abbrev pub waits : Key → HitlItem → Bool
waits tenant i = i.tenant_id == tenant && is_pending i.status

pub min_from-All :
    (P : HitlItem → Type 0) (best : HitlItem) (is : List HitlItem)
    → P best
    → All P is
    → P (min_from best is)
unfolding min_from
min_from-All P best [] p h = p
min_from-All P best (i ∷ is) p h = elim (Bool-cases (before i best)) [
  | inl e ↦ rw (min_from, e) (min_from-All P i is h.0 h.1)
  | inr e ↦ rw (min_from, e) (min_from-All P best is p h.1)
]

not_before-later : (i j k : HitlItem) → before i j ≡ true → before i k ≡ false → before j k ≡ false
not_before-later i j k a b = ground (arith, a, b)

not_before-first : (i j k : HitlItem) → before i j ≡ false → before j k ≡ false → before i k ≡ false
not_before-first i j k a b = ground (arith, a, b)

min_from-smaller :
    (best i : HitlItem) (is : List HitlItem)
    → before i best ≡ true
    → min_from best (i ∷ is) ≡ min_from i is
unfolding min_from
min_from-smaller best i is e = rw (min_from, e) refl

min_from-same :
    (best i : HitlItem) (is : List HitlItem)
    → before i best ≡ false
    → min_from best (i ∷ is) ≡ min_from best is
unfolding min_from
min_from-same best i is e = rw (min_from, e) refl

min_from-nil : (best : HitlItem) → min_from best [] ≡ best
unfolding min_from
min_from-nil best = refl

-- Nothing in the list is before m.
abbrev pub NoneBefore : HitlItem → List HitlItem → Type 0
NoneBefore m is = All (λ i. before i m ≡ false) is

min_from-least : (best : HitlItem) (is : List HitlItem) → NoneBefore (min_from best is) (best ∷ is)
min_from-least best [] =
    subst (λ m. NoneBefore m (best ∷ [])) (sym (min_from-nil best)) (ground arith, tt)
min_from-least best (i ∷ is) = elim (Bool-cases (before i best)) [
  | inl e ↦
      let (least, rest) = min_from-least i is in
      subst (λ m. NoneBefore m (best ∷ i ∷ is)) (sym (min_from-smaller best i is e))
        (not_before-later i best (min_from i is) e least, (least, rest))
  | inr e ↦
      let (least, rest) = min_from-least best is in
      subst (λ m. NoneBefore m (best ∷ i ∷ is)) (sym (min_from-same best i is e))
        (least, (not_before-first i best (min_from best is) e least, rest))
]

min_from-Among : (best : HitlItem) (is : List HitlItem) → Among (min_from best is) (best ∷ is)
min_from-Among best [] = inl (min_from-nil best)
min_from-Among best (i ∷ is) = elim (Bool-cases (before i best)) [
  | inl e ↦
      subst (λ m. Among m (best ∷ i ∷ is)) (sym (min_from-smaller best i is e))
        (inr (min_from-Among i is))
  | inr e ↦
      subst (λ m. Among m (best ∷ i ∷ is)) (sym (min_from-same best i is e))
        (elim (min_from-Among best is) [ inl here ↦ inl here | inr there ↦ inr (inr there) ])
]

find_pending-eq :
    (tenant : Key) (t : HitlTable)
    → find_pending tenant t ≡ by_time (keep (waits tenant) (values t))
unfolding find_pending
find_pending-eq tenant t = refl

-- The item that is handed out: one that waits, with none that waits before it.
abbrev pub IsFirst : Key → HitlTable → HitlItem → Type 0
IsFirst tenant t i =
    IsRow t i
    × (waits tenant i ≡ true)
    × ((j : HitlItem) → IsRow t j → waits tenant j ≡ true → before j i ≡ false)

pub IsFirst-pending :
    (tenant : Key) (t : HitlTable) (i : HitlItem) (is : List HitlItem)
    → IsKeyed t
    → IsFiled t
    → find_pending tenant t ≡ i ∷ is
    → IsFirst tenant t (min_from i is)
IsFirst-pending tenant t i is keyed filed e =
    let found = sym (find_pending-eq tenant t) ∙ e in
    let rows : All (λ j. IsRow t j × (waits tenant j ≡ true)) (i ∷ is) =
      subst (λ js. All (λ j. IsRow t j × (waits tenant j ≡ true)) js) found
        (query-IsRow (waits tenant) t keyed filed) in
    let (row, waiting) =
      All-Among (λ j. IsRow t j × (waits tenant j ≡ true)) (min_from i is) (i ∷ is) rows
        (min_from-Among i is) in
    (
      row,
      waiting,
      λ j r w.
          All-Among (λ k. before k (min_from i is) ≡ false) j (i ∷ is) (min_from-least i is)
            (subst (Among j) found (query-Among (waits tenant) t j.hitl_item_id j r w)),
    )

pub none_pending :
    (tenant : Key) (t : HitlTable)
    → find_pending tenant t ≡ []
    → (j : HitlItem) → IsRow t j
    → waits tenant j ≡ false
none_pending tenant t e j r = elim (Bool-cases (waits tenant j)) [
  | inr h ↦ h
  | inl h ↦ absurd (
      subst (Among j) (sym (find_pending-eq tenant t) ∙ e)
        (query-Among (waits tenant) t j.hitl_item_id j r h))
]

-- Who waits changes nothing of the identifier and the tenant, and a row that waits is the tenant's.
pub waits-tenant :
    (tenant : Key) (i : HitlItem) → waits tenant i ≡ true → (i.tenant_id == tenant) ≡ true
waits-tenant tenant i h = ground (arith, h)

claimed_row :
    (tenant supervisor now : Key) (t : HitlTable) (i : HitlItem)
    → IsRow t i
    → waits tenant i ≡ true
    → get tenant i.hitl_item_id (tenant_update tenant i.hitl_item_id (claim_by supervisor now) t)
      ≡ some (claim_by supervisor now i)
unfolding get
claimed_row tenant supervisor now t i row w =
    let own = waits-tenant tenant i w in
    let after : lookup i.hitl_item_id
          (tenant_update tenant i.hitl_item_id (claim_by supervisor now) t)
        ≡ some (claim_by supervisor now i) =
      lookup-tenant_update tenant i.hitl_item_id (claim_by supervisor now) t i.hitl_item_id
      ∙ rw (row, own, (==_iff i.hitl_item_id i.hitl_item_id).1 refl) refl in
    rw (get, after, own) refl

dequeue-first :
    (tenant supervisor now : Key) (d : Desk) (i : HitlItem) (is : List HitlItem)
    → find_pending tenant d.items ≡ i ∷ is
    → let item = min_from i is in
      let t = tenant_update tenant item.hitl_item_id (claim_by supervisor now) d.items in
      dequeue tenant supervisor now d ≡ (get tenant item.hitl_item_id t, record d { items = t })
unfolding dequeue
dequeue-first tenant supervisor now d i is e = rw (dequeue, e) refl

dequeue-none :
    (tenant supervisor now : Key) (d : Desk)
    → find_pending tenant d.items ≡ []
    → dequeue tenant supervisor now d ≡ (none, d)
unfolding dequeue
dequeue-none tenant supervisor now d e = rw (dequeue, e) refl

-- What dequeue does, in terms of its own queries and order.
pub dequeue-IsFirst :
    (tenant supervisor now : Key) (d : Desk)
    → IsKeyed d.items
    → IsFiled d.items
    → ((dequeue tenant supervisor now d ≡ (none, d))
        × ((j : HitlItem) → IsRow d.items j → waits tenant j ≡ false))
      ⊎ ((i : HitlItem) × IsFirst tenant d.items i
          × ((dequeue tenant supervisor now d).0 ≡ some (claim_by supervisor now i))
          × ((dequeue tenant supervisor now d).1 ≡ record d {
            items = tenant_update tenant i.hitl_item_id (claim_by supervisor now) d.items;
          }))
dequeue-IsFirst tenant supervisor now d keyed filed =
    elim (List-cases (find_pending tenant d.items)) [
      | inl e ↦ inl (dequeue-none tenant supervisor now d e, none_pending tenant d.items e)
      | inr (i, is, e) ↦
          let item = min_from i is in
          let (row, w, least) = IsFirst-pending tenant d.items i is keyed filed e in
          let done = dequeue-first tenant supervisor now d i is e in
          inr (
            item,
            (row, w, least),
            ap (λ r. r.0) done ∙ claimed_row tenant supervisor now d.items item row w,
            ap (λ r. r.1) done,
          )
    ]
