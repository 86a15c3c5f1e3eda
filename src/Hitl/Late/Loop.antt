-- ===== src/Hitl/Late/Loop.antt =====
-- The loop of check_and_escalate (sla_enforcer.py).
use mathlib.Core.Path.{subst}
use voice_os.Prelude.{
  ◌-◌, ◌/◌, ==_iff, ℕ, ◌≡◌, refl, ap, sym, ◌∙◌, Key, Bool, true, false, ◌&&◌, Option, none, some,
  List, [], ◌∷◌, ◌==◌, if◌then◌else◌, keep, All, Among, arith, Bool-cases, inl, inr,
}
use voice_os.Prelude.Dict.{lookup, IsKeyed}
use voice_os.Hitl.{HitlEvent, sla_breach, HitlItem, HitlTable, tenant_update, breach}
use voice_os.Hitl.Desk.{Desk, is_breach, publish, escalate_all}
use voice_os.Hitl.Rows.{IsRow, lookup-tenant_update, tenant_update-IsKeyed, map_some, changed}
use voice_os.Hitl.Late.Apart.{apart, Distinct}

-- Does the loop mark the row of a key.
abbrev pub hits : ℕ → Key → List HitlItem → Bool
hits now k [] = false
hits now k (i ∷ is) =
    let rest = hits now k is in if is_breach now i && (i.hitl_item_id == k) then true else rest

abbrev pub marked_if : Bool → Option HitlItem → Option HitlItem
marked_if true row = map_some breach row
marked_if false row = row

marked_twice :
    (a b : Bool) (row : Option HitlItem)
    → marked_if a (marked_if b row) ≡ marked_if (if b then true else a) row
marked_twice true true none = refl
marked_twice true true (some i) = refl
marked_twice true false row = refl
marked_twice false true row = refl
marked_twice false false row = refl

publish-items : (d : Desk) (e : HitlEvent) → (publish e d).items ≡ d.items
unfolding publish
publish-items d e = ground arith

-- The desk after the first item of the loop.
abbrev escalated : ℕ → HitlItem → Desk → Desk
escalated now i d =
    publish
      (sla_breach i.tenant_id i.call_id i.hitl_item_id i.priority ((now - i.enqueued_at) / 1_000))
      (record d { items = tenant_update i.tenant_id i.hitl_item_id breach d.items })

escalate_all-breach :
    (now : ℕ) (i : HitlItem) (is : List HitlItem) (d : Desk)
    → is_breach now i ≡ true
    → escalate_all now (i ∷ is) d ≡ (
      i ∷ (escalate_all now is (escalated now i d)).0,
      (escalate_all now is (escalated now i d)).1,
    )
unfolding escalate_all
escalate_all-breach now i is d e = rw (escalate_all, e) refl

escalate_all-skip :
    (now : ℕ) (i : HitlItem) (is : List HitlItem) (d : Desk)
    → is_breach now i ≡ false
    → escalate_all now (i ∷ is) d ≡ escalate_all now is d
unfolding escalate_all
escalate_all-skip now i is d e = rw (escalate_all, e) refl

escalate_all-nil : (now : ℕ) (d : Desk) → escalate_all now [] d ≡ ([], d)
unfolding escalate_all
escalate_all-nil now d = refl

-- The row of the item is marked, and no other.
changed_row :
    (i : HitlItem) (t : HitlTable) (k : Key)
    → IsRow t i
    → (if i.hitl_item_id == k
        then map_some (changed i.tenant_id breach) (lookup k t)
        else lookup k t)
      ≡ marked_if (i.hitl_item_id == k) (lookup k t)
changed_row i t k row = elim (Bool-cases (i.hitl_item_id == k)) [
  | inr e ↦ rw e refl
  | inl e ↦
      let found : lookup k t ≡ some i =
        ap (λ (j : Key). lookup j t) (sym ((==_iff i.hitl_item_id k).0 e)) ∙ row in
      rw (e, found, (==_iff i.tenant_id i.tenant_id).1 refl) refl
]

lookup-escalated :
    (now : ℕ) (i : HitlItem) (d : Desk) (k : Key)
    → IsRow d.items i
    → lookup k (escalated now i d).items ≡ marked_if (i.hitl_item_id == k) (lookup k d.items)
lookup-escalated now i d k row =
    ap (lookup k) (publish-items _ _)
    ∙ lookup-tenant_update i.tenant_id i.hitl_item_id breach d.items k
    ∙ changed_row i d.items k row

still-IsRow :
    (now : ℕ) (i : HitlItem) (d : Desk) (j : HitlItem)
    → IsRow d.items i
    → apart i j ≡ true
    → IsRow d.items j
    → IsRow (escalated now i d).items j
still-IsRow now i d j row a r = lookup-escalated now i d j.hitl_item_id row ∙ ground (arith, a, r)

still-IsRows :
    (now : ℕ) (i : HitlItem) (d : Desk) (is : List HitlItem)
    → IsRow d.items i
    → All (λ j. apart i j ≡ true) is
    → All (IsRow d.items) is
    → All (IsRow (escalated now i d).items) is
still-IsRows now i d [] row a r = tt
still-IsRows now i d (j ∷ js) row a r =
    (still-IsRow now i d j row a.0 r.0, still-IsRows now i d js row a.1 r.1)

-- The loop reports what breaches, marks those rows and keeps the others.
pub escalate_all-marks :
    (now : ℕ) (is : List HitlItem) (d : Desk)
    → Distinct is
    → All (IsRow d.items) is
    → ((escalate_all now is d).0 ≡ keep (is_breach now) is)
      × ((k : Key)
          → lookup k (escalate_all now is d).1.items ≡ marked_if (hits now k is) (lookup k d.items))
escalate_all-marks now [] d distinct rows =
    let done = escalate_all-nil now d in
    (ap (λ r. r.0) done, λ k. ap (λ r. lookup k r.1.items) done)
escalate_all-marks now (i ∷ is) d distinct rows = elim (Bool-cases (is_breach now i)) [
  | inr e ↦
      let done = escalate_all-skip now i is d e in
      let (out, marks) = escalate_all-marks now is d distinct.1 rows.1 in
      (
        ap (λ r. r.0) done ∙ out ∙ rw e refl,
        λ k. ap (λ r. lookup k r.1.items) done ∙ marks k ∙ rw e refl,
      )
  | inl e ↦
      let done = escalate_all-breach now i is d e in
      let (out, marks) =
        escalate_all-marks now is (escalated now i d) distinct.1
          (still-IsRows now i d is rows.0 distinct.0 rows.1) in
      (
        ap (λ r. r.0) done ∙ ap (λ js. i ∷ js) out ∙ rw e refl,
        λ k.
            ap (λ r. lookup k r.1.items) done
            ∙ marks k
            ∙ ap (marked_if (hits now k is)) (lookup-escalated now i d k rows.0)
            ∙ marked_twice (hits now k is) (i.hitl_item_id == k) (lookup k d.items)
            ∙ rw e refl,
      )
]

pub hits_some :
    (now k : ℕ) (i : HitlItem) (is : List HitlItem)
    → Among i is
    → is_breach now i ≡ true
    → i.hitl_item_id ≡ k
    → hits now k is ≡ true
hits_some now k i [] m b e = absurd m
hits_some now k i (j ∷ js) (inl same) b e =
    let mine : (is_breach now j && (j.hitl_item_id == k)) ≡ true =
      subst (λ (x : HitlItem). (is_breach now x && (x.hitl_item_id == k)) ≡ true) same
        (ground (arith, b, e)) in
    rw mine refl
hits_some now k i (j ∷ js) (inr m) b e = ground (arith, hits_some now k i js m b e)

pub hits_source :
    (now k : ℕ) (P : HitlItem → Type 0) (is : List HitlItem)
    → All P is
    → hits now k is ≡ true
    → (i : HitlItem) × P i × (is_breach now i ≡ true) × (i.hitl_item_id ≡ k)
hits_source now k P [] h e = absurd (ground (arith, e))
hits_source now k P (i ∷ is) h e = elim (Bool-cases (is_breach now i && (i.hitl_item_id == k))) [
  | inl b ↦ (i, h.0, ground (arith, b), ground (arith, b))
  | inr b ↦ hits_source now k P is h.1 (ground (arith, b, e))
]

-- The loop leaves the keys of the table apart.
pub escalate_all-IsKeyed :
    (now : ℕ) (is : List HitlItem) (d : Desk)
    → IsKeyed d.items
    → IsKeyed (escalate_all now is d).1.items
escalate_all-IsKeyed now [] d h = rw (escalate_all-nil now d) h
escalate_all-IsKeyed now (i ∷ is) d h = elim (Bool-cases (is_breach now i)) [
  | inr e ↦ rw (escalate_all-skip now i is d e) (escalate_all-IsKeyed now is d h)
  | inl e ↦ rw (escalate_all-breach now i is d e) (
      escalate_all-IsKeyed now is (escalated now i d) (
        rw (publish-items _ _) (tenant_update-IsKeyed i.tenant_id i.hitl_item_id breach d.items h)))
]
