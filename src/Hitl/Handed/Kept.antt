-- ===== src/Hitl/Handed/Kept.antt =====
-- What the statements of repositories/hitl.py keep of the items that were handed out and reported.
use voice_os.Prelude.{
  ==_iff, ℕ, ◌≤◌, ◌≡◌, refl, ap, sym, ◌∙◌, Key, Bool, true, false, not, Option, none, some, List,
  ◌∷◌, ◌==◌, if◌then◌else◌, count, arith, Bool-cases, inl, inr,
}
use voice_os.Prelude.Dict.{lookup, insert, IsKeyed, lookup-insert, insert-IsKeyed}
use voice_os.Hitl.{HitlEvent, HitlItem, HitlTable, is_pending, tenant_update, claim_by, resolve_at}
use voice_os.Hitl.Desk.{Desk, publish}
use voice_os.Hitl.Rows.{
  IsFiled, IsRow, lookup-tenant_update, tenant_update-IsKeyed, map_some, changed,
}
use voice_os.Hitl.Urgent.{waits}

-- Of a row: was it handed out or resolved; was its breach marked.
abbrev pub is_taken : Option HitlItem → Bool
is_taken none = false
is_taken (some i) = not (is_pending i.status)

abbrev pub is_marked : Option HitlItem → Bool
is_marked none = false
is_marked (some i) = i.sla_breached

-- A number for a Boolean.
abbrev pub one_if : Bool → ℕ
one_if true = 1
one_if false = 0

-- The table is well formed, each item that was handed out is there and does not wait, each that was
-- reported is there and marked, and none was handed out or reported twice.
abbrev pub IsKept : List Key → List Key → HitlTable → Type 0
IsKept handed reported t =
    IsKeyed t
    × IsFiled t
    × ((k : Key) → count k handed ≤ one_if (is_taken (lookup k t)))
    × ((k : Key) → count k reported ≤ one_if (is_marked (lookup k t)))

-- A change of a row keeps its identifier, and takes nothing back.
abbrev pub Keeps : (HitlItem → HitlItem) → Type 0
Keeps change =
    (i : HitlItem)
    → ((change i).hitl_item_id ≡ i.hitl_item_id)
      × (is_taken (some i) ≡ true → is_taken (some (change i)) ≡ true)
      × (i.sla_breached ≡ true → (change i).sla_breached ≡ true)

-- A row after a change.
abbrev after : Key → (HitlItem → HitlItem) → Bool → Option HitlItem → Option HitlItem
after tenant change here row = if here then map_some (changed tenant change) row else row

more_taken :
    (tenant : Key) (change : HitlItem → HitlItem) (here : Bool) (row : Option HitlItem) (n : ℕ)
    → Keeps change
    → n ≤ one_if (is_taken row)
    → n ≤ one_if (is_taken (after tenant change here row))
more_taken tenant change false row n keeps h = h
more_taken tenant change true none n keeps h = h
more_taken tenant change true (some i) n keeps h = ground (arith, (keeps i).1)

more_marked :
    (tenant : Key) (change : HitlItem → HitlItem) (here : Bool) (row : Option HitlItem) (n : ℕ)
    → Keeps change
    → n ≤ one_if (is_marked row)
    → n ≤ one_if (is_marked (after tenant change here row))
more_marked tenant change false row n keeps h = h
more_marked tenant change true none n keeps h = h
more_marked tenant change true (some i) n keeps h = ground (arith, (keeps i).2)

still_filed :
    (tenant : Key) (change : HitlItem → HitlItem) (here : Bool) (row : Option HitlItem) (k : Key)
    (j : HitlItem)
    → Keeps change
    → ((i : HitlItem) → row ≡ some i → i.hitl_item_id ≡ k)
    → after tenant change here row ≡ some j
    → j.hitl_item_id ≡ k
still_filed tenant change false row k j keeps filed found = filed j found
still_filed tenant change true none k j keeps filed found = cc
still_filed tenant change true (some i) k j keeps filed found =
    ground (arith, (keeps i).0, filed i refl, found)

pub tenant_update-IsKept :
    (tenant id : Key) (change : HitlItem → HitlItem) (handed reported : List Key) (t : HitlTable)
    → Keeps change
    → IsKept handed reported t
    → IsKept handed reported (tenant_update tenant id change t)
tenant_update-IsKept tenant id change handed reported t keeps (keyed, filed, once, told) =
    let row = λ (k : Key). lookup-tenant_update tenant id change t k in
    (
      tenant_update-IsKeyed tenant id change t keyed,
      λ k i found.
          still_filed tenant change (id == k) (lookup k t) k i keeps (filed k)
            (sym (row k) ∙ found),
      λ k.
          rw (row k)
            (more_taken tenant change (id == k) (lookup k t) (count k handed) keeps (once k)),
      λ k.
          rw (row k)
            (more_marked tenant change (id == k) (lookup k t) (count k reported) keeps (told k)),
    )

pub claim_by-Keeps : (supervisor now : Key) → Keeps (claim_by supervisor now)
claim_by-Keeps supervisor now i = (refl, λ h. refl, λ h. h)

pub resolve_at-Keeps : (now : ℕ) → Keeps (resolve_at now)
resolve_at-Keeps now i = (refl, λ h. refl, λ h. h)

pub same_key :
    (i k : Key) (t : HitlTable) (row : Option HitlItem)
    → (i == k) ≡ true
    → lookup i t ≡ row
    → lookup k t ≡ row
same_key i k t row e h = ap (λ (j : Key). lookup j t) (sym ((==_iff i k).0 e)) ∙ h

-- A new item leaves all as it was.
pub insert-IsKept :
    (i : HitlItem) (handed reported : List Key) (t : HitlTable)
    → lookup i.hitl_item_id t ≡ none
    → IsKept handed reported t
    → IsKept handed reported (insert i.hitl_item_id i t)
insert-IsKept i handed reported t fresh (keyed, filed, once, told) =
    let row = λ (k : Key). lookup-insert i.hitl_item_id k i t in
    let new = λ (k : Key). same_key i.hitl_item_id k t none in
    (
      insert-IsKeyed i.hitl_item_id i t keyed,
      λ k j found. elim (Bool-cases (i.hitl_item_id == k)) [
        | inl e ↦ ground (arith, e, row k, found)
        | inr e ↦ filed k j (ground (arith, e, row k, found))
      ],
      λ k. elim (Bool-cases (i.hitl_item_id == k)) [
        | inl e ↦ let n = new k e fresh in rw (row k, e) (ground (arith, once k, n))
        | inr e ↦ rw (row k, e) (once k)
      ],
      λ k. elim (Bool-cases (i.hitl_item_id == k)) [
        | inl e ↦ let n = new k e fresh in rw (row k, e) (ground (arith, told k, n))
        | inr e ↦ rw (row k, e) (told k)
      ],
    )

publish-kept : (e : HitlEvent) (d : Desk) → (publish e d).items ≡ d.items
unfolding publish
publish-kept e d = ground arith

-- A claim hands the item out for the first time.
pub claim-IsKept :
    (tenant supervisor now : Key) (i : HitlItem) (handed reported : List Key) (t : HitlTable)
    → IsRow t i
    → waits tenant i ≡ true
    → IsKept handed reported t
    → IsKept
        (i.hitl_item_id ∷ handed)
        reported
        (tenant_update tenant i.hitl_item_id (claim_by supervisor now) t)
claim-IsKept tenant supervisor now i handed reported t r w kept =
    let change = claim_by supervisor now in
    let (keyed, filed, once, told) =
      tenant_update-IsKept tenant i.hitl_item_id change handed reported t
        (claim_by-Keeps supervisor now) kept in
    (
      keyed,
      filed,
      λ k. elim (Bool-cases (i.hitl_item_id == k)) [
        | inr e ↦ rw e (once k)
        | inl e ↦
            let found = same_key i.hitl_item_id k t (some i) e r in
            let few : count k handed ≤ 0 = ground (arith, kept.2 k, found, w) in
            let row : lookup k (tenant_update tenant i.hitl_item_id change t) ≡ some (change i) =
              lookup-tenant_update tenant i.hitl_item_id change t k
              ∙ rw (e, found) (ground (arith, w)) in
            rw (e, row) (omega (arith, few))
      ],
      told,
    )
