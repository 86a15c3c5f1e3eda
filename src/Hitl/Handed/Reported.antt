-- ===== src/Hitl/Handed/Reported.antt =====
-- What a check of the deadlines (sla_enforcer.py) adds to the breaches that were reported.
use voice_os.Prelude.{
  keep, All, All-mono, ℕ, ◌+◌, ◌≤◌, ◌≡◌, refl, sym, ◌∙◌, Key, Bool, true, false, Option, none, some,
  List, [], ◌∷◌, ◌++◌, ◌==◌, count, count-append, arith, Bool-cases, inl, inr, map,
}
use voice_os.Prelude.Dict.{lookup, IsKeyed}
use voice_os.Hitl.{HitlItem, HitlTable, find_open}
use voice_os.Hitl.Desk.{Desk, check_and_escalate, is_breach}
use voice_os.Hitl.Rows.{keep-All, IsFiled, IsRow}
use voice_os.Hitl.Late.Apart.{apart, Distinct, Distinct-keep}
use voice_os.Hitl.Late.{is_late, late_row, find_open-rows, check-late_row, check-IsKeyed}
use voice_os.Hitl.Late.Loop.{marked_if}
use voice_os.Hitl.Handed.Kept.{one_if, is_taken, is_marked, IsKept, same_key}

abbrev pub ids : List HitlItem → List Key
ids is = map (λ i. i.hitl_item_id) is

count-apart :
    (i : HitlItem) (is : List HitlItem) (k : Key)
    → (i.hitl_item_id == k) ≡ true
    → All (λ j. apart i j ≡ true) is
    → count k (ids is) ≡ 0
count-apart i [] k e a = refl
count-apart i (j ∷ js) k e a = ground (arith, count-apart i js k e a.1, a.0)

-- Late rows, each once, are as many under a key as its row is late.
count-late :
    (scope : Option Key) (now : ℕ) (t : HitlTable) (is : List HitlItem) (k : Key)
    → Distinct is
    → All (λ i. IsRow t i × (is_late scope now i ≡ true)) is
    → count k (ids is) ≤ one_if (late_row scope now (lookup k t))
count-late scope now t [] k distinct rows = omega arith
count-late scope now t (i ∷ is) k distinct rows = elim (Bool-cases (i.hitl_item_id == k)) [
  | inr e ↦ rw e (count-late scope now t is k distinct.1 rows.1)
  | inl e ↦
      let found = same_key i.hitl_item_id k t (some i) e rows.0.0 in
      let none_left = count-apart i is k e distinct.0 in
      rw (e, found, rows.0.1, none_left) (omega arith)
]

late_once :
    (scope : Option Key) (now : ℕ) (row : Option HitlItem) (n m : ℕ)
    → n ≤ one_if (late_row scope now row)
    → m ≤ one_if (is_marked row)
    → n + m ≤ one_if (is_marked (marked_if (late_row scope now row) row))
late_once scope now none n m h g = ground (arith, h, g)
late_once scope now (some i) n m h g = elim (Bool-cases (is_late scope now i)) [
  | inr e ↦ rw e (ground (arith, h, g, e))
  | inl e ↦ rw e (ground (arith, h, g, e))
]

marked-taken : (b : Bool) (row : Option HitlItem) → is_taken (marked_if b row) ≡ is_taken row
marked-taken true none = refl
marked-taken true (some i) = refl
marked-taken false row = refl

marked-filed :
    (b : Bool) (row : Option HitlItem) (k : Key) (j : HitlItem)
    → ((i : HitlItem) → row ≡ some i → i.hitl_item_id ≡ k)
    → marked_if b row ≡ some j
    → j.hitl_item_id ≡ k
marked-filed true none k j filed found = cc
marked-filed true (some i) k j filed found = ground (arith, filed i refl, found)
marked-filed false row k j filed found = filed j found

pub breached_rows :
    (scope : Option Key) (now : ℕ) (t : HitlTable)
    → IsKeyed t
    → IsFiled t
    → Distinct (keep (is_breach now) (find_open scope t))
      × All
          (λ i. IsRow t i × (is_late scope now i ≡ true))
          (keep (is_breach now) (find_open scope t))
breached_rows scope now t keyed filed =
    let (distinct, rows) = find_open-rows scope t keyed filed in
    (
      Distinct-keep (is_breach now) (find_open scope t) distinct,
      All-mono _ _ (keep (is_breach now) (find_open scope t))
          (λ i r. (r.0.0, ground (arith, r.0.1, r.1)))
          (keep-All _ (is_breach now) (find_open scope t) rows),
    )

pub check-IsKept :
    (scope : Option Key) (now : ℕ) (handed reported : List Key) (d : Desk)
    → IsKept handed reported d.items
    → IsKept handed
        (ids (check_and_escalate scope now d).0 ++ reported)
        (check_and_escalate scope now d).1.items
check-IsKept scope now handed reported d (keyed, filed, once, told) =
    let (out, marks) = check-late_row scope now d keyed filed in
    let (distinct, late) = breached_rows scope now d.items keyed filed in
    (
      check-IsKeyed scope now d keyed,
      λ k j found.
          marked-filed (late_row scope now (lookup k d.items)) (lookup k d.items) k j (filed k)
            (sym (marks k) ∙ found),
      λ k.
          rw (marks k, marked-taken (late_row scope now (lookup k d.items)) (lookup k d.items))
            (once k),
      λ k.
          rw
            (
              marks k,
              out,
              count-append k (ids (keep (is_breach now) (find_open scope d.items))) reported,
            )
            (late_once scope now (lookup k d.items) _ _
              (count-late scope now d.items _ k distinct late) (told k)),
    )
