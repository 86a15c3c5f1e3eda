-- ===== src/Hitl/Late/Apart.antt =====
-- Lists of items in which no identifier stands twice, as the queries of repositories/hitl.py give.
use voice_os.Prelude.{
  ◌≡◌, Key, Bool, true, not, none, List, [], ◌∷◌, leb, ◌==◌, keep, All, All-keep, arith, Bool-cases,
  inl, inr,
}
use voice_os.Prelude.Dict.{lookup, values, IsKeyed}
use voice_os.Hitl.{HitlItem, HitlTable, insert_by_time, by_time}
use voice_os.Hitl.Rows.{IsFiled, All-insert_by_time}

-- No identifier stands twice.
abbrev pub apart : HitlItem → HitlItem → Bool
apart i j = not (i.hitl_item_id == j.hitl_item_id)

abbrev pub Distinct : List HitlItem → Type 0
Distinct [] = Unit
Distinct (i ∷ is) = All (λ j. apart i j ≡ true) is × Distinct is

apart-sym : (i j : HitlItem) → apart i j ≡ true → apart j i ≡ true
apart-sym i j h = ground (arith, h)

pub Distinct-keep :
    (test : HitlItem → Bool) (is : List HitlItem) → Distinct is → Distinct (keep test is)
Distinct-keep test [] h = tt
Distinct-keep test (i ∷ is) h = elim (Bool-cases (test i)) [
  | inl e ↦ rw e (All-keep (λ j. apart i j ≡ true) test is h.0, Distinct-keep test is h.1)
  | inr e ↦ rw e (Distinct-keep test is h.1)
]

Distinct-insert_by_time :
    (i : HitlItem) (is : List HitlItem)
    → All (λ j. apart i j ≡ true) is
    → Distinct is
    → Distinct (insert_by_time i is)
Distinct-insert_by_time i [] a h = (tt, tt)
Distinct-insert_by_time i (x ∷ xs) a h = elim (Bool-cases (leb i.enqueued_at x.enqueued_at)) [
  | inl e ↦ rw e (a, h)
  | inr e ↦ rw e (
    All-insert_by_time (λ j. apart x j ≡ true) i xs (apart-sym i x a.0) h.0,
    Distinct-insert_by_time i xs a.1 h.1,
  )
]

All-by_time-apart :
    (i : HitlItem) (is : List HitlItem)
    → All (λ j. apart i j ≡ true) is
    → All (λ j. apart i j ≡ true) (by_time is)
All-by_time-apart i [] h = tt
All-by_time-apart i (x ∷ xs) h =
    All-insert_by_time (λ j. apart i j ≡ true) x (by_time xs) h.0 (All-by_time-apart i xs h.1)

pub Distinct-by_time : (is : List HitlItem) → Distinct is → Distinct (by_time is)
Distinct-by_time [] h = tt
Distinct-by_time (i ∷ is) h =
    Distinct-insert_by_time i (by_time is) (All-by_time-apart i is h.0) (Distinct-by_time is h.1)

-- The rows of a well-formed table.
IsFiled-tail :
    (e : Key × HitlItem) (t : HitlTable) → lookup e.0 t ≡ none → IsFiled (e ∷ t) → IsFiled t
IsFiled-tail e t fresh filed k i found = filed k i (ground (arith, fresh, found))

values-apart :
    (k : Key) (i : HitlItem) (t : HitlTable)
    → i.hitl_item_id ≡ k
    → lookup k t ≡ none
    → IsKeyed t
    → IsFiled t
    → All (λ j. apart i j ≡ true) (values t)
values-apart k i [] p fresh keyed filed = tt
values-apart k i (e ∷ t) p fresh keyed filed =
    let own : e.1.hitl_item_id ≡ e.0 = filed e.0 e.1 (ground arith) in
    (
      ground (arith, own, p, fresh),
      values-apart k i t p (ground (arith, fresh)) keyed.1 (IsFiled-tail e t keyed.0 filed),
    )

pub values-Distinct : (t : HitlTable) → IsKeyed t → IsFiled t → Distinct (values t)
values-Distinct [] keyed filed = tt
values-Distinct (e ∷ t) keyed filed =
    let below = IsFiled-tail e t keyed.0 filed in
    (
      values-apart e.0 e.1 t (filed e.0 e.1 (ground arith)) keyed.0 keyed.1 below,
      values-Distinct t keyed.1 below,
    )
