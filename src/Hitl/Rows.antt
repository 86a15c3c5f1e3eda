-- ===== src/Hitl/Rows.antt =====
-- The rows of the queue table (repositories/hitl.py): what the statements change, and what the queries
-- find.
use voice_os.Prelude.{
  ◌⊎◌, ◌≡◌, refl, ap, sym, ◌∙◌, Key, Bool, true, Option, none, some, List, [], ◌∷◌, leb, ◌==◌,
  if◌then◌else◌, keep, All, Among, arith, Option-cases, Bool-cases, inl, inr,
}
use voice_os.Prelude.Dict.{
  lookup, values, IsKeyed, lookup-insert, insert-IsKeyed, Among-lookup, lookup-Among,
}
use voice_os.Hitl.{HitlItem, HitlTable, get, tenant_update, insert_by_time, by_time}

-- Every row stands under its own identifier.
abbrev pub IsFiled : HitlTable → Type 0
IsFiled t = (k : Key) (i : HitlItem) → lookup k t ≡ some i → i.hitl_item_id ≡ k

-- What an update leaves under a key.
abbrev pub changed : Key → (HitlItem → HitlItem) → HitlItem → HitlItem
changed tenant_id change item = if item.tenant_id == tenant_id then change item else item

abbrev pub map_some : (HitlItem → HitlItem) → Option HitlItem → Option HitlItem
map_some f none = none
map_some f (some i) = some (f i)

pub lookup-tenant_update :
    (tenant id : Key) (change : HitlItem → HitlItem) (t : HitlTable) (k : Key)
    → lookup k (tenant_update tenant id change t)
      ≡ (if id == k then map_some (changed tenant change) (lookup k t) else lookup k t)
unfolding tenant_update get
lookup-tenant_update tenant id change t k = elim (Option-cases (lookup id t)) [
  | inl e ↦ ground (arith, e)
  | inr (i, e) ↦ ground (arith, e, lookup-insert id k (change i) t)
]

pub tenant_update-IsKeyed :
    (tenant id : Key) (change : HitlItem → HitlItem) (t : HitlTable)
    → IsKeyed t
    → IsKeyed (tenant_update tenant id change t)
unfolding tenant_update get
tenant_update-IsKeyed tenant id change t h = elim (Option-cases (lookup id t)) [
  | inl e ↦ rw (IsKeyed, tenant_update, e) h
  | inr (i, e) ↦ elim (Bool-cases (i.tenant_id == tenant)) [
    | inl same ↦ rw (IsKeyed, tenant_update, e, same) (insert-IsKeyed id (change i) t h)
    | inr other ↦ rw (IsKeyed, tenant_update, e, other) h
  ]
]

-- Sorting keeps what holds of all.
pub All-insert_by_time :
    (P : HitlItem → Type 0) (i : HitlItem) (is : List HitlItem)
    → P i
    → All P is
    → All P (insert_by_time i is)
All-insert_by_time P i [] p h = (p, tt)
All-insert_by_time P i (x ∷ xs) p h = elim (Bool-cases (leb i.enqueued_at x.enqueued_at)) [
  | inl e ↦ rw e (p, h)
  | inr e ↦ rw e (h.0, All-insert_by_time P i xs p h.1)
]

pub All-by_time : (P : HitlItem → Type 0) (is : List HitlItem) → All P is → All P (by_time is)
All-by_time P [] h = tt
All-by_time P (i ∷ is) h = All-insert_by_time P i (by_time is) h.0 (All-by_time P is h.1)

-- The rows are what their keys find.
abbrev pub IsRow : HitlTable → HitlItem → Type 0
IsRow t i = lookup i.hitl_item_id t ≡ some i

All-each : {A : Type 0} (P : A → Type 0) (xs : List A) → ((x : A) → Among x xs → P x) → All P xs
All-each P [] f = tt
All-each P (x ∷ xs) f = (f x (inl refl), All-each P xs (λ y m. f y (inr m)))

pub values-IsRow : (t : HitlTable) → IsKeyed t → IsFiled t → All (IsRow t) (values t)
values-IsRow t keyed filed = All-each (IsRow t) (values t) (λ i m.
    let (k, found) = Among-lookup i t keyed m in
    ap (λ (j : Key). lookup j t) (filed k i found) ∙ found)

-- What a comprehension keeps has passed its test.
pub keep-All :
    {A : Type 0} (P : A → Type 0) (test : A → Bool) (xs : List A)
    → All P xs
    → All (λ x. P x × (test x ≡ true)) (keep test xs)
keep-All P test [] h = tt
keep-All P test (x ∷ xs) h = elim (Bool-cases (test x)) [
  | inl e ↦ rw e ((h.0, e), keep-All P test xs h.1)
  | inr e ↦ rw e (keep-All P test xs h.1)
]

-- A query finds rows of the table that pass its test.
pub query-IsRow :
    (test : HitlItem → Bool) (t : HitlTable)
    → IsKeyed t
    → IsFiled t
    → All (λ i. IsRow t i × (test i ≡ true)) (by_time (keep test (values t)))
query-IsRow test t keyed filed =
    All-by_time (λ i. IsRow t i × (test i ≡ true)) (keep test (values t))
      (keep-All (IsRow t) test (values t) (values-IsRow t keyed filed))

-- And it finds each of them.
Among-insert_by_time :
    (x i : HitlItem) (is : List HitlItem) → (x ≡ i) ⊎ Among x is → Among x (insert_by_time i is)
Among-insert_by_time x i [] (inl e) = inl e
Among-insert_by_time x i [] (inr m) = absurd m
Among-insert_by_time x i (j ∷ js) m = elim (Bool-cases (leb i.enqueued_at j.enqueued_at)) [
  | inl e ↦ rw e m
  | inr e ↦ rw e (elim m [
    | inl here ↦ inr (Among-insert_by_time x i js (inl here))
    | inr (inl next) ↦ inl next
    | inr (inr later) ↦ inr (Among-insert_by_time x i js (inr later))
  ])
]

Among-by_time : (x : HitlItem) (is : List HitlItem) → Among x is → Among x (by_time is)
Among-by_time x [] m = absurd m
Among-by_time x (i ∷ is) (inl e) = Among-insert_by_time x i (by_time is) (inl e)
Among-by_time x (i ∷ is) (inr m) =
    Among-insert_by_time x i (by_time is) (inr (Among-by_time x is m))

pub Among-keep :
    (x : HitlItem) (test : HitlItem → Bool) (is : List HitlItem)
    → Among x is
    → test x ≡ true
    → Among x (keep test is)
Among-keep x test [] m h = absurd m
Among-keep x test (i ∷ is) (inl e) h = rw (ap test (sym e) ∙ h) (inl e)
Among-keep x test (i ∷ is) (inr m) h = elim (Bool-cases (test i)) [
  | inl e ↦ rw e (inr (Among-keep x test is m h))
  | inr e ↦ rw e (Among-keep x test is m h)
]

pub query-Among :
    (test : HitlItem → Bool) (t : HitlTable) (k : Key) (i : HitlItem)
    → lookup k t ≡ some i
    → test i ≡ true
    → Among i (by_time (keep test (values t)))
query-Among test t k i found h =
    Among-by_time i (keep test (values t))
      (Among-keep i test (values t) (lookup-Among k i t found) h)
