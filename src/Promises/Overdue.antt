-- ===== src/Promises/Overdue.antt =====
-- What calculate_dpd (emi_schedule.py) computes.
use mathlib.Core.Path.{subst}
use voice_os.Prelude.{
  ℕ, ◌-◌, ◌≤◌, ◌≡◌, refl, ap, sym, ◌∙◌, List, [], ◌∷◌, leb, keep, map, max, All, All-mono, arith,
  Bool-cases, List-cases, inl, inr, leb→le,
}
use voice_os.Promises.{
  EmiEntry, EmiTable, unpaid_of, insert_by_due, by_due, find_unpaid, calculate_dpd,
}

-- The days of the instalment that is past due the longest.
abbrev pub worst : ℕ → List EmiEntry → ℕ
worst today [] = 0
worst today (e ∷ es) = max (today - e.due_date) (worst today es)

max_left : (a b c : ℕ) → max a (max b c) ≡ max b (max a c)
max_left a b c = ground arith

worst-insert_by_due :
    (today : ℕ) (e : EmiEntry) (es : List EmiEntry)
    → worst today (insert_by_due e es) ≡ max (today - e.due_date) (worst today es)
worst-insert_by_due today e [] = refl
worst-insert_by_due today e (x ∷ xs) = elim (Bool-cases (leb e.due_date x.due_date)) [
  | inl h ↦ rw h refl
  | inr h ↦
      rw (h, worst-insert_by_due today e xs)
        (max_left (today - x.due_date) (today - e.due_date) (worst today xs))
]

worst-by_due : (today : ℕ) (es : List EmiEntry) → worst today (by_due es) ≡ worst today es
worst-by_due today [] = refl
worst-by_due today (e ∷ es) =
    worst-insert_by_due today e (by_due es)
    ∙ ap (λ (n : ℕ). max (today - e.due_date) n) (worst-by_due today es)

-- The first is due first.
abbrev Sorted : List EmiEntry → Type 0
Sorted [] = Unit
Sorted (e ∷ es) = All (λ x. e.due_date ≤ x.due_date) es × Sorted es

All-insert_by_due :
    (d : ℕ) (e : EmiEntry) (es : List EmiEntry)
    → d ≤ e.due_date
    → All (λ x. d ≤ x.due_date) es
    → All (λ x. d ≤ x.due_date) (insert_by_due e es)
All-insert_by_due d e [] h a = (h, tt)
All-insert_by_due d e (x ∷ xs) h a = elim (Bool-cases (leb e.due_date x.due_date)) [
  | inl b ↦ rw b (h, a)
  | inr b ↦ rw b (a.0, All-insert_by_due d e xs h a.1)
]

insert_by_due-Sorted : (e : EmiEntry) (es : List EmiEntry) → Sorted es → Sorted (insert_by_due e es)
insert_by_due-Sorted e [] s = (tt, tt)
insert_by_due-Sorted e (x ∷ xs) s = elim (Bool-cases (leb e.due_date x.due_date)) [
  | inl b ↦
      let first = leb→le e.due_date x.due_date b in
      rw b ((first, All-mono _ _ xs (λ y h. omega (arith, h, first)) s.0), s)
  | inr b ↦
      rw b
        (All-insert_by_due x.due_date e xs (ground (arith, b)) s.0, insert_by_due-Sorted e xs s.1)
]

by_due-Sorted : (es : List EmiEntry) → Sorted (by_due es)
by_due-Sorted [] = tt
by_due-Sorted (e ∷ es) = insert_by_due-Sorted e (by_due es) (by_due-Sorted es)

worst-below :
    (today d : ℕ) (es : List EmiEntry) → All (λ x. d ≤ x.due_date) es → worst today es ≤ today - d
worst-below today d [] a = omega arith
worst-below today d (e ∷ es) a = ground (arith, worst-below today d es a.1, a.0)

worst-Sorted :
    (today : ℕ) (e : EmiEntry) (es : List EmiEntry)
    → Sorted (e ∷ es)
    → worst today (e ∷ es) ≡ today - e.due_date
worst-Sorted today e es s = ground (arith, worst-below today e.due_date es s.0)

-- The days past due of a loan account are those of its unpaid instalment that is past due the longest,
-- in whatever order the rows stand; they are 0 if none is past due.
pub calculate_dpd-worst :
    (tenant loan today : ℕ) (t : EmiTable)
    → calculate_dpd tenant loan today t
      ≡ worst today (map (λ r. r.entry) (keep (unpaid_of tenant loan) t))
unfolding calculate_dpd find_unpaid
calculate_dpd-worst tenant loan today t =
    let unpaid = map (λ r. r.entry) (keep (unpaid_of tenant loan) t) in
    elim (List-cases (by_due unpaid)) [
      | inl e ↦ rw (calculate_dpd, e) (ap (worst today) (sym e) ∙ worst-by_due today unpaid)
      | inr (x, xs, e) ↦
          let sorted : Sorted (x ∷ xs) = subst Sorted e (by_due-Sorted unpaid) in
          rw (calculate_dpd, e)
            (sym (worst-Sorted today x xs sorted)
              ∙ ap (worst today) (sym e)
              ∙ worst-by_due today unpaid)
    ]
