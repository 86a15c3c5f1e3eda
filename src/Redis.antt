-- ===== src/Redis.antt =====
-- Redis, as src/libs/redis_client uses it: the commands are a parameter of what stands on them, with
-- what their documentation says of them. Times are milliseconds on the server's clock.
pub mod Lock
use voice_os.Prelude.{
  ℕ, zero, suc, ◌+◌, ◌*◌, ◌/◌, ◌%◌, ◌≤◌, ◌≡◌, Key, Bool, true, false, ◌&&◌, Option, none, some,
  List, [], ◌∷◌, ltb, ◌==◌, if◌then◌else◌, ◌↔◌, ◌≢◌, arith, refl, Bool-cases, inl, inr,
}
use Prim.Native.String.{String}
use Prim.Native.Char.{Char}
use text.Mathlib.Text.{◌==◌ as str_eq}
use text.Mathlib.TextEquality.{eq_iff}

-- A key, as the parts of it between colons.
abbrev pub Name : Type 0
Name = List Key

abbrev pub same : Name → Name → Bool
same [] [] = true
same (a ∷ xs) (b ∷ ys) = a == b && same xs ys
same _ _ = false

pub same_iff : (xs ys : Name) → (same xs ys ≡ true) ↔ (xs ≡ ys)
same_iff [] [] = ground arith
same_iff [] (b ∷ ys) = ground arith
same_iff (a ∷ xs) [] = ground arith
same_iff (a ∷ xs) (b ∷ ys) = ground (arith, same_iff xs ys)

-- What a key holds: a text that is no number, or a number.
pub data Value : Type 0 where
  word : Key → Value
  integer : ℕ → Value

-- INCR answers the next number, and refuses what is no number.
abbrev pub next : Option Value → Option ℕ
next none = some 1
next (some (integer n)) = some (suc n)
next (some (word _)) = none

pub record Redis : Type 1 where
  pub Store : Type 0
  -- What GET answers at a time, if nothing is written before.
  pub read : ℕ → Name → Store → Option Value
  -- SET key value NX PX ttl: is it set.
  pub set_nx : ℕ → Name → Value → ℕ → Store → Bool × Store
  pub incr : ℕ → Name → Store → Option ℕ × Store
  pub expire : ℕ → Name → ℕ → Store → Store
  pub delete : ℕ → Name → Store → Store
  pub set_nx_taken :
      (now : ℕ) (k : Name) (v : Value) (px : ℕ) (s : Store) (w : Value)
      → read now k s ≡ some w
      → set_nx now k v px s ≡ (false, s)
  pub set_nx_free :
      (now : ℕ) (k : Name) (v : Value) (px : ℕ) (s : Store)
      → read now k s ≡ none
      → (set_nx now k v px s).0 ≡ true
  pub read_set_nx :
      (now : ℕ) (k : Name) (v : Value) (px : ℕ) (s : Store) (t : ℕ) (j : Name)
      → read now k s ≡ none
      → now ≤ t
      → read t j (set_nx now k v px s).1
        ≡ (if same k j then (if ltb t (now + px) then some v else none) else read t j s)
  pub incr_next : (now : ℕ) (k : Name) (s : Store) → (incr now k s).0 ≡ next (read now k s)
  pub read_incr :
      (now : ℕ) (k : Name) (s : Store) (n : ℕ)
      → (incr now k s).0 ≡ some n
      → read now k (incr now k s).1 ≡ some (integer n)
  pub read_incr_other :
      (now : ℕ) (k : Name) (s : Store) (t : ℕ) (j : Name)
      → same k j ≡ false
      → read t j (incr now k s).1 ≡ read t j s
  pub read_expire :
      (now : ℕ) (k : Name) (seconds : ℕ) (s : Store) (t : ℕ) (j : Name)
      → now ≤ t
      → read t j (expire now k seconds s) ≡ (
          if same k j
          then (if ltb t (now + seconds * 1_000) then read now k s else none)
          else read t j s)
  pub read_delete :
      (now : ℕ) (k : Name) (s : Store) (t : ℕ) (j : Name)
      → now ≤ t
      → read t j (delete now k s) ≡ (if same k j then none else read t j s)

-- `str(n)`
abbrev digit : ℕ → Char
digit d =
    if d == 0
    then "0"
    else if d == 1
    then "1"
    else if d == 2
    then "2"
    else if d == 3
    then "3"
    else if d == 4
    then "4"
    else if d == 5
    then "5"
    else if d == 6
    then "6"
    else if d == 7
    then "7"
    else if d == 8
    then "8"
    else "9"

digits : ℕ → ℕ → String → String
digits zero n acc = acc
digits (suc f) n acc =
    let d = String.◌∷◌ (digit (n % 10)) acc in
    let rest = digits f (n / 10) d in if ltb n 10 then d else rest

unfoldable pub str : ℕ → String
unfolding digits
str n = digits (suc n) n ""

cons_ne : {c : Char} {s : String} → String.◌∷◌ c s ≢ ""
cons_ne e = cc e

digit_nonempty : (d : ℕ) (acc : String) → str_eq (String.◌∷◌ (digit d) acc) "" ≡ false
digit_nonempty d acc = elim (Bool-cases (str_eq (String.◌∷◌ (digit d) acc) "")) [
  | inl same ↦ absurd (cons_ne ((eq_iff _ _).0 same))
  | inr other ↦ other
]

digits_nonempty :
    (f n : ℕ) (acc : String) → str_eq acc "" ≡ false → str_eq (digits f n acc) "" ≡ false
unfolding digits
digits_nonempty zero n acc h = h
digits_nonempty (suc f) n acc h =
    let d = String.◌∷◌ (digit (n % 10)) acc in
    let shown = digit_nonempty (n % 10) acc in
    elim (Bool-cases (ltb n 10)) [
      | inl last ↦ rw last shown
      | inr more ↦ rw more (digits_nonempty f (n / 10) d shown)
    ]

pub str_nonempty : (n : ℕ) → str_eq (str n) "" ≡ false
unfolding str digits
str_nonempty n =
    let shown = digit_nonempty (n % 10) "" in
    elim (Bool-cases (ltb n 10)) [
      | inl last ↦ rw last shown
      | inr more ↦ rw more (digits_nonempty n (n / 10) _ shown)
    ]
