-- ===== src/Examples/Locks.antt =====
-- The theorems about the distributed lock (lock.py), with a store that is what it will read.
use voice_os.Prelude.{
  ℕ, ◌+◌, ◌*◌, ◌≡◌, refl, Key, Bool, true, false, Option, none, some, List, [], ◌∷◌, ltb,
  if◌then◌else◌, All, arith, ok,
}
use voice_os.Redis.{Name, same, same_iff, Value, integer, next, Redis, str}
use voice_os.Invariants.{assert_ri2_single_writer}
use voice_os.Redis.Lock.{LockToken, acquire}
use voice_os.Redis.Lock.Spec.{
  unlocked, take, give_back, Call, acquiring, releasing, IsNaming, promised, told, Shows,
}
use voice_os.Redis.Lock.Refine.{told-refines}
use voice_os.Redis.Lock.Promises.{IsRefusal, InTime, Rising, exclusive, tokens_rise}

abbrev Future : Type 0
Future = ℕ → Name → Option Value

abbrev put : Name → (ℕ → Option Value) → Future → Future
put k v s t j = if same k j then v t else s t j

abbrev counted_up : ℕ → Name → Future → Option ℕ × Future
counted_up now k s = elim (next (s now k)) [
  | none ↦ (none, s)
  | some n ↦ (some n, put k (λ t. some (integer n)) s)
]

abbrev set_if_free : ℕ → Name → Value → ℕ → Future → Bool × Future
set_if_free now k v px s = elim (s now k) [
  | some _ ↦ (false, s)
  | none ↦ (true, put k (λ t. if ltb t (now + px) then some v else none) s)
]

same_self : (k : Name) → same k k ≡ true
same_self k = (same_iff k k).1 refl

instance_incr :
    (now : ℕ) (k : Name) (s : Future) (n : ℕ)
    → (counted_up now k s).0 ≡ some n
    → (counted_up now k s).1 now k ≡ some (integer n)
instance_incr now k s n h = ground (arith, same_self k)

abbrev futures : Redis
futures = record {
  Store = Future;
  read = λ t k s. s t k;
  set_nx = set_if_free;
  incr = counted_up;
  expire =
      λ now k seconds s. put k (λ t. if ltb t (now + seconds * 1_000) then s now k else none) s;
  delete = λ now k s. put k (λ t. none) s;
  set_nx_taken = λ now k v px s w h. ground arith;
  set_nx_free = λ now k v px s h. ground arith;
  read_set_nx = λ now k v px s t j h later. ground arith;
  incr_next = λ now k s. ground arith;
  read_incr = instance_incr;
  read_incr_other = λ now k s t j h. ground arith;
  read_expire = λ now k seconds s t j later. refl;
  read_delete = λ now k s t j later. refl;
}

-- An identifier is one part, and none is "fencing".
abbrev one_part : Key → Name
one_part k = (k + 3) ∷ []

one_part-IsNaming : IsNaming one_part
one_part-IsNaming = (λ a b. ground arith, λ a b. ground arith, λ a b. ground arith)

abbrev empty_store : Future
empty_store t k = none

empty-Shows : Shows futures one_part 30_000 0 7 empty_store unlocked
empty-Shows t later = (ground arith, ground arith)

-- Worker 1 takes the lock of 7, worker 2 is refused, 1 gives it back, and 2 takes it.
abbrev first_token : LockToken
first_token = record { resource_id = 7; owner_id = 1; fencing_token = 1 }

abbrev two_workers : List Call
two_workers =
    acquiring 100 7 1 ∷ acquiring 200 7 2 ∷ releasing 300 first_token ∷ acquiring 400 7 2 ∷ []

told-refines_example :
    told futures one_part 30_000 7 two_workers empty_store ≡ promised 30_000 7 two_workers unlocked
told-refines_example =
    told-refines futures one_part 30_000 one_part-IsNaming 7 two_workers 0 empty_store unlocked
      empty-Shows (ground arith)

first_granted : (acquire futures one_part 30_000 100 7 1 empty_store).0 ≡ ok (some first_token)
unfolding acquire assert_ri2_single_writer str
first_granted = refl

two_workers-InTime : InTime 30_000 7 two_workers unlocked
unfolding take give_back
two_workers-InTime = (refl, (refl, (refl, tt)))

exclusive_example : All IsRefusal (
    told futures one_part 30_000 7
      (acquiring 200 7 2 ∷ [])
      (acquire futures one_part 30_000 100 7 1 empty_store).1)
exclusive_example =
    exclusive futures one_part 30_000 one_part-IsNaming 100 7 1 empty_store unlocked first_token
      (acquiring 200 7 2 ∷ []) (λ t later. empty-Shows t (omega arith)) first_granted (ground arith)
      (ground arith)

tokens_rise_example : Rising 0 (told futures one_part 30_000 7 two_workers empty_store)
tokens_rise_example =
    tokens_rise futures one_part 30_000 one_part-IsNaming 0 7 empty_store unlocked two_workers
      empty-Shows (ground arith) two_workers-InTime
