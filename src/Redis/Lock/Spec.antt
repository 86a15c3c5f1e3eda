-- ===== src/Redis/Lock/Spec.antt =====
-- What a distributed lock (lock.py) promises for one resource, as a lock with a clock, and that the
-- keys in Redis keep it: no run of calls, on any resources, tells the two apart.
use voice_os.Prelude.{
  arith, ℕ, zero, suc, ◌+◌, ◌*◌, ◌≤◌, ◌≡◌, Key, Bool, true, false, Option, none, some, List, [],
  ◌∷◌, ltb, ◌==◌, if◌then◌else◌, Result, ok,
}
use voice_os.Redis.{Name, same, Value, word, integer, Redis}
use voice_os.Redis.Lock.{
  LockToken, LockError, lock_key, fencing_key, counter_seconds, acquire, release, fencing,
}

-- Who holds the resource and until when, and the last number handed out and how long it is known.
pub record Lock : Type 0 where
  pub holder : Option Key
  pub until : ℕ
  pub counter : ℕ
  pub counts_until : ℕ

abbrev pub unlocked : Lock
unlocked = record { holder = none; until = 0; counter = 0; counts_until = 0 }

abbrev pub held : ℕ → Lock → Option Key
held t l = if ltb t l.until then l.holder else none

abbrev pub counted : ℕ → Lock → ℕ
counted t l = if ltb t l.counts_until then l.counter else 0

unfoldable pub take : ℕ → ℕ → Key → Lock → Option ℕ × Lock
take ttl_ms now owner l = elim (held now l) [
  | some _ ↦ (none, l)
  | none ↦
      let n = suc (counted now l) in
      (
        some n,
        record {
          holder = some owner;
          until = now + ttl_ms;
          counter = n;
          counts_until = now + counter_seconds ttl_ms * 1_000;
        },
      )
]

unfoldable pub give_back : ℕ → Key → Lock → Bool × Lock
give_back now owner l = elim (held now l) [
  | some o ↦ if o == owner then (true, record l { holder = none }) else (false, l)
  | none ↦ (false, l)
]

-- The lock after it was taken.
abbrev pub taken : ℕ → ℕ → Key → Lock → Lock
taken ttl_ms now owner l = record {
  holder = some owner;
  until = now + ttl_ms;
  counter = suc (counted now l);
  counts_until = now + counter_seconds ttl_ms * 1_000;
}

pub take_free :
    (ttl_ms now : ℕ) (owner : Key) (l : Lock)
    → held now l ≡ none
    → take ttl_ms now owner l ≡ (some (suc (counted now l)), taken ttl_ms now owner l)
unfolding take
take_free ttl_ms now owner l h = ground arith

pub take-held :
    (ttl_ms now : ℕ) (owner o : Key) (l : Lock)
    → held now l ≡ some o
    → take ttl_ms now owner l ≡ (none, l)
unfolding take
take-held ttl_ms now owner o l h = ground arith

-- A call of some caller, and what it is told.
pub data Call : Type 0 where
  acquiring : (time : ℕ) (resource owner : Key) → Call
  releasing : (time : ℕ) → LockToken → Call

pub data Reply : Type 0 where
  got : Result LockError (Option LockToken) → Reply
  released : Bool → Reply

abbrev pub time_of : Call → ℕ
time_of (acquiring t _ _) = t
time_of (releasing t _) = t

-- Time does not go back.
abbrev pub Later : ℕ → List Call → Type 0
Later now [] = Unit
Later now (c ∷ calls) = (now ≤ time_of c) × Later (time_of c) calls

-- The identifiers can be told apart, and none begins with "fencing:".
abbrev pub IsNaming : (Key → Name) → Type 0
IsNaming parts =
    ((a b : Key) → same (parts a) (parts b) ≡ (a == b))
    × ((a b : Key) → same (parts a) (fencing ∷ parts b) ≡ false)
    × ((a b : Key) → same (fencing ∷ parts a) (parts b) ≡ false)

abbrev pub token_for : Key → Key → Option ℕ → Option LockToken
token_for a owner none = none
token_for a owner (some n) = some (record { resource_id = a; owner_id = owner; fencing_token = n })

-- What the calls on one resource are told by the lock.
abbrev pub promised : ℕ → Key → List Call → Lock → List Reply
promised ttl_ms a [] l = []
promised ttl_ms a (acquiring t q owner ∷ calls) l =
    let (n, l') = take ttl_ms t owner l in
    let here = promised ttl_ms a calls l' in
    let there = promised ttl_ms a calls l in
    if q == a then got (ok (token_for a owner n)) ∷ here else there
promised ttl_ms a (releasing t token ∷ calls) l =
    let (done, l') = give_back t token.owner_id l in
    let here = promised ttl_ms a calls l' in
    let there = promised ttl_ms a calls l in
    if token.resource_id == a then released done ∷ here else there

abbrev pub held_value : Option Key → Option Value
held_value none = none
held_value (some owner) = some (word owner)

abbrev pub number : ℕ → Option Value
number zero = none
number (suc n) = some (integer (suc n))

module _ (r : Redis) (parts : Key → Name) (ttl_ms : ℕ) where
  open r use {Store, read}

  -- What the calls on one resource are told by the code, while all of them run.
  abbrev pub told : Key → List Call → Store → List Reply
  told a [] s = []
  told a (acquiring t q owner ∷ calls) s =
      let (x, s') = acquire r parts ttl_ms t q owner s in
      let rest = told a calls s' in if q == a then got x ∷ rest else rest
  told a (releasing t token ∷ calls) s =
      let (x, s') = release r parts ttl_ms t token s in
      let rest = told a calls s' in if token.resource_id == a then released x ∷ rest else rest

  -- From now on the keys of a resource read as the lock.
  abbrev pub Shows : ℕ → Key → Store → Lock → Type 0
  Shows now a s l =
      (t : ℕ)
      → now ≤ t
      → (read t (lock_key parts a) s ≡ held_value (held t l))
        × (read t (fencing_key parts a) s ≡ number (counted t l))
