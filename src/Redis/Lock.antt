-- ===== src/Redis/Lock.antt =====
-- DistributedLock (src/libs/redis_client/lock.py). `parts` gives the parts between colons of an
-- identifier; an owner's identifier is no decimal number. A script is one step.
pub mod Spec
pub mod Effects
pub mod Refine
pub mod Promises
use Prim.Native.String.{String}
use voice_os.Prelude.{
  ℕ, ◌+◌, ◌*◌, ◌/◌, Key, Bool, true, false, not, Option, none, some, List, [], ◌∷◌, ◌==◌,
  if◌then◌else◌, max, Result, ok, err, ◌>>◌, raise_as,
}
use voice_os.Invariants.{Violation, assert_ri2_single_writer}
use voice_os.Redis.{Name, Value, word, integer, Redis, str}

pub record LockToken : Type 0 where
  pub resource_id : Key
  pub owner_id : Key
  pub fencing_token : ℕ

-- What INCR raises on a text, and the guard.
pub data LockError : Type 0 where
  response_error : LockError
  invariant : Violation → LockError

-- The parts "voiceos", "lock" and "fencing" of the prefixes.
abbrev pub voiceos : Key
voiceos = 0

abbrev pub lock : Key
lock = 1

abbrev pub fencing : Key
fencing = 2

module _ (parts : Key → Name) where
  abbrev pub lock_key : Key → Name
  lock_key resource_id = voiceos ∷ lock ∷ parts resource_id

  abbrev pub fencing_key : Key → Name
  fencing_key resource_id = voiceos ∷ lock ∷ fencing ∷ parts resource_id

-- The seconds that a counter lives after an acquisition.
abbrev pub counter_seconds : ℕ → ℕ
counter_seconds ttl_ms = max (ttl_ms / 1_000) 1 * 100

module _ (r : Redis) (parts : Key → Name) (ttl_ms : ℕ) where
  open r use {Store, read, set_nx, incr, expire, delete}

  -- The counter goes up, lives on, and the guard passes its number.
  unfoldable pub issue : ℕ → Key → Key → Store → Result LockError (Option LockToken) × Store
  issue now resource_id owner_id s =
      let (counted, s') = incr now (fencing_key parts resource_id) s in
      elim counted [
        | none ↦ (err response_error, s')
        | some n ↦ (
          raise_as invariant (assert_ri2_single_writer resource_id owner_id (str n))
              >> ok (
                  some
                    (record { resource_id = resource_id; owner_id = owner_id; fencing_token = n })),
          expire now (fencing_key parts resource_id) (counter_seconds ttl_ms) s',
        )
      ]

  -- SET NX, INCR and EXPIRE at one instant: no other call is in between.
  unfoldable pub acquire : ℕ → Key → Key → Store → Result LockError (Option LockToken) × Store
  unfolding issue
  acquire now resource_id owner_id s =
      let (acquired, s') = set_nx now (lock_key parts resource_id) (word owner_id) ttl_ms s in
      let issued = issue now resource_id owner_id s' in if acquired then issued else (ok none, s')

  -- The script compares the owner and deletes.
  unfoldable pub release : ℕ → LockToken → Store → Bool × Store
  release now token s =
      let key = lock_key parts token.resource_id in
      elim (read now key s) [
        | some (word owner) ↦
            if owner == token.owner_id then (true, delete now key s) else (false, s)
        | _ ↦ (false, s)
      ]
