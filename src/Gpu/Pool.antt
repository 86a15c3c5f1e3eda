-- ===== src/Gpu/Pool.antt =====
-- Model pools (src/services/gpu_scheduler/model_pool.py). A `ModelHandle` is an object that the
-- pool and its callers share: the pool's two collections hold ids into a store of the handles.
-- `uuid4` gives the argument pairs (token id, handle id). The queue of free handles is first in
-- first out; `acquire` on an empty queue is the timeout, what other threads put in meanwhile
-- being steps of theirs that come before.
pub mod Leases
pub mod Warm
use voice_os.Prelude.{
  ℕ, zero, suc, ◌+◌, ◌%◌, ◌<◌, Key, Bool, true, false, not, ◌&&◌, Option, none, some, List, [], ◌∷◌,
  ◌++◌, Result, ok, err, ◌>>=◌, ◌>>◌, raise_as, raise_if, ltb, ◌==◌, if◌then◌else◌, length,
  contains, get_elem?,
}
use voice_os.Prelude.Dict.{Dict, lookup, insert}
use voice_os.Gpu.Ledger.{AllocationToken, VramLedger, LedgerError, allocate, release}

pub data PoolType : Type 0 where
  stt_pool llm_pool tts_pool : PoolType

-- `pool_type.value`
abbrev pub pool_value : PoolType → Key
pool_value stt_pool = 0
pool_value llm_pool = 1
pool_value tts_pool = 2

pub record ModelHandle : Type 0 where
  pub handle_id : Key
  pub pool_type : PoolType
  pub device_id : Key
  pub allocation_token : AllocationToken
  pub is_warm : Bool
  pub released : Bool

pub record ModelPool : Type 0 where
  pub pool_type : PoolType
  pub vram_per_instance_mb : ℕ
  pub devices : List Key
  pub available : List Key
  pub all_handles : List Key
  pub handles : Dict ModelHandle

pub data PoolError : Type 0 where
  value_error index_error timeout_error : PoolError
  ledger_error : LedgerError → PoolError

-- `_all_handles.remove(old)`: the first occurrence goes.
unfoldable pub remove : Key → List Key → List Key
remove k [] = []
remove k (x ∷ xs) = if x == k then xs else x ∷ remove k xs

-- Step 3 of `warm_new_instance`: the oldest handle's VRAM goes back to the ledger.
-- (A handle of `_all_handles` is in the store, so `none` does not arise.)
pub retire : Key → Key → ModelPool → VramLedger → Result PoolError (ModelPool × VramLedger)
unfolding remove
retire old new p l = if old == new then ok (p, l) else elim (lookup old p.handles) [
  | none ↦ err index_error
  | some h ↦ (do
    l' ← raise_as ledger_error (release h.allocation_token l)
    ok (record p { all_handles = remove old p.all_handles }, l'))
]

pub retire_oldest : Bool → Key → ModelPool → VramLedger → Result PoolError (ModelPool × VramLedger)
unfolding retire
retire_oldest retire_old new p l = elim p.all_handles [
  | [] ↦ ok (p, l)
  | old ∷ rest ↦ if retire_old && ltb 0 (length rest) then retire old new p l else ok (p, l)
]

-- `_all_handles.append(handle)` and `_available.put(handle)`.
abbrev pub admit : ModelHandle → ModelPool → ModelPool
admit h p = record p {
  all_handles = p.all_handles ++ (h.handle_id ∷ []);
  available = p.available ++ (h.handle_id ∷ []);
  handles = insert h.handle_id h p.handles;
}

-- The id of the model, f"{pool_type.value.lower()}_instance", is the parameter `instance_name`.
module _ (instance_name : PoolType → Key) where
  unfoldable pub create_handle :
      ℕ → Key × Key → ModelPool → VramLedger → Result PoolError (ModelHandle × VramLedger)
  create_handle device_index ids p l = elim (get_elem? p.devices device_index) [
    | none ↦ err index_error
    | some device_id ↦ (do
      (token, l') ← raise_as ledger_error (
          allocate device_id (instance_name p.pool_type) p.vram_per_instance_mb
            (pool_value p.pool_type) ids.0 l)
      ok (
        record {
          handle_id = ids.1;
          pool_type = p.pool_type;
          device_id = device_id;
          allocation_token = token;
          is_warm = true;
          released = false;
        },
        l',
      ))
  ]

  -- The loop of `__init__` over `range(size)`, round-robin over the devices. When an allocation
  -- raises, the exception leaves the constructor: the ledger at that point comes back with it.
  fill :
      ℕ → ℕ → (ℕ → Key × Key) → ModelPool → VramLedger → (Result PoolError ModelPool) × VramLedger
  fill zero i ids p l = (ok p, l)
  fill (suc n) i ids p l = elim (create_handle (i % length p.devices) (ids i) p l) [
    | err e ↦ (err e, l)
    | ok (h, l') ↦ fill n (i + 1) ids (admit h p) l'
  ]

  unfoldable pub new_pool :
      PoolType
      → ℕ
      → ℕ
      → List Key
      → (ℕ → Key × Key)
      → VramLedger
      → (Result PoolError ModelPool) × VramLedger
  unfolding fill create_handle
  new_pool pool_type size vram_per_instance_mb devices ids l =
      if length devices == 0
      then (err value_error, l)
      else fill size 0 ids
          (record {
            pool_type = pool_type;
            vram_per_instance_mb = vram_per_instance_mb;
            devices = devices;
            available = [];
            all_handles = [];
            handles = [];
          })
          l

  -- An exception of the ledger leaves what was done before it.
  unfoldable pub warm_new_instance :
      Bool
      → Key × Key
      → ModelPool
      → VramLedger
      → (Result PoolError ModelHandle) × ModelPool × VramLedger
  unfolding create_handle retire_oldest
  warm_new_instance retire_old ids p l = elim (create_handle 0 ids p l) [
    | err e ↦ (err e, p, l)
    | ok (h, l') ↦
        let q = admit h p in
        elim (retire_oldest retire_old h.handle_id q l') [
          | err e ↦ (err e, q, l')
          | ok (p', l'') ↦ (ok h, p', l'')
        ]
  ]

-- `handle._released = value`, in the shared store.
abbrev set_released : Key → Bool → ModelPool → ModelPool
set_released k value p = elim (lookup k p.handles) [
  | none ↦ p
  | some h ↦ record p { handles = insert k (record h { released = value }) p.handles }
]

unfoldable pub acquire : ModelPool → Result PoolError (Key × ModelPool)
acquire p = elim p.available [
  | [] ↦ err timeout_error
  | h ∷ rest ↦ ok (h, set_released h false (record p { available = rest }))
]

-- Handles of another pool are not in the store; the source would take them in.
unfoldable pub release_handle : Key → ModelPool → ModelPool
release_handle k p = elim (lookup k p.handles) [
  | none ↦ p
  | some h ↦
      if h.released
      then p
      else let q = set_released k true p in record q { available = q.available ++ (k ∷ []) }
]

unfoldable pub available_count : ModelPool → ℕ
available_count p = length p.available

unfoldable pub pool_size : ModelPool → ℕ
pool_size p = length p.all_handles
