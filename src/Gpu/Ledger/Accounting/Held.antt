-- ===== src/Gpu/Ledger/Accounting/Held.antt =====
-- The sum of the tokens that a device has given out, under each change of the token table.
use voice_os.Prelude.{ℕ, ◌+◌, ◌≡◌, ◌≢◌, refl, Key, none, some, [], ◌∷◌, arith, ◌==◌, if◌then◌else◌}
use voice_os.Prelude.Dict.{Dict, lookup, insert, erase, IsKeyed, lookup-insert}
use voice_os.Gpu.Ledger.{AllocationToken, DeviceState, drain_loop}

abbrev pub held : Key → Dict AllocationToken → ℕ
held d [] = 0
held d (e ∷ ts) = let rest = held d ts in if e.1.device_id == d then e.1.vram_mb + rest else rest

-- Every token stands under its own id, and its device is registered.
abbrev pub IsHomed : Dict DeviceState → Dict AllocationToken → Type 0
IsHomed ds [] = Unit
IsHomed ds (e ∷ ts) = (e.1.token_id ≡ e.0) × (lookup e.1.device_id ds ≢ none) × IsHomed ds ts

pub held-insert :
    (d u : Key) (t : AllocationToken) (ts : Dict AllocationToken)
    → lookup u ts ≡ none
    → held d (insert u t ts) ≡ held d ts + (if t.device_id == d then t.vram_mb else 0)
held-insert d u t [] h = ground arith
held-insert d u t (e ∷ ts) h = ground (arith, held-insert d u t ts)

pub held-erase :
    (d u : Key) (t : AllocationToken) (ts : Dict AllocationToken)
    → lookup u ts ≡ some t
    → held d (erase u ts) + (if t.device_id == d then t.vram_mb else 0) ≡ held d ts
held-erase d u t [] h = cc
held-erase d u t (e ∷ ts) h = ground (arith, held-erase d u t ts)

pub held-drain_loop :
    (d k : Key) (ts : Dict AllocationToken)
    → held d (drain_loop k ts).1 ≡ (if k == d then 0 else held d ts)
unfolding drain_loop
held-drain_loop d k [] = ground arith
held-drain_loop d k (e ∷ ts) = ground (arith, held-drain_loop d k ts)

pub IsHomed-insert_device :
    (k : Key) (v : DeviceState) (ds : Dict DeviceState) (ts : Dict AllocationToken)
    → IsHomed ds ts
    → IsHomed (insert k v ds) ts
IsHomed-insert_device k v ds [] h = tt
IsHomed-insert_device k v ds (e ∷ ts) h =
    ground (arith, IsHomed-insert_device k v ds ts h.2, lookup-insert k e.1.device_id v ds)

pub IsHomed-insert :
    (ds : Dict DeviceState) (t : AllocationToken) (ts : Dict AllocationToken)
    → IsHomed ds ts
    → lookup t.device_id ds ≢ none
    → IsHomed ds (insert t.token_id t ts)
IsHomed-insert ds t [] h r = (refl, r, tt)
IsHomed-insert ds t (e ∷ ts) h r = ground (arith, IsHomed-insert ds t ts h.2 r)

pub IsHomed-erase :
    (u : Key) (ds : Dict DeviceState) (ts : Dict AllocationToken)
    → IsHomed ds ts
    → IsHomed ds (erase u ts)
IsHomed-erase u ds [] h = tt
IsHomed-erase u ds (e ∷ ts) h = ground (arith, IsHomed-erase u ds ts h.2)

pub IsHomed-drain_loop :
    (k : Key) (ds : Dict DeviceState) (ts : Dict AllocationToken)
    → IsHomed ds ts
    → IsHomed ds (drain_loop k ts).1
unfolding drain_loop
IsHomed-drain_loop k ds [] h = tt
IsHomed-drain_loop k ds (e ∷ ts) h = ground (arith, IsHomed-drain_loop k ds ts h.2)

lookup-drain_loop :
    (k u : Key) (ts : Dict AllocationToken)
    → lookup u ts ≡ none
    → lookup u (drain_loop k ts).1 ≡ none
unfolding drain_loop
lookup-drain_loop k u [] h = refl
lookup-drain_loop k u (e ∷ ts) h = ground (arith, lookup-drain_loop k u ts)

pub drain_loop-IsKeyed :
    (k : Key) (ts : Dict AllocationToken) → IsKeyed ts → IsKeyed (drain_loop k ts).1
unfolding drain_loop
drain_loop-IsKeyed k [] h = tt
drain_loop-IsKeyed k (e ∷ ts) h =
    ground (arith, drain_loop-IsKeyed k ts h.1, lookup-drain_loop k e.0 ts h.0)

pub lookup-IsHomed :
    (u : Key) (t : AllocationToken) (ds : Dict DeviceState) (ts : Dict AllocationToken)
    → IsHomed ds ts
    → lookup u ts ≡ some t
    → (t.token_id ≡ u) × (lookup t.device_id ds ≢ none)
lookup-IsHomed u t ds [] h e = cc
lookup-IsHomed u t ds (x ∷ ts) h e = ground (arith, lookup-IsHomed u t ds ts h.2)
