-- ===== src/Gpu/Ledger/BestFit.antt =====
-- The device that admission picks (`best_fit_device` in vram_ledger.py) against what its
-- docstring promises: healthy, with room for the request, and with the most room.
use voice_os.Prelude.{
  ℕ, ◌≤◌, ◌≡◌, inl, inr, refl, sym, ◌∙◌, Key, Bool, true, false, none, some, List, [], ◌∷◌, arith,
  ltb, if◌then◌else◌, All, Among, Bool-cases, All-Among,
}
use voice_os.Prelude.Dict.{lookup, values, lookup-Among, Among-lookup}
use voice_os.Gpu.Ledger.{
  DeviceState, VramLedger, available_vram_mb, fits, max_available, best_fit_device, first_max,
  candidates,
}
use voice_os.Gpu.Ledger.Accounting.Invariant.{IsBalanced}

-- One comparison of the loop, for each of the two statements about its result.
kept-Among :
    (b : Bool) (m best d : DeviceState) (ds : List DeviceState)
    → Among m ((if b then d else best) ∷ ds)
    → Among m (best ∷ d ∷ ds)
kept-Among true m best d ds (inl e) = inr (inl e)
kept-Among true m best d ds (inr h) = inr (inr h)
kept-Among false m best d ds (inl e) = inl e
kept-Among false m best d ds (inr h) = inr (inr h)

max_available-Among :
    (best : DeviceState) (ds : List DeviceState) → Among (max_available best ds) (best ∷ ds)
unfolding max_available
max_available-Among best [] = inl refl
max_available-Among best (d ∷ ds) = kept-Among _ _ best d ds (
    max_available-Among (if ltb (available_vram_mb best) (available_vram_mb d) then d else best) ds)

-- Nothing in the list has more room than the pick.
abbrev IsLargest : DeviceState → List DeviceState → Type 0
IsLargest m = All (λ d. available_vram_mb d ≤ available_vram_mb m)

kept-IsLargest :
    (b : Bool) (m best d : DeviceState) (ds : List DeviceState)
    → ltb (available_vram_mb best) (available_vram_mb d) ≡ b
    → IsLargest m ((if b then d else best) ∷ ds)
    → IsLargest m (best ∷ d ∷ ds)
kept-IsLargest true m best d ds t h = (ground arith, (h.0, h.1))
kept-IsLargest false m best d ds t h = (h.0, (ground arith, h.1))

max_available-IsLargest :
    (best : DeviceState) (ds : List DeviceState) → IsLargest (max_available best ds) (best ∷ ds)
unfolding max_available
max_available-IsLargest best [] = (omega arith, tt)
max_available-IsLargest best (d ∷ ds) = kept-IsLargest _ _ best d ds refl (
    max_available-IsLargest (if ltb (available_vram_mb best) (available_vram_mb d) then d else best)
      ds)

Among-candidates :
    (r : ℕ) (s : DeviceState) (ds : List DeviceState)
    → Among s ds
    → fits r s ≡ true
    → Among s (candidates r ds)
Among-candidates r s [] m f = absurd m
Among-candidates r s (d ∷ ds) (inl e) f = rw ((rw e at f)) (inl e)
Among-candidates r s (d ∷ ds) (inr m) f = ground (arith, Among-candidates r s ds m f)

passed :
    (b : Bool) (r : ℕ) (s d : DeviceState) (ds rest : List DeviceState)
    → fits r d ≡ b
    → (Among s rest → (fits r s ≡ true) × Among s ds)
    → Among s (if b then d ∷ rest else rest)
    → (fits r s ≡ true) × Among s (d ∷ ds)
passed true r s d ds rest f ih (inl e) = (rw e f, inl e)
passed true r s d ds rest f ih (inr m) = let (p, q) = ih m in (p, inr q)
passed false r s d ds rest f ih m = let (p, q) = ih m in (p, inr q)

candidates_fit :
    (r : ℕ) (s : DeviceState) (ds : List DeviceState)
    → Among s (candidates r ds)
    → (fits r s ≡ true) × Among s ds
candidates_fit r s [] m = absurd m
candidates_fit r s (d ∷ ds) m = passed (fits r d) r s d ds _ refl (candidates_fit r s ds) m

-- The pick of a list of candidates is one of them, and none has more room.
first_max-eq_some :
    (d : Key) (cs : List DeviceState)
    → first_max cs ≡ some d
    → (m : DeviceState) × (m.device_id ≡ d) × Among m cs × IsLargest m cs
unfolding first_max
first_max-eq_some d [] h = cc
first_max-eq_some d (c ∷ cs) h =
    (max_available c cs, ground arith, max_available-Among c cs, max_available-IsLargest c cs)

first_max-eq_none : (cs : List DeviceState) (s : DeviceState) → first_max cs ≡ none → ¬ Among s cs
unfolding first_max
first_max-eq_none [] s h m = m
first_max-eq_none (c ∷ cs) s h m = cc

-- The device that is picked has the room, and no device with the room has more.
pub best_fit_device-eq_some :
    (r : ℕ) (l : VramLedger) (d : Key)
    → IsBalanced l
    → best_fit_device r l ≡ some d
    → (m : DeviceState) × (lookup d l.devices ≡ some m)
      × (fits r m ≡ true)
      × ((k : Key) (s : DeviceState)
          → lookup k l.devices ≡ some s
          → fits r s ≡ true
          → available_vram_mb s ≤ available_vram_mb m)
unfolding best_fit_device
best_fit_device-eq_some r l d b h =
    let (m, named, one, largest) = first_max-eq_some d (candidates r (values l.devices)) h in
    let (fit, there) = candidates_fit r m (values l.devices) one in
    let (k, found) = Among-lookup m l.devices b.devices_keyed there in
    let at : k ≡ d = sym (b.settled k m found).2 ∙ named in
    (
      m,
      rw at at found,
      fit,
      λ j s e f.
          All-Among (λ x. available_vram_mb x ≤ available_vram_mb m) s
            (candidates r (values l.devices)) largest
            (Among-candidates r s (values l.devices) (lookup-Among j s l.devices e) f),
    )

-- Without a pick no device has the room.
pub best_fit_device-eq_none :
    (r : ℕ) (l : VramLedger)
    → best_fit_device r l ≡ none
    → (k : Key) (s : DeviceState) → lookup k l.devices ≡ some s
    → fits r s ≡ false
unfolding best_fit_device
best_fit_device-eq_none r l h k s e = elim (Bool-cases (fits r s)) [
  | inr small ↦ small
  | inl fit ↦ absurd (
      first_max-eq_none (candidates r (values l.devices)) s h
        (Among-candidates r s (values l.devices) (lookup-Among k s l.devices e) fit))
]
