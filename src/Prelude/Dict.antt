-- ===== src/Prelude/Dict.antt =====
-- A Python dict, in insertion order: an association list keyed by `Key`.
use voice_os.Prelude.Tests.{Key, ◌==◌, if◌then◌else◌}
use voice_os.Prelude.Lists.{Among, All, All-mono}
use mathlib.Core.Logic.{◌≢◌, inl, inr}
use mathlib.Core.Path.{◌≡◌, refl}
use mathlib.Core.Bool.{Bool, true, false}
use mathlib.Core.Option.{Option, none, some}
use mathlib.Core.List.{List, [], ◌∷◌}
use native.Mathlib.Omega.{arith}

abbrev pub Dict : Type 0 → Type 0
Dict V = List (Key × V)

module _ {V : Type 0} where
  -- `d.get(k)`
  abbrev pub lookup : Key → Dict V → Option V
  lookup k [] = none
  lookup k (e ∷ d) = if e.0 == k then some e.1 else lookup k d

  -- `k in d`
  abbrev pub has : Key → Dict V → Bool
  has k d = elim (lookup k d) [ none ↦ false | some _ ↦ true ]

  -- `d[k] = v`: a key that is present keeps its place.
  abbrev pub insert : Key → V → Dict V → Dict V
  insert k v [] = (k, v) ∷ []
  insert k v (e ∷ d) = if e.0 == k then (k, v) ∷ d else e ∷ insert k v d

  -- `del d[k]`
  abbrev pub erase : Key → Dict V → Dict V
  erase k [] = []
  erase k (e ∷ d) = if e.0 == k then d else e ∷ erase k d

  -- `list(d.keys())` and `d.values()`
  abbrev pub keys : Dict V → List Key
  keys [] = []
  keys (e ∷ d) = e.0 ∷ keys d

  abbrev pub values : Dict V → List V
  values [] = []
  values (e ∷ d) = e.1 ∷ values d

  -- No key stands twice, as in every dict.
  abbrev pub IsKeyed : Dict V → Type 0
  IsKeyed [] = Unit
  IsKeyed (e ∷ d) = (lookup e.0 d ≡ none) × IsKeyed d

  pub lookup-insert :
      (k j : Key) (v : V) (d : Dict V)
      → lookup j (insert k v d) ≡ (if k == j then some v else lookup j d)
  lookup-insert k j v [] = refl
  lookup-insert k j v (e ∷ d) = ground (arith, lookup-insert k j v d)

  pub lookup-erase :
      (k j : Key) (d : Dict V)
      → IsKeyed d
      → lookup j (erase k d) ≡ (if k == j then none else lookup j d)
  lookup-erase k j [] h = ground arith
  lookup-erase k j (e ∷ d) h = ground (arith, lookup-erase k j d h.1)

  pub insert-IsKeyed : (k : Key) (v : V) (d : Dict V) → IsKeyed d → IsKeyed (insert k v d)
  insert-IsKeyed k v [] h = (refl, tt)
  insert-IsKeyed k v (e ∷ d) h = ground (arith, insert-IsKeyed k v d h.1, lookup-insert k e.0 v d)

  pub erase-IsKeyed : (k : Key) (d : Dict V) → IsKeyed d → IsKeyed (erase k d)
  erase-IsKeyed k [] h = tt
  erase-IsKeyed k (e ∷ d) h = ground (arith, erase-IsKeyed k d h.1, lookup-erase k e.0 d h.1)

  -- What was just added under a new key goes away again without a trace.
  pub erase-insert_new :
      (k : Key) (v : V) (d : Dict V) → lookup k d ≡ none → erase k (insert k v d) ≡ d
  erase-insert_new k v [] h = ground arith
  erase-insert_new k v (e ∷ d) h = ground (arith, erase-insert_new k v d)

  -- A write of the value that is there changes nothing.
  pub insert_same : (k : Key) (v : V) (d : Dict V) → lookup k d ≡ some v → insert k v d ≡ d
  insert_same k v [] h = cc
  insert_same k v (e ∷ d) h = ground (arith, insert_same k v d)

  pub insert_twice : (k : Key) (v w : V) (d : Dict V) → insert k v (insert k w d) ≡ insert k v d
  insert_twice k v w [] = ground arith
  insert_twice k v w (e ∷ d) = ground (arith, insert_twice k v w d)

-- The values of a dict are what its keys find.
module _ {V : Type 0} where
  pub lookup-Among : (k : Key) (v : V) (d : Dict V) → lookup k d ≡ some v → Among v (values d)
  lookup-Among k v [] h = cc
  lookup-Among k v (e ∷ d) h = ground (arith, lookup-Among k v d)

  pub Among-lookup :
      (v : V) (d : Dict V) → IsKeyed d → Among v (values d) → (k : Key) × (lookup k d ≡ some v)
  Among-lookup v [] h m = absurd m
  Among-lookup v (e ∷ d) h (inl p) = (e.0, ground arith)
  Among-lookup v (e ∷ d) h (inr m) = let (k, found) = Among-lookup v d h.1 m in (k, ground arith)

  pub keys-registered : (d : Dict V) → All (λ k. lookup k d ≢ none) (keys d)
  keys-registered [] = tt
  keys-registered (e ∷ d) =
      (ground arith, All-mono _ _ (keys d) (λ k h. ground arith) (keys-registered d))
