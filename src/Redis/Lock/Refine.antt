-- ===== src/Redis/Lock/Refine.antt =====
-- The keys in Redis (lock.py) and the abstract lock that they show.
use voice_os.Prelude.{
  ==_iff, ℕ, suc, ◌+◌, ◌*◌, ◌≤◌, ◌≡◌, refl, ap, ◌∙◌, Key, Bool, true, false, none, some, List, [],
  ◌∷◌, ltb, ◌==◌, if◌then◌else◌, arith, Bool-cases, Option-cases, inl, inr, ok,
}
use voice_os.Redis.{Name, word, integer, Redis}
use voice_os.Redis.Lock.{LockToken, lock_key, fencing_key, counter_seconds, acquire, release}
use voice_os.Redis.Lock.Spec.{
  Lock, held, counted, take, give_back, Call, acquiring, releasing, Later, IsNaming, token_for,
  promised, held_value, number, told, Shows, take_free, take-held,
}
use voice_os.Redis.Lock.Effects.{
  issue-lock, issue-counter_other, issue-counter, acquire-taken, acquire-issue, read-locked, locked,
}

-- What is there until a time, as a value of Redis.
until_held :
    (b : Bool) (owner : Key)
    → (if b then some (word owner) else none) ≡ held_value (if b then some owner else none)
until_held true owner = refl
until_held false owner = refl

until_number :
    (b : Bool) (n : ℕ)
    → (if b then some (integer (suc n)) else none) ≡ number (if b then suc n else 0)
until_number true n = refl
until_number false n = refl

module _ (r : Redis) (parts : Key → Name) (ttl_ms : ℕ) (naming : IsNaming parts) where
  open r use {
    Store, read, set_nx, incr, expire, delete, set_nx_taken, set_nx_free, read_set_nx, incr_next,
    read_incr, read_incr_other, read_expire, read_delete,
  }

  -- A call on the resource is told what the lock tells, and shows the lock after it.
  pub acquire-refines :
      (now : ℕ) (a owner : Key) (s : Store) (l : Lock)
      → Shows r parts ttl_ms now a s l
      → ((acquire r parts ttl_ms now a owner s).0
          ≡ ok (token_for a owner (take ttl_ms now owner l).0))
        × Shows r parts ttl_ms now a
            (acquire r parts ttl_ms now a owner s).1
            (take ttl_ms now owner l).1
  acquire-refines now a owner s l h = elim (Option-cases (held now l)) [
    | inr (o, e) ↦
        let busy = (h now (omega arith)).0 ∙ ap held_value e in
        rw
          (
            acquire-taken r parts ttl_ms naming now a owner s (word o) busy,
            take-held ttl_ms now owner o l e,
          )
          (refl, h)
    | inl e ↦
        let free = (h now (omega arith)).0 ∙ ap held_value e in
        let self = naming.0 a a ∙ (==_iff a a).1 refl in
        let counter : read now (fencing_key parts a) (locked r parts ttl_ms naming now a owner s)
            ≡ number (counted now l) =
          rw
            (
              read-locked r parts ttl_ms naming now a owner s now (fencing_key parts a) free
                  (omega arith),
              naming.1 a a,
            )
            (h now (omega arith)).1 in
        let (answer, counts) =
          issue-counter r parts ttl_ms naming now a owner
            (locked r parts ttl_ms naming now a owner s) (counted now l) counter in
        rw (acquire-issue r parts ttl_ms naming now a owner s free, take_free ttl_ms now owner l e)
          (
            answer,
            λ t later. (
              issue-lock r parts ttl_ms naming now a a owner
                    (locked r parts ttl_ms naming now a owner s) t later
                  ∙ rw
                      (
                        read-locked r parts ttl_ms naming now a owner s t (lock_key parts a) free
                            later,
                        self,
                      )
                      (until_held (ltb t (now + ttl_ms)) owner),
              counts t later
                  ∙ until_number (ltb t (now + counter_seconds ttl_ms * 1_000)) (counted now l),
            ),
          )
  ]

  Shows-later :
      (now t : ℕ) (a : Key) (s : Store) (l : Lock)
      → now ≤ t
      → Shows r parts ttl_ms now a s l
      → Shows r parts ttl_ms t a s l
  Shows-later now t a s l later h u after = h u (omega (arith, later, after))

  -- A call on another resource leaves the lock as it is shown.
  acquire-Shows :
      (now : ℕ) (q a owner : Key) (s : Store) (l : Lock)
      → (q == a) ≡ false
      → Shows r parts ttl_ms now a s l
      → Shows r parts ttl_ms now a (acquire r parts ttl_ms now q owner s).1 l
  acquire-Shows now q a owner s l other h = elim (Option-cases (read now (lock_key parts q) s)) [
    | inr (w, e) ↦ rw (acquire-taken r parts ttl_ms naming now q owner s w e) h
    | inl free ↦ rw (acquire-issue r parts ttl_ms naming now q owner s free) (λ t later. (
      issue-lock r parts ttl_ms naming now q a owner (locked r parts ttl_ms naming now q owner s) t
            later
          ∙ rw
              (
                read-locked r parts ttl_ms naming now q owner s t (lock_key parts a) free later,
                naming.0 q a,
                other,
              )
              (h t later).0,
      issue-counter_other r parts ttl_ms naming now q a owner
            (locked r parts ttl_ms naming now q owner s) t later other
          ∙ rw
              (
                read-locked r parts ttl_ms naming now q owner s t (fencing_key parts a) free later,
                naming.1 q a,
              )
              (h t later).1,
    ))
  ]

  release_free :
      (now : ℕ) (token : LockToken) (s : Store)
      → read now (lock_key parts token.resource_id) s ≡ none
      → release r parts ttl_ms now token s ≡ (false, s)
  unfolding release
  release_free now token s h = rw (release, h) refl

  release_held :
      (now : ℕ) (token : LockToken) (s : Store) (o : Key)
      → read now (lock_key parts token.resource_id) s ≡ some (word o)
      → release r parts ttl_ms now token s ≡ (
          if o == token.owner_id
          then (true, delete now (lock_key parts token.resource_id) s)
          else (false, s))
  unfolding release
  release_held now token s o h = rw (release, h) refl

  give_back_free :
      (now : ℕ) (owner : Key) (l : Lock) → held now l ≡ none → give_back now owner l ≡ (false, l)
  unfolding give_back
  give_back_free now owner l h = ground arith

  give_back-held :
      (now : ℕ) (owner o : Key) (l : Lock)
      → held now l ≡ some o
      → give_back now owner l
        ≡ (if o == owner then (true, record l { holder = none }) else (false, l))
  unfolding give_back
  give_back-held now owner o l h = ground arith

  delete-Shows :
      (now : ℕ) (a : Key) (s : Store) (l : Lock)
      → Shows r parts ttl_ms now a s l
      → Shows r parts ttl_ms now a (delete now (lock_key parts a) s) (record l { holder = none })
  delete-Shows now a s l h t later =
      let self = naming.0 a a ∙ (==_iff a a).1 refl in
      (
        rw (read_delete now (lock_key parts a) s t (lock_key parts a) later, self) (ground arith),
        rw (read_delete now (lock_key parts a) s t (fencing_key parts a) later, naming.1 a a)
            (h t later).1,
      )

  release-refines :
      (now : ℕ) (token : LockToken) (s : Store) (l : Lock)
      → Shows r parts ttl_ms now token.resource_id s l
      → ((release r parts ttl_ms now token s).0 ≡ (give_back now token.owner_id l).0)
        × Shows r parts ttl_ms now token.resource_id
            (release r parts ttl_ms now token s).1
            (give_back now token.owner_id l).1
  release-refines now token s l h = elim (Option-cases (held now l)) [
    | inl e ↦
        let free = (h now (omega arith)).0 ∙ ap held_value e in
        rw (release_free now token s free, give_back_free now token.owner_id l e) (refl, h)
    | inr (o, e) ↦
        let busy = (h now (omega arith)).0 ∙ ap held_value e in
        rw (release_held now token s o busy, give_back-held now token.owner_id o l e)
          (elim (Bool-cases (o == token.owner_id)) [
            | inl own ↦ rw own (refl, delete-Shows now token.resource_id s l h)
            | inr foreign ↦ rw foreign (refl, h)
          ])
  ]

  delete-Shows_other :
      (now : ℕ) (q a : Key) (s : Store) (l : Lock)
      → (q == a) ≡ false
      → Shows r parts ttl_ms now a s l
      → Shows r parts ttl_ms now a (delete now (lock_key parts q) s) l
  delete-Shows_other now q a s l other h t later = (
    rw (read_delete now (lock_key parts q) s t (lock_key parts a) later, naming.0 q a, other)
        (h t later).0,
    rw (read_delete now (lock_key parts q) s t (fencing_key parts a) later, naming.1 q a)
        (h t later).1,
  )

  release-Shows :
      (now : ℕ) (token : LockToken) (a : Key) (s : Store) (l : Lock)
      → (token.resource_id == a) ≡ false
      → Shows r parts ttl_ms now a s l
      → Shows r parts ttl_ms now a (release r parts ttl_ms now token s).1 l
  unfolding release
  release-Shows now token a s l other h =
      let gone = delete-Shows_other now token.resource_id a s l other h in
      elim (Option-cases (read now (lock_key parts token.resource_id) s)) [
        | inl e ↦ rw (release, e) h
        | inr (integer n, e) ↦ rw (release, e) h
        | inr (word o, e) ↦
            rw (release, e)
              (elim (Bool-cases (o == token.owner_id)) [
                | inl own ↦ rw own gone
                | inr foreign ↦ rw foreign h
              ])
      ]

  -- While identifiers can be told apart and time does not go back: from a store that shows a lock,
  -- whatever calls come on whatever resources, those on this one are told what the lock tells.
  pub told-refines :
      (a : Key) (calls : List Call) (now : ℕ) (s : Store) (l : Lock)
      → Shows r parts ttl_ms now a s l
      → Later now calls
      → told r parts ttl_ms a calls s ≡ promised ttl_ms a calls l
  told-refines a [] now s l h later = refl
  told-refines a (acquiring t q owner ∷ calls) now s l h later =
      let shown = Shows-later now t a s l later.0 h in
      elim (Bool-cases (q == a)) [
        | inr other ↦
            rw other
              (told-refines a calls t _ l (acquire-Shows t q a owner s l other shown) later.1)
        | inl own ↦
            let (answer, after) = acquire-refines t a owner s l shown in
            rw (own, (==_iff q a).0 own, answer, told-refines a calls t _ _ after later.1) refl
      ]
  told-refines a (releasing t token ∷ calls) now s l h later =
      let shown = Shows-later now t a s l later.0 h in
      elim (Bool-cases (token.resource_id == a)) [
        | inr other ↦
            rw other (told-refines a calls t _ l (release-Shows t token a s l other shown) later.1)
        | inl own ↦
            let e = (==_iff token.resource_id a).0 own in
            let (answer, after) = release-refines t token s l (rw e shown) in
            let after' : Shows r parts ttl_ms t a (release r parts ttl_ms t token s).1
                (give_back t token.owner_id l).1 =
              rw (← e) after in
            rw (own, answer, told-refines a calls t _ _ after' later.1) refl
      ]
