-- ===== src/Redis/Lock/Promises.antt =====
-- What follows for callers of the distributed lock (lock.py): one holder at a time, and numbers that
-- grow while the counter lives.
use voice_os.Prelude.{
  ℕ, ◌+◌, ◌≤◌, ◌<◌, ◌≡◌, refl, sym, ◌≢◌, ◌∙◌, Key, false, Option, none, some, List, [], ◌∷◌, ◌==◌,
  if◌then◌else◌, ◌&&◌, All, arith, Bool-cases, Option-cases, inl, inr, Result, ok,
}
use voice_os.Redis.{Name, Redis}
use voice_os.Redis.Lock.{LockToken, LockError, acquire}
use voice_os.Redis.Lock.Spec.{
  Lock, held, counted, take, give_back, Call, acquiring, releasing, Reply, got, released, Later,
  IsNaming, token_for, promised, told, Shows, taken, take_free, take-held,
}
use voice_os.Redis.Lock.Refine.{acquire-refines, told-refines}

-- A call is told that the resource is taken, or that there was nothing to release.
abbrev pub IsRefusal : Reply → Type 0
IsRefusal (got x) = x ≡ ok none
IsRefusal (released done) = done ≡ false

-- Before a time, and not the owner's own release of the resource.
abbrev pub IsMeanwhile : ℕ → Key → Key → Call → Type 0
IsMeanwhile until a owner (acquiring t _ _) = t < until
IsMeanwhile until a owner (releasing t token) =
    (t < until) × ((token.resource_id == a && token.owner_id == owner) ≡ false)

promised-refuses :
    (ttl_ms a owner until : ℕ) (calls : List Call) (l : Lock)
    → l.holder ≡ some owner
    → l.until ≡ until
    → All (IsMeanwhile until a owner) calls
    → All IsRefusal (promised ttl_ms a calls l)
unfolding take give_back
promised-refuses ttl a owner until [] l h e m = tt
promised-refuses ttl a owner until (acquiring t q o ∷ calls) l h e m =
    ground (arith, promised-refuses ttl a owner until calls l h e m.1)
promised-refuses ttl a owner until (releasing t token ∷ calls) l h e m =
    ground (arith, promised-refuses ttl a owner until calls l h e m.1)

-- The numbers that are handed out are above n, and each is above the one before.
abbrev pub Rising : ℕ → List Reply → Type 0
Rising n [] = Unit
Rising n (got (ok (some token)) ∷ replies) =
    (n < token.fencing_token) × Rising token.fencing_token replies
Rising n (_ ∷ replies) = Rising n replies

-- Each acquisition of the resource comes while the counter is known, or before it was ever used.
abbrev pub InTime : ℕ → Key → List Call → Lock → Type 0
InTime ttl_ms a [] l = Unit
InTime ttl_ms a (acquiring t q owner ∷ calls) l =
    if q == a
    then (counted t l ≡ l.counter) × InTime ttl_ms a calls (take ttl_ms t owner l).1
    else InTime ttl_ms a calls l
InTime ttl_ms a (releasing t token ∷ calls) l =
    if token.resource_id == a
    then InTime ttl_ms a calls (give_back t token.owner_id l).1
    else InTime ttl_ms a calls l

counter-give_back : (t owner : ℕ) (l : Lock) → (give_back t owner l).1.counter ≡ l.counter
unfolding give_back
counter-give_back t owner l = ground arith

Rising-from : {m n : ℕ} (replies : List Reply) → m ≡ n → Rising m replies → Rising n replies
Rising-from {m} {n} replies e h = rw (← e) h

promised-Rising :
    (ttl_ms a : ℕ) (calls : List Call) (l : Lock)
    → InTime ttl_ms a calls l
    → Rising l.counter (promised ttl_ms a calls l)
promised-Rising ttl a [] l h = tt
promised-Rising ttl a (acquiring t q o ∷ calls) l h = elim (Bool-cases (q == a)) [
  | inr other ↦ rw other (promised-Rising ttl a calls l (rw other at h))
  | inl own ↦
      let here : (counted t l ≡ l.counter) × InTime ttl a calls (take ttl t o l).1 = rw own at h in
      elim (Option-cases (held t l)) [
        | inr (w, e) ↦
            let same = take-held ttl t o w l e in
            rw (own, same) (promised-Rising ttl a calls l (rw same at here.1))
        | inl e ↦
            let same = take_free ttl t o l e in
            rw (own, same)
              (
                omega (arith, here.0),
                promised-Rising ttl a calls (taken ttl t o l) (rw same at here.1),
              )
      ]
]
promised-Rising ttl a (releasing t token ∷ calls) l h =
    let l' = (give_back t token.owner_id l).1 in
    elim (Bool-cases (token.resource_id == a)) [
      | inr other ↦ rw other (promised-Rising ttl a calls l (rw other at h))
      | inl own ↦ rw own (
          Rising-from (promised ttl a calls l') (counter-give_back t token.owner_id l)
            (promised-Rising ttl a calls l' (rw own at h)))
    ]

refused :
    {token : LockToken} → ◌≢◌ {A = Result LockError (Option LockToken)} (ok (some token)) (ok none)
refused e = cc e

module _ (r : Redis) (parts : Key → Name) (ttl_ms : ℕ) (naming : IsNaming parts) where
  open r use {Store}

  -- While identifiers can be told apart and time does not go back: from a store that shows a lock,
  -- after an acquisition that was granted, and until its time is over or its owner gives the
  -- resource back: whatever calls come, each call on the resource is refused.
  pub exclusive :
      (now : ℕ) (a owner : Key) (s : Store) (l : Lock) (token : LockToken) (calls : List Call)
      → Shows r parts ttl_ms now a s l
      → (acquire r parts ttl_ms now a owner s).0 ≡ ok (some token)
      → Later now calls
      → All (IsMeanwhile (now + ttl_ms) a owner) calls
      → All IsRefusal (told r parts ttl_ms a calls (acquire r parts ttl_ms now a owner s).1)
  exclusive now a owner s l token calls h granted later meanwhile =
      let (answer, after) = acquire-refines r parts ttl_ms naming now a owner s l h in
      elim (Option-cases (held now l)) [
        | inr (o, e) ↦ absurd (
            refused {token = token}
              (sym granted ∙ (rw (take-held ttl_ms now owner o l e) at answer)))
        | inl e ↦
            let same = take_free ttl_ms now owner l e in
            rw (told-refines r parts ttl_ms naming a calls now _ _ after later) (
              promised-refuses ttl_ms a owner (now + ttl_ms) calls _ (rw same refl) (rw same refl)
                meanwhile)
      ]

  -- While identifiers can be told apart and time does not go back: from a store that shows a lock,
  -- and while no acquisition comes after its counter is gone, the fencing tokens of the resource
  -- grow.
  pub tokens_rise :
      (now : ℕ) (a : Key) (s : Store) (l : Lock) (calls : List Call)
      → Shows r parts ttl_ms now a s l
      → Later now calls
      → InTime ttl_ms a calls l
      → Rising l.counter (told r parts ttl_ms a calls s)
  tokens_rise now a s l calls h later alive =
      rw (told-refines r parts ttl_ms naming a calls now s l h later)
        (promised-Rising ttl_ms a calls l alive)

  -- An acquisition of a free resource after the counter is gone starts again at 1.
  pub token_restarts :
      (now : ℕ) (a owner : Key) (s : Store) (l : Lock)
      → Shows r parts ttl_ms now a s l
      → held now l ≡ none
      → l.counts_until ≤ now
      → (acquire r parts ttl_ms now a owner s).0 ≡ ok (token_for a owner (some 1))
  token_restarts now a owner s l h free gone =
      (acquire-refines r parts ttl_ms naming now a owner s l h).0
      ∙ (rw (take_free ttl_ms now owner l free) (ground arith))
