-- ===== src/Redis/Lock/Effects.antt =====
-- What a call on the distributed lock (lock.py) does to the keys in Redis.
use voice_os.Prelude.{
  ==_iff, ℕ, zero, suc, ◌+◌, ◌*◌, ◌≤◌, ◌≡◌, refl, ap, ◌∙◌, Key, false, none, some, ltb, ◌==◌,
  if◌then◌else◌, Option-cases, inl, inr, ok,
}
use voice_os.Invariants.{assert_ri2_single_writer}
use voice_os.Redis.{Name, same, Value, word, integer, next, Redis, str_nonempty}
use voice_os.Redis.Lock.{lock_key, fencing_key, counter_seconds, acquire, issue}
use voice_os.Redis.Lock.Spec.{IsNaming, token_for, number}

module _ (r : Redis) (parts : Key → Name) (ttl_ms : ℕ) (naming : IsNaming parts) where
  open r use {
    Store, read, set_nx, incr, expire, delete, set_nx_taken, set_nx_free, read_set_nx, incr_next,
    read_incr, read_incr_other, read_expire, read_delete,
  }

  -- What one issue does to the keys of a resource.
  pub issue-lock :
      (now : ℕ) (q a owner : Key) (s : Store) (t : ℕ)
      → now ≤ t
      → read t (lock_key parts a) (issue r parts ttl_ms now q owner s).1
        ≡ read t (lock_key parts a) s
  unfolding issue
  issue-lock now q a owner s t h =
      let kept = read_incr_other now (fencing_key parts q) s t (lock_key parts a) (naming.2 q a) in
      elim (Option-cases (incr now (fencing_key parts q) s).0) [
        | inl e ↦ rw (issue, e) kept
        | inr (n, e) ↦ rw (issue, e, read_expire _ _ _ _ t (lock_key parts a) h, naming.2 q a) kept
      ]

  pub issue-counter_other :
      (now : ℕ) (q a owner : Key) (s : Store) (t : ℕ)
      → now ≤ t
      → (q == a) ≡ false
      → read t (fencing_key parts a) (issue r parts ttl_ms now q owner s).1
        ≡ read t (fencing_key parts a) s
  unfolding issue
  issue-counter_other now q a owner s t h other =
      let apart = naming.0 q a ∙ other in
      let kept = read_incr_other now (fencing_key parts q) s t (fencing_key parts a) apart in
      elim (Option-cases (incr now (fencing_key parts q) s).0) [
        | inl e ↦ rw (issue, e) kept
        | inr (n, e) ↦ rw (issue, e, read_expire _ _ _ _ t (fencing_key parts a) h, apart) kept
      ]

  next-number : (n : ℕ) → next (number n) ≡ some (suc n)
  next-number zero = refl
  next-number (suc n) = refl

  pub issue-counter :
      (now : ℕ) (a owner : Key) (s : Store) (n : ℕ)
      → read now (fencing_key parts a) s ≡ number n
      → ((issue r parts ttl_ms now a owner s).0 ≡ ok (token_for a owner (some (suc n))))
        × ((t : ℕ)
            → now ≤ t
            → read t (fencing_key parts a) (issue r parts ttl_ms now a owner s).1 ≡ (
                if ltb t (now + counter_seconds ttl_ms * 1_000)
                then some (integer (suc n))
                else none))
  unfolding issue assert_ri2_single_writer
  issue-counter now a owner s n h =
      let key = fencing_key parts a in
      let counts : (incr now key s).0 ≡ some (suc n) =
        incr_next now key s ∙ ap next h ∙ next-number n in
      let self = naming.0 a a ∙ (==_iff a a).1 refl in
      (
        rw (issue, counts, str_nonempty (suc n)) refl,
        λ t later.
            rw (issue, counts, read_expire _ _ _ _ t key later, self, read_incr now key s _ counts)
              refl,
      )

  -- An acquisition of a free key, and of a taken one.
  pub acquire-taken :
      (now : ℕ) (q owner : Key) (s : Store) (w : Value)
      → read now (lock_key parts q) s ≡ some w
      → acquire r parts ttl_ms now q owner s ≡ (ok none, s)
  unfolding acquire
  acquire-taken now q owner s w h =
      rw (acquire, set_nx_taken now (lock_key parts q) (word owner) ttl_ms s w h) refl

  abbrev pub locked : ℕ → Key → Key → Store → Store
  locked now q owner s = (set_nx now (lock_key parts q) (word owner) ttl_ms s).1

  pub acquire-issue :
      (now : ℕ) (q owner : Key) (s : Store)
      → read now (lock_key parts q) s ≡ none
      → acquire r parts ttl_ms now q owner s
        ≡ issue r parts ttl_ms now q owner (locked now q owner s)
  unfolding acquire
  acquire-issue now q owner s h =
      rw (acquire, set_nx_free now (lock_key parts q) (word owner) ttl_ms s h) refl

  pub read-locked :
      (now : ℕ) (q owner : Key) (s : Store) (t : ℕ) (j : Name)
      → read now (lock_key parts q) s ≡ none
      → now ≤ t
      → read t j (locked now q owner s) ≡ (
          if same (lock_key parts q) j
          then (if ltb t (now + ttl_ms) then some (word owner) else none)
          else read t j s)
  read-locked now q owner s t j h later =
      read_set_nx now (lock_key parts q) (word owner) ttl_ms s t j h later
