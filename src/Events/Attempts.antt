-- ===== src/Events/Attempts.antt =====
-- What the attempts at an event (consumer.py) come to: runs of its handlers, one after the other.
use mathlib.Core.Path.{subst}
use voice_os.Prelude.{
  sym, ℕ, zero, suc, ◌<◌, ◌-◌, ◌≡◌, ◌≢◌, ◌⊎◌, refl, ◌∙◌, Key, Bool, true, false, some, List, [],
  ◌∷◌, ◌++◌, ltb, ok, Result, arith, Bool-cases, inl, inr,
}
use voice_os.Events.{BusError, Consumer, run_handlers, attempts, delay, pause}

zero-cases : (n : ℕ) → (n ≡ 0) ⊎ ((k : ℕ) × (n ≡ suc k))
zero-cases zero = inl refl
zero-cases (suc k) = inr (k, refl)

module _ {W : Type 0} (handle : Key → Key → W → Bool × W) where
  -- The handlers run one after the other until one raises: from a world, does none raise, to a
  -- world.
  pub data Runs (payload : Key) : List Key → W → Bool → W → Type 0 where
    finished : {w : W} → Runs payload [] w true w
    raised :
        {h : Key} {hs : List Key} {w : W}
        → (handle h payload w).0 ≡ false
        → Runs payload (h ∷ hs) w false (handle h payload w).1
    passed :
        {h : Key} {hs : List Key} {w w' : W} {fine : Bool}
        → (handle h payload w).0 ≡ true
        → Runs payload hs (handle h payload w).1 fine w'
        → Runs payload (h ∷ hs) w fine w'

  -- So many attempts in a row in which a handler raises.
  pub data Fails (payload : Key) (hs : List Key) : ℕ → W → W → Type 0 where
    untried : {w : W} → Fails payload hs 0 w w
    failed :
        {n : ℕ} {w w1 w2 : W}
        → Runs payload hs w false w1
        → Fails payload hs n w1 w2
        → Fails payload hs (suc n) w w2

  run_handlers-Runs :
      (hs : List Key) (payload : Key) (w : W)
      → let r = run_handlers handle hs payload w in Runs payload hs w r.0 r.1
  unfolding run_handlers
  run_handlers-Runs [] payload w = finished
  run_handlers-Runs (h ∷ hs) payload w = elim (Bool-cases (handle h payload w).0) [
    | inl fine ↦
        rw (run_handlers, fine) (passed fine (run_handlers-Runs hs payload (handle h payload w).1))
    | inr bad ↦ rw (run_handlers, bad) (raised bad)
  ]

  -- What attempts and their sleeps leave alone.
  abbrev pub SameBut : Consumer W → Consumer W → Type 0
  SameBut c' c =
      (c'.stream ≡ c.stream)
      × (c'.seen ≡ c.seen)
      × (c'.dlq ≡ c.dlq)
      × (c'.max_retries ≡ c.max_retries)
      × (c'.backoff_seconds ≡ c.backoff_seconds)

  delay-some : (attempt : ℕ) (ds : List ℕ) → ds ≢ [] → (d : ℕ) × (delay attempt ds ≡ some d)
  unfolding delay
  delay-some attempt [] n = absurd (n refl)
  delay-some attempt (d ∷ []) n = (d, refl)
  delay-some attempt (d ∷ d2 ∷ ds) n = elim (zero-cases (attempt - 1)) [
    | inl e ↦ (d, rw (delay, e) refl)
    | inr (k, e) ↦
        let (x, found) = delay-some (suc k) (d2 ∷ ds) (λ q. cc) in (x, rw (delay, e) found)
  ]

  pause-some :
      (attempt : ℕ) (c : Consumer W)
      → c.backoff_seconds ≢ []
      → (c' : Consumer W) × (pause attempt c ≡ some c') × (c'.world ≡ c.world) × SameBut c' c
  unfolding pause
  pause-some attempt c n = elim (Bool-cases (ltb attempt c.max_retries)) [
    | inl more ↦
        let (d, found) = delay-some attempt c.backoff_seconds n in
        (
          record c { slept = c.slept ++ (d ∷ []) },
          rw (pause, more, found) refl,
          refl,
          (refl, refl, refl, refl, refl),
        )
    | inr last ↦ (c, rw (pause, last) refl, refl, (refl, refl, refl, refl, refl))
  ]

  SameBut-trans : (a b c : Consumer W) → SameBut a b → SameBut b c → SameBut a c
  SameBut-trans a b c (p1, p2, p3, p4, p5) (q1, q2, q3, q4, q5) =
      (p1 ∙ q1, p2 ∙ q2, p3 ∙ q3, p4 ∙ q4, p5 ∙ q5)

  -- How the attempts end.
  abbrev pub Ends : ℕ → List Key → Key → W → Result BusError Bool → W → Type 0
  Ends left hs payload w out w' =
      ((out ≡ ok true)
        × (n : ℕ) × (w1 : W) × (n < left)
        × Fails payload hs n w w1
        × Runs payload hs w1 true w')
      ⊎ ((out ≡ ok false) × Fails payload hs left w w')

  attempts-good :
      (left attempt : ℕ) (hs : List Key) (payload : Key) (c : Consumer W)
      → (run_handlers handle hs payload c.world).0 ≡ true
      → attempts handle (suc left) attempt hs payload c
        ≡ (ok true, record c { world = (run_handlers handle hs payload c.world).1 })
  unfolding attempts
  attempts-good left attempt hs payload c e = rw (attempts, e) refl

  attempts-bad :
      (left attempt : ℕ) (hs : List Key) (payload : Key) (c c' : Consumer W)
      → (run_handlers handle hs payload c.world).0 ≡ false
      → pause attempt (record c { world = (run_handlers handle hs payload c.world).1 }) ≡ some c'
      → attempts handle (suc left) attempt hs payload c
        ≡ attempts handle left (suc attempt) hs payload c'
  unfolding attempts
  attempts-bad left attempt hs payload c c' e p = rw (attempts, e, p) refl

  pub attempts-Ends :
      (left attempt : ℕ) (hs : List Key) (payload : Key) (c : Consumer W)
      → c.backoff_seconds ≢ []
      → let (out, c') = attempts handle left attempt hs payload c in
        SameBut c' c × Ends left hs payload c.world out c'.world
  unfolding attempts
  attempts-Ends zero attempt hs payload c n = ((refl, refl, refl, refl, refl), inr (refl, untried))
  attempts-Ends (suc left) attempt hs payload c n =
      let r = run_handlers handle hs payload c.world in
      let ran = run_handlers-Runs hs payload c.world in
      elim (Bool-cases r.0) [
        | inl e ↦
            let good : Runs payload hs c.world true r.1 =
              subst (λ b. Runs payload hs c.world b r.1) e ran in
            rw (attempts-good left attempt hs payload c e)
              ((refl, refl, refl, refl, refl), inl (refl, 0, c.world, omega arith, untried, good))
        | inr e ↦
            let bad : Runs payload hs c.world false r.1 =
              subst (λ b. Runs payload hs c.world b r.1) e ran in
            let tried : Consumer W = record c { world = r.1 } in
            let (c1, paused, world, same) = pause-some attempt tried n in
            let (rest, ends) =
              attempts-Ends left (suc attempt) hs payload c1 (λ q. n (sym same.4 ∙ q)) in
            let c2 = (attempts handle left (suc attempt) hs payload c1).1 in
            let from : Ends left hs payload r.1 (attempts handle left (suc attempt) hs payload c1).0
                c2.world =
              subst
                (λ w.
                  Ends left hs payload w (attempts handle left (suc attempt) hs payload c1).0
                    c2.world)
                world ends in
            rw (attempts-bad left attempt hs payload c c1 e paused) (
              SameBut-trans c2 c1 tried rest same,
              elim from [
                | inl (o, k, w1, below, fs, good) ↦
                    inl (o, suc k, w1, omega arith, failed bad fs, good)
                | inr (o, fs) ↦ inr (o, failed bad fs)
              ],
            )
      ]
