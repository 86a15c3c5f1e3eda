-- ===== src/Idempotency/Once.antt =====
-- The runs of an effect, and the callers that may still run it, under interleavings of callers
-- (`IdempotencyGuard.execute_once` in guard.py).
use voice_os.Prelude.{
  ℕ, zero, suc, ◌+◌, ◌*◌, Option-cases, inl, inr, ◌≤◌, ◌<◌, ◌≡◌, refl, All, leb, Key, Bool, true,
  false, ◌&&◌, Option, none, some, List, [], ◌∷◌, arith, ◌==◌, if◌then◌else◌, count, count-append,
}
use voice_os.Prelude.Dict.{lookup, lookup-insert}
use voice_os.Idempotency.{
  EffectResult, IdempotencyTable, Phase, idle, checked, won, failed, timed_out, ran, done, lost,
  Caller, advance_phase, advance, Turn, World, take_turn, run_turns, complete, sweep, go_on,
  clean_up,
}

abbrev is_won : Phase → Bool
is_won won = true
is_won _ = false

-- The callers that may still run the effect of the key.
abbrev pub winners : Key → List Caller → ℕ
winners k [] = 0
winners k (c ∷ cs) =
    let rest = winners k cs in if is_won c.phase && (c.key == k) then suc rest else rest

-- What a key allows: one run, once its row is there, if it is not expired before the time.
abbrev pub capacity : ℕ → Key → IdempotencyTable → ℕ
capacity b k t = elim (lookup k t) [ none ↦ 0 | some row ↦ if leb b row.expires_at then 1 else 0 ]

capacity-complete :
    (b : ℕ) (k tenant key : Key) (r : EffectResult) (t : IdempotencyTable)
    → capacity b k (complete tenant key r t) ≡ capacity b k t
unfolding complete
capacity-complete b k tenant key r t = elim (Option-cases (lookup key t)) [
  | inl e ↦ ground arith
  | inr (row, e) ↦ ground (arith, lookup-insert key k (record row { result = some r }) t)
]

-- Runs and winners, together with `n` others, stay within what the key allows.
advance_phase-within :
    (timeout b now n : ℕ) (o : Option EffectResult) (k : Key) (p : Phase) (c : Caller)
    (t : IdempotencyTable)
    → b < now + c.ttl_seconds * 1000
    → n + (if is_won p && (c.key == k) then 1 else 0) ≤ capacity b k t
    → let (p', t', ran_it) = advance_phase timeout now o p c t in
      n + (if ran_it && (c.key == k) then 1 else 0) + (if is_won p' && (c.key == k) then 1 else 0)
      ≤ capacity b k t'
unfolding advance_phase
advance_phase-within timeout b now n o k idle c t lives h = ground arith
advance_phase-within timeout b now n o k checked c t lives h = ground (
  arith,
  lookup-insert c.key k
      (record { tenant_id = c.tenant_id; result = none; expires_at = now + c.ttl_seconds * 1000 })
      t,
)
advance_phase-within timeout b now n o k won c t lives h = ground arith
advance_phase-within timeout b now n o k failed c t lives h = ground arith
advance_phase-within timeout b now n o k timed_out c t lives h = ground arith
advance_phase-within timeout b now n o k (ran r) c t lives h =
    ground (arith, capacity-complete b k c.tenant_id c.key r t)
advance_phase-within timeout b now n o k (done r) c t lives h = ground arith
advance_phase-within timeout b now n o k (lost d) c t lives h = ground arith

-- The keys of the callers are valid for longer than from a to b.
abbrev pub LongLived : ℕ → ℕ → List Caller → Type 0
LongLived a b cs = All (λ c. b < a + c.ttl_seconds * 1000) cs

LongLived-advance :
    (timeout a b i now : ℕ) (o : Option EffectResult) (cs : List Caller) (t : IdempotencyTable)
    → LongLived a b cs
    → LongLived a b (advance timeout i now o cs t).0
unfolding advance
LongLived-advance timeout a b i now o [] t h = tt
LongLived-advance timeout a b zero now o (c ∷ cs) t h = h
LongLived-advance timeout a b (suc i) now o (c ∷ cs) t h =
    (h.0, LongLived-advance timeout a b i now o cs t h.1)

advance-within :
    (timeout a b i now n : ℕ) (o : Option EffectResult) (k : Key) (cs : List Caller)
    (t : IdempotencyTable)
    → a ≤ now
    → LongLived a b cs
    → n + winners k cs ≤ capacity b k t
    → let (cs', t', ks) = advance timeout i now o cs t in
      n + count k ks + winners k cs' ≤ capacity b k t'
unfolding advance
advance-within timeout a b i now n o k [] t from lives h = ground arith
advance-within timeout a b zero now n o k (c ∷ cs) t from lives h =
    let later : b < now + c.ttl_seconds * 1000 = omega (arith, from, lives.0) in
    ground (arith, advance_phase-within timeout b now (n + winners k cs) o k c.phase c t later)
advance-within timeout a b (suc i) now n o k (c ∷ cs) t from lives h = ground (
  arith,
  advance-within timeout a b i now (n + (if is_won c.phase && (c.key == k) then 1 else 0)) o k cs t
      from lives.1,
)

-- The clean-up keeps the rows that are not expired at a later time.
capacity-sweep :
    (b now : ℕ) (k : Key) (t : IdempotencyTable)
    → now ≤ b
    → capacity b k t ≤ capacity b k (sweep now t)
unfolding sweep
capacity-sweep b now k [] h = omega arith
capacity-sweep b now k (e ∷ t) h = ground (arith, capacity-sweep b now k t h)

-- The runs of a key, and the callers that may still run it.
abbrev pub IsOnce : ℕ → World → Type 0
IsOnce b w = (k : Key) → count k w.executed + winners k w.callers ≤ capacity b k w.table

-- The time of a turn.
abbrev pub time_of : Turn → ℕ
time_of (go_on index now outcome) = now
time_of (clean_up now) = now

take_turn-IsOnce :
    (timeout a b : ℕ) (u : Turn) (w : World)
    → a ≤ time_of u
    → time_of u ≤ b
    → LongLived a b w.callers
    → IsOnce b w
    → LongLived a b (take_turn timeout u w).callers × IsOnce b (take_turn timeout u w)
unfolding take_turn
take_turn-IsOnce timeout a b (go_on index now outcome) w from to lives h =
    let (cs, t, ks) = advance timeout index now outcome w.callers w.table in
    (
      LongLived-advance timeout a b index now outcome w.callers w.table lives,
      λ k. ground (
        arith,
        advance-within timeout a b index now (count k w.executed) outcome k w.callers w.table from
            lives (h k),
        count-append k ks w.executed,
      ),
    )
take_turn-IsOnce timeout a b (clean_up now) w from to lives h =
    (lives, λ k. omega (arith, h k, capacity-sweep b now k w.table to))

-- The turns lie between two times.
abbrev pub IsBetween : ℕ → ℕ → List Turn → Type 0
IsBetween a b us = All (λ u. (a ≤ time_of u) × (time_of u ≤ b)) us

run_turns-IsOnce :
    (timeout a b : ℕ) (us : List Turn) (w : World)
    → IsBetween a b us
    → LongLived a b w.callers
    → IsOnce b w
    → IsOnce b (run_turns timeout us w)
run_turns-IsOnce timeout a b [] w spans lives h = h
run_turns-IsOnce timeout a b (u ∷ us) w ((from, to), spans) lives h =
    let (lives', h') = take_turn-IsOnce timeout a b u w from to lives h in
    run_turns-IsOnce timeout a b us (take_turn timeout u w) spans lives' h'

abbrev pub all_idle : List Caller → Bool
all_idle [] = true
all_idle (c ∷ cs) = elim c.phase [ idle ↦ all_idle cs | _ ↦ false ]

winners_idle : (k : Key) (cs : List Caller) → all_idle cs ≡ true → winners k cs ≡ 0
winners_idle k [] h = refl
winners_idle k (c ∷ cs) h = ground (arith, winners_idle k cs)

-- Any number of callers that have not begun, any keys, any table, any outcomes, and any schedule of
-- their turns and of clean-ups, in any order of the times, between a first and a last time that are
-- less than the time to live of every key apart: the effect of each key is run at most once.
pub effect_at_most_once :
    (timeout a b : ℕ) (us : List Turn) (cs : List Caller) (t : IdempotencyTable) (k : Key)
    → all_idle cs ≡ true
    → IsBetween a b us
    → LongLived a b cs
    → count k (run_turns timeout us (record { callers = cs; table = t; executed = [] })).executed
      ≤ 1
effect_at_most_once timeout a b us cs t k h spans lives =
    let w : World = record { callers = cs; table = t; executed = [] } in
    let once =
      run_turns-IsOnce timeout a b us w spans lives (λ j. ground (arith, winners_idle j cs h)) k in
    ground arith
