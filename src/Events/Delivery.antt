-- ===== src/Events/Delivery.antt =====
-- What the consumer (consumer.py) does with an entry, and with all of a poll.
use mathlib.Core.List.{append-nil}
use voice_os.Prelude.{
  sym, ==_iff, ℕ, zero, suc, ◌+◌, ◌<◌, ◌≡◌, ◌≢◌, ◌⊎◌, refl, ap, ◌∙◌, Key, Bool, true, false, Option,
  none, some, List, [], ◌∷◌, ◌++◌, if◌then◌else◌, length, contains, ok, err, Result, All, arith,
  Bool-cases, inl, inr,
}
use voice_os.Prelude.Dict.{Dict, lookup, insert, erase}
use voice_os.Events.{
  BusError, Envelope, Fields, Consumer, numbered, deliver, xack, handlers_for, is_duplicate, ack,
  route_to_dlq, attempts, process_entry, DeadLetter,
}
use voice_os.Events.Attempts.{Runs, Fails, attempts-Ends}

-- The entries of a delivery that are waiting, from an identifier on.
abbrev pub waiting : ℕ → ℕ → Dict ℕ
waiting i zero = []
waiting i (suc n) = (i, 1) ∷ waiting (suc i) n

-- What is pending was delivered before the place i.
abbrev pub IsBefore : ℕ → Dict ℕ → Type 0
IsBefore i pending = All (λ e. e.0 < i) pending

insert-before : (i v : ℕ) (p : Dict ℕ) → IsBefore i p → insert i v p ≡ p ++ ((i, v) ∷ [])
insert-before i v [] h = refl
insert-before i v (e ∷ p) h = ground (arith, insert-before i v p h.1)

lookup-before : (i : ℕ) (p : Dict ℕ) → IsBefore i p → lookup i p ≡ none
lookup-before i [] h = refl
lookup-before i (e ∷ p) h = ground (arith, lookup-before i p h.1)

pub erase-before :
    (i v : ℕ) (p rest : Dict ℕ) → IsBefore i p → erase i (p ++ ((i, v) ∷ rest)) ≡ p ++ rest
erase-before i v [] rest h = ground arith
erase-before i v (e ∷ p) rest h = ground (arith, erase-before i v p rest h.1)

pub IsBefore-append : (i v : ℕ) (p : Dict ℕ) → IsBefore i p → IsBefore (suc i) (p ++ ((i, v) ∷ []))
IsBefore-append i v [] h = (omega arith, tt)
IsBefore-append i v (e ∷ p) h = (omega (arith, h.0), IsBefore-append i v p h.1)

append-cons_assoc : (p rest : Dict ℕ) (e : Key × ℕ) → (p ++ (e ∷ [])) ++ rest ≡ p ++ (e ∷ rest)
append-cons_assoc [] rest e = refl
append-cons_assoc (x ∷ p) rest e = ap (λ q. x ∷ q) (append-cons_assoc p rest e)

deliver_new :
    (i : ℕ) (f : Fields) (es : Dict Fields) (p : Dict ℕ)
    → lookup i p ≡ none
    → deliver ((i, f) ∷ es) p ≡ deliver es (insert i 1 p)
unfolding deliver
deliver_new i f es p h = ap (λ o. deliver es (insert i (times o) p)) h
  where
    times : Option ℕ → ℕ
    times o = elim o [ none ↦ 1 | some n ↦ n + 1 ]

-- New entries wait behind what is pending.
pub deliver-waiting :
    (fs : List Fields) (i : ℕ) (p : Dict ℕ)
    → IsBefore i p
    → deliver (numbered i fs) p ≡ p ++ waiting i (length fs)
unfolding numbered deliver
deliver-waiting [] i p h = sym (append-nil p)
deliver-waiting (f ∷ fs) i p h =
    deliver_new i f (numbered (suc i) fs) p (lookup-before i p h)
    ∙ ap (deliver (numbered (suc i) fs)) (insert-before i 1 p h)
    ∙ deliver-waiting fs (suc i) (p ++ ((i, 1) ∷ [])) (IsBefore-append i 1 p h)
    ∙ append-cons_assoc p (waiting (suc i) (length fs)) (i, 1)

-- The handlers of a type of events.
abbrev pub subscribed : Key → Dict (List Key) → List Key
subscribed event_type routes = elim (lookup event_type routes) [ none ↦ [] | some hs ↦ hs ]

module _ {W : Type 0} (handle : Key → Key → W → Bool × W) where
  is_duplicate_old :
      (k : Key) (c : Consumer W) → contains k c.seen ≡ true → is_duplicate k c ≡ (true, c)
  unfolding is_duplicate
  is_duplicate_old k c h = rw (is_duplicate, h) refl

  is_duplicate_new :
      (k : Key) (c : Consumer W)
      → contains k c.seen ≡ false
      → is_duplicate k c ≡ (false, record c { seen = k ∷ c.seen })
  unfolding is_duplicate
  is_duplicate_new k c h = rw (is_duplicate, h) refl

  abbrev marked : Key → Consumer W → Consumer W
  marked k c = record c { seen = k ∷ c.seen }

  -- The attempts at an event that is new.
  abbrev pub tried : Envelope → Consumer W → Result BusError Bool × Consumer W
  tried e c =
      attempts handle c.max_retries 1 (subscribed e.event_type c.routes) e.payload
        (marked e.event_id c)

  abbrev letter : ℕ → Envelope → Consumer W → DeadLetter
  letter id e c = record { original_id = id; fields = some e; attempt_count = c.max_retries }

  process_entry-old :
      (id : ℕ) (e : Envelope) (c : Consumer W)
      → contains e.event_id c.seen ≡ true
      → process_entry handle id (some e) c ≡ (ok tt, record c { stream = xack id c.stream })
  unfolding process_entry ack
  process_entry-old id e c h = rw (process_entry, is_duplicate_old e.event_id c h) refl

  -- An entry once its attempts are over.
  abbrev closed :
      ℕ
      → Envelope
      → Consumer W
      → Result BusError Bool × Consumer W
      → Result BusError (Unit {0}) × Consumer W
  closed id e c (out, c1) = elim out [
    | err x ↦ (err x, c1)
    | ok fine ↦ (ok tt, ack id (if fine then c1 else route_to_dlq id (some e) c.max_retries c1))
  ]

  abbrev checked : ℕ → Envelope → Bool × Consumer W → Result BusError (Unit {0}) × Consumer W
  checked id e (duplicate, c) =
      let rest =
        closed id e c
          (attempts handle c.max_retries 1 (subscribed e.event_type c.routes) e.payload c) in
      if duplicate then (ok tt, ack id c) else rest

  process_entry-checked :
      (id : ℕ) (e : Envelope) (c : Consumer W)
      → process_entry handle id (some e) c ≡ checked id e (is_duplicate e.event_id c)
  unfolding process_entry handlers_for
  process_entry-checked id e c = refl

  process_entry-new :
      (id : ℕ) (e : Envelope) (c : Consumer W) (fine : Bool)
      → contains e.event_id c.seen ≡ false
      → (tried e c).0 ≡ ok fine
      → process_entry handle id (some e) c ≡ (
        ok tt,
        ack id
            (if fine then (tried e c).1 else route_to_dlq id (some e) c.max_retries (tried e c).1),
      )
  process_entry-new id e c fine h out =
      process_entry-checked id e c
      ∙ ap (checked id e) (is_duplicate_new e.event_id c h)
      ∙ ap (λ (o : Result BusError Bool). closed id e c (o, (tried e c).1)) out

  -- What is done with the event of an entry: nothing if it was marked; else attempts, until one
  -- succeeds, or as many as `max_retries` that fail, with one dead letter.
  abbrev pub Treated : ℕ → Envelope → Consumer W → Consumer W → Type 0
  Treated id e c c' =
      let hs = subscribed e.event_type c.routes in
      ((contains e.event_id c.seen ≡ true) × (c'.world ≡ c.world) × (c'.dlq ≡ c.dlq))
      ⊎ ((contains e.event_id c.seen ≡ false)
          × (n : ℕ) × (w : W) × (n < c.max_retries)
          × Fails handle e.payload hs n c.world w
          × Runs handle e.payload hs w true c'.world
          × (c'.dlq ≡ c.dlq))
      ⊎ ((contains e.event_id c.seen ≡ false)
          × Fails handle e.payload hs c.max_retries c.world c'.world
          × (c'.dlq
              ≡ c.dlq
                ++ (record { original_id = id; fields = some e; attempt_count = c.max_retries }
                    ∷ [])))

  abbrev Settled : ℕ → Envelope → Consumer W → Result BusError (Unit {0}) × Consumer W → Type 0
  Settled id e c (out, c') =
      (out ≡ ok tt)
      × (c'.stream ≡ record c.stream { pending = erase id c.stream.pending })
      × (contains e.event_id c'.seen ≡ true)
      × (c'.backoff_seconds ≡ c.backoff_seconds)
      × Treated id e c c'

  entry-Settled :
      (id : ℕ) (e : Envelope) (c : Consumer W)
      → c.backoff_seconds ≢ []
      → Settled id e c (process_entry handle id (some e) c)
  unfolding ack route_to_dlq xack
  entry-Settled id e c n =
      let ((stream, seen, letters, _, backoff), ends) =
        attempts-Ends handle c.max_retries 1 (subscribed e.event_type c.routes) e.payload
          (marked e.event_id c) n in
      let known : contains e.event_id (tried e c).1.seen ≡ true =
        rw (seen, (==_iff e.event_id e.event_id).1 refl) refl in
      elim (Bool-cases (contains e.event_id c.seen)) [
        | inl old ↦ rw (process_entry-old id e c old) (refl, refl, old, refl, inl (old, refl, refl))
        | inr new ↦ elim ends [
          | inl (out, k, w, below, fs, good) ↦ rw (process_entry-new id e c true new out) (
            refl,
            ap (xack id) stream,
            known,
            backoff,
            inr (inl (new, k, w, below, fs, good, letters)),
          )
          | inr (out, fs) ↦ rw (process_entry-new id e c false new out) (
            refl,
            ap (xack id) stream,
            known,
            backoff,
            inr (inr (new, fs, ap (λ (l : List DeadLetter). l ++ (letter id e c ∷ [])) letters)),
          )
        ]
      ]

  -- With at least one time of backoff, an entry that can be decoded is settled: nothing is raised,
  -- it is taken off the pending ones and its event is marked. An event that was marked changes
  -- nothing else. For one that was not, the handlers are run one after the other, again after an
  -- attempt in which one raises: after fewer failures than `max_retries` an attempt succeeds, and no
  -- dead letter is added; or `max_retries` attempts fail, and one is added with that number.
  pub entry_settles :
      (id : ℕ) (e : Envelope) (c : Consumer W)
      → c.backoff_seconds ≢ []
      → let (out, c') = process_entry handle id (some e) c in
        (out ≡ ok tt)
        × (c'.stream ≡ record c.stream { pending = erase id c.stream.pending })
        × (contains e.event_id c'.seen ≡ true)
        × Treated id e c c'
  entry_settles id e c n =
      let (fine, stream, known, _, treated) = entry-Settled id e c n in
      (fine, stream, known, treated)

  pub process_entry-ok :
      (id : ℕ) (e : Envelope) (c : Consumer W)
      → c.backoff_seconds ≢ []
      → let (out, c') = process_entry handle id (some e) c in
        (out ≡ ok tt) × (c'.stream ≡ xack id c.stream) × (c'.backoff_seconds ≡ c.backoff_seconds)
  unfolding xack
  process_entry-ok id e c n =
      let (fine, stream, _, backoff, _) = entry-Settled id e c n in (fine, stream, backoff)
