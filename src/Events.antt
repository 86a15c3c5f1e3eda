-- ===== src/Events.antt =====
-- The consumer of the event bus (src/libs/event_bus: consumer.py, bus.py, dedup.py, dlq.py and
-- router.py), over the streams of the emulation in tests/fixtures/redis.py. A handler is named by a
-- number; what it does to the world, and whether it raises, is the argument `handle`. The marks of the
-- deduplicator are those of the last 24 hours. The identifiers of the entries are their places.
pub mod Attempts
pub mod Delivery
pub mod Poison
use voice_os.Prelude.{
  ℕ, zero, suc, ◌+◌, ◌-◌, Key, Bool, true, false, not, Option, none, some, List, [], ◌∷◌, ◌++◌, ltb,
  leb, ◌==◌, if◌then◌else◌, min, length, contains, Result, ok, err,
}
use voice_os.Prelude.Dict.{Dict, lookup, insert, erase}

pub record Envelope : Type 0 where
  pub event_id : Key
  pub event_type : Key
  pub payload : Key

-- The fields of an entry; `none` where decode_envelope raises.
abbrev pub Fields : Type 0
Fields = Option Envelope

pub record DeadLetter : Type 0 where
  pub original_id : ℕ
  pub fields : Fields
  pub attempt_count : ℕ

-- A stream with one group: the entries, how many were delivered, and what is not acknowledged, with
-- how often it was delivered.
pub record Stream : Type 0 where
  pub entries : List Fields
  pub cursor : ℕ
  pub pending : Dict ℕ

pub record Consumer (W : Type 0) : Type 0 where
  pub routes : Dict (List Key)
  pub seen : List Key
  pub max_retries : ℕ
  pub backoff_seconds : List ℕ
  pub slept : List ℕ
  pub stream : Stream
  pub dlq : List DeadLetter
  pub world : W

pub data BusError : Type 0 where
  value_error index_error : BusError

-- `entries[cursor:][:count]`, with the identifiers.
unfoldable pub numbered : ℕ → List Fields → Dict Fields
numbered i [] = []
numbered i (f ∷ fs) = (i, f) ∷ numbered (suc i) fs

abbrev pub drop : ℕ → List Fields → List Fields
drop zero fs = fs
drop (suc n) [] = []
drop (suc n) (f ∷ fs) = drop n fs

abbrev pub take : ℕ → List Fields → List Fields
take zero fs = []
take (suc n) [] = []
take (suc n) (f ∷ fs) = f ∷ take n fs

unfoldable pub deliver : Dict Fields → Dict ℕ → Dict ℕ
deliver [] pending = pending
deliver (e ∷ es) pending =
    deliver es (insert e.0 (elim (lookup e.0 pending) [ none ↦ 1 | some n ↦ n + 1 ]) pending)

unfoldable pub xreadgroup : ℕ → Stream → Dict Fields × Stream
unfolding numbered deliver
xreadgroup count s =
    let new = numbered s.cursor (take count (drop s.cursor s.entries)) in
    (new, record s { pending = deliver new s.pending; cursor = s.cursor + length new })

unfoldable pub xack : ℕ → Stream → Stream
xack id s = record s { pending = erase id s.pending }

-- EventRouter
unfoldable pub handlers_for : Key → Dict (List Key) → List Key
handlers_for event_type routes = elim (lookup event_type routes) [ none ↦ [] | some hs ↦ hs ]

unfoldable pub register : Key → Key → Dict (List Key) → Dict (List Key)
unfolding handlers_for
register event_type handler routes =
    insert event_type (handlers_for event_type routes ++ (handler ∷ [])) routes

-- `backoff[min(attempt - 1, len - 1)]`: an empty tuple has no place -1.
unfoldable pub delay : ℕ → List ℕ → Option ℕ
delay attempt [] = none
delay attempt (d ∷ []) = some d
delay attempt (d ∷ ds) = elim (attempt - 1) [ zero ↦ some d | suc k ↦ delay (suc k) ds ]

module _ {W : Type 0} where
  unfoldable pub subscribe : Key → Key → Consumer W → Consumer W
  unfolding register
  subscribe event_type handler c = record c { routes = register event_type handler c.routes }

  -- EventDeduplicator.is_duplicate: it marks the event.
  unfoldable pub is_duplicate : Key → Consumer W → Bool × Consumer W
  is_duplicate event_id c =
      if contains event_id c.seen then (true, c) else (false, record c { seen = event_id ∷ c.seen })

  unfoldable pub ack : ℕ → Consumer W → Consumer W
  unfolding xack
  ack id c = record c { stream = xack id c.stream }

  -- The sleep after a failed attempt, if another one follows; `none` for the index error.
  unfoldable pub pause : ℕ → Consumer W → Option (Consumer W)
  unfolding delay
  pause attempt c =
      if ltb attempt c.max_retries
      then elim (delay attempt c.backoff_seconds) [
        | none ↦ none
        | some d ↦ some (record c { slept = c.slept ++ (d ∷ []) })
      ]
      else some c

  unfoldable pub route_to_dlq : ℕ → Fields → ℕ → Consumer W → Consumer W
  route_to_dlq id fields attempt_count c = record c {
    dlq =
        c.dlq ++ (record { original_id = id; fields = fields; attempt_count = attempt_count } ∷ []);
  }

module _ {W : Type 0} (handle : Key → Key → W → Bool × W) where
  -- The handlers in turn; false as soon as one raises.
  unfoldable pub run_handlers : List Key → Key → W → Bool × W
  run_handlers [] payload w = (true, w)
  run_handlers (h ∷ hs) payload w =
      let (fine, w') = handle h payload w in
      let rest = run_handlers hs payload w' in if fine then rest else (false, w')

  -- The attempts that are left, from the number of the next one: did one succeed.
  unfoldable pub attempts : ℕ → ℕ → List Key → Key → Consumer W → Result BusError Bool × Consumer W
  unfolding run_handlers pause
  attempts zero attempt hs payload c = (ok false, c)
  attempts (suc left) attempt hs payload c =
      let (fine, w) = run_handlers hs payload c.world in
      let tried : Consumer W = record c { world = w } in
      elim fine [
        | true ↦ (ok true, tried)
        | false ↦ elim (pause attempt tried) [
          | none ↦ (err index_error, tried)
          | some waited ↦ attempts left (suc attempt) hs payload waited
        ]
      ]

  unfoldable pub process_entry : ℕ → Fields → Consumer W → Result BusError (Unit {0}) × Consumer W
  unfolding is_duplicate handlers_for attempts ack route_to_dlq
  process_entry id none c = (err value_error, c)
  process_entry id (some envelope) c =
      let (duplicate, marked) = is_duplicate envelope.event_id c in
      let (out, tried) =
        attempts marked.max_retries 1 (handlers_for envelope.event_type marked.routes)
          envelope.payload marked in
      let settled : Result BusError (Unit {0}) × Consumer W = elim out [
        | err x ↦ (err x, tried)
        | ok fine ↦ (
          ok tt,
          ack id (if fine then tried else route_to_dlq id (some envelope) marked.max_retries tried),
        )
      ] in
      if duplicate then (ok tt, ack id marked) else settled

  -- The loop of poll_once: it counts what it processed, and an error ends it.
  unfoldable pub process_all : Dict Fields → ℕ → Consumer W → Result BusError ℕ × Consumer W
  unfolding process_entry
  process_all [] processed c = (ok processed, c)
  process_all (e ∷ es) processed c =
      let (out, c') = process_entry e.0 e.1 c in
      let rest = process_all es (processed + 1) c' in elim out [ err x ↦ (err x, c') | ok _ ↦ rest ]

  unfoldable pub poll_once : ℕ → Consumer W → Result BusError ℕ × Consumer W
  unfolding xreadgroup process_all
  poll_once count c =
      let (entries, stream) = xreadgroup count c.stream in
      process_all entries 0 (record c { stream = stream })

  -- The loop of start; each pass has a mark if stop() was called during it.
  unfoldable pub start : List Bool → ℕ → Consumer W → Result BusError (Unit {0}) × Consumer W
  unfolding poll_once
  start [] count c = (ok tt, c)
  start (stopped ∷ passes) count c =
      let (out, c') = poll_once count c in
      let rest = start passes count c' in
      elim out [ err x ↦ (err x, c') | ok _ ↦ if stopped then (ok tt, c') else rest ]
