-- ===== src/Examples/Deliveries.antt =====
-- The theorems about the consumer (consumer.py): a handler that fails for one payload.
use voice_os.Prelude.{
  ◌≡◌, refl, Key, Bool, true, false, none, some, List, [], ◌∷◌, ◌==◌, if◌then◌else◌, contains, ok,
  err,
}
use voice_os.Events.{Envelope, Fields, Consumer, value_error, process_entry, poll_once}
use voice_os.Events.Delivery.{Treated, entry_settles}
use voice_os.Events.Poison.{poison_blocks}

-- The world is the payloads that were handled; the payload 13 makes the handler raise.
abbrev keep : Key → Key → List Key → Bool × List Key
keep h payload w = if payload == 13 then (false, w) else (true, payload ∷ w)

abbrev event : Key → Key → Envelope
event id payload = record { event_id = id; event_type = 1; payload = payload }

abbrev reading : List Fields → Consumer (List Key)
reading entries = record {
  routes = (1, 100 ∷ []) ∷ [];
  seen = 70 ∷ [];
  max_retries = 3;
  backoff_seconds = 1 ∷ 2 ∷ 4 ∷ [];
  slept = [];
  stream = record { entries = entries; cursor = 0; pending = [] };
  dlq = [];
  world = [];
}

abbrev waits_for_one : Consumer (List Key)
waits_for_one =
    let c = reading [] in record c { stream = record c.stream { pending = (5, 1) ∷ [] } }

entry_settles_example :
    let (out, c') = process_entry keep 5 (some (event 71 13)) waits_for_one in
    (out ≡ ok tt)
    × (c'.stream ≡ record waits_for_one.stream { pending = [] })
    × (contains 71 c'.seen ≡ true)
    × Treated keep 5 (event 71 13) waits_for_one c'
entry_settles_example = entry_settles keep 5 (event 71 13) waits_for_one (λ e. cc)

poison_blocks_example :
    let c = reading (some (event 71 10) ∷ none ∷ some (event 72 10) ∷ []) in
    ((poll_once keep 10 c).0 ≡ err value_error)
    × ((poll_once keep 10 c).1.stream
        ≡ record c.stream { pending = (1, 1) ∷ (2, 1) ∷ []; cursor = 3 })
poison_blocks_example =
    poison_blocks keep 10 (event 71 10 ∷ []) (some (event 72 10) ∷ [])
      (reading (some (event 71 10) ∷ none ∷ some (event 72 10) ∷ [])) (λ e. cc) tt refl
