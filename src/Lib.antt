-- ===== src/Lib.antt =====
-- VoiceOS: a verification library for the core of the voice agent platform.
--
-- The program is a set of Python services over shared libraries. A call's audio comes through the
-- audio session manager; the conversation is driven by deterministic engines; models run on GPUs
-- that one scheduler hands out; services exchange events over streams, take locks in Redis, ask
-- the policy engine what is allowed and meter what is billed; effects that must not happen twice go
-- through the idempotency guard; calls to other services go through circuit
-- breakers; settlements and promises to pay are kept by the collections service, and what needs a
-- human waits at a desk. The modules follow these parts:
--
--   * Prelude: shared names, lists measured by native numbers, results, and dicts as association
--     lists in insertion order.
--   * Invariants: the guards RI-1 to RI-8 (src/libs/invariants/guards.py); Gpu.Ledger calls RI-8
--     before it deducts VRAM, Negotiation calls RI-5 for the source of an amount.
--   * Gpu: the scheduler (src/services/gpu_scheduler). Gpu.Ledger is VRAMLedger, Gpu.Admission
--     AdmissionController, Gpu.Failover FailoverManager, Gpu.Requests PriorityQueue, Gpu.Pool
--     ModelPool, and Gpu.Scheduler GPUScheduler, which composes them. Their children hold the
--     proofs: Accounting (the books), BestFit, Tokens, Drained, Order, Leases, Warm, Grants,
--     Requests and Failures.
--   * Breaker: CircuitBreaker and its registry (src/libs/circuit_breaker/breaker.py).
--   * Idempotency: execute_once of src/libs/idempotency/guard.py as the stretches between its
--     awaits, over the table of src/libs/repositories/idempotency.py, the clean-up of
--     scripts/db/migrations/005_idempotency_keys.sql, and the tracker of
--     src/libs/idempotency/fencing.py.
--   * Settlement: SettlementService (src/services/collections/settlement.py) over the statements
--     of src/libs/repositories/settlement.py.
--   * Audio: AudioSession, AdaptiveJitterBuffer, PacketLossConcealer and SessionClock
--     (src/services/audio_session_manager).
--   * Conversation: the state machine of src/engines/conversation_state.
--   * Negotiation: src/engines/negotiation and Money of src/libs/contracts/primitives.py.
--   * Limiter: RateLimiter (src/libs/redis_client/rate_limiter.py) with its sliding window, over the
--     sorted sets of the emulation in tests/fixtures/redis.py.
--   * Vad: VADEngine, EndpointDetector, BargeinDetector and BackchannelDiscriminator
--     (src/services/vad_endpointing); Vad.Service is VADEndpointingService, which composes them and
--     decides between a barge-in and a backchannel.
--   * Redis: the commands as an interface with their documented behaviour; Redis.Lock is
--     DistributedLock (src/libs/redis_client/lock.py), and its child Spec the abstract lock that it
--     implements.
--   * Policy: rules, sets and decisions (src/services/policy_engine); Policy.Packs and its child the
--     eight packs of rules, Policy.Engine PolicyEngine and BreakGlassPolicy, Policy.Service
--     PolicyEngineService.
--   * Billing: usage, rate card and tiers (src/services/billing, src/services/metering,
--     src/libs/repositories/billing.py); Billing.Invoices the subscriptions and invoices,
--     Billing.Limits the entitlements and the usage counters, which ask Policy.Service.
--   * Events: the consumer of the event bus (src/libs/event_bus), over the streams of the emulation
--     in tests/fixtures/redis.py.
--   * Hitl: the items and statements of the human-in-the-loop queue
--     (src/libs/repositories/hitl.py); Hitl.Desk is HITLQueue, SLAEnforcer and OverrideLogger
--     (src/services/hitl).
--   * Promises: instalments (src/services/collections/emi_schedule.py and its repository);
--     Promises.Service is PromiseToPayService with its repository, which asks Policy.Engine.
--   * Queues: BoundedQueue, BackpressureMonitor and LoadShedder (src/libs/concurrency).
--   * Examples: each theorem of the list below at a concrete input.
--
-- Conventions. A class is a record and a method is a function from its state to its result and the
-- new state; what raises is a value. Strings that are only compared are numbers (Key). Times are
-- whole milliseconds (microseconds for RI-1 and Limiter), fractions are ratios of two numbers, and
-- `uuid4` and the clocks are arguments; so are the VAD model, the handlers of events, the
-- repository of active rules and the commands of Redis. A method under a lock is one step, and so
-- is each statement of the idempotency guard; what runs concurrently is a sequence of such steps in
-- any order, and a VRAM request has what other threads do between its two as an argument. A
-- settlement request, the creation of a promise, a dequeue, an invoice and the acquisition of a
-- lock are several statements or commands, and one step each here: their theorems are about calls
-- one after the other. Two loops run on fuel: `pop_ready` has one turn for each buffered frame and
-- one for the end, which is enough because every turn but the last takes a frame out;
-- `process_windows` has one for each buffered byte and one more, because every turn but the last
-- takes a window out. All else recurses on the list of events or on the data.
--
-- Not modelled: metrics, logs and message texts; the rounding of floats; the service facades,
-- the transport, the model runtimes, cryptography, the text heuristics of the other engines, and
-- the CRUD services over the repositories. Of the event bus the publisher and the replay, of billing
-- the payment gateways, and of the queues the calls that wait.
pub mod Prelude
pub mod Invariants
pub mod Gpu
pub mod Breaker
pub mod Idempotency
pub mod Settlement
pub mod Audio
pub mod Conversation
pub mod Negotiation
pub mod Limiter
pub mod Vad
pub mod Redis
pub mod Policy
pub mod Billing
pub mod Events
pub mod Hitl
pub mod Promises
pub mod Queues
pub mod Examples
