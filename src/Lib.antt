-- ===== src/Lib.antt =====
-- Verification of the Scout-Off backend: the parts of the TypeScript service that decide who may act,
-- what is stored and what is sent.
--
-- Parts and files. Each part is a module with the state, its operations as functions of the state and
-- the time, and child modules for what is proved. Time, randomness, the network and hash functions
-- are arguments.
--
-- - Prelude: the shared names, tests on numbers, lists and integers.
-- - Breaker: src/utils/circuitBreaker.ts. Breaker.Plain is `CircuitBreaker`, Breaker.Retrying is
--   `RetryingCircuitBreaker`. `admit` is what `execute` does before it calls the function, `settle`
--   what it does afterwards, so that calls can overlap.
-- - Semaphore: src/utils/concurrency.ts, with `withConcurrencyLimit` in Semaphore.Limit. Callers and
--   releases are steps of a relation, in any order.
-- - RateLimit: src/middleware/inMemoryRateLimitStore.ts; RateLimit.Lockout is
--   src/middleware/authFailureLockout.ts over that store.
-- - MultiSig: MultiSig.Table is src/db/repositories/adminActions.ts, MultiSig.Execution the contract
--   operations of src/services/adminMultiSig.ts, with bulk imports in MultiSig.Execution.Bulk, and
--   MultiSig.Approval its proposals and approvals. An approval runs as one step; in
--   MultiSig.Approval.Interleaved it runs from await to await, and approvals interleave.
-- - AuditChain: src/utils/hashChain.ts, `insertAuditLog` of src/db/repositories/audit.ts and
--   src/utils/auditVerify.ts, with the newest checkpoint and the check of its archive as arguments.
-- - Idempotency: src/db/repositories/idempotency.ts and src/middleware/idempotency.ts, from the first
--   read of the table to the decision, and what a waiting request is answered.
-- - DeadLetters: DeadLetters.Table is src/db/repositories/webhookDeadLetters.ts, DeadLetters.Job one
--   sweep of src/services/webhookDeadLetterJob.ts.
-- - Broadcast: src/services/eventBroadcaster.ts.
-- - Cache: src/services/inMemoryCacheStore.ts, with the `Map` as a list in the order of insertion.
-- - Ordering: src/services/eventOrdering.ts, the grouping by transaction, with the comparison and the
--   sort in Ordering.Sorting, and the ordinals of raw events in Ordering.Normalize, with the reading
--   of numbers as a parameter. An index outside the naturals is left out.
-- - Tiers: src/services/tierPromotion.ts.
-- - Indexer: src/services/indexer.ts over the tables of src/db/repositories/events.ts, players.ts and
--   indexerState.ts. Indexer.Effects and Indexer.Apply are `applyOne`, Indexer.Poll is `indexEvents`
--   and Indexer.Replay `replayUnprocessedEvent`. The decoder is an argument.
-- - Batches: `processEventBatches` of src/services/eventBatchProcessor.ts.
-- - Webhooks: src/db/repositories/webhookSubscriptions.ts, with the health of a subscription in
--   Webhooks.Health; Webhooks.Post and Webhooks.Deliver are src/services/webhooks.ts and
--   src/services/webhookHealth.ts. One delivery runs as a whole, and then the next.
-- - Scopes: src/utils/apiKeyScopes.ts.
-- - Reputation: src/services/ipReputation.ts, with the powers of its decay as an argument.
--
-- How they interact: the lockout calls `increment` of the store, an approval calls the table and the
-- execution, `withConcurrencyLimit` uses the semaphore, a sweep calls the table of dead letters, the
-- middleware the table of keys. The indexer sorts by Ordering.Normalize, runs through the groups of
-- Ordering and takes the tier of Tiers, a batch inserts into the table of the indexer, and a delivery
-- runs under a breaker of Breaker.Plain and writes the table of dead letters. The parts share no other
-- state.
--
-- Numbers are natural numbers without a bound, as counters and times in milliseconds are far below
-- 2^53; the permits of the semaphore are integers. Three loops run on fuel. The loop of the batches
-- has a round for each ledger and one, which is enough where the server does not limit its rate; with
-- limits the code has no bound. The batches of the audit
-- verifier get one unit more than the log has rows, which is enough as each batch takes a row. The
-- retry loop of the breaker runs on the attempts that are left, and its last case is the source's own
-- error after the loop.
--
-- Not modelled: the HTTP layer, GraphQL, database drivers, the Stellar client, cryptography, metrics
-- and logs, which are input and output or calls of libraries; and, for now, the decoding of contract
-- events, the jobs that start a replay, the issuing of API keys and block lists.
pub mod Prelude
pub mod Breaker
pub mod Semaphore
pub mod RateLimit
pub mod MultiSig
pub mod AuditChain
pub mod Idempotency
pub mod DeadLetters
pub mod Broadcast
pub mod Cache
pub mod Ordering
pub mod Tiers
pub mod Indexer
pub mod Batches
pub mod Webhooks
pub mod Scopes
pub mod Reputation
