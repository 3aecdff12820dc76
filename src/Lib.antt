-- ===== src/Lib.antt =====
-- Vimla, an assistant whose users pay for what the models cost: the accounting of usage, payments
-- and what they grant, fees, tariffs and entitlements, the order and the readiness of the
-- invocations of an execution plan, the encryption of direct messages, the blocks between users,
-- the output that a call to a model can pay, and the lease with which a client works on the state
-- of a ratchet.
--
-- A user has buckets of usage, granted by a subscription (monthly) or by a top-up, with an amount
-- in microRUB of which a part is spent and a part reserved. Before a call to a model the engine
-- reserves the estimated cost over the buckets, and after it settles the actual cost or releases
-- the reservation. Each of these is one transaction over the tables of the database, in
-- packages/billing/src/billing-engine.ts; the choice of the buckets is in
-- packages/billing/src/allocation.ts, and the arithmetic in packages/billing/src/money.ts.
--
-- Which file models what:
--   Common              tests, lists, signed integers (bigint), the stable sort of the language;
--   Billing.Result      packages/billing/src/errors.ts, and calls that return or throw;
--   Billing.Money       packages/billing/src/money.ts, but for the JSON forms;
--   Billing.Tables      rows found and changed by their id;
--   Billing.Bucket      `LockedBucket`, `compareBucketPriority`;
--   Billing.Allocation  `planReservationAllocations`, its loop as `allocate`;
--   Billing.Database    the usage tables of packages/database/prisma/schema.prisma, the queries,
--                       `lockUserBuckets`, `appendLedger`;
--   Billing.Engine      what the operations share: `getReservation`, `lockReservationForUser`, the
--                       writes; its children Reserve, Release, Charge and Settle hold
--                       `reserveUsage`, `releaseUsage`, the step of `settleUsage` for an excess,
--                       and `settleUsage`.
--                       Accounting states what it means that the tables agree (`IsConsistent`),
--                       Closing and Unwinding what the end of a reservation does to it;
--   Billing.Retry       `withRetry`;
--   Billing.Payments    packages/billing/src/payment-states.ts;
--   Billing.PaymentTables  the tables of payments, their events, subscriptions and economics, of
--                       packages/database/prisma/schema.prisma;
--   Billing.PaymentEconomics  packages/billing/src/payment-economics.ts;
--   Billing.Granting, Refunding, PaymentEvents  of packages/billing/src/billing-engine.ts
--                       `grantFromSucceededPayment`, `applyRefundAccounting`, and
--                       `processPaymentEvent` with `lockPaymentId` and `moneyEventFromInput`;
--   Billing.PaymentService  packages/billing/src/payment-events.ts, and of payment-service.ts what
--                       notifications, refunds and reconciliations do; the checkouts of that file write
--                       payments themselves and are not modelled;
--   Billing.Fees        packages/billing/src/fee-estimate.ts;
--   Billing.Tariff      packages/billing/src/tariff-simulator.ts;
--   Billing.Entitlements  packages/billing/src/entitlements.ts;
--   Orchestration.Readiness  packages/orchestration/src/readiness.ts, states.ts, dependencies.ts;
--   Orchestration.Plan  the fields of packages/orchestration/src/types.ts that a validation reads;
--   Orchestration.PlanChecks, Evaluators, Ordering, Graph  packages/orchestration/src/graph.ts:
--                       the checks of the dependencies and of the evaluators, the topological
--                       order, and `validateExecutionPlanGraph`;
--   E2ee.Bytes, Crypto  packages/e2ee/src/bytes.ts and kdf.ts, and the cryptography as a record of
--                       functions with the properties that the code relies on;
--   E2ee.Keys           packages/e2ee/src/keys.ts and x3dh.ts;
--   E2ee.Ratchet        packages/e2ee/src/ratchet.ts;
--   E2ee.Envelope       packages/e2ee/src/envelope.ts;
--   Ai.Cost, ExecutionBudget  packages/ai/src/cost.ts and execution-budget.ts;
--   Trust.Policy, Service  packages/trust/src/policy.ts, and of service.ts how users block each
--                       other;
--   ClientCore.RatchetLease  the lease of
--                       packages/client-core/src/direct-chat-ratchet-coordination.ts;
--   Tests               concrete runs, and the results at concrete inputs.
--
-- The parts that stand for themselves: an execution plan's invocations depend on each other: a
-- plan is validated and ordered before it runs, and readiness decides from the states of the
-- sources whether a pending one runs, waits or is skipped; a payment follows the events that its
-- provider reports, and grants a bucket, or takes back what is left of it; a tariff is simulated
-- for each method of payment with the estimated fees; a plan's entitlements are stored in
-- columns; several tabs of a client take turns at a ratchet by a lease that expires, with a fence
-- that grows at each change. A direct message is encrypted by a double ratchet between two
-- devices, whose first key comes from the prekeys that a device has published. The code throws
-- away a ratchet's state when a message cannot be decrypted, so only the states of successful
-- calls are followed.
--
-- An operation is a function from the tables to a result and new tables, or an error. The loops
-- run over lists, or over the attempts that are left; the loop that orders a plan's invocations
-- has fuel, a round for each of them, and the search for an execution budget one for each number
-- of tokens, both of which are proved to be enough. A transaction that throws leaves the tables
-- as they were, and the rows that one has locked are changed by no other: the database promises
-- both, and so one operation is one step. A table is a list of rows, a lock hands out copies of
-- rows, and the code's changes of its copies are written out along with those of the rows. Ids
-- and times are numbers; the times that the code reads from its clock are arguments. An amount is
-- an unbounded integer, like a bigint; the limits of the database's columns are not modelled. Of
-- the ledger's metadata only the amounts are kept. The conversion of fees to a JavaScript number
-- in `marginBpsFloor` is taken to be exact. The cryptography, the provider of payments, the
-- identities of its events, base 64 and the texts of JSON are parameters; keys are compared by
-- their bytes, so a map from a key and a number is a list of entries.
--
-- Not modelled: the logging, the checkout that creates a payment, the providers of payments and
-- models, the user interfaces and the other packages.
pub mod Common
pub mod Billing
pub mod Orchestration
pub mod ClientCore
pub mod E2ee
pub mod Trust
pub mod Ai
mod Tests
