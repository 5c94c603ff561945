-- ===== src/Lib.antt =====
-- A model of the backend of the DupDap payment platform (TypeScript, NestJS), with theorems about the
-- parts that decide what happens to payments, deliveries and calls.
--
-- The parts, and the files that model them:
--   * Payments.StateMachine: src/payments/payment-state-machine.ts, the life cycle of a payment.
--   * Payments.Csv: src/payments/payment-import.csv.ts, the parser behind the bulk import (`parseCsv`).
--     `step` is the body of its loop.
--   * Common.CircuitBreaker: src/common/circuit-breaker.ts. `execute` is split where the call is awaited, so
--     that other calls can run there: the argument `others` of `execute`, the steps of `Step`.
--   * Common.RetryPolicy: src/common/retry/retry-policy.service.ts (`computeDelay`, `shouldRetry`,
--     `buildSchedule`).
--   * Stellar.RpcResilience: src/stellar/soroban-rpc-resilience.ts, which retries on two endpoints
--     (`withBackoff`, `call`) and uses the circuit breaker.
--   * Wallet.Escrow: src/blockchain-wallet/payment-escrow.service.ts. Its guarded operations (`deposit`,
--     `release`, `refund`) are `guarded`; `Steps` interleaves them with the other calls.
--   * Webhooks.Records, Webhooks.Delivery: src/webhooks/webhook-delivery.processor.ts (`process`) and
--     src/webhooks/webhook-failure-alert.service.ts (`notifyIfNeeded`).
--   * Cache.SlidingWindow: the rate limiter of src/cache/cache.service.ts that the service falls back on
--     (`checkSlidingWindowRateLimitMemory`).
--   * Alerts: src/alerts/admin-alert.service.ts (`raise`, `acknowledge`, `resolve`, `escalateOverdueAlerts`).
--   * Groups.Store: src/groups/groups.repository.ts and the tables of src/groups/entities.
--   * Groups.Service: src/groups/groups.service.ts. Groups.Service.Access follows the five
--     operations of owners and admins through any sequence of calls.
--   * Settlements: the decisions of src/settlements/settlements.service.ts (`approveSettlement`,
--     `rejectSettlement`).
--   * Recurring: src/recurring-payments/recurring-payments.service.ts. `charge_one` is a round of the loop of
--     `chargeDueSubscriptions`.
--   * Disputes: src/payments/disputes.service.ts.
--   * Stellar.Events, Stellar.EventIndexer: src/stellar/soroban-event-indexer.service.ts. `poll_pages` is the `while (true)` of
--     `pollEvents`, `handle_event` the body of the `for` in it.
--   * Stellar.EscrowMonitor: src/stellar/soroban-monitor.service.ts (`pollEscrowEvents`).
--   * Stellar.Payments, Stellar.Monitor: src/stellar/stellar-monitor.service.ts (`scanPendingPayments`, `confirmPayment`,
--     `expireOldPayments`). `poll_escrow` is the call of `pollEscrowEvents` in the scan: it runs Stellar.EscrowMonitor on the
--     same rows of payments.
--   * Payments.TransactionLimits: src/payments/transaction-limits.service.ts (`checkAndIncrement`).
--   * Payments.Idempotency: src/payments/idempotency.interceptor.ts (`intercept`).
--   * Webhooks.Destinations, Webhooks.Registry: src/webhooks/webhook-delivery.service.ts (`assertSafeUrl`,
--     `enqueueDelivery`) and src/webhooks/webhooks.service.ts (`dispatch`, `sendTest`, `replay`). Webhooks.Destinations.Networks names
--     the networks by their numbers, apart from the code's tests.
--   * RuntimeConfig: src/runtime-config/runtime-config.service.ts.
--   * Notifications: src/notifications/notification-prefs.service.ts.
--   * Settlements.Fees: src/settlements/fee-calculation.service.ts.
--   * Security.IpAllowlist, Security.Ipv6: src/security/ip-allowlist.guard.ts (`ipInCidr`, `isValidIpOrCidr`, `canActivate`;
--     `ipv6ToBytes`, `ipv6InCidr`).
--   * Security.Encryption, Security.Columns: src/security/encryption.service.ts and
--     src/security/encrypted-column.transformer.ts, through which the entities keep their secret columns.
--   * Wallet.Keys: src/blockchain-wallet/blockchain-wallet.service.ts. `load` and `save` are the table with the
--     transformer of the secret key; `rotate_one` is a round of the loop of `reencryptWallets`.
--   * Wallet.Slippage: src/blockchain-wallet/slippage.service.ts.
--   * Merchants.Records, Merchants.Service, Merchants.KeyReminders: src/merchants/merchants.service.ts and
--     src/cron/api-key-expiry.service.ts, which work on the same table. Merchants.Calls and Merchants.Pending follow it
--     through any sequence of their calls.
--   * Auth.RateLimit, Auth.Guard: src/auth/rate-limit.service.ts and src/auth/guards/jwt.guard.ts, which asks the
--     limiter of Cache.SlidingWindow and the networks of Security.IpAllowlist.
--   * Retry: src/retry/retry-queue.service.ts (`run`) and `resolvePaymentRetry` of src/retry/retry-config.service.ts.
--   * Cron: src/cron/cron-job.service.ts. `run` is split where it waits: `begin_run`, `end_run`, `end_late`.
--   * Stellar.TxQueue: src/stellar/stellar-tx-queue.service.ts (`submitFromTreasury`).
--   * Admin.Tables, Admin.Accounts, Admin.Deletion: the operations of src/admin/admin.service.ts that change accounts and records,
--     with the audit log. Admin.Calls follows them through any sequence of calls.
--   * Admin.Export: the CSV export of the audit log (`toCsv`, `csvField`), which Payments.Csv reads back.
--   * Admin.Totp: the second factor of src/admin/admin.service.ts (`base32Encode`, `base32Decode`, `totpCode`,
--     `verifyTotpToken`).
--   * Aml: src/aml/aml.service.ts (`checkAndFlag`, `escalateOverdue`, `review`).
--   * Base: the lists, maps and results that all of them share. Examples: runs on concrete data.
--
-- State is a record that an operation takes and returns; an exception is an `err`, with the state that it
-- leaves. Clock readings are arguments. Identifiers are numbers and are only compared; numbers are
-- natural numbers without an upper bound: the amounts of time and the counts here stay far below the
-- 2^53 up to which a JavaScript number is exact.
--
-- Fuel: the `for` of `withBackoff` has no bound in its head; `with_backoff` takes the fuel
-- `rpc_max_attempts`, the number of the attempt at which its body throws at the latest. `poll_pages` takes any fuel;
-- Stellar.EventIndexer.Paging says how much is enough. The inner loop of
-- `base32Encode` is `drain`, whose fuel is the number of bits, of which each round takes five. All other loops go over a
-- list, or over the number of attempts that are left.
--
-- Outside calls are parameters: the Soroban client and the RPC endpoints (how a call settles), HTTP
-- (`HttpOutcome`), the HMACs, base64, UTF-8 and the cipher of Node (`Node`, with the laws `IsNode`), Horizon (`Horizon`, with
-- the laws `IsHorizon`), Redis, and Math.random. The database is the set of tables that the code reads and
-- writes, without failures of its own; only Cron and Stellar.EscrowMonitor ask (`saves`) whether it accepts a row.
-- Not modelled: controllers, data transfer objects, the ORM,
-- migrations, metrics, logging, mail templates and the Stellar SDK, and the services of the
-- repository that no entry above names.
pub mod Admin
pub mod Alerts
pub mod Aml
pub mod Auth
pub mod Base
pub mod Cache
pub mod Common
pub mod Cron
pub mod Disputes
pub mod Examples
pub mod Groups
pub mod Merchants
pub mod Notifications
pub mod Payments
pub mod Recurring
pub mod Retry
pub mod RuntimeConfig
pub mod Security
pub mod Settlements
pub mod Stellar
pub mod Wallet
pub mod Webhooks
