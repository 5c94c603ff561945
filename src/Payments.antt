-- ===== src/Payments.antt =====
-- Payment requests: src/payments.
pub mod StateMachine
pub mod Csv
pub mod TransactionLimits
pub mod Idempotency
