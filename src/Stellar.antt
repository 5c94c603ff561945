-- ===== src/Stellar.antt =====
-- The Stellar and Soroban clients: src/stellar.
pub mod RpcResilience
pub mod TxQueue
pub mod Events
pub mod EventIndexer
pub mod EscrowMonitor
pub mod Payments
pub mod Monitor
