-- ===== src/Merchants.antt =====
-- src/merchants: the accounts of merchants and their API keys.
pub mod Records
pub mod Service
pub mod KeyReminders
pub mod Calls
pub mod Pending
