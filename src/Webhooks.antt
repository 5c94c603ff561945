-- ===== src/Webhooks.antt =====
-- Webhook delivery to merchants: src/webhooks.
pub mod Records
pub mod Delivery
pub mod Destinations
pub mod Registry
