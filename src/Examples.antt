-- ===== src/Examples.antt =====
-- Runs of the theorems on concrete data, one module for each part.
mod PaymentRuns
mod BreakerRuns
mod EscrowRuns
mod AdminRuns
mod AlertRuns
mod GroupRuns
mod MoneyRuns
mod WebhookRuns
mod CacheRuns
mod StellarRuns
mod MonitorRuns
mod RegistryRuns
mod ServiceRuns
mod SecurityRuns
mod AccountRuns
