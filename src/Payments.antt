-- ===== src/Payments.antt =====
-- src/services/payment.service.ts, `PaymentService`: the initial flow with failover between
-- providers, the stored operations (capture, refund, void), the status lookup and the webhooks.
-- The logger and the metrics counter are not modelled.
pub mod Input
pub mod Support
pub mod Initial
pub mod Stored
pub mod Lookup
pub mod Webhook
pub mod Keyed
pub mod Reachable
