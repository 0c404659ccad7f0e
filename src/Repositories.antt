-- ===== src/Repositories.antt =====
-- src/infrastructure/repositories/in-memory.repositories.ts: each repository is a JavaScript `Map`,
-- and each method a function on it.
pub mod Payments
pub mod Logs
pub mod Configs
pub mod Operations
pub mod WebhookEvents
pub mod Merchants
