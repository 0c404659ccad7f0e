-- ===== src/Domain.antt =====
-- The entities of src/domain: enumerations, payments and their life cycle, stored operations,
-- webhook records, the provider interface, merchants, credentials and routing rules.
pub mod Enums
pub mod Payment
pub mod Records
pub mod Provider
pub mod Transitions
