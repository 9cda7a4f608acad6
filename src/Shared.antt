-- ===== src/Shared.antt =====
-- src/shared: what the Lambda functions share.
pub mod Types
pub mod FlavorCatalog
pub mod RunStore
pub mod Readiness
pub mod Allowlist
pub mod Redact
pub mod Quota
pub mod Microvm
pub mod FlavorStore
