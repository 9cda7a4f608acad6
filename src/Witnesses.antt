-- ===== src/Witnesses.antt =====
-- The theorems at concrete inputs, and tests of the definitions that they are about.
pub mod Ingest
pub mod RunStore
pub mod Provision
pub mod Reaper
pub mod Hook
pub mod Handler
pub mod Delivery
pub mod Stores
pub mod Shared
pub mod Rollup
pub mod Router
