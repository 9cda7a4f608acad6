-- ===== src/Provision.antt =====
-- src/provision: from a queued request to a runner.
pub mod Labels
pub mod Flavor
pub mod Reasons
pub mod Handler
