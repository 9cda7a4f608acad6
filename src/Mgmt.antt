-- ===== src/Mgmt.antt =====
-- src/mgmt: the management API.
pub mod Paging
pub mod RunRollup
pub mod Router
