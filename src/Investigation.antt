-- ===== src/Investigation.antt =====
-- deepticket/investigation/
pub mod Status
pub mod Models
pub mod RunDocs
pub mod Events
pub mod Store
pub mod Evolution
pub mod Approvals
pub mod Policy
pub mod Registry
pub mod Gate
pub mod Governance
pub mod RunLifecycle
