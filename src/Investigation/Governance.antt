-- ===== src/Investigation/Governance.antt =====
-- deepticket/investigation/governance, around the gate: the context of a conversation, the pause for an
-- approval, and the hook that is called before each tool.
pub mod Sessions
pub mod Pause
pub mod Hook
