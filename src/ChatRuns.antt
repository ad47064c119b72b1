-- ===== src/ChatRuns.antt =====
-- deepticket/chat_runs.py: the background task of each chat, one at a time.
pub mod State
pub mod Execution
pub mod Holds
pub mod Settling
pub mod Manager
