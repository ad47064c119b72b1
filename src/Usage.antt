-- ===== src/Usage.antt =====
-- The use of tokens: the records of runs, the sums of conversations, and how a run's use is found.
pub mod Tokens
pub mod Conversations
pub mod Recording
