-- ===== src/Orchestrator.antt =====
-- deepticket/chat_orchestrator.py: the streams of chats and tickets, from the engine to the stores.
pub mod History
pub mod Engine
pub mod Records
pub mod Streams
