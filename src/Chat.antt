-- ===== src/Chat.antt =====
-- deepticket/layers/storage/chat_history.py: the conversations of a user in a project.
pub mod Threads
pub mod Titles
pub mod Messages
pub mod Reading
pub mod Writing
pub mod Frames
