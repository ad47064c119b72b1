-- ===== src/Auth.antt =====
-- deepticket/auth: users and their tokens.
pub mod Passwords
pub mod Users
